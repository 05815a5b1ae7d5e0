-- ===== src/Event/Wait.antt =====
-- `akira_event_wait`: which event a waiting thread takes, and what it leaves behind.
use akira_os.Prelude.{
  ℕ, zero, suc, ◌+◌, ◌-◌, ◌%◌, ◌<◌, ◌≤◌, ◌≡◌, ◌≢◌, refl, sym, ap, subst, ◌∙◌, ◌⊎◌, inl, inr, Bool,
  true, false, not, ◌&&◌, Option, none, some, List, [], ◌∷◌, ◌++◌, arith, Ret, ok, err, Errno, ◌==◌,
  leb, if_case, Option-cases, find_index, find_index-Found, lt_of_get_elem?, get_or, get_elem?,
  remove_at,
}
use mathlib.Core.Option
use akira_os.Event.{Event, EventSys, no_event, queue_size, akira_event_post}
use akira_os.Event.Waiting.{
  scan, ring_shift, take_matching, Round, wait_forever, wait_rounds, akira_event_wait,
}
use akira_os.Event.Ring.{
  ring_read, length-ring_read, ring_read-ring_shift, ring_shift_end, ring_push_late,
  get_elem?-ring_read,
}
use akira_os.Event.Invariant.{IsValid, contents}

abbrev pub is_type : ℕ → Event → Bool
is_type type e = e.type == type

-- The scan is the search for the first event of the type in the queue.
scan-find_index :
    (q : List Event) (h type k i : ℕ)
    → scan q h type k i
      ≡ Option.map (λ (j : ℕ). i + j) (find_index (is_type type) (ring_read q (h + i) k))
unfolding scan
scan-find_index q h type zero i = refl
scan-find_index q h type (suc k) i =
    let next : ring_read q (h + (i + 1)) k ≡ ring_read q (suc (h + i)) k =
      ap (λ b. ring_read q b k) (omega arith) in
    ground (arith, scan-find_index q h type k (i + 1), next)

-- What a round that finds an event has done: `event` was the first of its type in the queue, at
-- place `at`, and the queue has lost that event and no other.
pub record Takes (s : EventSys) (type : ℕ) (s' : EventSys) (event : Event) : Type 0 where
  pub at : ℕ
  pub first : find_index (is_type type) (contents s) ≡ some at
  pub there : get_elem? (contents s) at ≡ some event
  pub removed : contents s' ≡ remove_at at (contents s)
  pub count : s'.queue_count + 1 ≡ s.queue_count

scan-eq :
    (s : EventSys) (type : ℕ)
    → scan s.queue s.queue_head type s.queue_count 0 ≡ find_index (is_type type) (contents s)
scan-eq s type =
    let base : contents s ≡ ring_read s.queue (s.queue_head + 0) s.queue_count =
      ap (λ b. ring_read s.queue b s.queue_count) (omega arith) in
    ground (arith, scan-find_index s.queue s.queue_head type s.queue_count 0, base)

module _ {s : EventSys} (type at : ℕ) (v : IsValid s)
    (hit : find_index (is_type type) (contents s) ≡ some at) where
  at-lt : at < s.queue_count
  at-lt =
      let f = find_index-Found (is_type type) (contents s) at hit in
      omega (
        arith,
        lt_of_get_elem? (contents s) at f.there,
        length-ring_read s.queue s.queue_head s.queue_count,
      )

  found_event : Event
  found_event = get_or s.queue ((s.queue_head + at) % queue_size) no_event

  after_take : EventSys
  after_take = record s {
    queue = ring_shift (s.queue_head + at) (s.queue_count - 1 - at) s.queue;
    queue_count = s.queue_count - 1;
  }

  take_matching-hit : take_matching s type ≡ (after_take, some found_event)
  unfolding take_matching after_take found_event
  take_matching-hit = rw (scan-eq s type ∙ hit, take_matching)

  take_matching-Takes : Takes s type after_take found_event
  unfolding after_take found_event
  take_matching-Takes = record {
    at = at;
    first = hit;
    there = get_elem?-ring_read s.queue s.queue_head s.queue_count at at-lt;
    removed =
        ring_read-ring_shift s.queue s.queue_head at (s.queue_count - 1 - at) (s.queue_count - 1)
          (omega (arith, at-lt)) (omega (arith, at-lt, v.count_in)) v.room
        ∙ ap (λ n. remove_at at (ring_read s.queue s.queue_head n)) {x = suc (s.queue_count - 1)}
            (omega (arith, at-lt));
    count = omega (arith, at-lt);
  }

  after_take-not-IsValid : ¬ IsValid after_take
  unfolding after_take
  after_take-not-IsValid w = omega (arith, at-lt, w.tail_at)

  post_after_take :
      (last f : Event)
      → s.initialized ≡ true
      → s.queue_count < queue_size
      → get_elem? (contents s) (s.queue_count - 1) ≡ some last
      → ((akira_event_post after_take (some f)).0 ≡ ok 0)
        × (contents (akira_event_post after_take (some f)).1 ≡ contents after_take ++ last ∷ [])
  unfolding akira_event_post after_take
  post_after_take last f on room l =
      let k = s.queue_count - 1 - at in
      let q' = ring_shift (s.queue_head + at) k s.queue in
      ground (
        arith,
        at-lt,
        ring_push_late q' s.queue_head (s.queue_count - 1) s.queue_tail f,
        ring_shift_end (s.queue_head + at) k ((s.queue_head + (s.queue_count - 1)) % queue_size)
            s.queue,
        get_elem?-ring_read s.queue s.queue_head s.queue_count (s.queue_count - 1),
      )

take_matching-miss :
    (s : EventSys) (type : ℕ)
    → find_index (is_type type) (contents s) ≡ none
    → take_matching s type ≡ (s, none)
unfolding take_matching
take_matching-miss s type miss = rw (scan-eq s type ∙ miss, take_matching)

-- On a valid state, a round of `akira_event_wait` takes the first queued event of the type and keeps the other
-- events in order, or finds none and changes nothing.
pub take_matching_cases :
    (s : EventSys) (type : ℕ)
    → IsValid s
    → ((find_index (is_type type) (contents s) ≡ none) × (take_matching s type ≡ (s, none)))
      ⊎ ((s' : EventSys) × (event : Event) × (take_matching s type ≡ (s', some event))
          × Takes s type s' event)
take_matching_cases s type v = elim (Option-cases (find_index (is_type type) (contents s))) [
  | inl miss ↦ inl (miss, take_matching-miss s type miss)
  | inr (at, hit) ↦ inr (
    after_take type at v hit,
    found_event type at v hit,
    take_matching-hit type at v hit,
    take_matching-Takes type at v hit,
  )
]

-- A successful round leaves the state to which `IsValid` does not apply.
take_matching-hit_inv :
    {s s' : EventSys} (type : ℕ) {event : Event} (v : IsValid s)
    → take_matching s type ≡ (s', some event)
    → (at : ℕ) × (hit : find_index (is_type type) (contents s) ≡ some at) × (s'
        ≡ after_take type at v hit)
take_matching-hit_inv {s} type v e = elim (Option-cases (find_index (is_type type) (contents s))) [
  | inl miss ↦ absurd (cc (take_matching-miss s type miss))
  | inr (at, hit) ↦ (at, hit, cc (take_matching-hit type at v hit))
]

-- The defect: `akira_event_wait` does not move `queue_tail` back when it takes an event. The state
-- is then no longer a queue, and of an event that is posted next, with room in the queue and status
-- 0, nothing arrives: the queue holds once more what was its last event before the wait.
pub wait_then_post_loses :
    (s s' : EventSys) (type : ℕ) (event last posted : Event)
    → IsValid s
    → s.initialized ≡ true
    → s.queue_count < queue_size
    → get_elem? (contents s) (s.queue_count - 1) ≡ some last
    → take_matching s type ≡ (s', some event)
    → (¬ IsValid s')
      × ((akira_event_post s' (some posted)).0 ≡ ok 0)
      × (contents (akira_event_post s' (some posted)).1 ≡ contents s' ++ last ∷ [])
wait_then_post_loses s s' type event last posted v on room l e =
    let (at, hit, same) = take_matching-hit_inv {s = s} type v e in
    subst
      (λ (t : EventSys).
        (¬ IsValid t)
        × ((akira_event_post t (some posted)).0 ≡ ok 0)
        × (contents (akira_event_post t (some posted)).1 ≡ contents t ++ last ∷ []))
      (sym same)
      (
        after_take-not-IsValid type at v hit,
        (post_after_take type at v hit last posted on room l).0,
        (post_after_take type at v hit last posted on room l).1,
      )

-- Whatever the state, what the scan finds has the type.
scan-is_type :
    (q : List Event) (h type k i : ℕ) {j : ℕ}
    → scan q h type k i ≡ some j
    → is_type type (get_or q ((h + j) % queue_size) no_event) ≡ true
unfolding scan
scan-is_type q h type zero i e = ground arith
scan-is_type q h type (suc k) i {j} e =
    if_case
      (λ (o : Option ℕ).
        o ≡ some j → is_type type (get_or q ((h + j) % queue_size) no_event) ≡ true)
      (is_type type (get_or q ((h + i) % queue_size) no_event)) (λ t o. ground arith)
      (λ f o. scan-is_type q h type k (i + 1) o) e

take_matching-is_type :
    (s : EventSys) (type : ℕ) (event : Event)
    → (take_matching s type).1 ≡ some event
    → event.type ≡ type
unfolding take_matching
take_matching-is_type s type event e =
    elim (Option-cases (scan s.queue s.queue_head type s.queue_count 0)) [
      | inl n ↦ ground arith
      | inr (j, f) ↦ ground (arith, scan-is_type s.queue s.queue_head type s.queue_count 0 f)
    ]

-- The rounds go on until the semaphore times out or the time is over.
abbrev pub Expires : ℕ → List Round → Type 0
Expires timeout_ms [] = ⊥
Expires timeout_ms (r ∷ rs) = (r.granted ≡ false) ⊎ (timeout_ms ≤ r.elapsed) ⊎ Expires timeout_ms rs

-- The answer 0 with an event of the type, or -1 with none.
abbrev pub Answers : ℕ → Ret × Option Event × EventSys → Type 0
Answers type (ret, found, s) =
    ((event : Event) × (ret ≡ ok 0) × (found ≡ some event) × (event.type ≡ type))
    ⊎ ((ret ≡ err Errno.failed) × (found ≡ none))

Expires-tail :
    (r : Round) (rs : List Round) (timeout_ms : ℕ)
    → not r.granted ≡ false
    → not (timeout_ms == wait_forever) && leb timeout_ms r.elapsed ≡ false
    → timeout_ms ≢ wait_forever
    → Expires timeout_ms (r ∷ rs)
    → Expires timeout_ms rs
Expires-tail r rs timeout_ms g t ne (inl h) = absurd (ground arith)
Expires-tail r rs timeout_ms g t ne (inr (inl h)) = absurd (ground arith)
Expires-tail r rs timeout_ms g t ne (inr (inr h)) = h

wait_rounds-Answers :
    (rs : List Round) (s : EventSys) (type timeout_ms : ℕ)
    → timeout_ms ≢ wait_forever
    → Expires timeout_ms rs
    → (r : Ret × Option Event × EventSys) × (wait_rounds rs s type timeout_ms ≡ some r)
      × Answers type r
unfolding wait_rounds
wait_rounds-Answers [] s type timeout_ms ne x = absurd x
wait_rounds-Answers (r ∷ rs) s type timeout_ms ne x =
    if_case P (not r.granted) (λ e. (_, refl, inr (refl, refl)))
      λ g. elim (Option-cases (take_matching (r.others s) type).1) [
        | inl n ↦ rw n (
            if_case P (not (timeout_ms == wait_forever) && leb timeout_ms r.elapsed)
              (λ t. (_, refl, inr (refl, refl)))
              λ t.
                wait_rounds-Answers rs (take_matching (r.others s) type).0 type timeout_ms ne
                  (Expires-tail r rs timeout_ms g t ne x))
        | inr (event, f) ↦
            rw f (_, refl, inl (event, refl, refl, take_matching-is_type (r.others s) type event f))
      ]
  where
    P : Option (Ret × Option Event × EventSys) → Type 0
    P o = (x' : Ret × Option Event × EventSys) × (o ≡ some x') × Answers type x'

-- A wait with a timeout comes to an end: where the semaphore times out or the time is over in one of
-- the rounds, at the latest then it answers, with 0 and an event of the requested type, or with -1 and
-- no event.
pub wait-Answers :
    (rs : List Round) (s : EventSys) (type timeout_ms : ℕ)
    → timeout_ms ≢ wait_forever
    → Expires timeout_ms rs
    → (r : Ret × Option Event × EventSys) × (akira_event_wait rs s type timeout_ms ≡ some r)
      × Answers type r
unfolding akira_event_wait
wait-Answers rs s type timeout_ms ne x =
    if_case
      (λ (o : Option (Ret × Option Event × EventSys)).
        (r : Ret × Option Event × EventSys) × (o ≡ some r) × Answers type r)
      (not s.initialized) (λ e. (_, refl, inr (refl, refl)))
      λ e. wait_rounds-Answers rs s type timeout_ms ne x
