-- ===== src/Event/Posts.antt =====
-- What the posts of other threads make of the queue of src/akira/kernel/event.c, read as a list.
use akira_os.Prelude.{
  ℕ, zero, suc, ◌+◌, ◌-◌, ◌<◌, ◌≤◌, ◌≡◌, refl, sym, ap, ◌∙◌, inl, inr, true, Option, none, some,
  List, [], ◌∷◌, ◌++◌, arith, take, length, length-append, length-take, append_assoc, append-nil,
}
use akira_os.Event.{Event, EventSys, queue_size, dequeue, akira_event_post}
use akira_os.Event.Ring.{length-ring_read}
use akira_os.Event.Invariant.{IsValid, contents, contents-post, post-IsValid}

-- Other threads post events, one after another.
abbrev pub post_all : List Event → EventSys → EventSys
post_all [] s = s
post_all (e ∷ es) s = post_all es (akira_event_post s (some e)).1

-- What a queue of 32 places holds after these posts: those for which there is room are taken.
abbrev pub admit : List Event → List Event → List Event
admit q es = q ++ take (queue_size - length q) es

-- The events that leave such a queue, where before each of them some are posted, until it is empty; `none`
-- if it is not empty after the last of the given posts.
abbrev pub serve : List (List Event) → List Event → Option (List Event)
serve [] q = none
serve (es ∷ posts) q = elim (admit q es) [
  | [] ↦ some []
  | e ∷ q' ↦ elim (serve posts q') [ none ↦ none | some out ↦ some (e ∷ out) ]
]

-- How many events are posted.
abbrev pub posted : List (List Event) → ℕ
posted [] = 0
posted (es ∷ posts) = length es + posted posts

admit-more :
    (q : List Event) (e : Event) (es : List Event)
    → length q < queue_size
    → admit (q ++ e ∷ []) es ≡ admit q (e ∷ es)
admit-more q e es lt =
    append_assoc q (e ∷ []) (take (queue_size - length (q ++ e ∷ [])) es)
    ∙ ap (λ n. q ++ take n (e ∷ es)) {x = suc (queue_size - length (q ++ e ∷ []))}
        {y = queue_size - length q} (omega (arith, length-append q (e ∷ [])))

admit-full :
    (q : List Event) (e : Event) (es : List Event)
    → queue_size ≤ length q
    → admit q es ≡ admit q (e ∷ es)
admit-full q e es le =
    ap (λ n. q ++ take n es) {x = queue_size - length q} {y = 0} (omega arith)
    ∙ ap (λ n. q ++ take n (e ∷ es)) {x = 0} {y = queue_size - length q} (omega arith)

-- What posts leave as it was, and what they make of the queue.
pub record Posted (es : List Event) (s s' : EventSys) : Type 0 where
  pub now_holds : contents s' ≡ admit (contents s) es
  pub valid : IsValid s'
  pub same_subscriptions : s'.subscriptions ≡ s.subscriptions
  pub still_on : s'.initialized ≡ true

post-Kept :
    (s : EventSys) (e : Event)
    → ((akira_event_post s (some e)).1.subscriptions ≡ s.subscriptions)
      × ((akira_event_post s (some e)).1.initialized ≡ s.initialized)
unfolding akira_event_post
post-Kept s e = (ground arith, ground arith)

take_nothing : (n : ℕ) → take {A = Event} n [] ≡ []
take_nothing zero = refl
take_nothing (suc n) = refl

admit_nothing : (q : List Event) → admit q [] ≡ q
admit_nothing q = ap (λ x. q ++ x) (take_nothing (queue_size - length q)) ∙ append-nil q

pub post_all-Posted :
    (es : List Event) (s : EventSys)
    → IsValid s
    → s.initialized ≡ true
    → Posted es s (post_all es s)
post_all-Posted [] s v on = record {
  now_holds = sym (admit_nothing (contents s));
  valid = v;
  same_subscriptions = refl;
  still_on = on;
}
post_all-Posted (e ∷ es) s v on =
    let s' = (akira_event_post s (some e)).1 in
    let kept = post-Kept s e in
    let ih = post_all-Posted es s' (post-IsValid {s = s} (some e) v) (kept.1 ∙ on) in
    let count = length-ring_read s.queue s.queue_head s.queue_count in
    let holds : admit (contents s') es ≡ admit (contents s) (e ∷ es) =
      elim (contents-post {s = s} e v on) [
        | inl (room, r, more) ↦
            ap (λ q. admit q es) more ∙ admit-more (contents s) e es (omega (arith, count))
        | inr (full, r, same) ↦
            ap (λ x. admit (contents x) es) same
            ∙ admit-full (contents s) e es (omega (arith, count))
      ] in
    record {
      now_holds = ih.now_holds ∙ holds;
      valid = ih.valid;
      same_subscriptions = ih.same_subscriptions ∙ kept.0;
      still_on = ih.still_on;
    }

-- Each round takes one event more than it may find posted, counted over all rounds.
pub fewer :
    (es : List Event) (posts : List (List Event)) (s s1 : EventSys)
    → Posted es s s1
    → 0 < s1.queue_count
    → s.queue_count + posted (es ∷ posts) < length (es ∷ posts)
    → (dequeue s1).1.queue_count + posted posts < length posts
unfolding dequeue
fewer es posts s s1 p some_left enough = omega (
  arith,
  length-ring_read s1.queue s1.queue_head s1.queue_count,
  length-ring_read s.queue s.queue_head s.queue_count,
  ap length p.now_holds,
  length-append (contents s) (take (queue_size - length (contents s)) es),
  length-take (queue_size - length (contents s)) es,
)
