-- ===== src/Event/Invariant.antt =====
-- The representation invariant of `event_sys`, and the queue that it stands for.
use akira_os.Prelude.{
  ℕ, ◌+◌, ◌%◌, ◌<◌, ◌≤◌, ◌≡◌, refl, ◌∙◌, ◌⊎◌, inl, inr, Bool, true, false, not, ◌||◌, Option, none,
  some, List, [], ◌∷◌, ◌++◌, arith, Ret, ok, err, Errno, ℤ, pos, negsuc, length, get_or, count_if,
  length-set, length-replicate, count_if-set, count_if-set_or, find_index, find_index-Found,
  Option-cases, Bool-cases, leb, if_case,
}
use akira_os.Event.{
  Event, Subscription, EventSys, no_event, no_subscription, max_handlers, queue_size, boot,
  akira_event_init, find_free_slot, claim_slot, akira_event_subscribe_range,
  akira_event_unsubscribe, akira_event_post, dequeue, akira_event_clear_queue,
}
use akira_os.Event.Ring.{ring_read, ring_push, ring_pop}

abbrev pub uses : Subscription → Bool
uses sub = sub.in_use

abbrev pub is_free : Subscription → Bool
is_free sub = not sub.in_use

pub record IsValid (s : EventSys) : Type 0 where
  pub slots : length s.subscriptions ≡ max_handlers
  pub room : length s.queue ≡ queue_size
  pub head_in : s.queue_head < queue_size
  pub count_in : s.queue_count ≤ queue_size
  pub tail_at : s.queue_tail ≡ (s.queue_head + s.queue_count) % queue_size
  pub counted : s.subscription_count ≡ count_if uses s.subscriptions

-- The queued events, oldest first.
abbrev pub contents : EventSys → List Event
contents s = ring_read s.queue s.queue_head s.queue_count

pub boot-IsValid : IsValid boot
boot-IsValid = record {
  slots = length-replicate max_handlers no_subscription;
  room = length-replicate queue_size no_event;
  head_in = omega arith;
  count_in = omega arith;
  tail_at = refl;
  counted = refl;
}

pub init-IsValid : {s : EventSys} → IsValid s → IsValid (akira_event_init s).1
unfolding akira_event_init
init-IsValid {s} v =
    if_case (λ (r : Ret × EventSys). IsValid r.1) s.initialized (λ e. v)
      λ e. record {
        slots = length-replicate max_handlers no_subscription;
        room = v.room;
        head_in = omega arith;
        count_in = omega arith;
        tail_at = refl;
        counted = refl;
      }

abbrev fresh : ℕ → ℕ → ℕ → ℕ → Subscription
fresh lo hi h u = record {
  in_use = true;
  type_min = lo;
  type_max = hi;
  handler = some h;
  user_data = u;
}

claim_slot-IsValid : {s : EventSys} (lo hi h u : ℕ) → IsValid s → IsValid (claim_slot s lo hi h u).1
unfolding claim_slot find_free_slot
claim_slot-IsValid {s} lo hi h u v = elim (Option-cases (find_index is_free s.subscriptions)) [
  | inl e ↦ rw (e, claim_slot) v
  | inr (i, e) ↦
      let f = find_index-Found is_free s.subscriptions i e in
      rw (e, claim_slot)
        (record {
          slots = length-set s.subscriptions i _ ∙ v.slots;
          room = v.room;
          head_in = v.head_in;
          count_in = v.count_in;
          tail_at = v.tail_at;
          counted = ground (
            arith,
            f.passes,
            count_if-set uses s.subscriptions i f.entry (fresh lo hi h u) f.there,
          );
        })
]

pub subscribe_range-IsValid :
    {s : EventSys} (lo hi : ℕ) (h : Option ℕ) (u : ℕ)
    → IsValid s
    → IsValid (akira_event_subscribe_range s lo hi h u).1
unfolding akira_event_subscribe_range
subscribe_range-IsValid lo hi none u v = v
subscribe_range-IsValid {s} lo hi (some h) u v =
    if_case (λ (r : Ret × EventSys). IsValid r.1) (not s.initialized) (λ e. v)
      λ e. claim_slot-IsValid lo hi h u v

pub unsubscribe-IsValid :
    {s : EventSys} (z : ℤ) → IsValid s → IsValid (akira_event_unsubscribe s z).1
unfolding akira_event_unsubscribe
unsubscribe-IsValid (negsuc n) v = v
unsubscribe-IsValid {s} (pos i) v =
    let sub = get_or s.subscriptions i no_subscription in
    if_case (λ (r : Ret × EventSys). IsValid r.1) (not s.initialized) (λ e. v)
      λ on.
        if_case (λ (r : Ret × EventSys). IsValid r.1) (leb max_handlers i || not sub.in_use)
          (λ e. v)
          λ e. record {
            slots = length-set s.subscriptions i _ ∙ v.slots;
            room = v.room;
            head_in = v.head_in;
            count_in = v.count_in;
            tail_at = v.tail_at;
            counted = ground (
              arith,
              count_if-set_or uses s.subscriptions i no_subscription
                  (record sub { in_use = false }),
            );
          }

pub post-IsValid : {s : EventSys} (e : Option Event) → IsValid s → IsValid (akira_event_post s e).1
unfolding akira_event_post
post-IsValid none v = v
post-IsValid {s} (some e) v = ground (arith, length-set s.queue s.queue_tail e)

pub dequeue-IsValid : {s : EventSys} → 0 < s.queue_count → IsValid s → IsValid (dequeue s).1
unfolding dequeue
dequeue-IsValid h v = ground arith

pub clear_queue-IsValid : {s : EventSys} → IsValid s → IsValid (akira_event_clear_queue s)
unfolding akira_event_clear_queue
clear_queue-IsValid v = ground arith

-- On a valid state that is initialized, `akira_event_post` adds the event at the end of the queue and
-- answers 0 where the queue has room, and answers -1 and changes nothing where it is full.
pub contents-post :
    {s : EventSys} (e : Event)
    → IsValid s
    → s.initialized ≡ true
    → let (r, s') = akira_event_post s (some e) in
      ((s.queue_count < queue_size) × (r ≡ ok 0) × (contents s' ≡ contents s ++ e ∷ []))
      ⊎ ((s.queue_count ≡ queue_size) × (r ≡ err Errno.failed) × (s' ≡ s))
unfolding akira_event_post
contents-post {s} e v on = elim (Bool-cases (leb queue_size s.queue_count)) [
  | inl full ↦ inr (ground arith)
  | inr more ↦ inl (
    ground arith,
    ground arith,
    ground (arith, ring_push s.queue s.queue_head s.queue_count s.queue_tail e),
  )
]

-- On a valid state with a queued event, the dequeue hands out the oldest one and leaves the others in
-- order.
pub contents-dequeue :
    {s : EventSys}
    → IsValid s
    → 0 < s.queue_count
    → let (e, s') = dequeue s in contents s ≡ e ∷ contents s'
unfolding dequeue
contents-dequeue {s} v h = ring_pop s.queue s.queue_head s.queue_count v.head_in h
