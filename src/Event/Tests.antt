-- ===== src/Event/Tests.antt =====
-- The event system on a queue of two events.
use akira_os.Prelude.{
  ℕ, ◌<◌, ◌≡◌, ◌⊎◌, refl, inl, inr, true, false, Option, none, some, List, [], ◌∷◌, ◌++◌, arith,
  Ret, ok, err, Errno, ℤ, pos, map, find_index,
}
use akira_os.Event.{
  Event, EventSys, no_event, boot, queue_size, akira_event_init, akira_event_post, deliver_event,
  akira_event_process, akira_event_subscribe_range, claim_slot, find_free_slot,
}
use akira_os.Event.Waiting.{Round, take_matching, scan, ring_shift, akira_event_wait}
use akira_os.Event.Invariant.{
  IsValid, contents, boot-IsValid, init-IsValid, post-IsValid, subscribe_range-IsValid,
  contents-post,
}
use akira_os.Event.Delivery.{deliver_event_lem, offer, listeners}
use akira_os.Event.Posts.{post_all}
use akira_os.Event.Drain.{Drains, process-Drains}
use akira_os.Event.Wait.{
  is_type, Takes, take_matching_cases, wait_then_post_loses, Answers, wait-Answers,
}

abbrev event_of : ℕ → Event
event_of type = record no_event { type = type }

abbrev started : EventSys
started = (akira_event_init boot).1

-- Handler 7 is for the types 2 to 4.
abbrev subscribed : EventSys
subscribed = (akira_event_subscribe_range started 2 4 (some 7) 1).1

abbrev one_event : EventSys
one_event = (akira_event_post subscribed (some (event_of 3))).1

abbrev two_events : EventSys
two_events = (akira_event_post one_event (some (event_of 5))).1

two_events-IsValid : IsValid two_events
two_events-IsValid = post-IsValid {s = one_event} (some (event_of 5)) (
    post-IsValid {s = subscribed} (some (event_of 3))
      (subscribe_range-IsValid {s = started} 2 4 (some 7) 1 (init-IsValid {s = boot} boot-IsValid)))

-- A handler notes its number, and lets the delivery go on.
abbrev note_handler : ℕ → Event → ℕ → List ℕ → ℤ × List ℕ
note_handler h event u w = (pos 0, h ∷ w)

contents-post_example :
    let (r, s') = akira_event_post two_events (some (event_of 9)) in
    ((two_events.queue_count < queue_size)
      × (r ≡ ok 0)
      × (contents s' ≡ contents two_events ++ event_of 9 ∷ []))
    ⊎ ((two_events.queue_count ≡ queue_size) × (r ≡ err Errno.failed) × (s' ≡ two_events))
unfolding akira_event_init akira_event_subscribe_range claim_slot find_free_slot akira_event_post
contents-post_example = contents-post {s = two_events} (event_of 9) two_events-IsValid refl

deliver_event_lem_example :
    deliver_event note_handler subscribed.subscriptions (event_of 3) []
    ≡ offer note_handler (event_of 3) (listeners (event_of 3) subscribed.subscriptions) []
deliver_event_lem_example = deliver_event_lem note_handler (event_of 3) subscribed.subscriptions []

-- Between the first event and the second one, another thread posts an event.
abbrev one_posted : List (List Event)
one_posted = [] ∷ (event_of 4 ∷ []) ∷ [] ∷ [] ∷ []

process-Drains_example :
    Drains note_handler one_posted two_events 0 []
      (akira_event_process note_handler (map post_all one_posted) two_events [])
unfolding akira_event_init akira_event_subscribe_range claim_slot find_free_slot akira_event_post
process-Drains_example =
    process-Drains note_handler one_posted two_events [] refl (omega arith) two_events-IsValid

take_matching_cases_example :
    ((find_index (is_type 5) (contents two_events) ≡ none)
      × (take_matching two_events 5 ≡ (two_events, none)))
    ⊎ ((s' : EventSys) × (event : Event) × (take_matching two_events 5 ≡ (s', some event))
        × Takes two_events 5 s' event)
take_matching_cases_example = take_matching_cases two_events 5 two_events-IsValid

abbrev one_taken : EventSys
one_taken = (take_matching two_events 3).0

wait_then_post_loses_example :
    (¬ IsValid one_taken)
    × ((akira_event_post one_taken (some (event_of 9))).0 ≡ ok 0)
    × (contents (akira_event_post one_taken (some (event_of 9))).1
        ≡ contents one_taken ++ event_of 5 ∷ [])
unfolding akira_event_init akira_event_subscribe_range claim_slot find_free_slot akira_event_post
    take_matching scan ring_shift
wait_then_post_loses_example =
    wait_then_post_loses two_events one_taken 3 (event_of 3) (event_of 5) (event_of 9)
      two_events-IsValid refl (omega arith) refl refl

abbrev two_rounds : List Round
two_rounds =
    record { granted = true; others = λ s. s; elapsed = 0 }
    ∷ record { granted = false; others = λ s. s; elapsed = 50 }
    ∷ []

wait-Answers_example :
    (r : Ret × Option Event × EventSys) × (akira_event_wait two_rounds two_events 4 100 ≡ some r)
    × Answers 4 r
wait-Answers_example = wait-Answers two_rounds two_events 4 100 (omega arith) (inr (inr (inl refl)))
