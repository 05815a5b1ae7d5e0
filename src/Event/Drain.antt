-- ===== src/Event/Drain.antt =====
-- How `akira_event_process` of src/akira/kernel/event.c drains the queue, while other threads post.
use akira_os.Prelude.{
  ℕ, suc, ◌+◌, ◌-◌, ◌<◌, ◌≤◌, ◌≡◌, refl, sym, ap, ◌∙◌, true, not, Option, none, some, List, [], ◌∷◌,
  ◌++◌, arith, ℤ, map, take, length, length-append, length-take, ap₂, append_assoc, append-nil,
  ◌==◌, if_case,
}
use akira_os.Event.{
  Event, Subscription, EventSys, queue_size, deliver_event, dequeue, process_loop,
  akira_event_process,
}
use akira_os.Event.Ring.{ring_read}
use akira_os.Event.Invariant.{IsValid, contents, contents-dequeue, dequeue-IsValid}
use akira_os.Event.Delivery.{listeners, offer, deliver_event_lem}
use akira_os.Event.Posts.{post_all, admit, serve, posted, Posted, post_all-Posted, fewer}

no_more : (xs ys : List Event) → xs ++ ys ≡ [] → xs ≡ []
no_more [] ys e = refl
no_more (x ∷ xs) ys e = absurd (ground arith)

module _ {W : Type 0} (run_handler : ℕ → Event → ℕ → W → ℤ × W) where
  -- all these events, the first first, each to the handlers that it concerns
  pub offer_all : List Subscription → List Event → W → W
  offer_all subs [] w = w
  offer_all subs (e ∷ es) w = offer_all subs es (offer run_handler e (listeners e subs) w)

  -- What the processing comes to, where these batches are posted in between.
  pub record Drains (posts : List (List Event)) (s : EventSys) (processed : ℕ) (w : W)
      (r : Option (ℕ × EventSys × W)) : Type 0 where
    pub final : EventSys
    pub later : List Event
    pub served : serve posts (contents s) ≡ some (contents s ++ later)
    pub few : length later ≤ posted posts
    pub result :
        r
        ≡ some (
          processed + length (contents s ++ later),
          final,
          offer_all s.subscriptions (contents s ++ later) w,
        )
    pub drained : contents final ≡ []
    pub valid : IsValid final
    pub same_subscriptions : final.subscriptions ≡ s.subscriptions

  abbrev outcome : List Subscription → List Event → EventSys → ℕ → W → Option (ℕ × EventSys × W)
  outcome subs es final processed w = some (processed + length es, final, offer_all subs es w)

  outcome-step :
      (subs : List Subscription) (e : Event) (es : List Event) (final : EventSys) (processed : ℕ)
      (w : W)
      → outcome subs es final (processed + 1) (deliver_event run_handler subs e w)
        ≡ outcome subs (e ∷ es) final processed w
  unfolding offer_all
  outcome-step subs e es final processed w =
      ap₂ (λ n x. some (n, final, offer_all subs es x)) {x = processed + 1 + length es}
        {y = processed + suc (length es)} (omega arith) (deliver_event_lem run_handler e subs w)

  -- The loop is at its end.
  nothing_left :
      (es : List Event) (posts : List (List Event)) (s s1 : EventSys) (processed : ℕ) (w : W)
      → Posted es s s1
      → s1.queue_count ≡ 0
      → Drains (es ∷ posts) s processed w (some (processed, s1, w))
  unfolding offer_all
  nothing_left es posts s s1 processed w p z =
      let empty : contents s1 ≡ [] =
        ap (ring_read s1.queue s1.queue_head) {x = s1.queue_count} {y = 0} z in
      let admits : admit (contents s) es ≡ [] = sym p.now_holds ∙ empty in
      let same : [] ≡ contents s ++ [] =
        sym (append-nil (contents s) ∙ no_more (contents s) _ admits) in
      record {
        final = s1;
        later = [];
        served =
            ap
              (λ q. elim q [
                | [] ↦ some []
                | e ∷ q' ↦ elim (serve posts q') [ none ↦ none | some out ↦ some (e ∷ out) ]
              ])
              admits
            ∙ ap some same;
        few = omega arith;
        result =
            ap (λ n. some (n, s1, w)) {x = processed} {y = processed + 0} (omega arith)
            ∙ ap (λ xs. outcome s.subscriptions xs s1 processed w) same;
        drained = empty;
        valid = p.valid;
        same_subscriptions = p.same_subscriptions;
      }

  -- One event more.
  one_more :
      (es : List Event) (posts : List (List Event)) (s s1 : EventSys) (processed : ℕ) (w : W)
      (r : Option (ℕ × EventSys × W))
      → Posted es s s1
      → 0 < s1.queue_count
      → let (e, s2) = dequeue s1 in
        Drains posts s2 (processed + 1) (deliver_event run_handler s2.subscriptions e w) r
        → Drains (es ∷ posts) s processed w r
  unfolding dequeue
  one_more es posts s s1 processed w r p some_left ih =
      let (e, s2) = dequeue s1 in
      let first : contents s1 ≡ e ∷ contents s2 = contents-dequeue {s = s1} p.valid some_left in
      let taken = take (queue_size - length (contents s)) es in
      let key : e ∷ (contents s2 ++ ih.later) ≡ contents s ++ (taken ++ ih.later) =
        ap (λ q. q ++ ih.later) (sym first ∙ p.now_holds)
        ∙ append_assoc (contents s) taken ih.later in
      record {
        final = ih.final;
        later = taken ++ ih.later;
        served =
            ap
              (λ q. elim q [
                | [] ↦ some []
                | e ∷ q' ↦ elim (serve posts q') [ none ↦ none | some out ↦ some (e ∷ out) ]
              ])
              (sym p.now_holds ∙ first)
            ∙ ap (λ o. elim o [ none ↦ none | some out ↦ some (e ∷ out) ]) ih.served
            ∙ ap some key;
        few = omega (
          arith,
          ih.few,
          length-append taken ih.later,
          length-take (queue_size - length (contents s)) es,
        );
        result =
            ih.result
            ∙ outcome-step s1.subscriptions e (contents s2 ++ ih.later) ih.final processed w
            ∙ ap₂ (λ subs xs. outcome subs xs ih.final processed w) p.same_subscriptions key;
        drained = ih.drained;
        valid = ih.valid;
        same_subscriptions = ih.same_subscriptions ∙ p.same_subscriptions;
      }

  process_loop-Drains :
      (posts : List (List Event)) (processed : ℕ) (s : EventSys) (w : W)
      → s.queue_count + posted posts < length posts
      → IsValid s
      → s.initialized ≡ true
      → Drains posts s processed w (process_loop run_handler (map post_all posts) processed s w)
  unfolding process_loop dequeue
  process_loop-Drains [] processed s w enough v on = absurd (omega arith)
  process_loop-Drains (es ∷ posts) processed s w enough v on =
      let s1 = post_all es s in
      let p = post_all-Posted es s v on in
      if_case (Drains (es ∷ posts) s processed w) (s1.queue_count == 0)
        (λ z. nothing_left es posts s s1 processed w p (ground arith))
        λ more.
          let some_left : 0 < s1.queue_count = ground arith in
          one_more es posts s s1 processed w _ p some_left (
            process_loop-Drains posts (processed + 1) (dequeue s1).1
              (deliver_event run_handler s1.subscriptions (dequeue s1).0 w)
              (fewer es posts s s1 p some_left enough) (dequeue-IsValid {s = s1} some_left p.valid)
              p.still_on)

  -- On a valid state that is initialized, where other threads do nothing but post events in between, and
  -- there are more rounds than events queued or posted: `akira_event_process` comes to an end, has
  -- delivered exactly what leaves a queue of 32 places, oldest first, all events that were queued and after
  -- them those that were posted while there was room, each to the handlers that it concerns, says how many
  -- these were, and leaves the queue empty and the subscriptions as they were.
  pub process-Drains :
      (posts : List (List Event)) (s : EventSys) (w : W)
      → s.initialized ≡ true
      → s.queue_count + posted posts < length posts
      → IsValid s
      → Drains posts s 0 w (akira_event_process run_handler (map post_all posts) s w)
  unfolding akira_event_process
  process-Drains posts s w on enough v =
      if_case (Drains posts s 0 w) (not s.initialized) (λ off. absurd (ground arith))
        λ _. process_loop-Drains posts 0 s w enough v on
