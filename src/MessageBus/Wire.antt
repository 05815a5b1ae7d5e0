-- ===== src/MessageBus/Wire.antt =====
-- From `msg_bus_publish` to the handler in src/ipc/message_bus.c.
use akira_os.Prelude.{
  ℕ, ◌+◌, ◌<◌, ◌≤◌, ◌≡◌, refl, sym, ap, subst, ◌∙◌, true, not, some, List, [], ◌∷◌, Ret, ok,
  if_case, ltb, length, length-append, get_elem?, CString, arith,
}
use akira_os.MessageBus.{
  Message, Subscriber, MsgQueue, Delivery, Bus, live, topic_matches, field_of, accepts, enqueue,
  new_message, took_id, msg_bus_publish, msg_bus_process, max_payload_size,
}
use akira_os.MessageBus.Drain.{
  queued, deliver_all, Among, process-Drained, enqueue-queued, deliver-Among, last-Among,
}

matching-accepts :
    (s : Subscriber) (m : Message)
    → m.recipient_id ≡ 0
    → topic_matches m.topic s.topic_filter ≡ true
    → s.min_priority ≤ m.priority
    → accepts s m ≡ true
unfolding accepts
matching-accepts s m z t p = ground (arith, z, t, p)

module _ (K : MsgQueue) (b : Bus K) (topic : CString) (payload : List ℕ) (priority now n : ℕ) where
  abbrev sent : Message
  sent = new_message K b 0 (field_of topic) payload priority now

  published :
      (msg_bus_publish K b (some topic) payload priority now).0 ≡ ok n
      → (b.initialized ≡ true)
        × ((enqueue K (took_id K b) sent).0 ≡ ok n)
        × ((msg_bus_publish K b (some topic) payload priority now).1
            ≡ (enqueue K (took_id K b) sent).1)
  unfolding msg_bus_publish
  published e =
      let r = enqueue K (took_id K b) sent in
      let P : Ret × Bus K → Type 0 =
        λ q. q.0 ≡ ok n → (b.initialized ≡ true) × (r.0 ≡ ok n) × (q.1 ≡ r.1) in
      if_case P (not b.initialized) (λ _ f. absurd (ground (arith, f)))
        (λ on.
          if_case P (ltb max_payload_size (length payload)) (λ _ f. absurd (ground (arith, f)))
            λ _ f. (ground (arith, on), f, refl))
        e

  -- A publication that is accepted is delivered, where no other thread uses the bus meanwhile: the next
  -- `msg_bus_process`, with enough fuel, comes to an end, and has called the handler of each subscriber whose
  -- filter matches the topic, and whose least priority is not above the message's, with that message.
  pub publish_arrives :
      (fuel i : ℕ) (s : Subscriber)
      → (msg_bus_publish K b (some topic) payload priority now).0 ≡ ok n
      → get_elem? (live K b) i ≡ some s
      → topic_matches (field_of topic) s.topic_filter ≡ true
      → s.min_priority ≤ priority
      → length (queued K b) + 1 < fuel
      → (r : Ret × (List Delivery × Bus K)) × (msg_bus_process K fuel
            (msg_bus_publish K b (some topic) payload priority now).1
          ≡ some r)
        × Among (record { to = s; message = sent }) r.1.0
  publish_arrives fuel i s e there t p lt =
      let (on, put, same) = published e in
      let b' = (enqueue K (took_id K b) sent).1 in
      let (behind, kept, still) = enqueue-queued K (took_id K b) sent n put in
      let (r, eq, d) =
        process-Drained K fuel b' (still ∙ on)
          (omega (arith, lt, ap length behind, length-append (queued K b) (sent ∷ []))) in
      let a =
        last-Among (live K b) (queued K b) sent (record { to = s; message = sent })
          (deliver-Among (live K b) sent i s there (matching-accepts s sent refl t p)) in
      (
        r,
        ap (msg_bus_process K fuel) same ∙ eq,
        subst (Among (record { to = s; message = sent }))
            (sym (
              d.delivers
              ∙ ap (λ l. deliver_all l (queued K b')) kept
              ∙ ap (deliver_all (live K b)) behind))
            a,
      )
