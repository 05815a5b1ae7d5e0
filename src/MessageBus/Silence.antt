-- ===== src/MessageBus/Silence.antt =====
-- Who has unsubscribed from the bus of src/ipc/message_bus.c hears nothing any more.
use akira_os.Prelude.{
  ℕ, zero, suc, ◌+◌, ◌%◌, ◌^◌, ◌<◌, ◌≡◌, sym, subst, false, not, Option, none, some, List, [], ◌∷◌,
  ◌++◌, Ret, ok, if_case, option_case, ltb, leb, length, CString, arith, find_index, All,
  All-append, remove_at, Bool-cases, Option-cases, inl, inr,
}
use akira_os.MessageBus.{
  Message, Subscriber, MsgQueue, Delivery, Bus, live, has_id, deliver, enqueue, took_id,
  msg_bus_subscribe, msg_bus_unsubscribe, msg_bus_publish, msg_bus_send, process_messages,
  msg_bus_process, max_payload_size, max_subscribers, Priority,
}
use akira_os.MessageBus.Members.{
  Others, MembersValid, Rising, deliver-Others, subscribe-MembersValid, unsubscribe-MembersValid,
  unsubscribe-Others, appended, closed, Rising-bounds,
}

pub data BusCall : Type 0 where
  subscribe : Option CString → Option ℕ → ℕ → BusCall
  unsubscribe : ℕ → BusCall
  publish : Option CString → List ℕ → Priority → ℕ → BusCall
  send : ℕ → List ℕ → ℕ → BusCall
  process : ℕ → BusCall

abbrev pub NotTo : ℕ → Delivery → Type 0
NotTo n d = has_id n d.to ≡ false

Others-remove_at : (n i : ℕ) (ss : List Subscriber) → Others n ss → Others n (remove_at i ss)
Others-remove_at n i [] o = o
Others-remove_at n zero (s ∷ ss) o = o.1
Others-remove_at n (suc i) (s ∷ ss) o = (o.0, Others-remove_at n i ss o.1)

found_below :
    (low high n i : ℕ) (ss : List Subscriber)
    → find_index (has_id n) ss ≡ some i
    → Rising low high ss
    → n < high
found_below low high n i [] e r = absurd (ground (arith, e))
found_below low high n i (s ∷ ss) e r = elim (Bool-cases (has_id n s)) [
  | inl here ↦ ground (arith, Rising-bounds (s.id + 1) high ss r.1)
  | inr other ↦ elim (Option-cases (find_index (has_id n) ss)) [
    | inl missing ↦ absurd (ground (arith, missing, other, e))
    | inr (j, found) ↦ found_below (s.id + 1) high n j ss found r.1
  ]
]

module _ (K : MsgQueue) where
  abbrev delivered : Bus K → Option (Ret × (List Delivery × Bus K)) → List Delivery × Bus K
  delivered b none = ([], b)
  delivered b (some r) = r.1

  abbrev pub call_one : Bus K → BusCall → List Delivery × Bus K
  call_one b (subscribe topic handler user_data) =
      ([], (msg_bus_subscribe K b topic handler user_data).1)
  call_one b (unsubscribe n) = ([], (msg_bus_unsubscribe K b n).1)
  call_one b (publish topic payload priority now) =
      ([], (msg_bus_publish K b topic payload priority now).1)
  call_one b (send recipient payload now) = ([], (msg_bus_send K b recipient payload now).1)
  call_one b (process fuel) = delivered b (msg_bus_process K fuel b)

  -- The deliveries of a sequence of calls.
  abbrev pub call_bus : Bus K → List BusCall → List Delivery
  call_bus b [] = []
  call_bus b (c ∷ cs) = (call_one b c).0 ++ call_bus (call_one b c).1 cs

  -- The counter of ids does not wrap.
  abbrev pub NoWrap : Bus K → List BusCall → Type 0
  NoWrap b [] = Unit
  NoWrap b (c ∷ cs) = (b.next_subscriber_id + 1 < 2 ^ 32) × NoWrap (call_one b c).1 cs

  -- The id was given, and no subscriber has it.
  record Gone (n : ℕ) (b : Bus K) : Type 0 where
    valid : MembersValid b
    others : Others n (live K b)
    given : n < b.next_subscriber_id

  module _ (n : ℕ) where
    enqueue-Gone : (b : Bus K) (m : Message) → Gone n b → Gone n (enqueue K b m).1
    unfolding enqueue
    enqueue-Gone b m g =
        option_case (λ (r : Ret × Bus K). Gone n r.1) (K.k_msgq_put b.msg_queue m)
          (λ _. record {
            valid = record { room = g.valid.room; count = g.valid.count; ids = g.valid.ids };
            others = g.others;
            given = g.given;
          })
          λ q _. record {
            valid = record { room = g.valid.room; count = g.valid.count; ids = g.valid.ids };
            others = g.others;
            given = g.given;
          }

    publish-Gone :
        (b : Bus K) (topic : Option CString) (payload : List ℕ) (priority now : ℕ)
        → Gone n b
        → Gone n (msg_bus_publish K b topic payload priority now).1
    unfolding msg_bus_publish
    publish-Gone b none payload priority now g =
        if_case (λ (r : Ret × Bus K). Gone n r.1) (not b.initialized) (λ _. g) λ _. g
    publish-Gone b (some topic) payload priority now g =
        let P : Ret × Bus K → Type 0 = λ r. Gone n r.1 in
        if_case P (not b.initialized) (λ _. g)
          λ _.
            if_case P (ltb max_payload_size (length payload)) (λ _. g)
              λ _. enqueue-Gone (took_id K b) _ (record {
                valid = record { room = g.valid.room; count = g.valid.count; ids = g.valid.ids };
                others = g.others;
                given = g.given;
              })

    send-Gone :
        (b : Bus K) (recipient : ℕ) (payload : List ℕ) (now : ℕ)
        → Gone n b
        → Gone n (msg_bus_send K b recipient payload now).1
    unfolding msg_bus_send
    send-Gone b recipient payload now g =
        let P : Ret × Bus K → Type 0 = λ r. Gone n r.1 in
        if_case P (not b.initialized) (λ _. g)
          λ _.
            if_case P (ltb max_payload_size (length payload)) (λ _. g)
              λ _. enqueue-Gone (took_id K b) _ (record {
                valid = record { room = g.valid.room; count = g.valid.count; ids = g.valid.ids };
                others = g.others;
                given = g.given;
              })

    abbrev Answered : Option (ℕ × (List Delivery × Bus K)) → Type 0
    Answered none = Unit
    Answered (some p) = All (NotTo n) p.1.0 × Gone n p.1.1

    messages-Answered : (fuel : ℕ) (b : Bus K) → Gone n b → Answered (process_messages K fuel b)
    unfolding process_messages
    messages-Answered zero b g = tt
    messages-Answered (suc fuel) b g =
        option_case Answered (K.k_msgq_get b.msg_queue) (λ _. (tt, g))
          λ r _.
            let b' : Bus K = record b {
              msg_queue = r.1;
              stats_received = (b.stats_received + 1) % 2 ^ 32;
            } in
            let g' : Gone n b' = record {
              valid = record { room = g.valid.room; count = g.valid.count; ids = g.valid.ids };
              others = g.others;
              given = g.given;
            } in
            let ih = messages-Answered fuel b' g' in
            option_case Answered (process_messages K fuel b') (λ _. tt)
              λ p e.
                let a = subst Answered e ih in
                (
                  All-append (NotTo n) (deliver (live K b') r.0) p.1.0
                      (deliver-Others n (live K b') r.0 g.others) a.0,
                  a.1,
                )

    process-Answered :
        (fuel : ℕ) (b : Bus K)
        → Gone n b
        → All (NotTo n) (delivered b (msg_bus_process K fuel b)).0
          × Gone n (delivered b (msg_bus_process K fuel b)).1
    unfolding msg_bus_process
    process-Answered fuel b g =
        let P : Option (Ret × (List Delivery × Bus K)) → Type 0 =
          λ o. All (NotTo n) (delivered b o).0 × Gone n (delivered b o).1 in
        if_case P (not b.initialized) (λ _. (tt, g))
          λ _.
            option_case P (process_messages K fuel b) (λ _. (tt, g))
              λ p e. subst Answered e (messages-Answered fuel b g)

    subscribe-Gone :
        (b : Bus K) (topic : Option CString) (handler : Option ℕ) (user_data : ℕ)
        → b.next_subscriber_id + 1 < 2 ^ 32
        → Gone n b
        → Gone n (msg_bus_subscribe K b topic handler user_data).1
    unfolding msg_bus_subscribe
    subscribe-Gone b none handler user_data w g =
        if_case (λ (r : Ret × Bus K). Gone n r.1) (not b.initialized) (λ _. g) λ _. g
    subscribe-Gone b (some topic) none user_data w g =
        if_case (λ (r : Ret × Bus K). Gone n r.1) (not b.initialized) (λ _. g) λ _. g
    subscribe-Gone b (some topic) (some handler) user_data w g = record {
      valid = subscribe-MembersValid K b (some topic) (some handler) user_data w g.valid;
      others =
          if_case (λ (r : Ret × Bus K). Others n (live K r.1)) (not b.initialized) (λ _. g.others)
            λ _.
              if_case (λ (r : Ret × Bus K). Others n (live K r.1))
                (leb max_subscribers b.subscriber_count) (λ _. g.others)
                λ has_room. subst (Others n) (sym (appended K b _ (ground (arith, g.valid.room)))) (
                  All-append (λ s. has_id n s ≡ false) (live K b) (_ ∷ []) g.others
                    (ground (arith, g.given), tt));
      given =
          if_case (λ (r : Ret × Bus K). n < r.1.next_subscriber_id) (not b.initialized)
            (λ _. g.given)
            λ _.
              if_case (λ (r : Ret × Bus K). n < r.1.next_subscriber_id)
                (leb max_subscribers b.subscriber_count) (λ _. g.given)
                λ _. omega (arith, w, g.given);
    }

    unsubscribe-Gone : (b : Bus K) (m : ℕ) → Gone n b → Gone n (msg_bus_unsubscribe K b m).1
    unfolding msg_bus_unsubscribe
    unsubscribe-Gone b m g = record {
      valid = unsubscribe-MembersValid K b m g.valid;
      others =
          if_case (λ (r : Ret × Bus K). Others n (live K r.1)) (not b.initialized) (λ _. g.others)
            λ _.
              option_case (λ (r : Ret × Bus K). Others n (live K r.1))
                (find_index (has_id m) (live K b)) (λ _. g.others)
                λ i e.
                  subst (Others n) (sym (closed K b m i g.valid e))
                    (Others-remove_at n i (live K b) g.others);
      given =
          if_case (λ (r : Ret × Bus K). n < r.1.next_subscriber_id) (not b.initialized)
            (λ _. g.given)
            λ _.
              option_case (λ (r : Ret × Bus K). n < r.1.next_subscriber_id)
                (find_index (has_id m) (live K b)) (λ _. g.given) λ i e. g.given;
    }

    call_one-Gone :
        (b : Bus K) (c : BusCall)
        → b.next_subscriber_id + 1 < 2 ^ 32
        → Gone n b
        → All (NotTo n) (call_one b c).0 × Gone n (call_one b c).1
    call_one-Gone b (subscribe topic handler user_data) w g =
        (tt, subscribe-Gone b topic handler user_data w g)
    call_one-Gone b (unsubscribe m) w g = (tt, unsubscribe-Gone b m g)
    call_one-Gone b (publish topic payload priority now) w g =
        (tt, publish-Gone b topic payload priority now g)
    call_one-Gone b (send recipient payload now) w g = (tt, send-Gone b recipient payload now g)
    call_one-Gone b (process fuel) w g = process-Answered fuel b g

    call_bus-Gone :
        (cs : List BusCall) (b : Bus K) → NoWrap b cs → Gone n b → All (NotTo n) (call_bus b cs)
    call_bus-Gone [] b w g = tt
    call_bus-Gone (c ∷ cs) b w g =
        let one = call_one-Gone b c w.0 g in
        All-append (NotTo n) (call_one b c).0 (call_bus (call_one b c).1 cs) one.0
          (call_bus-Gone cs (call_one b c).1 w.1 one.1)

    removed-Gone :
        (b : Bus K)
        → MembersValid b
        → (msg_bus_unsubscribe K b n).0 ≡ ok 0
        → Gone n (msg_bus_unsubscribe K b n).1
    unfolding msg_bus_unsubscribe
    removed-Gone b v e = record {
      valid = unsubscribe-MembersValid K b n v;
      others = unsubscribe-Others K b n v e;
      given =
          let P : Ret × Bus K → Type 0 = λ r. r.0 ≡ ok 0 → n < r.1.next_subscriber_id in
          if_case P (not b.initialized) (λ _ f. absurd (ground (arith, f)))
            (λ _.
              option_case P (find_index (has_id n) (live K b)) (λ _ f. absurd (ground (arith, f)))
                λ i found _. found_below 0 b.next_subscriber_id n i (live K b) found v.ids)
            e;
    }

    -- In a valid state, once `msg_bus_unsubscribe` of an id succeeds, no handler is called for that id any
    -- more, whatever calls of the bus follow, new subscriptions included, as long as the counter of ids
    -- does not wrap.
    pub unsubscribed_silent :
        (b : Bus K) (cs : List BusCall)
        → MembersValid b
        → (msg_bus_unsubscribe K b n).0 ≡ ok 0
        → NoWrap (msg_bus_unsubscribe K b n).1 cs
        → All (NotTo n) (call_bus (msg_bus_unsubscribe K b n).1 cs)
    unsubscribed_silent b cs v e w =
        call_bus-Gone cs (msg_bus_unsubscribe K b n).1 w (removed-Gone b v e)
