-- ===== src/MessageBus/Drain.antt =====
-- What `msg_bus_process` of src/ipc/message_bus.c delivers.
use akira_os.Prelude.{
  ℕ, zero, suc, ◌+◌, ◌%◌, ◌^◌, ◌<◌, ◌≡◌, refl, ap, ap₂, subst, map, ◌&&◌, ◌||◌, ◌==◌, leb, str_eq,
  if◌then◌else◌, Bool, true, false, not, Option, none, some, List, [], ◌∷◌, ◌++◌, Ret, ok, if_case,
  ltb, length, get_elem?, arith, Bool-cases, inl, inr,
}
use akira_os.MessageBus.{
  Message, Subscriber, MsgQueue, Delivery, Bus, live, accepts, topic_matches, is_empty, deliver,
  enqueue, process_messages, msg_bus_process,
}

-- Whom a message is for: it is sent to all or to this subscriber, it has no topic or one that the
-- subscriber's filter names, where "*" names every topic, and its priority is high enough.
abbrev pub wants : Message → Subscriber → Bool
wants m s =
    (m.recipient_id == 0 || m.recipient_id == s.id)
    && (is_empty m.topic || (str_eq m.topic s.topic_filter || str_eq s.topic_filter (42 ∷ [])))
    && leb s.min_priority m.priority

-- The subscribers that pass, in their order.
abbrev pub select : (Subscriber → Bool) → List Subscriber → List Subscriber
select p [] = []
select p (s ∷ ss) = if p s then s ∷ select p ss else select p ss

-- One delivery of the message to each subscriber.
abbrev pub send_to : Message → List Subscriber → List Delivery
send_to m ss = map (λ s. record { to = s; message = m }) ss

accepts-wants : (s : Subscriber) (m : Message) → accepts s m ≡ wants m s
unfolding accepts topic_matches
accepts-wants s m = ground arith

pub deliver_lem :
    (subs : List Subscriber) (m : Message) → deliver subs m ≡ send_to m (select (wants m) subs)
unfolding deliver
deliver_lem [] m = refl
deliver_lem (s ∷ ss) m = elim (Bool-cases (wants m s)) [
  | inl y ↦ ground (arith, y, accepts-wants s m, deliver_lem ss m)
  | inr n ↦ ground (arith, n, accepts-wants s m, deliver_lem ss m)
]

-- The deliveries of several messages: each message to all whom it is for before the next one.
abbrev pub deliver_all : List Subscriber → List Message → List Delivery
deliver_all subs [] = []
deliver_all subs (m ∷ ms) = send_to m (select (wants m) subs) ++ deliver_all subs ms

abbrev pub Among : Delivery → List Delivery → Type 0
Among d ds = (i : ℕ) × (get_elem? ds i ≡ some d)

module _ (K : MsgQueue) where
  abbrev pub queued : Bus K → List Message
  queued b = K.contents b.msg_queue

  -- What the processing of all messages comes to.
  pub record Drained (b : Bus K) (r : Ret × (List Delivery × Bus K)) : Type 0 where
    pub answers : r.0 ≡ ok (length (queued b))
    pub delivers : r.1.0 ≡ deliver_all (live K b) (queued b)
    pub empties : queued r.1.1 ≡ []
    pub keeps : live K r.1.1 ≡ live K b

  process_messages-Drained :
      (fuel : ℕ) (ms : List Message) (b : Bus K)
      → queued b ≡ ms
      → length ms < fuel
      → (p : ℕ × (List Delivery × Bus K)) × (process_messages K fuel b ≡ some p)
        × (p.0 ≡ length ms)
        × (p.1.0 ≡ deliver_all (live K b) ms)
        × (queued p.1.1 ≡ [])
        × (live K p.1.1 ≡ live K b)
  unfolding process_messages
  process_messages-Drained zero ms b e lt = absurd (omega arith)
  process_messages-Drained (suc fuel) [] b e lt =
      ((0, ([], b)), rw (process_messages, K.get-empty b.msg_queue e) refl, refl, refl, e, refl)
  process_messages-Drained (suc fuel) (m ∷ ms) b e lt =
      let (q, got, rest, same) = K.get-first b.msg_queue m ms e in
      let b' : Bus K = record b {
        msg_queue = q;
        stats_received = (b.stats_received + 1) % 2 ^ 32;
      } in
      let (p, eq, n, ds, em, kept) = process_messages-Drained fuel ms b' rest (omega arith) in
      (
        (suc p.0, (deliver (live K b') m ++ p.1.0, p.1.1)),
        rw (process_messages, got, eq) refl,
        ap suc n,
        ap₂ ◌++◌ (deliver_lem (live K b) m) ds,
        em,
        kept,
      )

  -- On an initialized bus that no other thread uses meanwhile, with more fuel than there are queued messages, `msg_bus_process` comes to an end:
  -- it answers with their number, has delivered each of them, oldest first, to exactly the subscribers that it
  -- is for, by recipient, topic and priority, in the order of their table, and leaves the queue empty and
  -- the subscribers as they were.
  pub process-Drained :
      (fuel : ℕ) (b : Bus K)
      → b.initialized ≡ true
      → length (queued b) < fuel
      → (r : Ret × (List Delivery × Bus K)) × (msg_bus_process K fuel b ≡ some r) × Drained b r
  unfolding msg_bus_process
  process-Drained fuel b on lt =
      let (p, eq, n, ds, em, kept) = process_messages-Drained fuel (queued b) b refl lt in
      (
        (ok p.0, p.1),
        if_case (λ o. o ≡ some (ok p.0, p.1)) (not b.initialized)
            (λ off. absurd (ground (arith, on)))
            λ _. ap (λ o. elim o [ none ↦ none | some p ↦ some (ok p.0, p.1) ]) eq,
        record { answers = ap ok n; delivers = ds; empties = em; keeps = kept },
      )

  -- A publication that is accepted stands at the end of the queue.
  pub enqueue-queued :
      (b : Bus K) (m : Message) (n : ℕ)
      → (enqueue K b m).0 ≡ ok n
      → (queued (enqueue K b m).1 ≡ queued b ++ m ∷ [])
        × (live K (enqueue K b m).1 ≡ live K b)
        × ((enqueue K b m).1.initialized ≡ b.initialized)
  unfolding enqueue
  enqueue-queued b m n e = elim (Bool-cases (ltb (length (queued b)) (K.room b.msg_queue))) [
    | inl lt ↦
        let (q, put, there, same) = K.put-room b.msg_queue m (ground arith) in
        (rw (enqueue, put) there, rw (enqueue, put) refl, rw (enqueue, put) refl)
    | inr ge ↦ absurd (ground (arith, K.put-full b.msg_queue m (ground arith), e))
  ]

Among-left : {d : Delivery} (xs ys : List Delivery) → Among d xs → Among d (xs ++ ys)
Among-left [] ys (i, e) = absurd (ground arith)
Among-left (x ∷ xs) ys (zero, e) = (0, e)
Among-left (x ∷ xs) ys (suc i, e) = let (j, f) = Among-left xs ys (i, e) in (suc j, f)

Among-right : {d : Delivery} (xs ys : List Delivery) → Among d ys → Among d (xs ++ ys)
Among-right [] ys a = a
Among-right (x ∷ xs) ys a = let (j, f) = Among-right xs ys a in (suc j, f)

pub deliver-Among :
    (subs : List Subscriber) (m : Message) (i : ℕ) (s : Subscriber)
    → get_elem? subs i ≡ some s
    → accepts s m ≡ true
    → Among (record { to = s; message = m }) (deliver subs m)
unfolding deliver
deliver-Among [] m i s e a = absurd (ground arith)
deliver-Among (x ∷ subs) m zero s e a =
    if_case (Among (record { to = s; message = m })) (accepts x m) (λ _. (0, ground (arith, e)))
      λ no. absurd (
        ground
          (arith, ap (λ (o : Option Subscriber). elim o [ none ↦ false | some y ↦ accepts y m ]) e))
deliver-Among (x ∷ subs) m (suc i) s e a =
    let (j, f) = deliver-Among subs m i s e a in
    if_case (Among (record { to = s; message = m })) (accepts x m) (λ _. (suc j, f)) λ _. (j, f)

pub last-Among :
    (subs : List Subscriber) (ms : List Message) (m : Message) (d : Delivery)
    → Among d (deliver subs m)
    → Among d (deliver_all subs (ms ++ m ∷ []))
last-Among subs [] m d a =
    Among-left (send_to m (select (wants m) subs)) [] (subst (Among d) (deliver_lem subs m) a)
last-Among subs (x ∷ ms) m d a =
    Among-right (send_to x (select (wants x) subs)) (deliver_all subs (ms ++ m ∷ []))
      (last-Among subs ms m d a)
