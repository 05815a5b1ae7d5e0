-- ===== src/MessageBus/Tests.antt =====
-- The bus over a queue that is a list, with two subscribers.
use akira_os.Prelude.{
  ℕ, ◌<◌, ◌≤◌, ◌≡◌, refl, Option, none, some, List, [], ◌∷◌, ◌++◌, Ret, if◌then◌else◌, if_case, ltb,
  length, All, CString, arith, str_eq,
}
use akira_os.MessageBus.{
  Message, Subscriber, MsgQueue, Delivery, Bus, boot, topic_matches, enqueue, new_message,
  msg_bus_init, msg_bus_subscribe, msg_bus_unsubscribe, msg_bus_publish, msg_bus_process,
}
use akira_os.MessageBus.Drain.{Drained, Among, process-Drained}
use akira_os.MessageBus.Wire.{publish_arrives}
use akira_os.MessageBus.Members.{MembersValid}
use akira_os.MessageBus.Silence.{BusCall, NotTo, call_bus, unsubscribed_silent}

abbrev list_put : ℕ × List Message → Message → Option (ℕ × List Message)
list_put q m = if ltb (length q.1) q.0 then some (q.0, q.1 ++ m ∷ []) else none

abbrev list_get : ℕ × List Message → Option (Message × (ℕ × List Message))
list_get (n, []) = none
list_get (n, m ∷ ms) = some (m, (n, ms))

list_get-empty : (q : ℕ × List Message) → q.1 ≡ [] → list_get q ≡ none
list_get-empty (n, []) e = refl
list_get-empty (n, m ∷ ms) e = absurd (ground arith)

list_get-first :
    (q : ℕ × List Message) (m : Message) (ms : List Message)
    → q.1 ≡ m ∷ ms
    → (q' : ℕ × List Message) × (list_get q ≡ some (m, q')) × (q'.1 ≡ ms) × (q'.0 ≡ q.0)
list_get-first (n, []) m ms e = absurd (ground arith)
list_get-first (n, x ∷ xs) m ms e = ((n, ms), ground arith, refl, refl)

list_put-room :
    (q : ℕ × List Message) (m : Message)
    → length q.1 < q.0
    → list_put q m ≡ some (q.0, q.1 ++ m ∷ [])
list_put-room q m lt =
    if_case (λ o. o ≡ some (q.0, q.1 ++ m ∷ [])) (ltb (length q.1) q.0) (λ _. refl)
      λ no_room. absurd (ground arith)

list_put-full : (q : ℕ × List Message) (m : Message) → q.0 ≤ length q.1 → list_put q m ≡ none
list_put-full q m le = ground arith

abbrev list_queue : MsgQueue
list_queue = record {
  Queue = ℕ × List Message;
  k_msgq_init = λ n. (n, []);
  k_msgq_put = list_put;
  k_msgq_get = list_get;
  contents = λ q. q.1;
  room = λ q. q.0;
  init_lem = λ n. (refl, refl);
  put-room = λ q m lt. ((q.0, q.1 ++ m ∷ []), list_put-room q m lt, refl, refl);
  put-full = list_put-full;
  get-empty = list_get-empty;
  get-first = list_get-first;
}

abbrev news : CString
news = 110 ∷ []

abbrev fresh : Bus list_queue
fresh = (msg_bus_init list_queue (boot list_queue (0, []))).1

abbrev two : Bus list_queue
two =
    (msg_bus_subscribe list_queue (msg_bus_subscribe list_queue fresh (some news) (some 7) 0).1
      (some (42 ∷ [])) (some 8) 0).1

abbrev first : Subscriber
first = record { id = 1; handler = 7; user_data = 0; topic_filter = news; min_priority = 0 }

abbrev told : Bus list_queue
told = (msg_bus_publish list_queue two (some news) (5 ∷ []) 1 90).1

process-Drained_example :
    (r : Ret × (List Delivery × Bus list_queue)) × (msg_bus_process list_queue 2 told ≡ some r)
    × Drained list_queue told r
unfolding msg_bus_init msg_bus_subscribe msg_bus_publish enqueue
process-Drained_example = process-Drained list_queue 2 told refl (omega arith)

publish_arrives_example :
    (r : Ret × (List Delivery × Bus list_queue)) × (msg_bus_process list_queue 2 told ≡ some r)
    × Among (record { to = first; message = new_message list_queue two 0 news (5 ∷ []) 1 90 }) r.1.0
unfolding msg_bus_init msg_bus_subscribe msg_bus_publish enqueue topic_matches str_eq
publish_arrives_example =
    publish_arrives list_queue two news (5 ∷ []) 1 90 1 2 0 first refl refl refl (omega arith)
      (omega arith)

two-MembersValid : MembersValid two
unfolding msg_bus_init msg_bus_subscribe
two-MembersValid = record {
  room = refl;
  count = omega arith;
  ids = (omega arith, (omega arith, omega arith));
}

unsubscribed_silent_example : All (NotTo 1) (
    call_bus list_queue
      (msg_bus_unsubscribe list_queue two 1).1
      (BusCall.publish (some news) (5 ∷ []) 1 90 ∷ BusCall.process 2 ∷ []))
unfolding msg_bus_init msg_bus_subscribe msg_bus_unsubscribe msg_bus_publish
unsubscribed_silent_example =
    unsubscribed_silent list_queue 1 two
      (BusCall.publish (some news) (5 ∷ []) 1 90 ∷ BusCall.process 2 ∷ []) two-MembersValid refl
      (omega arith, (omega arith, tt))
