-- ===== src/MessageBus.antt =====
-- src/ipc/message_bus.c: topics, subscribers, and delivery through the kernel's message queue, which is
-- a parameter with what the kernel promises of it. A handler is named by a number; the calls of handlers
-- are the list of deliveries, in order. What a handler does is not modelled: it makes no call of the bus.
pub mod Wire
pub mod Drain
pub mod Members
pub mod Silence
mod Tests
use akira_os.Prelude.{
  ℕ, zero, suc, ◌+◌, ◌-◌, ◌%◌, ◌^◌, ◌<◌, ◌≤◌, ◌≡◌, Bool, true, false, not, ◌&&◌, ◌||◌, Option, none,
  some, List, [], ◌∷◌, ◌++◌, Ret, ok, err, Errno, if◌then◌else◌, ltb, leb, ◌==◌, get_or, set, take,
  replicate, length, find_index, CString, str_eq, shift_down,
}

-- MSG_MAX_PAYLOAD_SIZE, MSG_MAX_TOPIC_LEN, MSG_MAX_SUBSCRIBERS, MSG_QUEUE_SIZE, MAX_PENDING_REPLIES
abbrev pub max_payload_size : ℕ
max_payload_size = 256

abbrev pub max_topic_len : ℕ
max_topic_len = 32

abbrev pub max_subscribers : ℕ
max_subscribers = 16

abbrev pub msg_queue_size : ℕ
msg_queue_size = 32

abbrev pub max_pending_replies : ℕ
max_pending_replies = 8

-- `msg_priority_t`: 0 is LOW, 1 NORMAL, 2 HIGH, 3 URGENT.
abbrev pub Priority : Type 0
Priority = ℕ

-- `struct msg_header` and the payload; an empty topic is that of a message from one to one.
pub record Message : Type 0 where
  pub msg_id : ℕ
  pub sender_id : ℕ
  pub recipient_id : ℕ
  pub topic : CString
  pub priority : Priority
  pub timestamp : ℕ
  pub payload_len : ℕ
  pub payload : List ℕ

-- `struct msg_subscriber`
pub record Subscriber : Type 0 where
  pub id : ℕ
  pub handler : ℕ
  pub user_data : ℕ
  pub topic_filter : CString
  pub min_priority : Priority

abbrev pub no_subscriber : Subscriber
no_subscriber = record { id = 0; handler = 0; user_data = 0; topic_filter = []; min_priority = 0 }

-- `struct k_msgq` of the kernel: a queue with room for so many messages, oldest first; neither call waits.
pub record MsgQueue : Type 1 where
  pub Queue : Type 0
  pub k_msgq_init : ℕ → Queue
  pub k_msgq_put : Queue → Message → Option Queue
  pub k_msgq_get : Queue → Option (Message × Queue)
  pub contents : Queue → List Message
  pub room : Queue → ℕ
  pub init_lem : (n : ℕ) → (contents (k_msgq_init n) ≡ []) × (room (k_msgq_init n) ≡ n)
  pub put-room :
      (q : Queue) (m : Message)
      → length (contents q) < room q
      → (q' : Queue) × (k_msgq_put q m ≡ some q')
        × (contents q' ≡ contents q ++ m ∷ [])
        × (room q' ≡ room q)
  pub put-full : (q : Queue) (m : Message) → room q ≤ length (contents q) → k_msgq_put q m ≡ none
  pub get-empty : (q : Queue) → contents q ≡ [] → k_msgq_get q ≡ none
  pub get-first :
      (q : Queue) (m : Message) (ms : List Message)
      → contents q ≡ m ∷ ms
      → (q' : Queue) × (k_msgq_get q ≡ some (m, q')) × (contents q' ≡ ms) × (room q' ≡ room q)

-- What the handler of a subscriber is called with.
pub record Delivery : Type 0 where
  pub to : Subscriber
  pub message : Message

-- topic_matches
unfoldable pub topic_matches : CString → CString → Bool
topic_matches topic filter = str_eq topic filter || str_eq filter (42 ∷ [])

abbrev pub is_empty : CString → Bool
is_empty [] = true
is_empty (c ∷ s) = false

-- What `strncpy` of a string into the field leaves there: the first 31 bytes.
abbrev pub field_of : CString → CString
field_of s = take (max_topic_len - 1) s

-- The three checks in the loop of `msg_bus_process`.
unfoldable pub accepts : Subscriber → Message → Bool
unfolding topic_matches
accepts sub msg =
    if not (msg.recipient_id == 0) && not (msg.recipient_id == sub.id)
    then false
    else if not (is_empty msg.topic) && not (topic_matches msg.topic sub.topic_filter)
    then false
    else if ltb msg.priority sub.min_priority
    then false
    else true

unfoldable pub deliver : List Subscriber → Message → List Delivery
unfolding accepts
deliver [] msg = []
deliver (sub ∷ subs) msg =
    let rest = deliver subs msg in
    if accepts sub msg then record { to = sub; message = msg } ∷ rest else rest

abbrev pub has_id : ℕ → Subscriber → Bool
has_id n sub = sub.id == n

module _ (K : MsgQueue) where
  -- `bus_state`; of the slots for replies only the ids are set.
  pub record Bus : Type 0 where
    pub initialized : Bool
    pub next_msg_id : ℕ
    pub next_subscriber_id : ℕ
    pub msg_queue : K.Queue
    pub subscribers : List Subscriber
    pub subscriber_count : ℕ
    pub pending_replies : List ℕ
    pub stats_sent : ℕ
    pub stats_received : ℕ
    pub stats_dropped : ℕ

  -- `bus_state` before `msg_bus_init`; its queue is not set up.
  abbrev pub boot : K.Queue → Bus
  boot q = record {
    initialized = false;
    next_msg_id = 0;
    next_subscriber_id = 0;
    msg_queue = q;
    subscribers = replicate max_subscribers no_subscriber;
    subscriber_count = 0;
    pending_replies = replicate max_pending_replies 0;
    stats_sent = 0;
    stats_received = 0;
    stats_dropped = 0;
  }

  -- The part of the array that is in use.
  abbrev pub live : Bus → List Subscriber
  live b = take b.subscriber_count b.subscribers

  unfoldable pub msg_bus_init : Bus → Ret × Bus
  msg_bus_init b = if b.initialized then (ok 0, b) else (
    ok 0,
    record b {
      msg_queue = K.k_msgq_init msg_queue_size;
      pending_replies = replicate max_pending_replies 0;
      next_msg_id = 1;
      next_subscriber_id = 1;
      initialized = true;
    },
  )

  -- The id is the value; the caller reads it as a signed number.
  unfoldable pub msg_bus_subscribe : Bus → Option CString → Option ℕ → ℕ → Ret × Bus
  msg_bus_subscribe b none handler user_data =
      if not b.initialized then (err Errno.enodev, b) else (err Errno.einval, b)
  msg_bus_subscribe b (some topic) none user_data =
      if not b.initialized then (err Errno.enodev, b) else (err Errno.einval, b)
  msg_bus_subscribe b (some topic) (some handler) user_data =
      if not b.initialized
      then (err Errno.enodev, b)
      else if leb max_subscribers b.subscriber_count
      then (err Errno.enomem, b)
      else let sub : Subscriber = record {
        id = b.next_subscriber_id;
        handler = handler;
        user_data = user_data;
        topic_filter = field_of topic;
        min_priority = 0;
      } in
        (
          ok b.next_subscriber_id,
          record b {
            next_subscriber_id = (b.next_subscriber_id + 1) % 2 ^ 32;
            subscribers = set b.subscribers b.subscriber_count sub;
            subscriber_count = b.subscriber_count + 1;
          },
        )

  unfoldable pub msg_bus_unsubscribe : Bus → ℕ → Ret × Bus
  msg_bus_unsubscribe b subscriber_id =
      if not b.initialized
      then (err Errno.enodev, b)
      else elim (find_index (has_id subscriber_id) (live b)) [
        | none ↦ (err Errno.enoent, b)
        | some i ↦ (
          ok 0,
          record b {
            subscribers = shift_down (b.subscriber_count - 1 - i) i b.subscribers;
            subscriber_count = b.subscriber_count - 1;
          },
        )
      ]

  -- How `msg_bus_publish` and `msg_bus_send` end: the message goes into the queue, or is dropped.
  unfoldable pub enqueue : Bus → Message → Ret × Bus
  enqueue b msg = elim (K.k_msgq_put b.msg_queue msg) [
    | none ↦ (err Errno.eagain, record b { stats_dropped = (b.stats_dropped + 1) % 2 ^ 32 })
    | some q ↦ (ok msg.msg_id, record b { msg_queue = q; stats_sent = (b.stats_sent + 1) % 2 ^ 32 })
  ]

  -- The message that is built; the payload is that of the caller, `none` is NULL for an empty one.
  abbrev pub new_message : Bus → ℕ → CString → List ℕ → Priority → ℕ → Message
  new_message b recipient topic payload priority now = record {
    msg_id = b.next_msg_id;
    sender_id = 0;
    recipient_id = recipient;
    topic = topic;
    priority = priority;
    timestamp = now;
    payload_len = length payload;
    payload = payload;
  }

  abbrev pub took_id : Bus → Bus
  took_id b = record b { next_msg_id = (b.next_msg_id + 1) % 2 ^ 32 }

  unfoldable pub msg_bus_publish : Bus → Option CString → List ℕ → Priority → ℕ → Ret × Bus
  unfolding enqueue
  msg_bus_publish b none payload priority now =
      if not b.initialized then (err Errno.enodev, b) else (err Errno.einval, b)
  msg_bus_publish b (some topic) payload priority now =
      if not b.initialized
      then (err Errno.enodev, b)
      else if ltb max_payload_size (length payload)
      then (err Errno.einval, b)
      else enqueue (took_id b) (new_message b 0 (field_of topic) payload priority now)

  -- The way of delivery is read only for a warning.
  unfoldable pub msg_bus_send : Bus → ℕ → List ℕ → ℕ → Ret × Bus
  unfolding enqueue
  msg_bus_send b recipient_id payload now =
      if not b.initialized
      then (err Errno.enodev, b)
      else if ltb max_payload_size (length payload)
      then (err Errno.einval, b)
      else enqueue (took_id b) (new_message b recipient_id [] payload 1 now)

  -- Neither waiting for a reply nor replying is there yet.
  unfoldable pub msg_bus_wait_reply : Bus → Bool → Ret
  msg_bus_wait_reply b has_reply =
      if not b.initialized || not has_reply then err Errno.einval else err Errno.enotsup

  unfoldable pub msg_bus_reply : Bus → Bool → Ret
  msg_bus_reply b has_original =
      if not b.initialized || not has_original then err Errno.einval else err Errno.enotsup

  -- The loop of `msg_bus_process` on fuel: the number of messages processed, the deliveries made, and
  -- the state; `none` if the fuel does not suffice. It stands for a run in which no other thread uses the bus.
  unfoldable pub process_messages : ℕ → Bus → Option (ℕ × (List Delivery × Bus))
  unfolding deliver
  process_messages zero b = none
  process_messages (suc fuel) b = elim (K.k_msgq_get b.msg_queue) [
    | none ↦ some (0, ([], b))
    | some r ↦
        let b' = record b { msg_queue = r.1; stats_received = (b.stats_received + 1) % 2 ^ 32 } in
        elim (process_messages fuel b') [
          | none ↦ none
          | some p ↦ some (suc p.0, (deliver (live b') r.0 ++ p.1.0, p.1.1))
        ]
  ]

  unfoldable pub msg_bus_process : ℕ → Bus → Option (Ret × (List Delivery × Bus))
  unfolding process_messages
  msg_bus_process fuel b =
      if not b.initialized
      then some (err Errno.enodev, ([], b))
      else elim (process_messages fuel b) [ none ↦ none | some p ↦ some (ok p.0, p.1) ]

  unfoldable pub msg_bus_stats : Bus → ℕ × (ℕ × ℕ)
  msg_bus_stats b = (b.stats_sent, (b.stats_received, b.stats_dropped))
