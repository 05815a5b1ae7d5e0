-- ===== src/Event.antt =====
-- src/akira/kernel/event.c: the subscription table and the event queue of the event system.
-- The mutex is not modelled: each call below is one critical section, but for `akira_event_process` and
-- `akira_event_wait`, which are told what other threads do between theirs. The semaphore `queue_sem`
-- belongs to the kernel below; the state keeps the calls made on it, newest first.
pub mod Waiting
pub mod Ring
pub mod Invariant
pub mod Delivery
pub mod Posts
pub mod Drain
pub mod Wait
mod Tests
use akira_os.Prelude.{
  ℕ, zero, suc, ◌+◌, ◌-◌, ◌%◌, ◌^◌, Bool, true, false, not, ◌&&◌, ◌||◌, Option, none, some, List,
  [], ◌∷◌, Ret, ok, err, Errno, ℤ, pos, negsuc, if◌then◌else◌, ltb, leb, ◌==◌, get_or, set,
  replicate, find_index,
}

-- `AKIRA_MAX_EVENT_HANDLERS` and `AKIRA_EVENT_QUEUE_SIZE`
abbrev pub max_handlers : ℕ
max_handlers = 32

abbrev pub queue_size : ℕ
queue_size = 32

-- `akira_event_t`; the pointer `data` is only copied.
pub record Event : Type 0 where
  pub type : ℕ
  pub priority : ℕ
  pub timestamp : ℕ
  pub source_id : ℕ
  pub data_size : ℕ
  pub data_ptr : ℕ

-- `event_subscription_t`; the handler is named by a number, `none` is NULL.
pub record Subscription : Type 0 where
  pub in_use : Bool
  pub type_min : ℕ
  pub type_max : ℕ
  pub handler : Option ℕ
  pub user_data : ℕ

pub data SemCall : Type 0 where
  init_sem : ℕ → ℕ → SemCall
  give_sem reset_sem : SemCall

pub record EventSys : Type 0 where
  pub initialized : Bool
  pub subscriptions : List Subscription
  pub subscription_count : ℕ
  pub next_id : ℕ
  pub queue : List Event
  pub queue_head : ℕ
  pub queue_tail : ℕ
  pub queue_count : ℕ
  pub sem_calls : List SemCall

-- zero-filled memory
abbrev pub no_event : Event
no_event = record {
  type = 0;
  priority = 0;
  timestamp = 0;
  source_id = 0;
  data_size = 0;
  data_ptr = 0;
}

abbrev pub no_subscription : Subscription
no_subscription = record {
  in_use = false;
  type_min = 0;
  type_max = 0;
  handler = none;
  user_data = 0;
}

-- `event_sys` before `akira_event_init`
abbrev pub boot : EventSys
boot = record {
  initialized = false;
  subscriptions = replicate max_handlers no_subscription;
  subscription_count = 0;
  next_id = 0;
  queue = replicate queue_size no_event;
  queue_head = 0;
  queue_tail = 0;
  queue_count = 0;
  sem_calls = [];
}

pub akira_event_init : EventSys → Ret × EventSys
akira_event_init s = if s.initialized then (ok 0, s) else (
  ok 0,
  record s {
    sem_calls = init_sem 0 queue_size ∷ s.sem_calls;
    subscriptions = replicate max_handlers no_subscription;
    subscription_count = 0;
    next_id = 0;
    queue_head = 0;
    queue_tail = 0;
    queue_count = 0;
    initialized = true;
  },
)

-- `none` is -1.
pub find_free_slot : EventSys → Option ℕ
find_free_slot s = find_index (λ (sub : Subscription). not sub.in_use) s.subscriptions

-- the critical section of `akira_event_subscribe_range`
claim_slot : EventSys → ℕ → ℕ → ℕ → ℕ → Ret × EventSys
claim_slot s type_min type_max handler user_data = elim (find_free_slot s) [
  | none ↦ (err Errno.failed, s)
  | some slot ↦ (
    ok slot,
    record s {
      subscriptions = set s.subscriptions slot (record {
        in_use = true;
        type_min = type_min;
        type_max = type_max;
        handler = some handler;
        user_data = user_data;
      });
      subscription_count = s.subscription_count + 1;
    },
  )
]

pub akira_event_subscribe_range : EventSys → ℕ → ℕ → Option ℕ → ℕ → Ret × EventSys
unfolding claim_slot find_free_slot
akira_event_subscribe_range s type_min type_max none user_data = (err Errno.failed, s)
akira_event_subscribe_range s type_min type_max (some handler) user_data =
    if not s.initialized
    then (err Errno.failed, s)
    else claim_slot s type_min type_max handler user_data

pub akira_event_subscribe : EventSys → ℕ → Option ℕ → ℕ → Ret × EventSys
akira_event_subscribe s type handler user_data =
    akira_event_subscribe_range s type type handler user_data

pub akira_event_unsubscribe : EventSys → ℤ → Ret × EventSys
akira_event_unsubscribe s (negsuc n) = (err Errno.failed, s)
akira_event_unsubscribe s (pos slot) =
    let sub = get_or s.subscriptions slot no_subscription in
    if not s.initialized
    then (err Errno.failed, s)
    else if leb max_handlers slot || not sub.in_use
    then (err Errno.failed, s)
    else (
      ok 0,
      record s {
        subscriptions = set s.subscriptions slot (record sub { in_use = false });
        subscription_count = s.subscription_count - 1;
      },
    )

pub akira_event_post : EventSys → Option Event → Ret × EventSys
akira_event_post s none = (err Errno.failed, s)
akira_event_post s (some event) =
    if not s.initialized
    then (err Errno.failed, s)
    else if leb queue_size s.queue_count
    then (err Errno.failed, s)
    else (
      ok 0,
      record s {
        queue = set s.queue s.queue_tail event;
        queue_tail = (s.queue_tail + 1) % queue_size;
        queue_count = s.queue_count + 1;
        sem_calls = give_sem ∷ s.sem_calls;
      },
    )

-- the dequeue of `akira_event_process`, for a queue that is not empty
pub dequeue : EventSys → Event × EventSys
dequeue s = (
  get_or s.queue s.queue_head no_event,
  record s { queue_head = (s.queue_head + 1) % queue_size; queue_count = s.queue_count - 1 },
)

pub akira_event_pending_count : EventSys → ℕ
akira_event_pending_count s = s.queue_count

pub akira_event_clear_queue : EventSys → EventSys
akira_event_clear_queue s = record s {
  queue_head = 0;
  queue_tail = 0;
  queue_count = 0;
  sem_calls = reset_sem ∷ s.sem_calls;
}

-- `ret != 0`
abbrev pub stops : ℤ → Bool
stops (pos zero) = false
stops (pos (suc n)) = true
stops (negsuc n) = true

-- Handlers are code of the subscribers: `run_handler` says what one returns and does to the world.
-- They do not call back into the event system.
module _ {W : Type 0} (run_handler : ℕ → Event → ℕ → W → ℤ × W) where
  -- whether a handler was called, and its return value is not 0
  visit : Subscription → Event → W → Bool × W
  visit sub event w =
      if sub.in_use && leb sub.type_min event.type && leb event.type sub.type_max
      then elim sub.handler [
        | none ↦ (false, w)
        | some h ↦ let (ret, w') = run_handler h event sub.user_data w in (stops ret, w')
      ]
      else (false, w)

  pub deliver_event : List Subscription → Event → W → W
  unfolding visit
  deliver_event [] event w = w
  deliver_event (sub ∷ subs) event w =
      let (stop, w') = visit sub event w in
      elim stop [ true ↦ w' | false ↦ deliver_event subs event w' ]

  pub akira_event_publish : EventSys → Option Event → W → Ret × W
  akira_event_publish s none w = (err Errno.failed, w)
  akira_event_publish s (some event) w =
      if not s.initialized
      then (err Errno.failed, w)
      else (ok 0, deliver_event s.subscriptions event w)

  -- `AKIRA_EVENT(type)`: priority NORMAL, at the time `now`
  pub akira_event_emit : EventSys → ℕ → ℕ → W → Ret × W
  akira_event_emit s type now w =
      akira_event_publish s (some (record no_event { type = type; priority = 1; timestamp = now }))
        w

  -- The loop of `akira_event_process`. The mutex is free between two events: each element of the list is
  -- what other threads do to the event system before the next critical section. `none` means that the loop
  -- is not at its end after the given rounds.
  pub process_loop : List (EventSys → EventSys) → ℕ → EventSys → W → Option (ℕ × EventSys × W)
  process_loop [] processed s w = none
  process_loop (others ∷ rounds) processed s w =
      let s1 = others s in
      let (event, s2) = dequeue s1 in
      let rest = process_loop rounds (processed + 1) s2 (deliver_event s2.subscriptions event w) in
      if s1.queue_count == 0 then some (processed, s1, w) else rest

  pub akira_event_process : List (EventSys → EventSys) → EventSys → W → Option (ℕ × EventSys × W)
  akira_event_process rounds s w =
      if not s.initialized then some (0, s, w) else process_loop rounds 0 s w
