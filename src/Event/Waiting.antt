-- ===== src/Event/Waiting.antt =====
-- Waiting for an event of a type, of src/akira/kernel/event.c.
use akira_os.Prelude.{
  ℕ, zero, suc, ◌+◌, ◌-◌, ◌%◌, ◌^◌, Bool, not, ◌&&◌, Option, none, some, List, [], ◌∷◌, Ret, ok,
  err, Errno, if◌then◌else◌, leb, ◌==◌, get_or, set,
}
use akira_os.Event.{queue_size, Event, EventSys, no_event}

-- The scan of `akira_event_wait`: the offset of the first queued event of the type.
unfoldable pub scan : List Event → ℕ → ℕ → ℕ → ℕ → Option ℕ
scan queue head type zero i = none
scan queue head type (suc k) i =
    if (get_or queue ((head + i) % queue_size) no_event).type == type
    then some i
    else scan queue head type k (i + 1)

-- for (j = i; j < i + k; j++) queue[(head + j) % N] = queue[(head + j + 1) % N], from `b = head + i`
unfoldable pub ring_shift : ℕ → ℕ → List Event → List Event
ring_shift b zero queue = queue
ring_shift b (suc k) queue =
    ring_shift (b + 1) k (set queue (b % queue_size) (get_or queue ((b + 1) % queue_size) no_event))

-- The critical section of one round of `akira_event_wait`. The tail index is left alone.
unfoldable pub take_matching : EventSys → ℕ → EventSys × Option Event
take_matching s type = elim (scan s.queue s.queue_head type s.queue_count 0) [
  | none ↦ (s, none)
  | some i ↦ (
    record s {
      queue = ring_shift (s.queue_head + i) (s.queue_count - 1 - i) s.queue;
      queue_count = s.queue_count - 1;
    },
    some (get_or s.queue ((s.queue_head + i) % queue_size) no_event),
  )
]

-- What a thread meets in one round of `akira_event_wait`: whether the semaphore was granted, what
-- the other threads did to the event system until then, and the time since the call.
pub record Round : Type 0 where
  pub granted : Bool
  pub others : EventSys → EventSys
  pub elapsed : ℕ

-- `AKIRA_WAIT_FOREVER`
abbrev pub wait_forever : ℕ
wait_forever = 2 ^ 32 - 1

unfoldable pub wait_rounds : List Round → EventSys → ℕ → ℕ → Option (Ret × Option Event × EventSys)
wait_rounds [] s type timeout_ms = none
wait_rounds (r ∷ rs) s type timeout_ms =
    let (s', found) = take_matching (r.others s) type in
    let rest = wait_rounds rs s' type timeout_ms in
    if not r.granted then some (err Errno.failed, none, r.others s) else elim found [
      | some event ↦ some (ok 0, some event, s')
      | none ↦
          if not (timeout_ms == wait_forever) && leb timeout_ms r.elapsed
          then some (err Errno.failed, none, s')
          else rest
    ]

-- `none` while the caller is still blocked after the given rounds.
unfoldable pub akira_event_wait :
    List Round → EventSys → ℕ → ℕ → Option (Ret × Option Event × EventSys)
akira_event_wait rounds s type timeout_ms =
    if not s.initialized
    then some (err Errno.failed, none, s)
    else wait_rounds rounds s type timeout_ms
