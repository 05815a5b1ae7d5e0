-- ===== src/Timer.antt =====
-- src/akira/kernel/timer.c: the table of software timers. A timer handle is the index in the table, `none`
-- is NULL. The kernel's timer below is not part of the source: an entry keeps the history of what was
-- asked of it and of its expiries, newest first. A call of a callback comes last in the expiry, and what
-- the callback does are further calls behind it.
pub mod Api
pub mod Armed
pub mod Table
mod Tests
use akira_os.Prelude.{
  ℕ, zero, suc, ◌+◌, ◌-◌, ◌%◌, ◌^◌, Bool, true, false, not, ◌&&◌, ◌||◌, Option, none, some, List,
  [], ◌∷◌, Ret, ok, err, Errno, if◌then◌else◌, ltb, get_or, set, take, replicate, find_index,
  CString,
}

-- AKIRA_MAX_TIMERS
abbrev pub max_timers : ℕ
max_timers = 32

pub data TimerMode : Type 0 where
  oneshot periodic interval : TimerMode

pub data TimerState : Type 0 where
  stopped running expired paused : TimerState

-- The callback of `akira_call_after`, or one of the caller.
pub data Callback : Type 0 where
  delayed_call_handler : Callback
  user_callback : ℕ → Callback

-- The name that is given, or `timer_N` from the number N.
pub data TimerName : Type 0 where
  given : CString → TimerName
  numbered : ℕ → TimerName

-- What happens to the kernel's timer: a start with the first delay and the period (0 is no period), a
-- stop, and an expiry.
pub data KTimerEvent : Type 0 where
  starts : ℕ → ℕ → KTimerEvent
  stops expires : KTimerEvent

-- The period of the last start.
abbrev pub last_period : List KTimerEvent → ℕ
last_period [] = 0
last_period (starts initial period ∷ es) = period
last_period (stops ∷ es) = 0
last_period (expires ∷ es) = last_period es

-- Whether the kernel's timer runs: it was started and not stopped since, and goes on after an expiry only
-- if it has a period.
abbrev pub armed : List KTimerEvent → Bool
armed [] = false
armed (starts initial period ∷ es) = true
armed (stops ∷ es) = false
armed (expires ∷ es) = armed es && ltb 0 (last_period es)

-- `struct akira_timer`
pub record Timer : Type 0 where
  pub in_use : Bool
  pub name : TimerName
  pub id : ℕ
  pub mode : TimerMode
  pub state : TimerState
  pub period_ms : ℕ
  pub initial_ms : ℕ
  pub remaining_ms : ℕ
  pub callback : Option Callback
  pub user_data : ℕ
  pub fire_count : ℕ
  pub k_timer : List KTimerEvent

-- `akira_timer_config_t`
pub record TimerConfig : Type 0 where
  pub name : Option CString
  pub mode : TimerMode
  pub period_ms : ℕ
  pub initial_ms : ℕ
  pub callback : Option Callback
  pub user_data : ℕ
  pub start_immediately : Bool

-- `timer_mgr`
pub record TimerMgr : Type 0 where
  pub initialized : Bool
  pub timers : List Timer
  pub next_id : ℕ
  pub active_count : ℕ

abbrev pub no_timer : Timer
no_timer = record {
  in_use = false;
  name = given [];
  id = 0;
  mode = TimerMode.oneshot;
  state = TimerState.stopped;
  period_ms = 0;
  initial_ms = 0;
  remaining_ms = 0;
  callback = none;
  user_data = 0;
  fire_count = 0;
  k_timer = [];
}

-- `timer_mgr` before `akira_timer_subsystem_init`
abbrev pub boot : TimerMgr
boot = record {
  initialized = false;
  timers = replicate max_timers no_timer;
  next_id = 0;
  active_count = 0;
}

abbrev pub is_oneshot : TimerMode → Bool
is_oneshot TimerMode.oneshot = true
is_oneshot _ = false

abbrev pub is_running : TimerState → Bool
is_running TimerState.running = true
is_running _ = false

abbrev pub is_paused : TimerState → Bool
is_paused TimerState.paused = true
is_paused _ = false

abbrev pub is_free : Timer → Bool
is_free t = not t.in_use

abbrev pub timer_at : TimerMgr → ℕ → Timer
timer_at m i = get_or m.timers i no_timer

abbrev pub put_timer : TimerMgr → ℕ → Timer → TimerMgr
put_timer m i t = record m { timers = set m.timers i t }

unfoldable pub find_free_slot : TimerMgr → Option ℕ
find_free_slot m = find_index is_free m.timers

-- The kernel's calls. Stopping a timer that runs calls `timer_stop_handler`.
abbrev pub k_timer_start : Timer → ℕ → ℕ → Timer
k_timer_start t initial period = record t { k_timer = starts initial period ∷ t.k_timer }

abbrev pub timer_stop_handler : Timer → Timer
timer_stop_handler t = if t.in_use then record t { state = TimerState.stopped } else t

abbrev pub k_timer_stop : Timer → Timer
k_timer_stop t =
    let asked = record t { k_timer = stops ∷ t.k_timer } in
    if armed t.k_timer then timer_stop_handler asked else asked

-- An expiry, up to the callback.
unfoldable pub timer_expiry_handler : Timer → Timer
timer_expiry_handler t = if not t.in_use then t else record t {
  fire_count = (t.fire_count + 1) % 2 ^ 32;
  state = if is_oneshot t.mode then TimerState.expired else t.state;
}

unfoldable pub akira_timer_subsystem_init : TimerMgr → Ret × TimerMgr
akira_timer_subsystem_init m = if m.initialized then (ok 0, m) else (
  ok 0,
  record m {
    timers = replicate max_timers no_timer;
    next_id = 1;
    active_count = 0;
    initialized = true;
  },
)

abbrev pub period_of : Timer → ℕ
period_of t = if is_oneshot t.mode then 0 else t.period_ms

-- `akira_timer_start` and the others on the entry; the table's functions are below.
unfoldable pub start_entry : Timer → Ret × Timer
start_entry t =
    if not t.in_use
    then (err Errno.failed, t)
    else (ok 0, record (k_timer_start t t.initial_ms (period_of t)) { state = TimerState.running })

unfoldable pub stop_entry : Timer → Ret × Timer
stop_entry t =
    if not t.in_use
    then (err Errno.failed, t)
    else (ok 0, record (k_timer_stop t) { state = TimerState.stopped })

unfoldable pub reset_entry : Timer → Ret × Timer
unfolding start_entry stop_entry
reset_entry t =
    if not t.in_use
    then (err Errno.failed, t)
    else start_entry (record (stop_entry t).1 { fire_count = 0 })

-- `left` is what `k_timer_remaining_get` answers.
unfoldable pub remaining_of : Timer → ℕ → ℕ
remaining_of t left = if not t.in_use then 0 else if is_paused t.state then t.remaining_ms else left

unfoldable pub pause_entry : Timer → ℕ → Ret × Timer
unfolding remaining_of
pause_entry t left =
    if not t.in_use || not (is_running t.state)
    then (err Errno.failed, t)
    else let kept = record t { remaining_ms = remaining_of t left } in
      (ok 0, record (k_timer_stop kept) { state = TimerState.paused })

unfoldable pub resume_entry : Timer → Ret × Timer
resume_entry t = if not t.in_use || not (is_paused t.state) then (err Errno.failed, t) else (
  ok 0,
  record (k_timer_start t t.remaining_ms (period_of t)) { state = TimerState.running },
)

unfoldable pub set_period_entry : Timer → ℕ → Ret × Timer
unfolding reset_entry
set_period_entry t period_ms =
    let changed = record t { period_ms = period_ms } in
    (ok 0, if is_running t.state then (reset_entry changed).1 else changed)

unfoldable pub destroy_entry : Timer → Timer
destroy_entry t = record (k_timer_stop t) { in_use = false }
