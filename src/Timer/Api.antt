-- ===== src/Timer/Api.antt =====
-- The calls of src/akira/kernel/timer.c on the table.
use akira_os.Prelude.{
  ℕ, ◌+◌, ◌-◌, ◌%◌, ◌^◌, true, not, Option, none, some, ◌∷◌, Ret, ok, err, Errno, if◌then◌else◌,
  ltb, take,
}
use akira_os.Timer.{
  numbered, given, expires, delayed_call_handler, TimerMode, TimerState, Callback, Timer,
  TimerConfig, TimerMgr, no_timer, timer_at, put_timer, find_free_slot, timer_expiry_handler,
  start_entry, stop_entry, reset_entry, pause_entry, resume_entry, set_period_entry, destroy_entry,
}

unfoldable pub new_timer : TimerConfig → ℕ → Timer
new_timer config id = record no_timer {
  in_use = true;
  name = elim config.name [ none ↦ numbered id | some n ↦ given (take 31 n) ];
  id = id;
  mode = config.mode;
  period_ms = config.period_ms;
  initial_ms = if ltb 0 config.initial_ms then config.initial_ms else config.period_ms;
  callback = config.callback;
  user_data = config.user_data;
}

unfoldable pub akira_timer_create : TimerMgr → Option TimerConfig → Option ℕ × TimerMgr
unfolding find_free_slot new_timer start_entry
akira_timer_create m none = (none, m)
akira_timer_create m (some config) =
    if not m.initialized then (none, m) else elim (find_free_slot m) [
      | none ↦ (none, m)
      | some i ↦
          let fresh = new_timer config m.next_id in
          (
            some i,
            record (put_timer m i
                (if config.start_immediately then (start_entry fresh).1 else fresh)) {
                  next_id = (m.next_id + 1) % 2 ^ 32;
                  active_count = m.active_count + 1;
                },
          )
    ]

unfoldable pub akira_timer_destroy : TimerMgr → Option ℕ → TimerMgr
unfolding destroy_entry
akira_timer_destroy m none = m
akira_timer_destroy m (some i) =
    if not (timer_at m i).in_use
    then m
    else record (put_timer m i (destroy_entry (timer_at m i))) { active_count = m.active_count - 1 }

-- A call that works on one entry; NULL is refused.
abbrev pub on_entry : TimerMgr → Option ℕ → (Timer → Ret × Timer) → Ret × TimerMgr
on_entry m none f = (err Errno.failed, m)
on_entry m (some i) f = ((f (timer_at m i)).0, put_timer m i (f (timer_at m i)).1)

abbrev pub akira_timer_start : TimerMgr → Option ℕ → Ret × TimerMgr
akira_timer_start m timer = on_entry m timer start_entry

abbrev pub akira_timer_stop : TimerMgr → Option ℕ → Ret × TimerMgr
akira_timer_stop m timer = on_entry m timer stop_entry

abbrev pub akira_timer_reset : TimerMgr → Option ℕ → Ret × TimerMgr
akira_timer_reset m timer = on_entry m timer reset_entry

abbrev pub akira_timer_pause : TimerMgr → Option ℕ → ℕ → Ret × TimerMgr
akira_timer_pause m timer left = on_entry m timer (λ t. pause_entry t left)

abbrev pub akira_timer_resume : TimerMgr → Option ℕ → Ret × TimerMgr
akira_timer_resume m timer = on_entry m timer resume_entry

abbrev pub akira_timer_set_period : TimerMgr → Option ℕ → ℕ → Ret × TimerMgr
akira_timer_set_period m timer period_ms = on_entry m timer (λ t. set_period_entry t period_ms)

abbrev pub akira_timer_set_callback : TimerMgr → Option ℕ → Option Callback → ℕ → Ret × TimerMgr
akira_timer_set_callback m timer callback user_data =
    on_entry m timer (λ t. (ok 0, record t { callback = callback; user_data = user_data }))

-- The kernel's timer of an entry expires.
abbrev pub timer_expires : TimerMgr → ℕ → TimerMgr
timer_expires m i =
    put_timer m i
      (timer_expiry_handler (record (timer_at m i) { k_timer = expires ∷ (timer_at m i).k_timer }))

abbrev pub akira_timer_get_state : TimerMgr → Option ℕ → TimerState
akira_timer_get_state m none = TimerState.stopped
akira_timer_get_state m (some i) = (timer_at m i).state

abbrev pub akira_timer_count : TimerMgr → ℕ
akira_timer_count m = m.active_count

unfoldable pub akira_timer_oneshot : TimerMgr → ℕ → Option Callback → ℕ → Option ℕ × TimerMgr
unfolding akira_timer_create
akira_timer_oneshot m delay_ms callback user_data = akira_timer_create m (
    some (record {
      name = none;
      mode = TimerMode.oneshot;
      period_ms = delay_ms;
      initial_ms = 0;
      callback = callback;
      user_data = user_data;
      start_immediately = true;
    }))

unfoldable pub akira_timer_periodic : TimerMgr → ℕ → Option Callback → ℕ → Option ℕ × TimerMgr
unfolding akira_timer_create
akira_timer_periodic m period_ms callback user_data = akira_timer_create m (
    some (record {
      name = none;
      mode = TimerMode.periodic;
      period_ms = period_ms;
      initial_ms = 0;
      callback = callback;
      user_data = user_data;
      start_immediately = true;
    }))

-- `call` is what the allocation returns; the last value is the block given back.
unfoldable pub akira_call_after : TimerMgr → ℕ → Option ℕ → Ret × (TimerMgr × Option ℕ)
unfolding akira_timer_oneshot
akira_call_after m delay_ms none = (err Errno.failed, (m, none))
akira_call_after m delay_ms (some call) =
    let (timer, m') = akira_timer_oneshot m delay_ms (some delayed_call_handler) call in
    elim timer [ none ↦ (err Errno.failed, (m', some call)) | some i ↦ (ok 0, (m', none)) ]
