-- ===== src/Timer/Tests.antt =====
-- A periodic and a one-shot timer.
use akira_os.Prelude.{◌≡◌, refl, true, some, none, List, [], ◌∷◌, arith, inl, inr}
use akira_os.Timer.{
  TimerMode, TimerState, Callback, TimerConfig, TimerMgr, boot, find_free_slot, start_entry,
  remaining_of, pause_entry, timer_expiry_handler, akira_timer_subsystem_init, destroy_entry,
  resume_entry,
}
use akira_os.Timer.Api.{new_timer, akira_timer_create, akira_timer_destroy, akira_timer_get_state}
use akira_os.Timer.Table.{
  TimerAction, TimersValid, perform_all, perform_all-TimersValid, init-TimersValid,
}

abbrev every : TimerConfig
every = record {
  name = none;
  mode = TimerMode.periodic;
  period_ms = 100;
  initial_ms = 0;
  callback = some (Callback.user_callback 3);
  user_data = 0;
  start_immediately = true;
}

abbrev once : TimerConfig
once = record every { mode = TimerMode.oneshot }

abbrev empty_table : TimerMgr
empty_table = (akira_timer_subsystem_init boot).1

abbrev some_actions : List TimerAction
some_actions =
    TimerAction.create (some every)
    ∷ TimerAction.create (some once)
    ∷ TimerAction.expiry 1
    ∷ TimerAction.pause (some 0) 40
    ∷ TimerAction.resume (some 0)
    ∷ TimerAction.destroy (some 1)
    ∷ []

first_runs :
    akira_timer_get_state (perform_all empty_table some_actions) (some 0) ≡ TimerState.running
unfolding akira_timer_subsystem_init akira_timer_create find_free_slot new_timer start_entry
    remaining_of pause_entry timer_expiry_handler akira_timer_destroy destroy_entry resume_entry
first_runs = refl

perform_all-TimersValid_example : TimersValid (perform_all empty_table some_actions)
unfolding akira_timer_subsystem_init akira_timer_create find_free_slot new_timer start_entry
perform_all-TimersValid_example =
    perform_all-TimersValid some_actions empty_table
      (inr (omega arith), (inl refl, (refl, (tt, (tt, (tt, tt)))))) init-TimersValid
