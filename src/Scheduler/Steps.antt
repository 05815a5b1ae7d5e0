-- ===== src/Scheduler/Steps.antt =====
-- Every call of src/resource/scheduler.c, but for `scheduler_run`, keeps the ready queue exact.
use akira_os.Prelude.{
  ℕ, ◌+◌, ◌-◌, ◌/◌, ◌%◌, ◌≡◌, refl, false, not, ◌&&◌, ◌||◌, Option, none, some, List, [], ◌∷◌,
  arith, if_case, option_case, Ret, ℤ, pos, negsuc, is_pos, find_index, find_index-Found, leb,
  CString,
}
use akira_os.Scheduler.{TaskState, TaskCb, SchedState, task_at, get_task, find_free_slot}
use akira_os.Scheduler.Api.{
  TaskConfig, put_task, is_state, index, u32_mod, u64_mod, scheduler_create_task, new_task,
  scheduler_destroy_task, make_ready, scheduler_start_task, scheduler_suspend_task,
  scheduler_resume_task, requeue, scheduler_set_priority, scheduler_yield, scheduler_block,
  scheduler_unblock, scheduler_tick, tick_current, preempt,
}
use akira_os.Scheduler.Invariant.{
  IsValid, requeue-IsValid, retire-IsValid, keep-IsValid, fill-IsValid, ready-IsValid,
  remove-put_task, task_at-inv,
}

abbrev pub AfterValid : Ret × SchedState → Type 0
AfterValid r = IsValid r.1

suspend-IsValid :
    (s : SchedState) (h : ℕ) → IsValid s → IsValid (scheduler_suspend_task s (pos h)).1
unfolding scheduler_suspend_task
suspend-IsValid s h v =
    option_case AfterValid (task_at s.tasks h) (λ n. v)
      λ t e. rw remove-put_task (retire-IsValid s h t _ e v (ground arith))

-- The invariant says nothing of the current task and the clock.
pub with_current : (s : SchedState) (z : ℤ) → IsValid s → IsValid (record s { current_task = z })
with_current s z v = record {
  fits = record { room = v.fits.room; count_in = v.fits.count_in };
  slots = v.slots;
  counted = v.counted;
  once = v.once;
  sorted = v.sorted;
}

with_clock :
    (s : SchedState) (n m : ℕ) → IsValid s → IsValid (record s { tick_count = n; last_tick = m })
with_clock s n m v = record {
  fits = record { room = v.fits.room; count_in = v.fits.count_in };
  slots = v.slots;
  counted = v.counted;
  once = v.once;
  sorted = v.sorted;
}

create-IsValid :
    (s : SchedState) (c : Option TaskConfig) → IsValid s → IsValid (scheduler_create_task s c).1
unfolding scheduler_create_task new_task find_free_slot
create-IsValid s none v = v
create-IsValid s (some c) v =
    option_case AfterValid c.entry (λ _. v)
      λ _ _.
        if_case AfterValid (not s.initialized) (λ _. v)
          λ _.
            option_case AfterValid (find_index (λ (t : TaskCb). not t.in_use) s.tasks) (λ _. v)
              λ h e.
                let f = find_index-Found (λ (t : TaskCb). not t.in_use) s.tasks h e in
                fill-IsValid s h f.entry _ f.there (ground (arith, f.passes)) refl v

destroy-IsValid :
    (s : SchedState) (h : ℕ) → IsValid s → IsValid (scheduler_destroy_task s (pos h)).1
unfolding scheduler_destroy_task
destroy-IsValid s h v =
    option_case AfterValid (task_at s.tasks h) (λ n. v)
      λ t e.
        let done = retire-IsValid s h t (record t { in_use = false }) e v refl in
        if_case (λ (s1 : SchedState). IsValid (put_task s1 h (record t { in_use = false })))
          (is_pos s.current_task h) (λ _. with_current _ (negsuc 0) done) (λ _. done)

start-IsValid : (s : SchedState) (h : ℕ) → IsValid s → IsValid (scheduler_start_task s (pos h)).1
unfolding scheduler_start_task make_ready
start-IsValid s h v =
    option_case AfterValid (task_at s.tasks h) (λ n. v)
      λ t e.
        if_case AfterValid
          (is_state t.state TaskState.inactive || is_state t.state TaskState.suspended)
          (λ o.
            ready-IsValid s h t (record t { state = TaskState.ready }) e v (ground arith)
              (ground (arith, task_at-inv s.tasks h e)) refl)
          (λ _. v)

resume-IsValid : (s : SchedState) (h : ℕ) → IsValid s → IsValid (scheduler_resume_task s (pos h)).1
unfolding scheduler_resume_task make_ready
resume-IsValid s h v =
    option_case AfterValid (task_at s.tasks h) (λ n. v)
      λ t e.
        if_case AfterValid (is_state t.state TaskState.suspended)
          (λ o.
            ready-IsValid s h t (record t { state = TaskState.ready }) e v (ground arith)
              (ground (arith, task_at-inv s.tasks h e)) refl)
          (λ _. v)

unblock-IsValid : (s : SchedState) (h : ℕ) → IsValid s → IsValid (scheduler_unblock s (pos h)).1
unfolding scheduler_unblock make_ready
unblock-IsValid s h v =
    option_case AfterValid (task_at s.tasks h) (λ n. v)
      λ t e.
        if_case AfterValid (is_state t.state TaskState.blocked)
          (λ o.
            ready-IsValid s h t (record t { state = TaskState.ready; block_reason = none }) e v
              (ground arith) (ground (arith, task_at-inv s.tasks h e)) refl)
          (λ _. v)

set_priority-IsValid :
    (s : SchedState) (h p : ℕ) → IsValid s → IsValid (scheduler_set_priority s (pos h) p).1
unfolding scheduler_set_priority
set_priority-IsValid s h p v =
    option_case AfterValid (task_at s.tasks h) (λ n. v)
      λ t e.
        if_case IsValid (is_state t.state TaskState.ready)
          (λ r.
            requeue-IsValid s h t (record t { priority = p }) e v
              (ground (arith, task_at-inv s.tasks h e)) r)
          (λ r. keep-IsValid s h t (record t { priority = p }) e v (ground arith) (ground arith))

get_task-inv :
    (s : SchedState) (z : ℤ) {t : TaskCb}
    → get_task s z ≡ some t
    → task_at s.tasks (index z) ≡ some t
get_task-inv s (pos h) e = e
get_task-inv s (negsuc n) e = absurd (ground arith)

yield-IsValid : (s : SchedState) → IsValid s → IsValid (scheduler_yield s)
unfolding scheduler_yield
yield-IsValid s v =
    option_case IsValid (get_task s s.current_task) (λ _. v)
      λ t e.
        let there = get_task-inv s s.current_task e in
        if_case IsValid (is_state t.state TaskState.running)
          (λ _.
            requeue-IsValid s (index s.current_task) t
              (record t { yield_count = (t.yield_count + 1) % u32_mod; state = TaskState.ready })
              there v (task_at-inv s.tasks (index s.current_task) there).1 refl)
          (λ _. v)

block-IsValid : (s : SchedState) (r : Option CString) → IsValid s → IsValid (scheduler_block s r)
unfolding scheduler_block
block-IsValid s r v =
    option_case IsValid (get_task s s.current_task) (λ _. v)
      λ t e. rw remove-put_task (
        retire-IsValid s (index s.current_task) t
          (record t { state = TaskState.blocked; block_reason = r })
          (get_task-inv s s.current_task e) v (ground arith))

tick_current-IsValid :
    (s : SchedState) (z : ℤ) (now later : ℕ) → IsValid s → IsValid (tick_current s z now later)
unfolding tick_current preempt
tick_current-IsValid s (negsuc n) now later v = with_clock s s.tick_count later v
tick_current-IsValid s (pos h) now later v =
    option_case IsValid (task_at s.tasks h) (λ _. v)
      λ t e.
        let runtime = (now + u64_mod - t.start_time) % u64_mod in
        let s' =
          requeue
            (put_task s h (record t {
              preemption_count = (t.preemption_count + 1) % u32_mod;
              state = TaskState.ready;
              total_runtime = (t.total_runtime + runtime) % u64_mod;
            }))
            h in
        if_case IsValid
          (leb t.time_slice_ms (runtime / 1000 % u32_mod) && is_state t.state TaskState.running)
          (λ _.
            with_clock (record s' { current_task = negsuc 0 }) s'.tick_count later
              (with_current s' (negsuc 0)
                (requeue-IsValid s h t _ e v (task_at-inv s.tasks h e).1 refl)))
          (λ _. with_clock s s.tick_count later v)

-- The calls that a task, an interrupt or another thread can make.
pub data Call : Type 0 where
  create : Option TaskConfig → Call
  destroy start suspend resume unblock : ℤ → Call
  set_priority : ℤ → ℕ → Call
  yields : Call
  block : Option CString → Call
  tick : ℕ → ℕ → Call

unfoldable pub step : SchedState → Call → SchedState
step s (create c) = (scheduler_create_task s c).1
step s (destroy z) = (scheduler_destroy_task s z).1
step s (start z) = (scheduler_start_task s z).1
step s (suspend z) = (scheduler_suspend_task s z).1
step s (resume z) = (scheduler_resume_task s z).1
step s (unblock z) = (scheduler_unblock s z).1
step s (set_priority z p) = (scheduler_set_priority s z p).1
step s yields = scheduler_yield s
step s (block r) = scheduler_block s r
step s (tick now later) = scheduler_tick s now later

unfoldable pub run_calls : SchedState → List Call → SchedState
run_calls s [] = s
run_calls s (c ∷ cs) = run_calls (step s c) cs

-- A handle below zero names no task, and such a call changes nothing.
on_handle :
    (f : SchedState → ℤ → Ret × SchedState) (s : SchedState)
    → ((n : ℕ) → (f s (negsuc n)).1 ≡ s)
    → ((h : ℕ) → IsValid (f s (pos h)).1)
    → (z : ℤ) → IsValid s
    → IsValid (f s z).1
on_handle f s miss hit (pos h) v = hit h
on_handle f s miss hit (negsuc n) v = rw miss v

step-IsValid : (s : SchedState) (c : Call) → IsValid s → IsValid (step s c)
unfolding step scheduler_destroy_task scheduler_start_task scheduler_suspend_task
    scheduler_resume_task scheduler_unblock scheduler_set_priority scheduler_tick
step-IsValid s (create c) v = create-IsValid s c v
step-IsValid s (destroy z) v =
    on_handle scheduler_destroy_task s (λ n. refl) (λ h. destroy-IsValid s h v) z v
step-IsValid s (start z) v =
    on_handle scheduler_start_task s (λ n. refl) (λ h. start-IsValid s h v) z v
step-IsValid s (suspend z) v =
    on_handle scheduler_suspend_task s (λ n. refl) (λ h. suspend-IsValid s h v) z v
step-IsValid s (resume z) v =
    on_handle scheduler_resume_task s (λ n. refl) (λ h. resume-IsValid s h v) z v
step-IsValid s (unblock z) v =
    on_handle scheduler_unblock s (λ n. refl) (λ h. unblock-IsValid s h v) z v
step-IsValid s (set_priority z p) v =
    on_handle (λ s z. scheduler_set_priority s z p) s (λ n. refl)
      (λ h. set_priority-IsValid s h p v) z v
step-IsValid s yields v = yield-IsValid s v
step-IsValid s (block r) v = block-IsValid s r v
step-IsValid s (tick now later) v =
    tick_current-IsValid (record s { tick_count = (s.tick_count + 1) % u32_mod }) s.current_task now
      later (with_clock s _ s.last_tick v)

-- From a valid state, any sequence of calls other than `scheduler_run` leaves the ready queue with each
-- ready task once, with no other task, and in order of priority.
pub run_calls-IsValid : (cs : List Call) (s : SchedState) → IsValid s → IsValid (run_calls s cs)
unfolding run_calls
run_calls-IsValid [] s v = v
run_calls-IsValid (c ∷ cs) s v = run_calls-IsValid cs (step s c) (step-IsValid s c v)
