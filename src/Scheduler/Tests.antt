-- ===== src/Scheduler/Tests.antt =====
-- The scheduler with two tasks that are ready.
use akira_os.Prelude.{
  ℕ, ◌≡◌, refl, false, none, some, List, [], ◌∷◌, arith, pos, subst, ◌≤◌, All, All-get, get_elem?,
  Option-cases, inl, inr,
}
use akira_os.Scheduler.{
  SchedState, boot, queue, find_free_slot, add_to_ready_queue, remove_from_ready_queue,
  best_priority, after_current, first_best, select_next_task, EnumAbi, TaskCb,
}
use akira_os.Scheduler.Api.{
  TaskConfig, scheduler_init, scheduler_create_task, new_task, scheduler_start_task, make_ready,
  Dispatch, idle, bad_handle, dispatch, enter, go, scheduler_block, scheduler_run, settle,
  scheduler_yield, requeue,
}
use akira_os.Scheduler.Order.{count}
use akira_os.Scheduler.Queue.{QueueKept, queue_ops-QueueKept}
use akira_os.Scheduler.Invariant.{IsValid, ready_at, priority_at}
use akira_os.Scheduler.Steps.{Call, step, run_calls, run_calls-IsValid}
use akira_os.Scheduler.Run.{scheduler_init-IsValid, scheduler_run-IsValid}
use akira_os.Scheduler.Select.{Chooses, select_next_task-Chooses}
use akira_os.Scheduler.Twice.{settle_twice}

abbrev config_of : ℕ → TaskConfig
config_of priority = record {
  name = none;
  entry = some 1;
  arg = 0;
  priority = priority;
  time_slice_ms = 0;
  app_id = 3;
}

abbrev started : SchedState
started = (scheduler_init boot 7).1

abbrev first_calls : List Call
first_calls =
    Call.create (some (config_of 2))
    ∷ Call.create (some (config_of 3))
    ∷ Call.start (pos 0)
    ∷ Call.start (pos 1)
    ∷ []

abbrev two_ready : SchedState
two_ready = run_calls started first_calls

run_calls-IsValid_example : IsValid (run_calls started first_calls)
run_calls-IsValid_example = run_calls-IsValid first_calls started (scheduler_init-IsValid 7)

low_of_all :
    (tasks : List TaskCb)
    → All (λ (t : TaskCb). t.priority ≤ 4) tasks
    → (h : ℕ) → priority_at tasks h ≤ 4
low_of_all tasks a h = elim (Option-cases (get_elem? tasks h)) [
  | inl n ↦ ground (arith, n)
  | inr (t, e) ↦
      let le = All-get (λ (t : TaskCb). t.priority ≤ 4) tasks h a e in ground (arith, e, le)
]

two_ready_low : All (λ (t : TaskCb). t.priority ≤ 4) two_ready.tasks
unfolding scheduler_init run_calls step scheduler_create_task new_task find_free_slot
    scheduler_start_task make_ready add_to_ready_queue
two_ready_low = ground arith

select_next_task-Chooses_example :
    Chooses two_ready.tasks (select_next_task EnumAbi.narrow two_ready)
    × (select_next_task EnumAbi.wide two_ready ≡ none)
select_next_task-Chooses_example =
    select_next_task-Chooses two_ready run_calls-IsValid_example
      (low_of_all two_ready.tasks two_ready_low)

abbrev one_ready : SchedState
one_ready =
    run_calls started (
      Call.create (some (config_of 2)) ∷ Call.create (some (config_of 3)) ∷ Call.start (pos 0) ∷ [])

one_ready-IsValid : IsValid one_ready
one_ready-IsValid =
    run_calls-IsValid
      (Call.create (some (config_of 2))
        ∷ Call.create (some (config_of 3))
        ∷ Call.start (pos 0)
        ∷ [])
      started (scheduler_init-IsValid 7)

queue_ops-QueueKept_example : QueueKept one_ready 1
queue_ops-QueueKept_example = queue_ops-QueueKept one_ready 1 one_ready-IsValid.fits

settle_twice_example : count 0 (queue (settle two_ready 0 60)) ≡ 2
unfolding scheduler_init run_calls step scheduler_create_task new_task find_free_slot
    scheduler_start_task make_ready add_to_ready_queue
settle_twice_example = settle_twice two_ready 0 60 run_calls-IsValid_example refl (omega arith)

abbrev blocks : ℕ → ℕ → List Call
blocks entry arg = Call.block none ∷ []

abbrev EndsIdle : Dispatch → Type 0
EndsIdle idle = Unit {0}
EndsIdle bad_handle = Unit {0}
EndsIdle (go h s) = ready_at (enter (λ e a s'. run_calls s' (blocks e a)) s h).tasks h ≡ false

blocks-EndsIdle : EndsIdle (dispatch EnumAbi.narrow two_ready 50)
unfolding scheduler_init run_calls step scheduler_create_task new_task find_free_slot
    scheduler_start_task make_ready add_to_ready_queue dispatch select_next_task best_priority
    after_current first_best enter scheduler_block remove_from_ready_queue
blocks-EndsIdle = refl

scheduler_run-IsValid_example :
    IsValid (scheduler_run (λ e a s. run_calls s (blocks e a)) EnumAbi.narrow two_ready 50 60).1
scheduler_run-IsValid_example =
    scheduler_run-IsValid EnumAbi.narrow blocks two_ready 50 60 run_calls-IsValid_example
      (λ h s' q. subst EndsIdle q blocks-EndsIdle)

-- A task that yields is queued twice, and with it the whole of `scheduler_run`, with short enums.
yields_twice :
    count 1 (queue (scheduler_run (λ e a s. scheduler_yield s) EnumAbi.narrow two_ready 50 60).1)
    ≡ 2
unfolding scheduler_init run_calls step scheduler_create_task new_task find_free_slot
    scheduler_start_task make_ready add_to_ready_queue dispatch select_next_task best_priority
    after_current first_best enter remove_from_ready_queue scheduler_run scheduler_yield requeue
    settle
yields_twice = refl
