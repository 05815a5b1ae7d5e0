-- ===== src/Scheduler/Api.antt =====
-- The public functions of src/resource/scheduler.c.
use akira_os.Prelude.{
  ℕ, ◌+◌, ◌-◌, ◌/◌, ◌%◌, ◌^◌, Bool, true, false, not, ◌&&◌, ◌||◌, Option, none, some, map, Ret, ok,
  err, Errno, ℤ, pos, negsuc, is_pos, if◌then◌else◌, ltb, leb, get_elem?, set, take, CString,
}
use akira_os.Scheduler.{
  TaskState, no_task, given, numbered, TaskCb, SchedState, get_task, task_at, find_free_slot,
  add_to_ready_queue, remove_from_ready_queue, select_next_task, EnumAbi,
}

abbrev pub default_time_slice_ms : ℕ
default_time_slice_ms = 10

abbrev pub u32_mod : ℕ
u32_mod = 2 ^ 32

abbrev pub u64_mod : ℕ
u64_mod = 2 ^ 64

-- `struct task_config`
pub record TaskConfig : Type 0 where
  pub name : Option CString
  pub entry : Option ℕ
  pub arg : ℕ
  pub priority : ℕ
  pub time_slice_ms : ℕ
  pub app_id : ℕ

-- tasks[h] = t
abbrev pub put_task : SchedState → ℕ → TaskCb → SchedState
put_task s h t = record s { tasks = set s.tasks h t }

abbrev pub is_state : TaskState → TaskState → Bool
is_state TaskState.inactive TaskState.inactive = true
is_state TaskState.ready TaskState.ready = true
is_state TaskState.running TaskState.running = true
is_state TaskState.blocked TaskState.blocked = true
is_state TaskState.suspended TaskState.suspended = true
is_state TaskState.terminated TaskState.terminated = true
is_state _ _ = false

unfoldable pub scheduler_init : SchedState → ℕ → Ret × SchedState
scheduler_init s now = if s.initialized then (ok 0, s) else (
  ok 0,
  record s {
    tasks = map (λ (t : TaskCb). record t { in_use = false }) s.tasks;
    current_task = negsuc 0;
    ready_count = 0;
    running = false;
    power_aware = false;
    tick_count = 0;
    last_tick = now;
    initialized = true;
  },
)

-- The entry that `scheduler_create_task` writes; the start time is the one that was there.
unfoldable pub new_task : TaskConfig → ℕ → TaskCb → TaskCb
new_task config handle old = record {
  in_use = true;
  name = elim config.name [ none ↦ numbered handle | some n ↦ given (take 31 n) ];
  entry = config.entry;
  arg = config.arg;
  priority = config.priority;
  state = TaskState.inactive;
  time_slice_ms =
      if ltb 0 config.time_slice_ms then config.time_slice_ms else default_time_slice_ms;
  app_id = config.app_id;
  start_time = old.start_time;
  total_runtime = 0;
  slice_count = 0;
  preemption_count = 0;
  yield_count = 0;
  block_reason = none;
}

-- The index of a handle that `get_task` accepts.
abbrev pub index : ℤ → ℕ
index (pos h) = h
index (negsuc n) = 0

unfoldable pub scheduler_create_task : SchedState → Option TaskConfig → Ret × SchedState
scheduler_create_task s none = (err Errno.einval, s)
scheduler_create_task s (some config) = elim config.entry [
  | none ↦ (err Errno.einval, s)
  | some entry ↦ if not s.initialized then (err Errno.einval, s) else elim (find_free_slot s) [
    | none ↦ (err Errno.enomem, s)
    | some h ↦
        let old : TaskCb = elim (get_elem? s.tasks h) [ none ↦ no_task | some t ↦ t ] in
        (ok h, put_task s h (new_task config h old))
  ]
]

unfoldable pub scheduler_destroy_task : SchedState → ℤ → Ret × SchedState
scheduler_destroy_task s z = elim (get_task s z) [
  | none ↦ (err Errno.enoent, s)
  | some t ↦
      let s1 = remove_from_ready_queue s (index z) in
      let s2 =
        if is_pos s.current_task (index z) then record s1 { current_task = negsuc 0 } else s1 in
      (ok 0, put_task s2 (index z) (record t { in_use = false }))
]

-- Mark the task ready, and queue it.
unfoldable pub make_ready : SchedState → ℕ → TaskCb → SchedState
make_ready s h t = add_to_ready_queue (put_task s h (record t { state = TaskState.ready })) h

unfoldable pub scheduler_start_task : SchedState → ℤ → Ret × SchedState
scheduler_start_task s z = elim (get_task s z) [
  | none ↦ (err Errno.enoent, s)
  | some t ↦
      if is_state t.state TaskState.inactive || is_state t.state TaskState.suspended
      then (ok 0, make_ready s (index z) t)
      else (err Errno.einval, s)
]

unfoldable pub scheduler_suspend_task : SchedState → ℤ → Ret × SchedState
scheduler_suspend_task s z = elim (get_task s z) [
  | none ↦ (err Errno.enoent, s)
  | some t ↦ (
    ok 0,
    remove_from_ready_queue (put_task s (index z) (record t { state = TaskState.suspended }))
        (index z),
  )
]

unfoldable pub scheduler_resume_task : SchedState → ℤ → Ret × SchedState
scheduler_resume_task s z = elim (get_task s z) [
  | none ↦ (err Errno.enoent, s)
  | some t ↦
      if is_state t.state TaskState.suspended
      then (ok 0, make_ready s (index z) t)
      else (err Errno.einval, s)
]

-- Take the task out of the queue, and queue it again.
unfoldable pub requeue : SchedState → ℕ → SchedState
requeue s h = add_to_ready_queue (remove_from_ready_queue s h) h

unfoldable pub scheduler_set_priority : SchedState → ℤ → ℕ → Ret × SchedState
scheduler_set_priority s z priority = elim (get_task s z) [
  | none ↦ (err Errno.enoent, s)
  | some t ↦
      let s1 = put_task s (index z) (record t { priority = priority }) in
      (ok 0, (if is_state t.state TaskState.ready then requeue s1 (index z) else s1))
]

unfoldable pub scheduler_get_state : SchedState → ℤ → TaskState
scheduler_get_state s z = elim (get_task s z) [ none ↦ TaskState.inactive | some t ↦ t.state ]

unfoldable pub scheduler_yield : SchedState → SchedState
scheduler_yield s = elim (get_task s s.current_task) [
  | none ↦ s
  | some t ↦
      let h = index s.current_task in
      if is_state t.state TaskState.running
      then requeue
          (put_task s h
            (record t { yield_count = (t.yield_count + 1) % u32_mod; state = TaskState.ready }))
          h
      else s
]

unfoldable pub scheduler_block : SchedState → Option CString → SchedState
scheduler_block s reason = elim (get_task s s.current_task) [
  | none ↦ s
  | some t ↦
      let h = index s.current_task in
      remove_from_ready_queue
        (put_task s h (record t { state = TaskState.blocked; block_reason = reason })) h
]

unfoldable pub scheduler_unblock : SchedState → ℤ → Ret × SchedState
scheduler_unblock s z = elim (get_task s z) [
  | none ↦ (err Errno.enoent, s)
  | some t ↦
      if is_state t.state TaskState.blocked
      then (ok 0, make_ready s (index z) (record t { block_reason = none }))
      else (err Errno.einval, s)
]

-- The preemption in `scheduler_tick`.
unfoldable pub preempt : SchedState → ℕ → TaskCb → ℕ → SchedState
preempt s h t runtime =
    record (requeue
      (put_task s h (record t {
        preemption_count = (t.preemption_count + 1) % u32_mod;
        state = TaskState.ready;
        total_runtime = (t.total_runtime + runtime) % u64_mod;
      }))
      h) { current_task = negsuc 0 }

-- What `scheduler_tick` does to the current task. `now` is read for the running time, `later` at
-- the end; a current task that is not in use ends the function early.
unfoldable pub tick_current : SchedState → ℤ → ℕ → ℕ → SchedState
tick_current s (negsuc n) now later = record s { last_tick = later }
tick_current s (pos h) now later = elim (task_at s.tasks h) [
  | none ↦ s
  | some t ↦
      let runtime = (now + u64_mod - t.start_time) % u64_mod in
      if leb t.time_slice_ms (runtime / 1000 % u32_mod) && is_state t.state TaskState.running
      then record (preempt s h t runtime) { last_tick = later }
      else record s { last_tick = later }
]

unfoldable pub scheduler_tick : SchedState → ℕ → ℕ → SchedState
scheduler_tick s now later =
    tick_current (record s { tick_count = (s.tick_count + 1) % u32_mod }) s.current_task now later

-- The first critical section of `scheduler_run`: the task selected, and the state in which it runs.
pub data Dispatch : Type 0 where
  idle bad_handle : Dispatch
  go : ℕ → SchedState → Dispatch

unfoldable pub dispatch : EnumAbi → SchedState → ℕ → Dispatch
dispatch abi s now = elim (select_next_task abi s) [
  | none ↦ idle
  | some h ↦ elim (task_at s.tasks h) [
    | none ↦ bad_handle
    | some t ↦ go h (
        remove_from_ready_queue
          (put_task (record s { current_task = pos h }) h
            (record t {
              state = TaskState.running;
              slice_count = (t.slice_count + 1) % u32_mod;
              start_time = now;
            }))
          h)
  ]
]

-- The second one, after the task's code has returned. The table entry is used as it stands.
unfoldable pub settle : SchedState → ℕ → ℕ → SchedState
settle s h now = elim (get_elem? s.tasks h) [
  | none ↦ record s { current_task = negsuc 0 }
  | some t ↦
      let t' = record t {
        total_runtime = (t.total_runtime + (now + u64_mod - t.start_time)) % u64_mod;
      } in
      record (if is_state t.state TaskState.running
        then put_task s h (record t' { state = TaskState.terminated })
        else if is_state t.state TaskState.ready
        then add_to_ready_queue (put_task s h t') h
        else put_task s h t') { current_task = negsuc 0 }
]

-- What a task's code does to the scheduler's state, by the calls that it makes, is `run_entry`.
module _ (run_entry : ℕ → ℕ → SchedState → SchedState) where
  -- the call of `task->entry`
  unfoldable pub enter : SchedState → ℕ → SchedState
  enter s h = elim (get_elem? s.tasks h) [
    | none ↦ s
    | some t ↦ elim t.entry [ none ↦ s | some entry ↦ run_entry entry t.arg s ]
  ]

  unfoldable pub scheduler_run : EnumAbi → SchedState → ℕ → ℕ → Ret × SchedState
  scheduler_run abi s now later =
      if not s.initialized then (err Errno.enodev, s) else elim (dispatch abi s now) [
        | idle ↦ (ok 0, s)
        | bad_handle ↦ (err Errno.einval, s)
        | go h s' ↦ (ok 1, settle (enter s' h) h later)
      ]

-- `struct task_stats`, whose fields are `uint32_t`
pub record TaskStats : Type 0 where
  pub total_runtime_us : ℕ
  pub num_slices : ℕ
  pub num_preemptions : ℕ
  pub num_yields : ℕ
  pub last_run_us : ℕ
  pub avg_slice_us : ℕ

pub scheduler_get_stats : SchedState → ℤ → Ret × Option TaskStats
scheduler_get_stats s z = elim (get_task s z) [
  | none ↦ (err Errno.enoent, none)
  | some t ↦ (
    ok 0,
    some (record {
      total_runtime_us = t.total_runtime % u32_mod;
      num_slices = t.slice_count;
      num_preemptions = t.preemption_count;
      num_yields = t.yield_count;
      last_run_us = 0;
      avg_slice_us = if ltb 0 t.slice_count then (t.total_runtime / t.slice_count) % u32_mod else 0;
    }),
  )
]

pub scheduler_set_power_aware : SchedState → Bool → SchedState
scheduler_set_power_aware s enable = record s { power_aware = enable }

pub scheduler_current_task : SchedState → ℤ
scheduler_current_task s = s.current_task
