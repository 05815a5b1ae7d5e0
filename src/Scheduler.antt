-- ===== src/Scheduler.antt =====
-- src/resource/scheduler.c: the task table and the ready queue. The mutex is not modelled: each
-- call is one critical section, and `scheduler_run` is two around the task's own code. Readings of
-- the clock are arguments, and so is how the compiler represents priorities. `Scheduler.Api` has the public functions.
mod Order
pub mod Api
pub mod Queue
pub mod Invariant
pub mod Steps
pub mod Run
pub mod Select
pub mod Twice
mod Tests
use akira_os.Prelude.{
  ℕ, ◌+◌, ◌-◌, ◌<◌, Bool, true, false, not, ◌&&◌, ◌||◌, Option, none, some, List, [], ◌∷◌,
  if◌then◌else◌, ltb, leb, ◌==◌, ℤ, pos, negsuc, is_pos, length, get_elem?, set, take, replicate,
  find_index, shift_up, shift_down, or_else, CString,
}

abbrev pub max_tasks : ℕ
max_tasks = 16

pub data TaskState : Type 0 where
  inactive ready running blocked suspended terminated : TaskState

-- The name that is given, or `task_N` from the handle N.
pub data TaskName : Type 0 where
  given : CString → TaskName
  numbered : ℕ → TaskName

-- `struct task_cb`; `entry` names the task's function, `none` is NULL.
pub record TaskCb : Type 0 where
  pub in_use : Bool
  pub name : TaskName
  pub entry : Option ℕ
  pub arg : ℕ
  pub priority : ℕ
  pub state : TaskState
  pub time_slice_ms : ℕ
  pub app_id : ℕ
  pub start_time : ℕ
  pub total_runtime : ℕ
  pub slice_count : ℕ
  pub preemption_count : ℕ
  pub yield_count : ℕ
  pub block_reason : Option CString

pub record SchedState : Type 0 where
  pub initialized : Bool
  pub running : Bool
  pub tasks : List TaskCb
  pub current_task : ℤ
  pub last_tick : ℕ
  pub tick_count : ℕ
  pub power_aware : Bool
  pub ready_queue : List ℕ
  pub ready_count : ℕ

abbrev pub no_task : TaskCb
no_task = record {
  in_use = false;
  name = given [];
  entry = none;
  arg = 0;
  priority = 0;
  state = TaskState.inactive;
  time_slice_ms = 0;
  app_id = 0;
  start_time = 0;
  total_runtime = 0;
  slice_count = 0;
  preemption_count = 0;
  yield_count = 0;
  block_reason = none;
}

-- `sched_state` before `scheduler_init`
abbrev pub boot : SchedState
boot = record {
  initialized = false;
  running = false;
  tasks = replicate max_tasks no_task;
  current_task = pos 0;
  last_tick = 0;
  tick_count = 0;
  power_aware = false;
  ready_queue = replicate max_tasks 0;
  ready_count = 0;
}

-- An entry of the table that is in use.
abbrev pub in_use? : Option TaskCb → Option TaskCb
in_use? none = none
in_use? (some t) = if t.in_use then some t else none

-- `get_task` on the entries of the ready queue, and on a handle of a caller.
abbrev pub task_at : List TaskCb → ℕ → Option TaskCb
task_at tasks h = in_use? (get_elem? tasks h)

abbrev pub get_task : SchedState → ℤ → Option TaskCb
get_task s (pos h) = task_at s.tasks h
get_task s (negsuc n) = none

pub find_free_slot : SchedState → Option ℕ
find_free_slot s = find_index (λ (t : TaskCb). not t.in_use) s.tasks

-- The live part of the ready queue.
abbrev pub queue : SchedState → List ℕ
queue s = take s.ready_count s.ready_queue

-- other && task->priority > other->priority
abbrev pub outranks : List TaskCb → ℕ → ℕ → Bool
outranks tasks priority h = elim (task_at tasks h) [
  | none ↦ false
  | some other ↦ ltb other.priority priority
]

pub add_to_ready_queue : SchedState → ℕ → SchedState
unfolding shift_up
add_to_ready_queue s h = if leb max_tasks s.ready_count then s else elim (task_at s.tasks h) [
  | none ↦ s
  | some task ↦
      let insert_pos =
        or_else (find_index (outranks s.tasks task.priority) (queue s)) s.ready_count in
      record s {
        ready_queue =
            set (shift_up (s.ready_count - insert_pos) insert_pos s.ready_queue) insert_pos h;
        ready_count = s.ready_count + 1;
      }
]

pub remove_from_ready_queue : SchedState → ℕ → SchedState
unfolding shift_down
remove_from_ready_queue s h = elim (find_index (λ x. x == h) (queue s)) [
  | none ↦ s
  | some i ↦ record s {
    ready_queue = shift_down (s.ready_count - 1 - i) i s.ready_queue;
    ready_count = s.ready_count - 1;
  }
]

-- How the compiler represents `sched_priority_t`, whose constants are 0 to 4: as an `unsigned int`, the
-- default of GCC and Clang, or, with short enums, as a type narrower than `int`.
pub data EnumAbi : Type 0 where
  wide narrow : EnumAbi

-- What `best_priority = -1` is where `select_next_task` compares it with a priority: with a wide enum it is
-- converted to UINT_MAX, with a narrow one it is below every priority, which is `none`.
abbrev pub minus_one : EnumAbi → Option ℕ
minus_one EnumAbi.wide = some 4294967295
minus_one EnumAbi.narrow = none

-- The first loop of `select_next_task`, from the value that `best` has at first.
pub best_priority : List TaskCb → List ℕ → Option ℕ → Option ℕ
best_priority tasks [] best = best
best_priority tasks (h ∷ hs) best = best_priority tasks hs (elim (task_at tasks h) [
  | none ↦ best
  | some t ↦ elim best [
    | none ↦ some t.priority
    | some b ↦ if ltb b t.priority then some t.priority else some b
  ]
])

-- task && task->priority == best_priority
abbrev pub is_best : List TaskCb → Option ℕ → ℕ → Bool
is_best tasks none h = false
is_best tasks (some b) h = elim (task_at tasks h) [ none ↦ false | some t ↦ t.priority == b ]

-- The first pass: the next best task after the current one.
pub after_current : List TaskCb → Option ℕ → ℤ → List ℕ → Bool → Option ℕ
after_current tasks best current [] found = none
after_current tasks best current (h ∷ hs) found =
    let rest =
      after_current tasks best current hs (found || is_best tasks best h && is_pos current h) in
    if is_best tasks best h && found then some h else rest

-- The second pass, and the search that follows it: the first best task.
pub first_best : List TaskCb → Option ℕ → List ℕ → Option ℕ
first_best tasks best [] = none
first_best tasks best (h ∷ hs) = if is_best tasks best h then some h else first_best tasks best hs

pub select_next_task : EnumAbi → SchedState → Option ℕ
unfolding best_priority after_current first_best
select_next_task abi s =
    let best = best_priority s.tasks (queue s) (minus_one abi) in
    if s.ready_count == 0
    then none
    else elim (after_current s.tasks best s.current_task (queue s) false) [
      | some h ↦ some h
      | none ↦ first_best s.tasks best (queue s)
    ]
