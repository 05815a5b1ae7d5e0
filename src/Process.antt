-- ===== src/Process.antt =====
-- src/akira/kernel/process.c: the process table. The mutex is not modelled: each call is one critical
-- section. Threads, their stacks and semaphores are the kernel's: a slot keeps the history of its
-- thread and the calls made on its semaphore, newest first, and the manager the stacks given back.
pub mod Signals
pub mod Life
pub mod Lost
pub mod Query
mod Tests
use akira_os.Prelude.{
  ℕ, ◌+◌, ◌-◌, ◌%◌, ◌^◌, Bool, true, false, not, ◌&&◌, ◌||◌, Option, none, some, List, [], ◌∷◌,
  ◌++◌, Ret, ok, err, Errno, ℤ, pos, negsuc, if◌then◌else◌, ltb, ◌==◌, get_or, set, take, replicate,
  find_index, map, count_if, CString,
}

-- AKIRA_MAX_PROCESSES
abbrev pub max_processes : ℕ
max_processes = 16

pub data ProcessType : Type 0 where
  native wasm container : ProcessType

pub data ProcState : Type 0 where
  absent created ready running blocked suspended terminated zombie : ProcState

pub data ProcPriority : Type 0 where
  idle low normal high realtime : ProcPriority

-- The name that is given, or `proc_N` from the number N.
pub data ProcName : Type 0 where
  given : CString → ProcName
  numbered : ℕ → ProcName

-- `akira_process_t`; `none` for the entry is NULL.
pub record Proc : Type 0 where
  pub name : ProcName
  pub pid : ℕ
  pub type : ProcessType
  pub state : ProcState
  pub priority : ProcPriority
  pub entry : Option ℕ
  pub arg : ℕ
  pub memory_usage : ℕ
  pub cpu_time_us : ℕ
  pub stack_size : ℕ
  pub heap_size : ℕ
  pub capabilities : ℕ
  pub create_time : ℕ
  pub start_time : ℕ
  pub exit_code : ℕ
  pub parent_pid : ℕ

-- `akira_process_options_t`
pub record ProcOptions : Type 0 where
  pub name : Option CString
  pub type : ProcessType
  pub priority : ProcPriority
  pub entry : Option ℕ
  pub arg : ℕ
  pub stack_size : ℕ
  pub heap_size : ℕ
  pub capabilities : ℕ

-- What is asked of a slot's thread, and what the thread does: it begins, and it comes to its end.
pub data ThreadEvent : Type 0 where
  create_thread : ℕ → ℤ → ThreadEvent
  abort_thread suspend_thread resume_thread begins ends : ThreadEvent
  set_thread_priority : ℤ → ThreadEvent

pub data SemEvent : Type 0 where
  give reset : SemEvent

-- `process_slot_t`; the stack is named by a number.
pub record Slot : Type 0 where
  pub proc : Proc
  pub in_use : Bool
  pub thread : List ThreadEvent
  pub stack : Option ℕ
  pub exit_sem : List SemEvent

-- `proc_mgr`; `freed` are the stacks given back.
pub record ProcMgr : Type 0 where
  pub initialized : Bool
  pub slots : List Slot
  pub next_pid : ℕ
  pub process_count : ℕ
  pub freed : List ℕ

abbrev pub no_proc : Proc
no_proc = record {
  name = given [];
  pid = 0;
  type = ProcessType.native;
  state = ProcState.absent;
  priority = ProcPriority.idle;
  entry = none;
  arg = 0;
  memory_usage = 0;
  cpu_time_us = 0;
  stack_size = 0;
  heap_size = 0;
  capabilities = 0;
  create_time = 0;
  start_time = 0;
  exit_code = 0;
  parent_pid = 0;
}

abbrev pub no_slot : Slot
no_slot = record { proc = no_proc; in_use = false; thread = []; stack = none; exit_sem = [] }

-- `proc_mgr` before `akira_process_manager_init`
abbrev pub boot : ProcMgr
boot = record {
  initialized = false;
  slots = replicate max_processes no_slot;
  next_pid = 0;
  process_count = 0;
  freed = [];
}

abbrev pub is_native : ProcessType → Bool
is_native ProcessType.native = true
is_native _ = false

abbrev pub has_pid : ℕ → Slot → Bool
has_pid pid s = s.in_use && s.proc.pid == pid

unfoldable pub find_slot_by_pid : ProcMgr → ℕ → Option ℕ
find_slot_by_pid m pid = find_index (has_pid pid) m.slots

abbrev pub is_free : Slot → Bool
is_free s = not s.in_use

unfoldable pub find_free_slot : ProcMgr → Option ℕ
find_free_slot m = find_index is_free m.slots

abbrev pub slot_at : ProcMgr → ℕ → Slot
slot_at m i = get_or m.slots i no_slot

abbrev pub put_slot : ProcMgr → ℕ → Slot → ProcMgr
put_slot m i s = record m { slots = set m.slots i s }

abbrev pub in_state : Slot → ProcState → Slot
in_state s st = record s { proc = record s.proc { state = st } }

abbrev pub note_thread : ThreadEvent → Slot → Slot
note_thread e s = record s { thread = e ∷ s.thread }

abbrev pub give_exit : Slot → Slot
give_exit s = record s { exit_sem = give ∷ s.exit_sem }

unfoldable pub akira_process_manager_init : ProcMgr → Ret × ProcMgr
akira_process_manager_init m = if m.initialized then (ok 0, m) else (
  ok 0,
  record m {
    slots = replicate max_processes no_slot;
    next_pid = 1;
    process_count = 0;
    initialized = true;
  },
)

-- The process that `akira_process_create` writes into the slot.
unfoldable pub new_proc : ProcOptions → ℕ → ℕ → Proc
new_proc options pid now = record {
  name = elim options.name [ none ↦ numbered pid | some n ↦ given (take 31 n) ];
  pid = pid;
  type = options.type;
  state = ProcState.created;
  priority = options.priority;
  entry = options.entry;
  arg = options.arg;
  memory_usage = 0;
  cpu_time_us = 0;
  stack_size = if ltb 0 options.stack_size then options.stack_size else 4096;
  heap_size = if ltb 0 options.heap_size then options.heap_size else 8192;
  capabilities = options.capabilities;
  create_time = now;
  start_time = 0;
  exit_code = 0;
  parent_pid = 0;
}

-- The pid, or 0.
unfoldable pub akira_process_create : ProcMgr → Option ProcOptions → ℕ → ℕ × ProcMgr
unfolding find_free_slot new_proc
akira_process_create m none now = (0, m)
akira_process_create m (some options) now =
    if not m.initialized then (0, m) else elim (find_free_slot m) [
      | none ↦ (0, m)
      | some i ↦
          let slot = record (slot_at m i) {
            proc = new_proc options m.next_pid now;
            in_use = true;
            exit_sem = reset ∷ (slot_at m i).exit_sem;
          } in
          (
            m.next_pid,
            record (put_slot m i slot) {
              next_pid = (m.next_pid + 1) % 2 ^ 32;
              process_count = m.process_count + 1;
            },
          )
    ]

abbrev pub zephyr_priority : ProcPriority → ℤ
zephyr_priority ProcPriority.realtime = negsuc 4
zephyr_priority ProcPriority.high = pos 5
zephyr_priority ProcPriority.normal = pos 10
zephyr_priority ProcPriority.low = pos 14
zephyr_priority ProcPriority.idle = pos 15

abbrev pub is_startable : ProcState → Bool
is_startable ProcState.created = true
is_startable ProcState.ready = true
is_startable _ = false

-- The part of `akira_process_start` behind the checks; `stack` is what the allocation returns.
pub start_slot : ProcMgr → ℕ → Option ℕ → Ret × ProcMgr
start_slot m i stack =
    let slot = in_state (slot_at m i) ProcState.ready in
    if is_native slot.proc.type
    then elim stack [
      | none ↦ (err Errno.failed, put_slot m i (record slot { stack = none }))
      | some k ↦ (
        ok 0,
        put_slot m i (
            note_thread (create_thread k (zephyr_priority slot.proc.priority))
              (record slot { stack = some k })),
      )
    ]
    else (ok 0, put_slot m i slot)

pub akira_process_start : ProcMgr → ℕ → Option ℕ → Ret × ProcMgr
unfolding find_slot_by_pid start_slot
akira_process_start m pid stack =
    if not m.initialized || pid == 0 then (err Errno.failed, m) else elim (find_slot_by_pid m pid) [
      | none ↦ (err Errno.failed, m)
      | some i ↦
          if not (is_startable (slot_at m i).proc.state)
          then (err Errno.failed, m)
          else start_slot m i stack
    ]

-- `k_thread_abort` of a native process, which gives its stack back: the slot afterwards, and what is
-- given back.
pub end_thread : Slot → Slot × List ℕ
end_thread s =
    if is_native s.proc.type
    then elim s.stack [
      | none ↦ (note_thread abort_thread s, [])
      | some k ↦ (record (note_thread abort_thread s) { stack = none }, k ∷ [])
    ]
    else (s, [])

abbrev pub is_stoppable : ProcState → Bool
is_stoppable ProcState.running = true
is_stoppable ProcState.blocked = true
is_stoppable _ = false

pub akira_process_stop : ProcMgr → ℕ → Ret × ProcMgr
unfolding find_slot_by_pid end_thread
akira_process_stop m pid =
    if not m.initialized || pid == 0 then (err Errno.failed, m) else elim (find_slot_by_pid m pid) [
      | none ↦ (err Errno.failed, m)
      | some i ↦
          if not (is_stoppable (slot_at m i).proc.state)
          then (ok 0, m)
          else let (slot, freed) = end_thread (in_state (slot_at m i) ProcState.terminated) in
            (ok 0, record (put_slot m i (give_exit slot)) { freed = freed ++ m.freed })
    ]
