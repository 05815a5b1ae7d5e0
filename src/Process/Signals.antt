-- ===== src/Process/Signals.antt =====
-- The rest of src/akira/kernel/process.c: suspending, resuming, killing, cleaning up, and the thread itself.
use akira_os.Prelude.{
  ℕ, ◌-◌, Bool, true, false, not, ◌&&◌, ◌||◌, none, some, ◌++◌, Ret, ok, err, Errno, if◌then◌else◌,
  ◌==◌, map, count_if,
}
use akira_os.Process.{
  suspend_thread, resume_thread, set_thread_priority, begins, ends, ProcState, ProcPriority,
  ThreadEvent, Slot, ProcMgr, is_native, find_slot_by_pid, slot_at, put_slot, in_state, note_thread,
  give_exit, zephyr_priority, end_thread,
}

abbrev pub is_running : ProcState → Bool
is_running ProcState.running = true
is_running _ = false

abbrev pub is_suspended : ProcState → Bool
is_suspended ProcState.suspended = true
is_suspended _ = false

abbrev pub note_native : ThreadEvent → Slot → Slot
note_native e s = if is_native s.proc.type then note_thread e s else s

unfoldable pub akira_process_suspend : ProcMgr → ℕ → Ret × ProcMgr
unfolding find_slot_by_pid
akira_process_suspend m pid =
    if not m.initialized || pid == 0 then (err Errno.failed, m) else elim (find_slot_by_pid m pid) [
      | none ↦ (err Errno.failed, m)
      | some i ↦ if not (is_running (slot_at m i).proc.state) then (err Errno.failed, m) else (
        ok 0,
        put_slot m i (in_state (note_native suspend_thread (slot_at m i)) ProcState.suspended),
      )
    ]

unfoldable pub akira_process_resume : ProcMgr → ℕ → Ret × ProcMgr
unfolding find_slot_by_pid
akira_process_resume m pid =
    if not m.initialized || pid == 0 then (err Errno.failed, m) else elim (find_slot_by_pid m pid) [
      | none ↦ (err Errno.failed, m)
      | some i ↦ if not (is_suspended (slot_at m i).proc.state) then (err Errno.failed, m) else (
        ok 0,
        put_slot m i (in_state (note_native resume_thread (slot_at m i)) ProcState.running),
      )
    ]

unfoldable pub akira_process_kill : ProcMgr → ℕ → ℕ → Ret × ProcMgr
unfolding find_slot_by_pid end_thread
akira_process_kill m pid exit_code =
    if not m.initialized || pid == 0 then (err Errno.failed, m) else elim (find_slot_by_pid m pid) [
      | none ↦ (err Errno.failed, m)
      | some i ↦
          let slot = slot_at m i in
          let coded = record slot { proc = record slot.proc { exit_code = exit_code } } in
          let (halted, freed) = end_thread coded in
          (
            ok 0,
            record (put_slot m i (give_exit (in_state halted ProcState.zombie))) {
              freed = freed ++ m.freed;
            },
          )
    ]

unfoldable pub akira_process_set_priority : ProcMgr → ℕ → ProcPriority → Ret × ProcMgr
unfolding find_slot_by_pid
akira_process_set_priority m pid priority = elim (find_slot_by_pid m pid) [
  | none ↦ (err Errno.failed, m)
  | some i ↦
      let slot = slot_at m i in
      let changed = record slot { proc = record slot.proc { priority = priority } } in
      (
        ok 0,
        put_slot m i (
            if is_native slot.proc.type && is_running slot.proc.state
            then note_thread (set_thread_priority (zephyr_priority priority)) changed
            else changed),
      )
]

abbrev pub is_zombie : ProcState → Bool
is_zombie ProcState.zombie = true
is_zombie _ = false

abbrev pub reap : Slot → Slot
reap s = if s.in_use && is_zombie s.proc.state then record s { in_use = false } else s

-- The number of slots cleaned is the value.
unfoldable pub akira_process_cleanup : ProcMgr → ℕ × ProcMgr
akira_process_cleanup m =
    let cleaned = count_if (λ (s : Slot). s.in_use && is_zombie s.proc.state) m.slots in
    (cleaned, record m { slots = map reap m.slots; process_count = m.process_count - cleaned })

-- `process_thread_entry` up to the call of the process's own code, and behind it.
unfoldable pub thread_begin : ProcMgr → ℕ → ℕ → ProcMgr
thread_begin m i now =
    let slot = slot_at m i in
    elim slot.proc.entry [
      | none ↦ m
      | some e ↦ put_slot m i (
          note_thread begins (record slot {
            proc = record slot.proc { state = ProcState.running; start_time = now };
          }))
    ]

unfoldable pub thread_end : ProcMgr → ℕ → ProcMgr
thread_end m i =
    let slot = slot_at m i in
    put_slot m i (
      note_thread ends (
        give_exit (record slot {
          proc = record slot.proc { state = ProcState.terminated; exit_code = 0 };
        })))
