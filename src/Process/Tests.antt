-- ===== src/Process/Tests.antt =====
-- The process table with one process, and with sixteen that have come to their end.
use akira_os.Prelude.{◌≡◌, refl, true, some, none, [], ◌∷◌, arith, pos, replicate, All-replicate}
use akira_os.Process.{
  ProcOptions, ProcessType, ProcPriority, ProcState, Slot, ProcMgr, boot, max_processes, no_slot,
  in_state, create_thread, begins, ends, akira_process_manager_init, akira_process_create,
  akira_process_start,
}
use akira_os.Process.Life.{
  Action, perform, here, next, ProcValid, SlotValid, Reach-ProcValid, manager_init-ProcValid,
}
use akira_os.Process.Lost.{is_over, create_exhausted}

abbrev worker : ProcOptions
worker = record {
  name = none;
  type = ProcessType.native;
  priority = ProcPriority.normal;
  entry = some 7;
  arg = 0;
  stack_size = 0;
  heap_size = 0;
  capabilities = 0;
}

abbrev ready_table : ProcMgr
ready_table = (akira_process_manager_init boot).1

abbrev with_worker : ProcMgr
with_worker = (akira_process_create ready_table (some worker) 5).1

abbrev started : ProcMgr
started = (akira_process_start with_worker 1 (some 100)).1

Reach-ProcValid_example : ProcValid (perform started Action.cleanup)
Reach-ProcValid_example =
    Reach-ProcValid {P = λ _. Unit {0}} {m = ready_table} {m' = perform started Action.cleanup}
      (next
        (next (next here (Action.create (some worker) 5) tt tt) (Action.start 1 (some 100)) tt tt)
        Action.cleanup tt tt)
      manager_init-ProcValid

-- A process whose code came back.
abbrev over : Slot
over = record (in_state no_slot ProcState.terminated) {
  in_use = true;
  thread = ends ∷ begins ∷ create_thread 3 (pos 10) ∷ [];
  stack = some 3;
}

abbrev all_over : ProcMgr
all_over = record {
  initialized = true;
  slots = replicate max_processes over;
  next_pid = 17;
  process_count = max_processes;
  freed = [];
}

over-SlotValid : SlotValid over
over-SlotValid = ground arith

all_over-ProcValid : ProcValid all_over
all_over-ProcValid = record {
  room = refl;
  counted = refl;
  threads = All-replicate SlotValid max_processes over over-SlotValid;
}

create_exhausted_example :
    akira_process_create (perform all_over Action.cleanup) (some worker) 9
    ≡ (0, perform all_over Action.cleanup)
create_exhausted_example =
    create_exhausted {m = all_over} {m' = perform all_over Action.cleanup} (some worker) 9
      all_over-ProcValid (All-replicate (λ s. is_over s ≡ true) max_processes over refl)
      (next here Action.cleanup tt tt)
