-- ===== src/Process/Query.antt =====
-- The questions src/akira/kernel/process.c answers about the table, and waiting for an end.
use akira_os.Prelude.{
  ℕ, zero, suc, ◌≡◌, Bool, not, ◌||◌, Option, none, some, List, [], ◌∷◌, arith, Ret, ok, err, Errno,
  if◌then◌else◌, ◌==◌, length, count_if, min,
}
use akira_os.Process.{Slot, Proc, ProcMgr, ProcState, slot_at, find_slot_by_pid}
use akira_os.Process.Life.{ProcValid}

pub akira_process_get : ProcMgr → ℕ → Option Proc
unfolding find_slot_by_pid
akira_process_get m pid = elim (find_slot_by_pid m pid) [
  | none ↦ none
  | some i ↦ some (slot_at m i).proc
]

pub akira_process_get_state : ProcMgr → ℕ → ProcState
unfolding akira_process_get
akira_process_get_state m pid = elim (akira_process_get m pid) [
  | none ↦ ProcState.absent
  | some p ↦ p.state
]

pub akira_process_memory_usage : ProcMgr → ℕ → ℕ
unfolding akira_process_get
akira_process_memory_usage m pid = elim (akira_process_get m pid) [
  | none ↦ 0
  | some p ↦ p.memory_usage
]

pub akira_process_cpu_time : ProcMgr → ℕ → ℕ
unfolding akira_process_get
akira_process_cpu_time m pid = elim (akira_process_get m pid) [ none ↦ 0 | some p ↦ p.cpu_time_us ]

pub akira_process_count : ProcMgr → ℕ
akira_process_count m = m.process_count

-- The loop of `akira_process_list` with room for `n` more pids.
pub list_from : List Slot → ℕ → List ℕ
list_from [] n = []
list_from (s ∷ ss) zero = []
list_from (s ∷ ss) (suc n) =
    let rest = list_from ss n in
    let others = list_from ss (suc n) in if s.in_use then s.proc.pid ∷ rest else others

-- The pids written; their number is the value.
pub akira_process_list : ProcMgr → ℕ → List ℕ
unfolding list_from
akira_process_list m max_count = list_from m.slots max_count

-- `taken` is what the semaphore answers within the time; the exit code is read behind it, from the
-- slot found before, as it is then.
pub akira_process_wait : ProcMgr → ℕ → Bool → ProcMgr → Ret × Option ℕ
unfolding find_slot_by_pid
akira_process_wait m pid taken later =
    if not m.initialized || pid == 0
    then (err Errno.failed, none)
    else elim (find_slot_by_pid m pid) [
      | none ↦ (err Errno.failed, none)
      | some i ↦
          if taken then (ok 0, some (slot_at later i).proc.exit_code) else (err Errno.failed, none)
    ]

length-list_from :
    (xs : List Slot) (n : ℕ)
    → length (list_from xs n) ≡ min n (count_if (λ (s : Slot). s.in_use) xs)
unfolding list_from
length-list_from [] n = omega arith
length-list_from (s ∷ ss) zero = omega arith
length-list_from (s ∷ ss) (suc n) =
    ground (arith, length-list_from ss n, length-list_from ss (suc n))

-- In a valid table the list with room for `n` pids has as many entries as the count of processes says,
-- and never more than there is room for.
pub length-akira_process_list :
    (m : ProcMgr) (n : ℕ)
    → ProcValid m
    → length (akira_process_list m n) ≡ min n (akira_process_count m)
unfolding akira_process_list akira_process_count
length-akira_process_list m n v = omega (arith, length-list_from m.slots n, v.counted)
