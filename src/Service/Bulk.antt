-- ===== src/Service/Bulk.antt =====
-- Restarting, and starting and stopping all services, of src/akira/kernel/service.c.
use akira_os.Prelude.{
  ℕ, zero, suc, ◌+◌, ◌%◌, ◌^◌, Bool, true, false, not, ◌&&◌, Option, none, some, List, [],
  if◌then◌else◌, ◌==◌, length, get_elem?, take, CString, Ret, ok, err, Errno, take,
}
use akira_os.Service.{
  ServiceState, Service, ServiceMgr, is_running, find_service, put_service, succeeded,
  akira_service_start, akira_service_stop,
}

-- services[i]->restart_count++
unfoldable pub count_restart : ServiceMgr → ℕ → ServiceMgr
unfolding put_service
count_restart m i = elim (get_elem? m.services i) [
  | none ↦ m
  | some s ↦ put_service m i (record s { restart_count = (s.restart_count + 1) % 2 ^ 32 })
]

abbrev pub is_stopped : ServiceState → Bool
is_stopped ServiceState.stopped = true
is_stopped _ = false

abbrev pub state_at : List Service → ℕ → ServiceState
state_at services i = elim (get_elem? services i) [
  | none ↦ ServiceState.unregistered
  | some s ↦ s.state
]

unfoldable pub akira_service_restart : (ℕ → Ret) → ℕ → ServiceMgr → CString → Ret × ServiceMgr
unfolding find_service count_restart akira_service_start akira_service_stop
akira_service_restart call now m name = elim (find_service m.services name) [
  | none ↦ (err Errno.failed, m)
  | some i ↦
      let r = akira_service_stop m (some name) in
      if not (succeeded r.0) && not (is_stopped (state_at r.1.services i))
      then r
      else akira_service_start call now (count_restart r.1 i) (some name)
]

-- One round of the loop of `akira_service_start_all`, at the index `i`.
abbrev pub is_ready : ServiceState → Bool
is_ready ServiceState.ready = true
is_ready _ = false

unfoldable pub start_at : (ℕ → Ret) → ℕ → ℕ → ServiceMgr → ℕ → ServiceMgr
unfolding akira_service_start
start_at call now priority m i = elim (get_elem? m.services i) [
  | none ↦ m
  | some s ↦
      if s.priority == priority && is_ready s.state
      then (akira_service_start call now m (some s.name)).1
      else m
]

-- The inner loop, with `n` services to go from the index `i`.
unfoldable pub start_level : (ℕ → Ret) → ℕ → ℕ → ServiceMgr → ℕ → ℕ → ServiceMgr
unfolding start_at
start_level call now priority m i zero = m
start_level call now priority m i (suc n) =
    start_level call now priority (start_at call now priority m i) (suc i) n

-- From CRITICAL = 0 to IDLE = 4.
unfoldable pub akira_service_start_all : (ℕ → Ret) → ℕ → ServiceMgr → Ret × ServiceMgr
unfolding start_level
akira_service_start_all call now m =
    let level : ServiceMgr → ℕ → ServiceMgr =
      λ m p. start_level call now p m 0 (length m.services) in
    if not m.initialized
    then (err Errno.failed, m)
    else (ok 0, level (level (level (level (level m 0) 1) 2) 3) 4)

unfoldable pub stop_at : ℕ → ServiceMgr → ℕ → ServiceMgr
unfolding akira_service_stop
stop_at priority m i = elim (get_elem? m.services i) [
  | none ↦ m
  | some s ↦
      if s.priority == priority && is_running s.state
      then (akira_service_stop m (some s.name)).1
      else m
]

-- The inner loop of `akira_service_stop_all`, from the index below `n` down to 0.
unfoldable pub stop_level : ℕ → ServiceMgr → ℕ → ServiceMgr
unfolding stop_at
stop_level priority m zero = m
stop_level priority m (suc i) = stop_level priority (stop_at priority m i) i

unfoldable pub akira_service_stop_all : ServiceMgr → Ret × ServiceMgr
unfolding stop_level
akira_service_stop_all m =
    let level : ServiceMgr → ℕ → ServiceMgr = λ m p. stop_level p m (length m.services) in
    if not m.initialized
    then (err Errno.failed, m)
    else (ok 0, level (level (level (level (level m 4) 3) 2) 1) 0)

pub akira_service_get_state : ServiceMgr → CString → ServiceState
unfolding find_service
akira_service_get_state m name = elim (find_service m.services name) [
  | none ↦ ServiceState.unregistered
  | some i ↦ state_at m.services i
]

pub akira_service_is_running : ServiceMgr → CString → Bool
unfolding akira_service_get_state
akira_service_is_running m name = is_running (akira_service_get_state m name)

-- The services that are listed; `none` is a null array.
pub akira_service_list : ServiceMgr → Option ℕ → List Service
akira_service_list m none = []
akira_service_list m (some max_count) = take max_count m.services

pub akira_service_count : ServiceMgr → ℕ
akira_service_count m = length m.services
