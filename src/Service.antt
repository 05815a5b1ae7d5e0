-- ===== src/Service.antt =====
-- src/akira/kernel/service.c: the service manager. `services` is the array up to `count`, with the
-- descriptors in place of the pointers: no two entries have one name, so no two are one object. The
-- mutex is not modelled; each call is one critical section. Callbacks are named by numbers, and
-- what they return is the parameter `call`; they do not call the manager.
pub mod Bulk
pub mod Support
pub mod Steps
pub mod Handles
mod Tests
use akira_os.Prelude.{
  ℕ, zero, suc, ◌+◌, ◌%◌, ◌^◌, Bool, true, false, not, ◌&&◌, ◌||◌, Option, none, some, List, [],
  ◌∷◌, ◌++◌, if◌then◌else◌, ltb, leb, ◌==◌, length, get_elem?, set, take, find_index, CString,
  str_eq, Ret, ok, err, Errno, ℤ, pos, negsuc, take,
}

-- AKIRA_MAX_SERVICES
abbrev pub max_services : ℕ
max_services = 16

pub data ServiceState : Type 0 where
  unregistered registered initializing ready starting running stopping stopped error : ServiceState

-- `akira_service_t`; the priority is the number of the source's enum.
pub record Service : Type 0 where
  pub name : CString
  pub priority : ℕ
  pub init : Option ℕ
  pub start : Option ℕ
  pub stop : Option ℕ
  pub depends_on : List CString
  pub state : ServiceState
  pub handle : ℤ
  pub start_time : ℕ
  pub restart_count : ℕ

-- `service_mgr`
pub record ServiceMgr : Type 0 where
  pub initialized : Bool
  pub services : List Service

abbrev pub is_running : ServiceState → Bool
is_running ServiceState.running = true
is_running _ = false

-- READY or STOPPED
abbrev pub is_startable : ServiceState → Bool
is_startable ServiceState.ready = true
is_startable ServiceState.stopped = true
is_startable _ = false

abbrev pub is_named : CString → Service → Bool
is_named name s = str_eq s.name name

-- The index of the service that `find_service` points to.
pub find_service : List Service → CString → Option ℕ
find_service services name = find_index (is_named name) services

abbrev pub runs_at : List Service → ℕ → Bool
runs_at services i = elim (get_elem? services i) [ none ↦ false | some s ↦ is_running s.state ]

-- The state of the service that has the name is RUNNING.
pub runs : List Service → CString → Bool
unfolding find_service
runs services name = elim (find_service services name) [
  | none ↦ false
  | some i ↦ runs_at services i
]

pub check_dependencies : List Service → List CString → Bool
unfolding runs
check_dependencies services [] = true
check_dependencies services (dep ∷ deps) =
    if not (runs services dep) then false else check_dependencies services deps

-- strcmp(*dep, name) == 0 for one of the names
pub depends : List CString → CString → Bool
depends [] name = false
depends (dep ∷ deps) name = if str_eq dep name then true else depends deps name

-- The loop of `akira_service_stop`: a running service depends on the name.
pub is_needed : List Service → CString → Bool
unfolding depends
is_needed [] name = false
is_needed (other ∷ others) name =
    if is_running other.state && depends other.depends_on name then true else is_needed others name

pub put_service : ServiceMgr → ℕ → Service → ServiceMgr
put_service m i s = record m { services = set m.services i s }

pub akira_service_manager_init : ServiceMgr → Ret × ServiceMgr
akira_service_manager_init m =
    if m.initialized then (ok 0, m) else (ok 0, record m { services = []; initialized = true })

-- ret == 0
abbrev pub succeeded : Ret → Bool
succeeded (ok n) = n == 0
succeeded (err e) = false

abbrev pub answers : (ℕ → Ret) → Option ℕ → Ret
answers call none = ok 0
answers call (some f) = call f

-- `none` is a null service, or one without a name. INVALID_HANDLE is -1.
pub akira_service_register : (ℕ → Ret) → ServiceMgr → Option Service → Ret × ServiceMgr
unfolding find_service
akira_service_register call m none = (err Errno.failed, m)
akira_service_register call m (some service) =
    if not m.initialized
    then (err Errno.failed, m)
    else elim (find_service m.services service.name) [
      | some i ↦ (err Errno.failed, m)
      | none ↦
          if leb max_services (length m.services)
          then (err Errno.failed, m)
          else let handle = length m.services in
            let entry : ServiceState → Service = λ state. record service {
              handle = pos handle;
              state = state;
              start_time = 0;
              restart_count = 0;
            } in
            if succeeded (answers call service.init)
            then (ok handle, record m { services = m.services ++ (entry ServiceState.ready ∷ []) })
            else (
              err Errno.failed,
              record m { services = m.services ++ (entry ServiceState.error ∷ []) },
            )
    ]

-- The shift in `akira_service_unregister`: the services from the index `j` on get their new handles.
pub renumber : ℕ → List Service → List Service
renumber j [] = []
renumber j (s ∷ ss) = record s { handle = pos j } ∷ renumber (suc j) ss

-- Remove the entry `i` places behind the index `j`.
pub remove_service : ℕ → ℕ → List Service → List Service
unfolding renumber
remove_service i j [] = []
remove_service zero j (s ∷ ss) = renumber j ss
remove_service (suc i) j (s ∷ ss) = s ∷ remove_service i (suc j) ss

pub akira_service_get_by_handle : ServiceMgr → ℤ → Option Service
akira_service_get_by_handle m (negsuc n) = none
akira_service_get_by_handle m (pos h) = get_elem? m.services h

-- What is returned of the descriptor is what it holds afterwards.
pub akira_service_unregister : ServiceMgr → ℤ → Ret × ServiceMgr
unfolding akira_service_get_by_handle remove_service
akira_service_unregister m (negsuc n) = (err Errno.failed, m)
akira_service_unregister m (pos h) =
    if not m.initialized
    then (err Errno.failed, m)
    else elim (akira_service_get_by_handle m (pos h)) [
      | none ↦ (err Errno.failed, m)
      | some s ↦ (ok 0, record m { services = remove_service h 0 m.services })
    ]

-- `akira_service_start` once the service is found at the index `i`; `now` is k_uptime_get_32().
pub start_found : (ℕ → Ret) → ℕ → ServiceMgr → ℕ → Service → Ret × ServiceMgr
unfolding check_dependencies put_service
start_found call now m i s =
    if is_running s.state
    then (ok 0, m)
    else if not (is_startable s.state)
    then (err Errno.failed, m)
    else if not (check_dependencies m.services s.depends_on)
    then (err Errno.failed, m)
    else if succeeded (answers call s.start)
    then (ok 0, put_service m i (record s { state = ServiceState.running; start_time = now }))
    else (answers call s.start, put_service m i (record s { state = ServiceState.error }))

pub akira_service_start : (ℕ → Ret) → ℕ → ServiceMgr → Option CString → Ret × ServiceMgr
unfolding find_service start_found
akira_service_start call now m none = (err Errno.failed, m)
akira_service_start call now m (some name) =
    if not m.initialized then (err Errno.failed, m) else elim (find_service m.services name) [
      | none ↦ (err Errno.failed, m)
      | some i ↦ elim (get_elem? m.services i) [
        | none ↦ (err Errno.failed, m)
        | some s ↦ start_found call now m i s
      ]
    ]

-- `akira_service_stop` once the service is found.
pub stop_found : ServiceMgr → CString → ℕ → Service → Ret × ServiceMgr
unfolding is_needed put_service
stop_found m name i s =
    if not (is_running s.state)
    then (ok 0, m)
    else if is_needed m.services name
    then (err Errno.failed, m)
    else (ok 0, put_service m i (record s { state = ServiceState.stopped }))

pub akira_service_stop : ServiceMgr → Option CString → Ret × ServiceMgr
unfolding find_service stop_found
akira_service_stop m none = (err Errno.failed, m)
akira_service_stop m (some name) =
    if not m.initialized then (err Errno.failed, m) else elim (find_service m.services name) [
      | none ↦ (err Errno.failed, m)
      | some i ↦ elim (get_elem? m.services i) [
        | none ↦ (err Errno.failed, m)
        | some s ↦ stop_found m name i s
      ]
    ]
