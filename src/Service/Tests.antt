-- ===== src/Service/Tests.antt =====
-- The service manager on two services, of which one depends on the other.
use akira_os.Prelude.{
  ℕ, ◌≡◌, refl, true, false, none, some, List, [], ◌∷◌, arith, Ret, ok, err, Errno, pos, negsuc,
  str_eq,
}
use akira_os.Service.{
  ServiceState, Service, ServiceMgr, akira_service_register, akira_service_unregister,
  akira_service_get_by_handle, find_service, remove_service, renumber, runs, check_dependencies,
  akira_service_start, start_found, put_service,
}
use akira_os.Service.Support.{Supported, Supported-nil}
use akira_os.Service.Steps.{ServiceCall, call_services, call_services-Supported}
use akira_os.Service.Handles.{
  Numbered-nil, HandlesValid, RegistryCall, call_registry, call_registry-HandlesValid,
  register-get_by_handle,
}

abbrev service_of : ℕ → List (List ℕ) → Service
service_of n deps = record {
  name = n ∷ [];
  priority = 2;
  init = some 1;
  start = some 2;
  stop = none;
  depends_on = deps;
  state = ServiceState.unregistered;
  handle = negsuc 0;
  start_time = 0;
  restart_count = 0;
}

abbrev all_well : ℕ → Ret
all_well f = ok 0

abbrev all_fail : ℕ → Ret
all_fail f = err Errno.enodev

abbrev empty_mgr : ServiceMgr
empty_mgr = record { initialized = true; services = [] }

empty_mgr-HandlesValid : HandlesValid empty_mgr
empty_mgr-HandlesValid = record { room = omega arith; numbered = Numbered-nil }

abbrev two_services : ServiceMgr
two_services =
    (akira_service_register all_well
      (akira_service_register all_well empty_mgr (some (service_of 65 []))).1
      (some (service_of 66 ((65 ∷ []) ∷ [])))).1

abbrev some_calls : List ServiceCall
some_calls =
    ServiceCall.register all_well (some (service_of 65 []))
    ∷ ServiceCall.register all_well (some (service_of 66 ((65 ∷ []) ∷ [])))
    ∷ ServiceCall.start_all all_well 100
    ∷ ServiceCall.stop (65 ∷ [])
    ∷ ServiceCall.restart all_fail 200 (66 ∷ [])
    ∷ ServiceCall.stop_all
    ∷ []

call_services-Supported_example : Supported (call_services empty_mgr some_calls).services
call_services-Supported_example = call_services-Supported some_calls empty_mgr Supported-nil

call_registry-HandlesValid_example : HandlesValid (
    call_registry all_well empty_mgr (
      RegistryCall.register (some (service_of 65 []))
      ∷ RegistryCall.register (some (service_of 66 ((65 ∷ []) ∷ [])))
      ∷ RegistryCall.unregister (pos 0)
      ∷ []))
call_registry-HandlesValid_example =
    call_registry-HandlesValid all_well
      (RegistryCall.register (some (service_of 65 []))
        ∷ RegistryCall.register (some (service_of 66 ((65 ∷ []) ∷ [])))
        ∷ RegistryCall.unregister (pos 0)
        ∷ [])
      empty_mgr empty_mgr-HandlesValid

register-get_by_handle_example :
    akira_service_get_by_handle
      (akira_service_register all_well two_services (some (service_of 67 []))).1
      (pos 2)
    ≡ some (record (service_of 67 []) {
      handle = pos 2;
      state = ServiceState.ready;
      start_time = 0;
      restart_count = 0;
    })
unfolding akira_service_register str_eq
register-get_by_handle_example =
    register-get_by_handle all_well two_services (service_of 67 []) 2 refl

-- Unregistering asks nobody: a running service stays behind without what it depends on.
abbrev both_running : ServiceMgr
both_running =
    (akira_service_start all_well 7 (akira_service_start all_well 5 two_services (some (65 ∷ []))).1
      (some (66 ∷ []))).1

unregister_strands :
    check_dependencies (akira_service_unregister both_running (pos 0)).1.services ((65 ∷ []) ∷ [])
    ≡ false
unfolding akira_service_register akira_service_start start_found put_service check_dependencies runs
    find_service akira_service_unregister akira_service_get_by_handle remove_service renumber str_eq
unregister_strands = refl

still_running : runs (akira_service_unregister both_running (pos 0)).1.services (66 ∷ []) ≡ true
unfolding akira_service_register akira_service_start start_found put_service check_dependencies runs
    find_service akira_service_unregister akira_service_get_by_handle remove_service renumber str_eq
still_running = refl
