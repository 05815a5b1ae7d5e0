-- ===== src/Resource/Tests.antt =====
-- The resource manager with one app, which has a quota of 1000 bytes of memory.
use akira_os.Prelude.{ℕ, ◌-◌, ◌<◌, ◌≡◌, ◌↔◌, refl, true, some, List, [], ◌∷◌, arith, ok}
use akira_os.Resource.{
  ResourceType, Amounts, ResState, no_amounts, boot, get_value, set_usage_value, u32_mod,
  resource_manager_init, resource_register_app, resource_unregister_app, new_app, find_app,
  find_free_slot, resource_request, request_for, grant, notify_event, resource_release,
  resource_get_usage, resource_get_quota, resource_available,
}
use akira_os.Resource.Quota.{AllWithin, Call, run, run-init-Within}
use akira_os.Resource.Account.{available-request, request-release, capacity}
use akira_os.Resource.Wrap.{request_wraps}
use akira_os.Resource.Balance.{Balanced, unregister_leaks}
use akira_os.Resource.Booked.{none_yet, and_request, and_release, Booked-Balanced}

abbrev quota_of : ℕ → Amounts
quota_of n = record no_amounts { memory_bytes = n }

abbrev with_app : ResState
with_app = (resource_register_app (resource_manager_init boot).1 5 (some (quota_of 1000))).1

abbrev requested : ResState
requested = (resource_request with_app 5 ResourceType.memory 300).1

abbrev some_calls : List Call
some_calls =
    Call.register 5 (some (quota_of 1000))
    ∷ Call.request 5 ResourceType.memory 300
    ∷ Call.request 5 ResourceType.memory 900
    ∷ Call.release 5 ResourceType.memory 100
    ∷ Call.unregister 5
    ∷ []

run-init-Within_example : AllWithin (run (resource_manager_init boot).1 some_calls)
run-init-Within_example = run-init-Within some_calls

available-request_example :
    (resource_available with_app 5 ResourceType.memory 400 ≡ true)
    ↔ ((resource_request with_app 5 ResourceType.memory 400).0 ≡ ok 0)
available-request_example = available-request with_app 5 ResourceType.memory 400

abbrev granted : ResState
granted = (resource_request requested 5 ResourceType.memory 400).1

request-release_example :
    resource_get_usage (resource_release granted 5 ResourceType.memory 400).1 5
    ≡ (ok 0, some (quota_of 300))
unfolding resource_manager_init resource_register_app new_app find_app find_free_slot
    resource_request request_for grant notify_event resource_get_usage get_value set_usage_value
    capacity
request-release_example =
    request-release requested granted 5 ResourceType.memory 400 {u = quota_of 300} refl
      (omega arith) refl

Booked-Balanced_example :
    Balanced ResourceType.memory (resource_release granted 5 ResourceType.memory 200).1
unfolding resource_manager_init resource_register_app new_app find_app find_free_slot
    resource_request request_for grant notify_event resource_get_usage get_value set_usage_value
    capacity
Booked-Balanced_example =
    Booked-Balanced ResourceType.memory {s = requested}
      {s' = (resource_release granted 5 ResourceType.memory 200).1}
      (and_release {u = quota_of 700} 5 ResourceType.memory 200
        (and_request {r = requested} {r' = granted} 5 ResourceType.memory 400 none_yet (omega arith)
          refl)
        refl (omega arith) refl (omega arith))
      refl

request_wraps_example :
    (s' : ResState) × (v : Amounts) × (resource_request requested 5 ResourceType.memory
        (u32_mod - 100)
      ≡ (ok 0, s'))
    × (resource_get_usage s' 5 ≡ (ok 0, some v))
    × (get_value v ResourceType.memory < get_value (quota_of 300) ResourceType.memory)
unfolding resource_manager_init resource_register_app new_app find_app find_free_slot
    resource_request request_for grant notify_event resource_get_usage resource_get_quota get_value
    set_usage_value capacity
request_wraps_example =
    request_wraps requested 5 ResourceType.memory (u32_mod - 100) {u = quota_of 300}
      {quota = quota_of 1000} refl refl refl (omega arith) (omega arith) (omega arith) (omega arith)

unregister_leaks_example :
    ((resource_unregister_app requested 5).1.system_usage ≡ requested.system_usage)
    × (¬ Balanced ResourceType.memory (resource_unregister_app requested 5).1)
unfolding resource_manager_init resource_register_app new_app find_app find_free_slot
    resource_request request_for grant notify_event resource_get_usage get_value set_usage_value
    capacity
unregister_leaks_example =
    unregister_leaks requested 5 ResourceType.memory {u = quota_of 300} refl refl (omega arith)
