-- ===== src/Resource/Wrap.antt =====
-- Sums that wrap at 32 bits in src/resource/resource_manager.c.
use akira_os.Prelude.{
  ℕ, ◌+◌, ◌%◌, ◌≤◌, ◌<◌, ◌≡◌, ap, ◌∙◌, true, some, arith, ok, get_or, find_index,
}
use akira_os.Resource.{
  ResourceType, Amounts, ResState, no_app, u32_mod, get_value, set_usage_value, is_app,
  is_valid_type, resource_request, resource_get_usage, resource_get_quota,
}
use akira_os.Resource.Account.{capacity, entry, get_usage-inv, request-usage, get_usage-hit}

wrapped_falls :
    (u : Amounts) (t : ResourceType) (n : ℕ)
    → n < u32_mod
    → get_value u t < capacity t
    → u32_mod ≤ get_value u t + n
    → get_value (set_usage_value u t ((get_value u t + n) % u32_mod)) t < get_value u t
unfolding get_value set_usage_value capacity
wrapped_falls u t n small fits wraps = ground arith

request_granted :
    (s : ResState) (id i : ℕ) (t : ResourceType) (n : ℕ)
    → find_index (is_app id) s.apps ≡ some i
    → s.initialized ≡ true
    → is_valid_type t ≡ true
    → (get_value (get_or s.apps i no_app).usage t + n) % u32_mod
      ≤ get_value (get_or s.apps i no_app).quota t
    → (s' : ResState) × (resource_request s id t n ≡ (ok 0, s'))
unfolding resource_request
request_granted s id i t n hit on valid le =
    ((resource_request s id t n).1, ground (arith, hit, on, valid, le))

get_quota-hit :
    (s : ResState) (id i : ℕ) {quota : Amounts}
    → find_index (is_app id) s.apps ≡ some i
    → resource_get_quota s id ≡ (ok 0, some quota)
    → (get_or s.apps i no_app).quota ≡ quota
unfolding resource_get_quota
get_quota-hit s id i hit q = ground (arith, hit)

-- The defect: a request of an amount that the field holds, so large that usage and amount pass 2 ^ 32
-- together, is granted if the wrapped sum is within the quota, and the app's recorded usage then falls.
pub request_wraps :
    (s : ResState) (id : ℕ) (t : ResourceType) (n : ℕ) {u quota : Amounts}
    → resource_get_usage s id ≡ (ok 0, some u)
    → resource_get_quota s id ≡ (ok 0, some quota)
    → is_valid_type t ≡ true
    → n < u32_mod
    → get_value u t < capacity t
    → u32_mod ≤ get_value u t + n
    → (get_value u t + n) % u32_mod ≤ get_value quota t
    → (s' : ResState) × (v : Amounts) × (resource_request s id t n ≡ (ok 0, s'))
      × (resource_get_usage s' id ≡ (ok 0, some v))
      × (get_value v t < get_value u t)
unfolding entry
request_wraps s id t n {u} {quota} g q valid small fits wraps le =
    let (i, hit, on, same) = get_usage-inv s id g in
    let same_quota = get_quota-hit s id i hit q in
    let le' : (get_value (get_or s.apps i no_app).usage t + n) % u32_mod
        ≤ get_value (get_or s.apps i no_app).quota t =
      rw (same, same_quota) le in
    let (s', e) = request_granted s id i t n hit on valid le' in
    let (hit', on', _, usage') = request-usage s s' id i t n hit e in
    let falls : get_value (get_or s'.apps i no_app).usage t < get_value u t =
      rw (usage' ∙ ap (λ (x : Amounts). set_usage_value x t ((get_value x t + n) % u32_mod)) same)
        (wrapped_falls u t n small fits wraps) in
    (s', (get_or s'.apps i no_app).usage, e, get_usage-hit s' id i hit' on', falls)
