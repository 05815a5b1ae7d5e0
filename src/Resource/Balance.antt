-- ===== src/Resource/Balance.antt =====
-- The accounts of src/resource/resource_manager.c: the system total beside what the apps hold, and the apps
-- that leave without giving back what they hold.
use akira_os.Prelude.{
  ℕ, ◌+◌, ◌-◌, ◌%◌, ◌≤◌, ◌<◌, ◌≡◌, ap, true, false, some, arith, ok, if◌then◌else◌, leb, get_or,
  sum_by, sum_by-set, find_index, find_index-Found, get_or_of_get_elem?, le-sum_by,
}
use akira_os.Resource.{
  ResourceType, Amounts, AppResources, ResState, no_app, u32_mod, get_value, set_usage_value,
  is_app, is_valid_type, resource_unregister_app, resource_request, release_for, resource_release,
  resource_get_usage,
}
use akira_os.Resource.Account.{
  capacity, get-set_usage_value, request_apps, entry, entry_there, get_usage-inv, request_total,
  request-inv, release-hit,
}

-- What an entry in use holds of a resource.
abbrev pub held : ResourceType → AppResources → ℕ
held t a = if a.in_use then get_value a.usage t else 0

-- The system total is the sum of what the apps hold.
abbrev pub Balanced : ResourceType → ResState → Type 0
Balanced t s = get_value s.system_usage t ≡ sum_by (held t) s.apps

entry-in_use :
    (s : ResState) (id i : ℕ)
    → find_index (is_app id) s.apps ≡ some i
    → (get_or s.apps i no_app).in_use ≡ true
entry-in_use s id i hit =
    let f = find_index-Found (is_app id) s.apps i hit in
    let same = get_or_of_get_elem? s.apps i no_app f.there in rw same (ground (arith, f.passes))

get-set_small :
    (a : Amounts) (t : ResourceType) (n : ℕ)
    → is_valid_type t ≡ true
    → get_value a t + n < capacity t
    → get_value (set_usage_value a t ((get_value a t + n) % u32_mod)) t ≡ get_value a t + n
unfolding get_value set_usage_value capacity
get-set_small a t n valid room = ground arith

pub request-Balanced :
    (s s' : ResState) (id : ℕ) (t : ResourceType) (n : ℕ)
    → Balanced t s
    → get_value s.system_usage t + n < capacity t
    → resource_request s id t n ≡ (ok 0, s')
    → Balanced t s'
unfolding entry
request-Balanced s s' id t n b room e =
    let (i, hit) = request-inv s s' id t n e in
    let app = get_or s.apps i no_app in
    let there = entry_there s id i hit in
    let v : AppResources = record app {
      usage = set_usage_value app.usage t ((get_value app.usage t + n) % u32_mod);
    } in
    let (apps, on, valid) = request_apps s id i hit t n e in
    let used = entry-in_use s id i hit in
    let below = le-sum_by (held t) s.apps i app there in
    rw (apps, request_total s id i hit t n e)
      (ground (
        arith,
        valid,
        used,
        below,
        get-set_small app.usage t n,
        get-set_small s.system_usage t n,
        sum_by-set (held t) s.apps i app v there,
      ))

pub release-Balanced :
    (s : ResState) (id : ℕ) (t : ResourceType) (n : ℕ) {u : Amounts}
    → Balanced t s
    → get_value s.system_usage t < capacity t
    → resource_get_usage s id ≡ (ok 0, some u)
    → is_valid_type t ≡ true
    → n ≤ get_value u t
    → Balanced t (resource_release s id t n).1
unfolding release_for entry
release-Balanced s id t n {u} b room g valid le =
    let (i, hit, on, same) = get_usage-inv s id g in
    let app = get_or s.apps i no_app in
    let there = entry_there s id i hit in
    let v : AppResources = record app {
      usage =
          set_usage_value app.usage t
            (if leb (get_value app.usage t) n then 0 else get_value app.usage t - n);
    } in
    let used = entry-in_use s id i hit in
    let below = le-sum_by (held t) s.apps i app there in
    let held_u : get_value app.usage t ≡ get_value u t = ap (λ (x : Amounts). get_value x t) same in
    rw (release-hit s id i hit t n on valid) (
      ground (
        arith,
        used,
        below,
        held_u,
        get-set_usage_value app.usage t
            (if leb (get_value app.usage t) n then 0 else get_value app.usage t - n),
        get-set_usage_value s.system_usage t (get_value s.system_usage t - n),
        sum_by-set (held t) s.apps i app v there,
      ))

-- The defect: from a balanced state, unregistering an app that holds something of a resource leaves all
-- system totals as they were, and so that of the resource out of balance.
pub unregister_leaks :
    (s : ResState) (id : ℕ) (t : ResourceType) {u : Amounts}
    → Balanced t s
    → resource_get_usage s id ≡ (ok 0, some u)
    → 0 < get_value u t
    → ((resource_unregister_app s id).1.system_usage ≡ s.system_usage)
      × (¬ Balanced t (resource_unregister_app s id).1)
unfolding resource_unregister_app entry
unregister_leaks s id t {u} b g some_held =
    let (i, hit, on, same) = get_usage-inv s id g in
    (
      ground (arith, hit),
      λ w. ground (
        arith,
        hit,
        entry-in_use s id i hit,
        sum_by-set (held t) s.apps i (get_or s.apps i no_app)
            (record (get_or s.apps i no_app) { in_use = false }) (entry_there s id i hit),
      ),
    )
