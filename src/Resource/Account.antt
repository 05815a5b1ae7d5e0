-- ===== src/Resource/Account.antt =====
-- What a request and a release do to an app's account and to the system total.
use akira_os.Prelude.{
  ℕ, ◌+◌, ◌-◌, ◌%◌, ◌<◌, ◌≡◌, ◌↔◌, refl, sym, ap, ◌∙◌, inl, inr, true, Option, some, List, arith,
  Ret, ok, if◌then◌else◌, leb, Option-cases, get_elem?, get_or, set, find_index, find_index-Found,
  find_index-set, get_or_of_get_elem?, get_elem?-set_self, lt_of_get_elem?,
}
use akira_os.Resource.{
  ResourceType, Amounts, AppResources, ResState, no_app, u32_mod, u16_mod, get_value,
  set_usage_value, is_app, is_valid_type, resource_request, release_for, resource_release,
  resource_get_usage, resource_available,
}

-- `resource_available` foretells `resource_request`: it says yes exactly where a request of the
-- same amount is granted.
pub available-request :
    (s : ResState) (id : ℕ) (t : ResourceType) (n : ℕ)
    → (resource_available s id t n ≡ true) ↔ ((resource_request s id t n).0 ≡ ok 0)
unfolding resource_available resource_request
available-request s id t n = ground arith

-- An amount that its field can hold: 16 bits for the two counts, 32 bits for the others.
unfoldable pub capacity : ResourceType → ℕ
capacity ResourceType.file_handles = u16_mod
capacity ResourceType.sockets = u16_mod
capacity _ = u32_mod

pub get-set_usage_value :
    (a : Amounts) (t : ResourceType) (v : ℕ)
    → v < capacity t
    → is_valid_type t ≡ true
    → get_value (set_usage_value a t v) t ≡ v
unfolding get_value set_usage_value capacity
get-set_usage_value a t v h valid = ground arith

pub set-set_usage_value :
    (a : Amounts) (t : ResourceType) (v : ℕ)
    → get_value a t < capacity t
    → set_usage_value (set_usage_value a t v) t (get_value a t) ≡ a
unfolding get_value set_usage_value capacity
set-set_usage_value a t v h = ground arith

module _ (s : ResState) (id i : ℕ) (hit : find_index (is_app id) s.apps ≡ some i) where
  unfoldable pub entry : AppResources
  entry = get_or s.apps i no_app

  pub entry_there : get_elem? s.apps i ≡ some entry
  unfolding entry
  entry_there =
      let f = find_index-Found (is_app id) s.apps i hit in
      f.there ∙ ap some (sym (get_or_of_get_elem? s.apps i no_app f.there))

  pub request_apps :
      (t : ResourceType) (n : ℕ) {s' : ResState}
      → resource_request s id t n ≡ (ok 0, s')
      → let app = entry in
        (s'.apps
          ≡ set s.apps i (record app {
            usage = set_usage_value app.usage t ((get_value app.usage t + n) % u32_mod);
          }))
        × (s'.initialized ≡ true)
        × (is_valid_type t ≡ true)
  unfolding resource_request entry
  request_apps t n e = (ground (arith, hit), ground (arith, hit), ground (arith, hit))

  pub request_total :
      (t : ResourceType) (n : ℕ) {s' : ResState}
      → resource_request s id t n ≡ (ok 0, s')
      → s'.system_usage
        ≡ set_usage_value s.system_usage t ((get_value s.system_usage t + n) % u32_mod)
  unfolding resource_request
  request_total t n e = ground (arith, hit)

  -- A write to the entry that keeps its owner is found again under the same name.
  find_again :
      (v : AppResources)
      → is_app id v ≡ is_app id entry
      → (find_index (is_app id) (set s.apps i v) ≡ some i) × (get_or (set s.apps i v) i no_app ≡ v)
  unfolding entry
  find_again v e = (
    find_index-set (is_app id) s.apps i entry v entry_there e ∙ hit,
    get_or_of_get_elem? (set s.apps i v) i no_app
        (get_elem?-set_self s.apps i v (lt_of_get_elem? s.apps i entry_there)),
  )

  pub get_usage-hit : s.initialized ≡ true → resource_get_usage s id ≡ (ok 0, some entry.usage)
  unfolding resource_get_usage entry
  get_usage-hit on = ground (arith, hit)

  pub release-hit :
      (t : ResourceType) (n : ℕ)
      → s.initialized ≡ true
      → is_valid_type t ≡ true
      → (resource_release s id t n).1 ≡ release_for s i entry t n
  unfolding resource_release entry
  release-hit t n on valid = ground (arith, hit)

pub request-inv :
    (s s' : ResState) (id : ℕ) (t : ResourceType) (n : ℕ)
    → resource_request s id t n ≡ (ok 0, s')
    → (i : ℕ) × (find_index (is_app id) s.apps ≡ some i)
unfolding resource_request
request-inv s s' id t n e = elim (Option-cases (find_index (is_app id) s.apps)) [
  | inl m ↦ absurd (ground (arith, m))
  | inr (i, h) ↦ (i, h)
]

pub get_usage-inv :
    (s : ResState) (id : ℕ) {u : Amounts}
    → resource_get_usage s id ≡ (ok 0, some u)
    → (i : ℕ) × (find_index (is_app id) s.apps ≡ some i)
      × (s.initialized ≡ true)
      × ((get_or s.apps i no_app).usage ≡ u)
unfolding resource_get_usage
get_usage-inv s id e = elim (Option-cases (find_index (is_app id) s.apps)) [
  | inl m ↦ absurd (ground arith)
  | inr (i, h) ↦ (i, h, ground arith, ground arith)
]

-- After releasing, the entry holds what the release leaves.
release-usage :
    (s : ResState) (id i : ℕ) (t : ResourceType) (n : ℕ)
    → (hit : find_index (is_app id) s.apps ≡ some i) → s.initialized ≡ true
    → is_valid_type t ≡ true
    → let u = (get_or s.apps i no_app).usage in
      resource_get_usage (resource_release s id t n).1 id
      ≡ (ok 0, some (set_usage_value u t (get_value u t - n)))
unfolding release_for entry
release-usage s id i t n hit on valid =
    let app = get_or s.apps i no_app in
    let current = get_value app.usage t in
    let v : AppResources = record app {
      usage = set_usage_value app.usage t (if leb current n then 0 else current - n);
    } in
    let again = find_again s id i hit v refl in
    let left : (if leb current n then 0 else current - n) ≡ current - n = ground arith in
    rw (release-hit s id i hit t n on valid) (
      get_usage-hit (release_for s i app t n) id i again.0 on
      ∙ ap {B = Ret × Option Amounts} (λ (a : AppResources). (ok 0, some a.usage)) again.1
      ∙ ap {B = Ret × Option Amounts} (λ x. (ok 0, some (set_usage_value app.usage t x))) left)

pub request-usage :
    (s s' : ResState) (id i : ℕ) (t : ResourceType) (n : ℕ)
    → find_index (is_app id) s.apps ≡ some i
    → resource_request s id t n ≡ (ok 0, s')
    → let u = (get_or s.apps i no_app).usage in
      (find_index (is_app id) s'.apps ≡ some i)
      × (s'.initialized ≡ true)
      × (is_valid_type t ≡ true)
      × ((get_or s'.apps i no_app).usage ≡ set_usage_value u t ((get_value u t + n) % u32_mod))
unfolding entry
request-usage s s' id i t n hit e =
    let app = get_or s.apps i no_app in
    let v : AppResources = record app {
      usage = set_usage_value app.usage t ((get_value app.usage t + n) % u32_mod);
    } in
    let (apps, on, valid) = request_apps s id i hit t n e in
    let again = find_again s id i hit v refl in
    (
      ap (find_index (is_app id)) apps ∙ again.0,
      on,
      valid,
      ap (λ (xs : List AppResources). (get_or xs i no_app).usage) apps
          ∙ ap (λ (a : AppResources). a.usage) again.1,
    )

give_back :
    (u : Amounts) (t : ResourceType) (n : ℕ)
    → get_value u t + n < capacity t
    → let x = set_usage_value u t ((get_value u t + n) % u32_mod) in
      set_usage_value x t (get_value x t - n) ≡ u
unfolding get_value set_usage_value capacity
give_back u t n room = ground arith

-- A request that is granted, with a sum that its field can hold, and a release of the same amount
-- leave the app's usage as it was.
pub request-release :
    (s s' : ResState) (id : ℕ) (t : ResourceType) (n : ℕ) {u : Amounts}
    → resource_get_usage s id ≡ (ok 0, some u)
    → get_value u t + n < capacity t
    → resource_request s id t n ≡ (ok 0, s')
    → resource_get_usage (resource_release s' id t n).1 id ≡ (ok 0, some u)
request-release s s' id t n {u} g room e =
    let (i, hit, on, same) = get_usage-inv s id g in
    let (hit', on', valid, usage') = request-usage s s' id i t n hit e in
    let granted : (get_or s'.apps i no_app).usage
        ≡ set_usage_value u t ((get_value u t + n) % u32_mod) =
      usage' ∙ ap (λ (x : Amounts). set_usage_value x t ((get_value x t + n) % u32_mod)) same in
    release-usage s' id i t n hit' on' valid
    ∙ ap {B = Ret × Option Amounts}
        (λ (x : Amounts). (ok 0, some (set_usage_value x t (get_value x t - n)))) granted
    ∙ ap {B = Ret × Option Amounts} (λ (x : Amounts). (ok 0, some x)) (give_back u t n room)
