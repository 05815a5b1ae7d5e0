-- ===== src/Resource/Quota.antt =====
-- No history of calls takes an app's usage over its quota (src/resource/resource_manager.c).
use akira_os.Prelude.{
  ℕ, ◌+◌, ◌%◌, ◌≤◌, ◌≡◌, sym, subst, inl, inr, Bool, not, Option, none, some, List, [], ◌∷◌, map,
  arith, Ret, if_case, ltb, ◌==◌, Option-cases, get_or, All, All-set, All-get, All-replicate,
  find_index, find_index-Found, get_or_of_get_elem?,
}
use akira_os.Resource.{
  ResourceType, Amounts, AppResources, ResState, no_amounts, no_app, max_apps, u32_mod, boot,
  get_value, set_usage_value, is_app, is_free, is_valid_type, resource_manager_init, new_app,
  resource_register_app, resource_unregister_app, resource_set_default_quota, grant, request_for,
  resource_request, release_for, resource_release, resource_reset_usage, resource_register_callback,
}

-- No resource of the entry is used beyond its quota.
pub record Within (a : AppResources) : Type 0 where
  pub within : (t : ResourceType) → get_value a.usage t ≤ get_value a.quota t

abbrev pub AllWithin : ResState → Type 0
AllWithin s = All Within s.apps

pub get_value-no_amounts : (t : ResourceType) → get_value no_amounts t ≡ 0
unfolding get_value
get_value-no_amounts t = ground arith

-- What is stored is at most the value given, and no other resource changes.
pub get_value-set_usage_value-le :
    (a : Amounts) (t u : ResourceType) (v k : ℕ)
    → get_value a u ≤ k
    → (t ≡ u → v ≤ k)
    → get_value (set_usage_value a t v) u ≤ k
unfolding get_value set_usage_value
get_value-set_usage_value-le a t u v k h p = ground arith

set_usage-Within :
    (a : AppResources) (t : ResourceType) (v : ℕ)
    → Within a
    → v ≤ get_value a.quota t
    → Within (record a { usage = set_usage_value a.usage t v })
set_usage-Within a t v w h = record {
  within = λ u.
      get_value-set_usage_value-le a.usage t u v (get_value a.quota u) (w.within u)
        λ e. subst (λ x. v ≤ get_value a.quota x) e h;
}

empty-Within : (a : AppResources) → Within (record a { usage = no_amounts })
empty-Within a = record { within = λ t. omega (arith, get_value-no_amounts t) }

-- The entry that a search in the table hits is one of the table.
hit-Within :
    (s : ResState) (p : AppResources → Bool) (i : ℕ)
    → AllWithin s
    → find_index p s.apps ≡ some i
    → Within (get_or s.apps i no_app)
hit-Within s p i w e =
    let f = find_index-Found p s.apps i e in
    subst Within (sym (get_or_of_get_elem? s.apps i no_app f.there))
      (All-get Within s.apps i w f.there)

map-Within :
    (f : AppResources → AppResources) (xs : List AppResources)
    → ((a : AppResources) → Within a → Within (f a))
    → All Within xs
    → All Within (map f xs)
map-Within f [] h w = tt
map-Within f (x ∷ xs) h w = (h x w.0, map-Within f xs h w.1)

abbrev AfterWithin : Ret × ResState → Type 0
AfterWithin r = AllWithin r.1

register-Within :
    (s : ResState) (id : ℕ) (q : Option Amounts)
    → AllWithin s
    → AllWithin (resource_register_app s id q).1
unfolding resource_register_app
register-Within s id q w =
    if_case AfterWithin (not s.initialized) (λ _. w)
      λ _. elim (Option-cases (find_index (is_app id) s.apps)) [
        | inr (i, e) ↦ rw (e, resource_register_app) w
        | inl n ↦ elim (Option-cases (find_index is_free s.apps)) [
          | inl m ↦ rw (n, m) w
          | inr (i, e) ↦
              rw (n, e) (All-set Within s.apps i (new_app s id q) w (empty-Within (new_app s id q)))
        ]
      ]

unregister-Within :
    (s : ResState) (id : ℕ) → AllWithin s → AllWithin (resource_unregister_app s id).1
unfolding resource_unregister_app
unregister-Within s id w =
    if_case AfterWithin (not s.initialized) (λ _. w)
      λ _. elim (Option-cases (find_index (is_app id) s.apps)) [
        | inl n ↦ rw (n, resource_unregister_app) w
        | inr (i, e) ↦
            rw (e, resource_unregister_app)
              (All-set Within s.apps i _ w
                (record { within = (hit-Within s (is_app id) i w e).within }))
      ]

request_for-Within :
    (s : ResState) (i : ℕ) (app : AppResources) (t : ResourceType) (n : ℕ)
    → AllWithin s
    → Within app
    → AllWithin (request_for s i app t n).1
unfolding request_for
request_for-Within s i app t n w a =
    if_case AfterWithin (ltb (get_value app.quota t) ((get_value app.usage t + n) % u32_mod))
      (λ _. w)
      λ le.
        let v = (get_value app.usage t + n) % u32_mod in
        let granted = All-set Within s.apps i _ w (set_usage-Within app t v a (ground arith)) in
        if_case AllWithin _ {y = grant s i app t n} (λ _. granted) (λ _. granted)

request-Within :
    (s : ResState) (id : ℕ) (t : ResourceType) (n : ℕ)
    → AllWithin s
    → AllWithin (resource_request s id t n).1
unfolding resource_request
request-Within s id t n w =
    if_case AfterWithin (not s.initialized) (λ _. w)
      λ _.
        if_case AfterWithin (not (is_valid_type t)) (λ _. w)
          λ _. elim (Option-cases (find_index (is_app id) s.apps)) [
            | inl m ↦ rw (m, resource_request) w
            | inr (i, e) ↦
                rw (e, resource_request)
                  (request_for-Within s i (get_or s.apps i no_app) t n w
                    (hit-Within s (is_app id) i w e))
          ]

release_for-Within :
    (s : ResState) (i : ℕ) (app : AppResources) (t : ResourceType) (n : ℕ)
    → AllWithin s
    → Within app
    → AllWithin (release_for s i app t n)
unfolding release_for
release_for-Within s i app t n w a =
    All-set Within s.apps i _ w (set_usage-Within app t _ a (ground (arith, a.within t)))

release-Within :
    (s : ResState) (id : ℕ) (t : ResourceType) (n : ℕ)
    → AllWithin s
    → AllWithin (resource_release s id t n).1
unfolding resource_release
release-Within s id t n w =
    if_case AfterWithin (not s.initialized) (λ _. w)
      λ _.
        if_case AfterWithin (not (is_valid_type t)) (λ _. w)
          λ _. elim (Option-cases (find_index (is_app id) s.apps)) [
            | inl m ↦ rw (m, resource_release) w
            | inr (i, e) ↦
                rw (e, resource_release)
                  (release_for-Within s i (get_or s.apps i no_app) t n w
                    (hit-Within s (is_app id) i w e))
          ]

reset-Within : (s : ResState) (id : ℕ) → AllWithin s → AllWithin (resource_reset_usage s id).1
unfolding resource_reset_usage
reset-Within s id w =
    if_case AfterWithin (not s.initialized) (λ _. w)
      λ _.
        if_case AfterWithin (id == 0)
          (λ _.
            map-Within _ s.apps (λ a h. if_case Within a.in_use (λ _. empty-Within a) (λ _. h)) w)
          λ _. elim (Option-cases (find_index (is_app id) s.apps)) [
            | inl m ↦ rw (m, resource_reset_usage) w
            | inr (i, e) ↦
                rw (e, resource_reset_usage)
                  (All-set Within s.apps i _ w (empty-Within (get_or s.apps i no_app)))
          ]

init-Within : (s : ResState) → AllWithin s → AllWithin (resource_manager_init s).1
unfolding resource_manager_init
init-Within s w =
    if_case AfterWithin s.initialized (λ _. w)
      λ _. map-Within _ s.apps (λ a h. record { within = h.within }) w

-- The calls of the interface that change usage or quotas, but for `resource_update_quota`, which
-- may set a quota below what is in use.
pub data Call : Type 0 where
  register : ℕ → Option Amounts → Call
  unregister reset_usage : ℕ → Call
  set_default_quota : Option Amounts → Call
  request release : ℕ → ResourceType → ℕ → Call
  register_callback : Option ℕ → ℕ → Call

pub step : ResState → Call → ResState
step s (register id q) = (resource_register_app s id q).1
step s (unregister id) = (resource_unregister_app s id).1
step s (reset_usage id) = (resource_reset_usage s id).1
step s (set_default_quota q) = resource_set_default_quota s q
step s (request id t n) = (resource_request s id t n).1
step s (release id t n) = (resource_release s id t n).1
step s (register_callback c u) = (resource_register_callback s c u).1

pub run : ResState → List Call → ResState
run s [] = s
run s (c ∷ cs) = run (step s c) cs

step-Within : (s : ResState) (c : Call) → AllWithin s → AllWithin (step s c)
unfolding step resource_set_default_quota resource_register_callback
step-Within s (register id q) w = register-Within s id q w
step-Within s (unregister id) w = unregister-Within s id w
step-Within s (reset_usage id) w = reset-Within s id w
step-Within s (set_default_quota none) w = w
step-Within s (set_default_quota (some q)) w = w
step-Within s (request id t n) w = request-Within s id t n w
step-Within s (release id t n) w = release-Within s id t n w
step-Within s (register_callback none u) w = w
step-Within s (register_callback (some c) u) w = if_case AfterWithin _ (λ _. w) (λ _. w)

run-Within : (s : ResState) (cs : List Call) → AllWithin s → AllWithin (run s cs)
unfolding run
run-Within s [] w = w
run-Within s (c ∷ cs) w = run-Within (step s c) cs (step-Within s c w)

-- After any history of registrations, requests, releases and resets from the start of the system,
-- no app's recorded usage of any resource is above its quota, whatever amounts were asked for.
pub run-init-Within : (cs : List Call) → AllWithin (run (resource_manager_init boot).1 cs)
run-init-Within cs =
    run-Within (resource_manager_init boot).1 cs
      (init-Within boot (All-replicate Within max_apps no_app (empty-Within no_app)))
