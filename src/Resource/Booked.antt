-- ===== src/Resource/Booked.antt =====
-- Histories of requests and releases in src/resource/resource_manager.c, of several resources.
use akira_os.Prelude.{
  ℕ, ◌+◌, ◌-◌, ◌≤◌, ◌<◌, ◌≡◌, ◌≢◌, ap, sym, subst, ◌∙◌, true, some, arith, ok, if◌then◌else◌, leb,
  ◌==◌, eq_of_==, if_case, inl, inr, Bool-cases, set, [], ◌∷◌, get_or, sum_by, sum_by-set,
  find_index,
}
use akira_os.Resource.{
  ResourceType, Amounts, AppResources, ResState, no_app, get_value, set_usage_value, is_app,
  is_valid_type, resource_request, release_for, resource_release, resource_get_usage,
}
use akira_os.Resource.Account.{
  capacity, request_apps, entry, entry_there, get_usage-inv, request_total, request-inv,
  release-hit,
}
use akira_os.Resource.Balance.{held, Balanced, request-Balanced, release-Balanced}

-- Each resource has a field of its own.
rank : ResourceType → ℕ
rank ResourceType.memory = 0
rank ResourceType.cpu_time = 1
rank ResourceType.storage = 2
rank ResourceType.network_tx = 3
rank ResourceType.network_rx = 4
rank ResourceType.file_handles = 5
rank ResourceType.sockets = 6
rank ResourceType.invalid = 7

of_rank : ℕ → ResourceType
of_rank n =
    get_or
      (ResourceType.memory ∷ ResourceType.cpu_time ∷ ResourceType.storage ∷ ResourceType.network_tx
        ∷ ResourceType.network_rx ∷ ResourceType.file_handles ∷ ResourceType.sockets ∷ [])
      n ResourceType.invalid

of_rank-rank : (t : ResourceType) → of_rank (rank t) ≡ t
unfolding of_rank rank
of_rank-rank t = ground arith

eq_of_rank : (t o : ResourceType) → rank t ≡ rank o → t ≡ o
eq_of_rank t o e = sym (of_rank-rank t) ∙ ap of_rank e ∙ of_rank-rank o

get-set_other :
    (a : Amounts) (t o : ResourceType) (v : ℕ)
    → rank t ≢ rank o
    → get_value (set_usage_value a o v) t ≡ get_value a t
unfolding get_value set_usage_value rank
get-set_other a t o v ne = ground arith

-- What happens to one resource leaves the account of another balanced.
other-Balanced :
    (s : ResState) (id i : ℕ) (t o : ResourceType) (v w : ℕ)
    → rank t ≢ rank o
    → find_index (is_app id) s.apps ≡ some i
    → Balanced t s
    → get_value (set_usage_value s.system_usage o w) t
      ≡ sum_by (held t) (
          set s.apps i (record (get_or s.apps i no_app) {
            usage = set_usage_value (get_or s.apps i no_app).usage o v;
          }))
unfolding entry
other-Balanced s id i t o v w ne hit b =
    let app = get_or s.apps i no_app in
    let app' : AppResources = record app { usage = set_usage_value app.usage o v } in
    let there = entry_there s id i hit in
    let kept : held t app' ≡ held t app =
      ap (λ x. if app.in_use then x else 0) (get-set_other app.usage t o v ne) in
    get-set_other s.system_usage t o w ne
    ∙ b
    ∙ omega (arith, kept, sum_by-set (held t) s.apps i app app' there)

request_other-Balanced :
    (s s' : ResState) (id : ℕ) (t o : ResourceType) (n : ℕ)
    → rank t ≢ rank o
    → Balanced t s
    → resource_request s id o n ≡ (ok 0, s')
    → Balanced t s'
unfolding entry
request_other-Balanced s s' id t o n ne b e =
    let (i, hit) = request-inv s s' id o n e in
    let (apps, on, valid) = request_apps s id i hit o n e in
    rw (apps, request_total s id i hit o n e) (other-Balanced s id i t o _ _ ne hit b)

release_other-Balanced :
    (s : ResState) (id : ℕ) (t o : ResourceType) (n : ℕ) {u : Amounts}
    → rank t ≢ rank o
    → Balanced t s
    → resource_get_usage s id ≡ (ok 0, some u)
    → is_valid_type o ≡ true
    → Balanced t (resource_release s id o n).1
unfolding release_for entry
release_other-Balanced s id t o n ne b g valid =
    let (i, hit, on, same) = get_usage-inv s id g in
    let app = get_or s.apps i no_app in
    let v = if leb (get_value app.usage o) n then 0 else get_value app.usage o - n in
    let P : Amounts → Type 0 = λ total.
      get_value total t
      ≡ sum_by (held t) (set s.apps i (record app { usage = set_usage_value app.usage o v })) in
    rw (release-hit s id i hit o n on valid) (
      if_case P (leb n (get_value s.system_usage o))
        (λ _. other-Balanced s id i t o v (get_value s.system_usage o - n) ne hit b)
        λ _. sym (get-set_other s.system_usage t o 0 ne) ∙ other-Balanced s id i t o v 0 ne hit b)

-- A history of requests that are granted and whose sum the total can hold, and of releases of no more
-- than the app holds, of any resources.
pub data Booked (s : ResState) : ResState → Type 0 where
  none_yet : Booked s s
  and_request :
      {r r' : ResState} (id : ℕ) (o : ResourceType) (n : ℕ)
      → Booked s r
      → get_value r.system_usage o + n < capacity o
      → resource_request r id o n ≡ (ok 0, r')
      → Booked s r'
  and_release :
      {r : ResState} {u : Amounts} (id : ℕ) (o : ResourceType) (n : ℕ)
      → Booked s r
      → is_valid_type o ≡ true
      → get_value r.system_usage o < capacity o
      → resource_get_usage r id ≡ (ok 0, some u)
      → n ≤ get_value u o
      → Booked s (resource_release r id o n).1

request_any-Balanced :
    (s s' : ResState) (id : ℕ) (t o : ResourceType) (n : ℕ)
    → Balanced t s
    → get_value s.system_usage o + n < capacity o
    → resource_request s id o n ≡ (ok 0, s')
    → Balanced t s'
request_any-Balanced s s' id t o n b room e = elim (Bool-cases (rank t == rank o)) [
  | inl q ↦
      let same = eq_of_rank t o (eq_of_== (rank t) (rank o) q) in
      subst (λ x. Balanced x s') (sym same)
        (request-Balanced s s' id o n (subst (λ x. Balanced x s) same b) room e)
  | inr q ↦ request_other-Balanced s s' id t o n (ground arith) b e
]

release_any-Balanced :
    (s : ResState) (id : ℕ) (t o : ResourceType) (n : ℕ) {u : Amounts}
    → Balanced t s
    → get_value s.system_usage o < capacity o
    → resource_get_usage s id ≡ (ok 0, some u)
    → is_valid_type o ≡ true
    → n ≤ get_value u o
    → Balanced t (resource_release s id o n).1
release_any-Balanced s id t o n b room g valid le = elim (Bool-cases (rank t == rank o)) [
  | inl q ↦
      let same = eq_of_rank t o (eq_of_== (rank t) (rank o) q) in
      subst (λ x. Balanced x (resource_release s id o n).1) (sym same)
        (release-Balanced s id o n (subst (λ x. Balanced x s) same b) room g valid le)
  | inr q ↦ release_other-Balanced s id t o n (ground arith) b g valid
]

-- From a state in which the system total of a resource is the sum of what the apps hold of it, it is so
-- after any history of granted requests that the totals can hold and of releases of no more than is
-- held, of this and of other resources.
pub Booked-Balanced :
    (t : ResourceType) {s s' : ResState} → Booked s s' → Balanced t s → Balanced t s'
Booked-Balanced t none_yet b = b
Booked-Balanced t (and_request id o n h room e) b =
    request_any-Balanced _ _ id t o n (Booked-Balanced t h b) room e
Booked-Balanced t (and_release id o n h valid room g le) b =
    release_any-Balanced _ id t o n (Booked-Balanced t h b) room g valid le
