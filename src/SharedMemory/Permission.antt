-- ===== src/SharedMemory/Permission.antt =====
-- The permissions of src/ipc/shared_memory.c: what is set for an app is what is checked for it.
use akira_os.Prelude.{
  ℕ, zero, suc, ◌≡◌, ◌≢◌, refl, ap, ◌∙◌, inl, inr, Bool, true, not, none, some, List, [], ◌∷◌, ◌++◌,
  arith, if◌then◌else◌, if_case, option_case, Option-cases, leb, ◌==◌, ==_refl, eq_of_==, length,
  get_elem?, set, find_index, Ret, ok, pos,
}
use akira_os.SharedMemory.{
  Region, PermEntry, ShmemState, Perm, region_at, get_current_app_id, covers, find_entry,
  check_permission, max_perm_entries, shmem_set_permission,
}

-- The answer of the first entry that passes, or the default.
first : (PermEntry → Bool) → (PermEntry → Bool) → Bool → List PermEntry → Bool
first p f d [] = d
first p f d (e ∷ es) = if p e then f e else first p f d es

module _ (p f : PermEntry → Bool) (d : Bool) where
  first-find :
      (es : List PermEntry)
      → elim (find_index p es) [
        | none ↦ d
        | some i ↦ elim (get_elem? es i) [ none ↦ d | some e ↦ f e ]
      ]
        ≡ first p f d es
  unfolding first
  first-find [] = refl
  first-find (e ∷ es) = elim (Option-cases (find_index p es)) [
    | inl n ↦ ground (arith, first-find es)
    | inr (i, q) ↦ ground (arith, first-find es)
  ]

  first-set :
      (es : List PermEntry) (i : ℕ) (e : PermEntry)
      → find_index p es ≡ some i
      → p e ≡ true
      → first p f d (set es i e) ≡ f e
  unfolding first
  first-set [] i e q t = absurd (ground arith)
  first-set (x ∷ xs) zero e q t = ground arith
  first-set (x ∷ xs) (suc i) e q t = ground (arith, first-set xs i e)

  first-append :
      (es : List PermEntry) (e : PermEntry)
      → find_index p es ≡ none
      → p e ≡ true
      → first p f d (es ++ (e ∷ [])) ≡ f e
  unfolding first
  first-append [] e q t = ground arith
  first-append (x ∷ xs) e q t = ground (arith, first-append xs e)

-- The test for one app, and the answer for what is required.
abbrev is_for : ℕ → PermEntry → Bool
is_for app e = e.app_id == app

check_permission-first :
    (r : Region) (app : ℕ) (required : Perm)
    → check_permission r app required ≡ (
        if app == r.owner_id
        then true
        else first
            (is_for app)
            (λ e. covers e.perm required)
            (covers r.default_perm required)
            r.perm_entries)
unfolding check_permission find_entry
check_permission-first r app required =
    ap (λ b. if app == r.owner_id then true else b)
      (first-find (is_for app) (λ e. covers e.perm required) (covers r.default_perm required)
        r.perm_entries)

region_at-set_self :
    (xs : List Region) (h : ℕ) (x x' : Region)
    → region_at xs h ≡ some x
    → x'.in_use ≡ x.in_use
    → region_at (set xs h x') h ≡ some x'
region_at-set_self [] h x x' e u = absurd (ground arith)
region_at-set_self (y ∷ ys) zero x x' e u =
    let used : x.in_use ≡ true =
      if_case (λ o. o ≡ some x → x.in_use ≡ true) y.in_use (λ t q. ground (arith, q, t))
        (λ _ q. absurd (ground arith)) e in
    ground arith
region_at-set_self (y ∷ ys) (suc h) x x' e u = region_at-set_self ys h x x' e u

-- The test of an app that is not the owner is what the entries say.
check-other :
    (r : Region) (app : ℕ) (required : Perm) (b : Bool)
    → app ≢ r.owner_id
    → first
        (is_for app)
        (λ e. covers e.perm required)
        (covers r.default_perm required)
        r.perm_entries
      ≡ b
    → check_permission r app required ≡ b
check-other r app required b ne e =
    check_permission-first r app required
    ∙ if_case (λ c. c ≡ b) (app == r.owner_id) (λ o. absurd (ne (eq_of_== app r.owner_id o)))
        (λ _. e)

-- Where setting the permission of an app other than the caller succeeds, what is checked for that app
-- in the region, in the state that the call leaves, is the permission that was set.
pub set_permission-check_permission :
    (s : ShmemState) (h app : ℕ) (perm : Perm)
    → app ≢ get_current_app_id
    → (shmem_set_permission s (pos h) app perm).0 ≡ ok 0
    → (r : Region) × (region_at (shmem_set_permission s (pos h) app perm).1.regions h ≡ some r)
      × ((required : Perm) → check_permission r app required ≡ covers perm required)
unfolding shmem_set_permission find_entry
set_permission-check_permission s h app perm ne =
    let P : Ret × ShmemState → Type 0 = λ w.
      w.0 ≡ ok 0
      → (r : Region) × (region_at w.1.regions h ≡ some r)
        × ((required : Perm) → check_permission r app required ≡ covers perm required) in
    let entry : PermEntry = record { app_id = app; perm = perm } in
    option_case P (region_at s.regions h) (λ _ q. absurd (ground arith))
      λ x e.
        if_case P (not (x.owner_id == get_current_app_id)) (λ _ q. absurd (ground arith))
          λ own.
            let other : app ≢ x.owner_id =
              λ q. ne (q ∙ eq_of_== x.owner_id get_current_app_id (ground arith)) in
            let done : (es : List PermEntry)
                → ((required : Perm)
                    → first (is_for app) (λ e. covers e.perm required)
                        (covers x.default_perm required) es
                      ≡ covers perm required)
                → (r : Region) × (region_at (set s.regions h (record x { perm_entries = es })) h
                    ≡ some r)
                  × ((required : Perm) → check_permission r app required ≡ covers perm required) =
              λ es f. (
                record x { perm_entries = es },
                region_at-set_self s.regions h x (record x { perm_entries = es }) e refl,
                λ required.
                    check-other (record x { perm_entries = es }) app required (covers perm required)
                      other (f required),
              ) in
            option_case P (find_index (is_for app) x.perm_entries)
              (λ n.
                if_case P (leb max_perm_entries (length x.perm_entries))
                  (λ _ q. absurd (ground arith))
                  λ _ _. done (x.perm_entries ++ (entry ∷ [])) (λ required.
                    first-append (is_for app) (λ e. covers e.perm required)
                      (covers x.default_perm required) x.perm_entries entry n (==_refl app)))
              λ i f _. done (set x.perm_entries i entry) (λ required.
                first-set (is_for app) (λ e. covers e.perm required)
                  (covers x.default_perm required) x.perm_entries i entry f (==_refl app))
