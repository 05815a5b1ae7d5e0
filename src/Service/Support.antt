-- ===== src/Service/Support.antt =====
-- The dependencies in src/akira/kernel/service.c: what a running service depends on is running.
use akira_os.Prelude.{
  ℕ, zero, suc, ◌<◌, ◌≡◌, ◌≢◌, refl, sym, ap, subst, ◌∙◌, inl, inr, Bool, true, false, none, some,
  List, [], ◌∷◌, ◌++◌, arith, if◌then◌else◌, if_case, Bool-cases, Option-cases, length, get_elem?,
  set, All, All-set, find_index, find_index-Found, find_index-set, get_elem?-set_self,
  get_elem?-set_ne, lt_of_get_elem?, CString, str_eq, eq_of_str_eq, str_eq_refl, ◌==◌,
}
use akira_os.Service.{
  Service, is_running, is_named, find_service, runs, runs_at, check_dependencies, depends,
  is_needed,
}

-- Each running service has its dependencies running.
pub Supported : List Service → Type 0
Supported services =
    All (λ s. is_running s.state ≡ true → check_dependencies services s.depends_on ≡ true) services

pub Supported-nil : Supported []
unfolding Supported
Supported-nil = tt

pub Supported_lem :
    (xs : List Service)
    → Supported xs
    → All (λ s. is_running s.state ≡ true → check_dependencies xs s.depends_on ≡ true) xs
unfolding Supported
Supported_lem xs v = v

pub check_dependencies_mono :
    (xs ys : List Service) (deps : List CString)
    → ((d : CString) → depends deps d ≡ true → runs xs d ≡ true → runs ys d ≡ true)
    → check_dependencies xs deps ≡ true
    → check_dependencies ys deps ≡ true
unfolding check_dependencies depends
check_dependencies_mono xs ys [] f e = refl
check_dependencies_mono xs ys (d ∷ deps) f e =
    let here : runs ys d ≡ true = f d (ground (arith, str_eq_refl d)) (ground arith) in
    let there : check_dependencies ys deps ≡ true =
      check_dependencies_mono xs ys deps (λ g q. f g (ground arith)) (ground arith) in
    ground arith

runs-found :
    (ys : List Service) (m : CString) {k : ℕ}
    → find_index (is_named m) ys ≡ some k
    → runs ys m ≡ runs_at ys k
unfolding runs find_service
runs-found ys m q = rw (q, runs, find_service) refl

runs-missing :
    (ys : List Service) (m : CString) → find_index (is_named m) ys ≡ none → runs ys m ≡ false
unfolding runs find_service
runs-missing ys m q = rw (q, runs, find_service) refl

module _ (xs : List Service) (i : ℕ) (s s' : Service) (e : get_elem? xs i ≡ some s)
    (same : s'.name ≡ s.name) where
  find-set : (m : CString) → find_index (is_named m) (set xs i s') ≡ find_index (is_named m) xs
  find-set m = find_index-set (is_named m) xs i s s' e (ap (λ n. str_eq n m) same)

  runs_at-set :
      (k : ℕ) → runs_at (set xs i s') k ≡ (if i == k then is_running s'.state else runs_at xs k)
  runs_at-set k = elim (Bool-cases (i == k)) [
    | inl q ↦
        subst
          (λ j. runs_at (set xs i s') j ≡ (if i == j then is_running s'.state else runs_at xs j))
          {x = i} {y = k} (ground arith)
          (ground (arith, get_elem?-set_self xs i s' (lt_of_get_elem? xs i e)))
    | inr q ↦ ground (arith, get_elem?-set_ne xs i k s' (λ w. ground arith))
  ]

  runs_at-here : (k : ℕ) → (i == k) ≡ true → runs_at xs k ≡ is_running s.state
  runs_at-here k q =
      subst (λ j. runs_at xs j ≡ is_running s.state) {x = i} {y = k} (ground arith)
        (ground (arith, e))

  -- A change that does not stop a running service stops no name.
  pub runs-set_mono :
      (is_running s.state ≡ true → is_running s'.state ≡ true)
      → (m : CString) → runs xs m ≡ true
      → runs (set xs i s') m ≡ true
  runs-set_mono keep m r = elim (Option-cases (find_index (is_named m) xs)) [
    | inl n ↦ absurd (ground (arith, runs-missing xs m n))
    | inr (k, q) ↦
        let at : runs_at xs k ≡ true = sym (runs-found xs m q) ∙ r in
        runs-found (set xs i s') m (find-set m ∙ q)
        ∙ runs_at-set k
        ∙ if_case (λ b. b ≡ true) (i == k) (λ w. keep (sym (runs_at-here k w) ∙ at)) (λ _. at)
  ]

  pub runs-set_ne : (m : CString) → s.name ≢ m → runs (set xs i s') m ≡ runs xs m
  runs-set_ne m ne = elim (Option-cases (find_index (is_named m) xs)) [
    | inl n ↦ runs-missing (set xs i s') m (find-set m ∙ n) ∙ sym (runs-missing xs m n)
    | inr (k, q) ↦
        let f = find_index-Found (is_named m) xs k q in
        runs-found (set xs i s') m (find-set m ∙ q)
        ∙ runs_at-set k
        ∙ if_case (λ b. b ≡ runs_at xs k) (i == k)
            (λ w. absurd (
              ne (
                eq_of_str_eq s.name m (
                  subst (λ o. elim o [ none ↦ false | some x ↦ str_eq x.name m ] ≡ true)
                    (sym f.there ∙ ap (get_elem? xs) {x = k} {y = i} (ground arith) ∙ e)
                    f.passes))))
            (λ _. refl)
        ∙ sym (runs-found xs m q)
  ]

pub All-zip :
    {P Q R : Service → Type 0} (xs : List Service)
    → ((x : Service) → P x → Q x → R x)
    → All P xs
    → All Q xs
    → All R xs
All-zip [] f a b = tt
All-zip (x ∷ xs) f a b = (f x a.0 b.0, All-zip xs f a.1 b.1)

pub All-every : {P : Service → Type 0} (xs : List Service) → ((x : Service) → P x) → All P xs
All-every [] f = tt
All-every (x ∷ xs) f = (f x, All-every xs f)

-- No running service loses a dependency on the way from `xs` to `ys`.
abbrev pub Keeps : List Service → List Service → Service → Type 0
Keeps xs ys x =
    is_running x.state ≡ true
    → (d : CString) → depends x.depends_on d ≡ true
    → runs xs d ≡ true
    → runs ys d ≡ true

Supported-in :
    (xs ys : List Service)
    → All (Keeps xs ys) xs
    → Supported xs
    → All (λ x. is_running x.state ≡ true → check_dependencies ys x.depends_on ≡ true) xs
unfolding Supported
Supported-in xs ys k v =
    All-zip xs (λ x f c r. check_dependencies_mono xs ys x.depends_on (f r) (c r)) k v

pub Supported-set :
    (xs : List Service) (i : ℕ) (s' : Service)
    → All (Keeps xs (set xs i s')) xs
    → (is_running s'.state ≡ true → check_dependencies (set xs i s') s'.depends_on ≡ true)
    → Supported xs
    → Supported (set xs i s')
unfolding Supported
Supported-set xs i s' k c v =
    All-set (λ x. is_running x.state ≡ true → check_dependencies (set xs i s') x.depends_on ≡ true)
      xs i s' (Supported-in xs (set xs i s') k v) c

-- A search stops before what is appended.
find-append :
    (p : Service → Bool) (xs : List Service) (e : Service) (k : ℕ)
    → find_index p xs ≡ some k
    → find_index p (xs ++ (e ∷ [])) ≡ some k
find-append p [] e k q = absurd (ground arith)
find-append p (x ∷ xs) e zero q = ground arith
find-append p (x ∷ xs) e (suc k) q = ground (arith, find-append p xs e k)

get-append :
    (xs : List Service) (e : Service) (k : ℕ)
    → k < length xs
    → get_elem? (xs ++ (e ∷ [])) k ≡ get_elem? xs k
get-append [] e k lt = absurd (omega arith)
get-append (x ∷ xs) e zero lt = refl
get-append (x ∷ xs) e (suc k) lt = get-append xs e k (omega arith)

runs-append :
    (xs : List Service) (e : Service) (m : CString)
    → runs xs m ≡ true
    → runs (xs ++ (e ∷ [])) m ≡ true
runs-append xs e m r = elim (Option-cases (find_index (is_named m) xs)) [
  | inl n ↦ absurd (ground (arith, runs-missing xs m n))
  | inr (k, q) ↦
      let f = find_index-Found (is_named m) xs k q in
      runs-found (xs ++ (e ∷ [])) m (find-append (is_named m) xs e k q)
      ∙ ap (λ o. elim o [ none ↦ false | some s ↦ is_running s.state ])
          (get-append xs e k (lt_of_get_elem? xs k f.there))
      ∙ sym (runs-found xs m q)
      ∙ r
]

All-append :
    (P : Service → Type 0) (xs : List Service) (e : Service)
    → All P xs
    → P e
    → All P (xs ++ (e ∷ []))
All-append P [] e a p = (p, tt)
All-append P (x ∷ xs) e a p = (a.0, All-append P xs e a.1 p)

pub Supported-append :
    (xs : List Service) (e : Service)
    → is_running e.state ≡ false
    → Supported xs
    → Supported (xs ++ (e ∷ []))
unfolding Supported
Supported-append xs e idle v =
    All-append
      (λ x. is_running x.state ≡ true → check_dependencies (xs ++ (e ∷ [])) x.depends_on ≡ true) xs
      e (Supported-in xs (xs ++ (e ∷ [])) (All-every xs (λ x r d q. runs-append xs e d)) v)
      (λ r. absurd (ground arith))

pub not_needed :
    (xs : List Service) (name : CString)
    → is_needed xs name ≡ false
    → All (λ x. is_running x.state ≡ true → depends x.depends_on name ≡ false) xs
unfolding is_needed
not_needed [] name e = tt
not_needed (x ∷ xs) name e = (λ r. ground arith, not_needed xs name (ground arith))
