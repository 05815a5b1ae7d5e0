-- ===== src/PathUtils/Walk.antt =====
-- Where a path leads. A place is the names of the directories that lead to it, the innermost first. The
-- file system's rules are independent of src/lib/path_utils.c: an empty name and "." stay, ".." goes up.
use akira_os.Prelude.{
  ℕ, zero, suc, ◌<◌, ◌≡◌, refl, ap, sym, subst, ◌∙◌, true, false, ◌||◌, some, List, [], ◌∷◌, ◌++◌,
  ok, if◌then◌else◌, if_case, Bool-cases, leb, ◌==◌, length, arith, CString, str_eq, eq_of_str_eq,
  append_assoc, inl, inr,
}
use akira_os.PathUtils.{
  slash, dot, is_empty, ends_with, has_dots, path_sanitize, path_is_safe, path_build,
}
use akira_os.PathUtils.Build.{rooted, folder, join, path_build_lem}

abbrev pub up : List CString → List CString
up [] = []
up (d ∷ dirs) = dirs

abbrev pub enter : List CString → CString → List CString
enter dirs name =
    if is_empty name || str_eq name (dot ∷ [])
    then dirs
    else if str_eq name (dot ∷ dot ∷ [])
    then up dirs
    else name ∷ dirs

-- From `dirs`, with `name` read already, along the rest of the path.
abbrev pub walk : List CString → CString → CString → List CString
walk dirs name [] = enter dirs name
walk dirs name (c ∷ s) =
    let next = walk (enter dirs name) [] s in
    let more = walk dirs (name ++ c ∷ []) s in if c == slash then next else more

-- The place is `dirs` or below it.
abbrev pub Below : List CString → List CString → Type 0
Below dirs place = (new : List CString) × (place ≡ new ++ dirs)

Below-refl : (dirs : List CString) → Below dirs dirs
Below-refl dirs = ([], refl)

Below-trans : {a b c : List CString} → Below a b → Below b c → Below a c
Below-trans {a} (n, e) (n', e') = (n' ++ n, e' ∙ ap (λ x. n' ++ x) e ∙ sym (append_assoc n' n a))

-- Neither part of a text without ".." has one.
has_dots-append :
    (xs ys : CString) → has_dots (xs ++ ys) ≡ false → (has_dots xs ≡ false) × (has_dots ys ≡ false)
unfolding has_dots
has_dots-append [] ys h = (refl, h)
has_dots-append (x ∷ []) ys h = ground arith
has_dots-append (x ∷ y ∷ xs) ys h = ground (arith, has_dots-append (y ∷ xs) ys)

enter-Below :
    (dirs : List CString) (name : CString) → has_dots name ≡ false → Below dirs (enter dirs name)
unfolding has_dots
enter-Below dirs name h =
    if_case (Below dirs) (is_empty name || str_eq name (dot ∷ [])) (λ _. Below-refl dirs)
      λ _.
        if_case (Below dirs) (str_eq name (dot ∷ dot ∷ []))
          (λ e. absurd (ground (arith, ap has_dots (eq_of_str_eq name (dot ∷ dot ∷ []) e))))
          λ _. (name ∷ [], refl)

walk-Below :
    (dirs : List CString) (name s : CString)
    → has_dots (name ++ s) ≡ false
    → Below dirs (walk dirs name s)
unfolding has_dots
walk-Below dirs name [] h = enter-Below dirs name (has_dots-append name [] h).0
walk-Below dirs name (c ∷ s) h =
    let parts = has_dots-append name (c ∷ s) h in
    if_case (Below dirs) (c == slash)
      (λ _.
        Below-trans (enter-Below dirs name parts.0)
          (walk-Below (enter dirs name) [] s (ground (arith, parts.1))))
      λ _. walk-Below dirs (name ++ c ∷ []) s (ap has_dots (append_assoc name (c ∷ []) s) ∙ h)

-- A path with a slash in it leads where its second part leads from where the first one does.
pub walk-append :
    (dirs : List CString) (name s t : CString)
    → walk dirs name (s ++ slash ∷ t) ≡ walk (walk dirs name s) [] t
walk-append dirs name [] t = refl
walk-append dirs name (c ∷ s) t =
    ground (arith, walk-append (enter dirs name) [] s t, walk-append dirs (name ++ c ∷ []) s t)

pub walk-ends :
    (dirs : List CString) (name s t : CString)
    → ends_with slash s ≡ true
    → walk dirs name (s ++ t) ≡ walk (walk dirs name s) [] t
walk-ends dirs name [] t h = absurd (ground arith)
walk-ends dirs name (c ∷ []) t h = ground arith
walk-ends dirs name (c ∷ d ∷ s) t h =
    ground (
      arith,
      walk-ends (enter dirs name) [] (d ∷ s) t h,
      walk-ends dirs (name ++ c ∷ []) (d ∷ s) t h,
    )

walk-rooted : (base t : CString) → walk [] [] (rooted base ++ t) ≡ walk (walk [] [] base) [] t
walk-rooted [] t = refl
walk-rooted (c ∷ s) t = elim (Bool-cases (ends_with slash (c ∷ s))) [
  | inl e ↦ rw e (walk-ends [] [] (c ∷ s) t e)
  | inr e ↦
      rw e (ap (walk [] []) (append_assoc (c ∷ s) (slash ∷ []) t) ∙ walk-append [] [] (c ∷ s) t)
]

pub safe_dots :
    (s : CString) → path_is_safe (some s) ≡ true → (is_empty s ≡ false) × (has_dots s ≡ false)
unfolding path_is_safe path_sanitize
safe_dots [] h = absurd (ground arith)
safe_dots (c ∷ s) h = ground arith

some_room :
    (n : ℕ) (b a f whole : CString)
    → path_build n (some b) (some a) (some f) ≡ (ok 0, some whole)
    → 0 < n
unfolding path_build
some_room zero b a f whole e = absurd (ground arith)
some_room (suc n) b a f whole e = omega arith

-- What is built is the joined text.
pub built_join :
    (n : ℕ) (b a f whole : CString)
    → path_build n (some b) (some a) (some f) ≡ (ok 0, some whole)
    → whole ≡ join b a f
built_join n b a f whole e =
    let built = path_build_lem n (some b) (some a) (some f) (some_room n b a f whole e) in
    elim (Bool-cases (leb n (length (join b a f)))) [
      | inl le ↦ absurd (ground (arith, built.too_long (ground arith), e))
      | inr lt ↦ ground (arith, sym e ∙ built.fits (ground arith))
    ]

pub folder_full :
    (a f : CString) → is_empty a ≡ false → is_empty f ≡ false → folder a f ++ f ≡ a ++ slash ∷ f
folder_full [] f h k = absurd (ground arith)
folder_full (c ∷ s) [] h k = absurd (ground arith)
folder_full (c ∷ s) (d ∷ t) h k = append_assoc (c ∷ s) (slash ∷ []) (d ∷ t)

-- If `app` and `file` pass `path_is_safe`, then every path that `path_build` returns for them leads to the
-- place of `base` or below it: they cannot lead out of the base directory.
pub built-Below :
    (n : ℕ) (base app file whole : CString)
    → path_is_safe (some app) ≡ true
    → path_is_safe (some file) ≡ true
    → path_build n (some base) (some app) (some file) ≡ (ok 0, some whole)
    → Below (walk [] [] base) (walk [] [] whole)
built-Below n base app file whole a f e =
    let a' = safe_dots app a in
    let f' = safe_dots file f in
    let place = walk [] [] base in
    let led : walk [] [] whole ≡ walk (walk place [] app) [] file =
      ap (walk [] []) (built_join n base app file whole e)
      ∙ walk-rooted base (folder app file ++ file)
      ∙ ap (walk place []) (folder_full app file a'.0 f'.0)
      ∙ walk-append place [] app file in
    subst (Below place) (sym led)
      (Below-trans (walk-Below place [] app a'.1) (walk-Below (walk place [] app) [] file f'.1))
