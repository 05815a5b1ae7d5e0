-- ===== src/PathUtils/Normal.antt =====
-- What `path_normalize` of src/lib/path_utils.c changes of a path, and what it keeps.
use akira_os.Prelude.{
  ℕ, ◌≡◌, refl, ◌∙◌, Bool, true, false, not, ◌&&◌, List, [], ◌∷◌, ◌++◌, if◌then◌else◌, ltb, ◌==◌,
  length, arith, CString,
}
use akira_os.PathUtils.{
  slash, ends_with, is_absolute, squeeze, drop_last, strip_end, path_normalize,
}
use akira_os.PathUtils.Walk.{walk, enter}

walk-squeeze :
    (dirs : List CString) (name s : CString)
    → (walk dirs [] (squeeze true s) ≡ walk dirs [] s)
      × (walk dirs name (squeeze false s) ≡ walk dirs name s)
unfolding squeeze
walk-squeeze dirs name [] = (refl, refl)
walk-squeeze dirs name (c ∷ s) =
    let here = walk-squeeze dirs (c ∷ []) s in
    let entered = walk-squeeze (enter dirs name) [] s in
    let longer = walk-squeeze dirs (name ++ c ∷ []) s in
    (ground (arith, here.0, here.1), ground (arith, entered.0, longer.1))

walk-drop_last :
    (dirs : List CString) (name s : CString)
    → ends_with slash s ≡ true
    → walk dirs name (drop_last s) ≡ walk dirs name s
walk-drop_last dirs name [] h = refl
walk-drop_last dirs name (c ∷ []) h = ground arith
walk-drop_last dirs name (c ∷ d ∷ s) h = ground (
  arith,
  walk-drop_last (enter dirs name) [] (d ∷ s) h,
  walk-drop_last dirs (name ++ c ∷ []) (d ∷ s) h,
)

walk-strip_end : (dirs : List CString) (s : CString) → walk dirs [] (strip_end s) ≡ walk dirs [] s
unfolding strip_end
walk-strip_end dirs s = ground (arith, walk-drop_last dirs [] s)

is_absolute-strip_end : (s : CString) → is_absolute (strip_end s) ≡ is_absolute s
unfolding strip_end
is_absolute-strip_end [] = refl
is_absolute-strip_end (c ∷ []) = ground arith
is_absolute-strip_end (c ∷ d ∷ s) = ground arith

is_absolute-squeeze :
    (c : ℕ) (s : CString) → is_absolute (squeeze false (c ∷ s)) ≡ is_absolute (c ∷ s)
unfolding squeeze
is_absolute-squeeze c s = ground arith

-- The normalized path leads, from every place, where the path leads; and it is absolute if the path is.
pub walk-path_normalize :
    (dirs : List CString) (path : CString)
    → (walk dirs [] (path_normalize path) ≡ walk dirs [] path)
      × (is_absolute (path_normalize path) ≡ is_absolute path)
unfolding path_normalize
walk-path_normalize dirs [] = (refl, refl)
walk-path_normalize dirs (c ∷ s) = (
  walk-strip_end dirs (squeeze false (c ∷ s)) ∙ (walk-squeeze dirs [] (c ∷ s)).1,
  is_absolute-strip_end (squeeze false (c ∷ s)) ∙ is_absolute-squeeze c s,
)

-- No slash follows another one, nor comes first if one came before.
abbrev no_double : Bool → CString → Bool
no_double last_was_slash [] = true
no_double last_was_slash (c ∷ s) =
    let after_slash = no_double true s in
    let after_other = no_double false s in
    if c == slash then not last_was_slash && after_slash else after_other

-- No two slashes follow each other, and none stands at the end, unless it is the whole path.
abbrev pub is_tidy : CString → Bool
is_tidy s = no_double false s && not (ltb 1 (length s) && ends_with slash s)

no_double-squeeze : (b : Bool) (s : CString) → no_double b (squeeze b s) ≡ true
unfolding squeeze
no_double-squeeze b [] = refl
no_double-squeeze true (c ∷ s) = ground (arith, no_double-squeeze true s, no_double-squeeze false s)
no_double-squeeze false (c ∷ s) =
    ground (arith, no_double-squeeze true s, no_double-squeeze false s)

squeeze_same : (b : Bool) (s : CString) → no_double b s ≡ true → squeeze b s ≡ s
unfolding squeeze
squeeze_same b [] h = refl
squeeze_same true (c ∷ s) h = ground (arith, squeeze_same true s, squeeze_same false s)
squeeze_same false (c ∷ s) h = ground (arith, squeeze_same true s, squeeze_same false s)

no_double-drop_last :
    (b : Bool) (s : CString) → no_double b s ≡ true → no_double b (drop_last s) ≡ true
no_double-drop_last b [] h = refl
no_double-drop_last b (c ∷ []) h = refl
no_double-drop_last true (c ∷ d ∷ s) h =
    ground (arith, no_double-drop_last true (d ∷ s), no_double-drop_last false (d ∷ s))
no_double-drop_last false (c ∷ d ∷ s) h =
    ground (arith, no_double-drop_last true (d ∷ s), no_double-drop_last false (d ∷ s))

ends_with-drop_last :
    (b : Bool) (s : CString)
    → no_double b s ≡ true
    → ends_with slash s ≡ true
    → ends_with slash (drop_last s) ≡ false
ends_with-drop_last b [] h e = refl
ends_with-drop_last b (c ∷ []) h e = refl
ends_with-drop_last b (c ∷ d ∷ []) h e = ground arith
ends_with-drop_last b (c ∷ d ∷ f ∷ s) h e =
    ground (arith, ends_with-drop_last true (d ∷ f ∷ s), ends_with-drop_last false (d ∷ f ∷ s))

strip_end-is_tidy : (s : CString) → no_double false s ≡ true → is_tidy (strip_end s) ≡ true
unfolding strip_end
strip_end-is_tidy s h = ground (arith, no_double-drop_last false s h, ends_with-drop_last false s h)

tidy_same : (s : CString) → is_tidy s ≡ true → path_normalize s ≡ s
unfolding path_normalize strip_end
tidy_same [] h = refl
tidy_same (c ∷ s) h = ground (arith, squeeze_same false (c ∷ s))

normalize-is_tidy : (path : CString) → is_tidy (path_normalize path) ≡ true
unfolding path_normalize
normalize-is_tidy [] = refl
normalize-is_tidy (c ∷ s) =
    strip_end-is_tidy (squeeze false (c ∷ s)) (no_double-squeeze false (c ∷ s))

-- In a normalized path no two slashes follow each other, and none stands at the end unless it is the whole
-- path; a path of that form is left as it is; so normalizing again changes nothing.
pub path_normalize-path_normalize :
    (path : CString)
    → (is_tidy (path_normalize path) ≡ true)
      × (is_tidy path ≡ true → path_normalize path ≡ path)
      × (path_normalize (path_normalize path) ≡ path_normalize path)
path_normalize-path_normalize path = (
  normalize-is_tidy path,
  tidy_same path,
  tidy_same (path_normalize path) (normalize-is_tidy path),
)
