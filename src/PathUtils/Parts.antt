-- ===== src/PathUtils/Parts.antt =====
-- Taking apart what `path_build` of src/lib/path_utils.c put together.
use akira_os.Prelude.{
  ℕ, ◌<◌, ◌≤◌, ◌≡◌, refl, ap, sym, ◌∙◌, Bool, false, ◌||◌, Option, none, some, [], ◌∷◌, ◌++◌, Ret,
  ok, if_case, leb, ◌==◌, length, length-append, arith, CString, append_assoc,
}
use akira_os.PathUtils.{
  slash, is_empty, split_last, path_build, path_get_filename, path_get_directory,
}
use akira_os.PathUtils.Build.{rooted}
use akira_os.PathUtils.Walk.{built_join, folder_full}

abbrev pub has_slash : CString → Bool
has_slash [] = false
has_slash (c ∷ s) = (c == slash) || has_slash s

split_last-none : (s : CString) → has_slash s ≡ false → split_last slash s ≡ none
unfolding split_last
split_last-none [] h = refl
split_last-none (c ∷ s) h = ground (arith, split_last-none s)

split_last-append :
    (d f : CString) → has_slash f ≡ false → split_last slash (d ++ slash ∷ f) ≡ some (d, f)
unfolding split_last
split_last-append [] f h = ground (arith, split_last-none f h)
split_last-append (c ∷ d) f h = ground (arith, split_last-append d f h)

built_parts :
    (n : ℕ) (base app file whole : CString)
    → is_empty app ≡ false
    → is_empty file ≡ false
    → path_build n (some base) (some app) (some file) ≡ (ok 0, some whole)
    → whole ≡ (rooted base ++ app) ++ slash ∷ file
built_parts n base app file whole a f e =
    built_join n base app file whole e
    ∙ ap (λ t. rooted base ++ t) (folder_full app file a f)
    ∙ sym (append_assoc (rooted base) app (slash ∷ file))

-- When `path_build` succeeds for an app that is not empty and a file that is not empty and has no slash,
-- `path_get_filename` of the path is the file, and `path_get_directory` of it, into a buffer with room for
-- the path, is the base, with a slash behind it, and the app.
pub parts_of_built :
    (n m : ℕ) (base app file whole : CString)
    → is_empty app ≡ false
    → is_empty file ≡ false
    → has_slash file ≡ false
    → path_build n (some base) (some app) (some file) ≡ (ok 0, some whole)
    → length whole ≤ m
    → (path_get_filename whole ≡ file)
      × (path_get_directory whole m ≡ (ok 0, some (rooted base ++ app)))
unfolding path_get_filename path_get_directory
parts_of_built n m base app file whole a f h e le =
    let dir = rooted base ++ app in
    let whole_eq = built_parts n base app file whole a f e in
    let split : split_last slash whole ≡ some (dir, file) =
      ap (split_last slash) whole_eq ∙ split_last-append dir file h in
    let lt : length dir < m =
      omega (arith, ap length whole_eq, length-append dir (slash ∷ file), le) in
    (
      rw (path_get_filename, split) refl,
      rw (path_get_directory, split)
          (if_case (λ (r : Ret × Option CString). r ≡ (ok 0, some dir)) (m == 0)
            (λ z. absurd (ground arith))
            λ _.
              if_case (λ (r : Ret × Option CString). r ≡ (ok 0, some dir)) (leb m (length dir))
                (λ z. absurd (ground arith)) λ _. refl),
    )
