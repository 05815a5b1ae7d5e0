-- ===== src/PathUtils/Tests.antt =====
-- Paths of a file of an app: "/d", "a" and "f.x".
use akira_os.Prelude.{◌≡◌, refl, false, some, [], ◌∷◌, arith, ok, CString, str_eq}
use akira_os.PathUtils.{
  slash, dot, is_absolute, has_dots, path_sanitize, path_is_safe, add_base, add_app, add_file,
  path_build, path_normalize, split_last, path_get_filename, path_get_directory, path_get_extension,
}
use akira_os.PathUtils.Build.{Built, join, path_build_lem}
use akira_os.PathUtils.Walk.{walk, Below, built-Below}
use akira_os.PathUtils.Normal.{walk-path_normalize}
use akira_os.PathUtils.Parts.{parts_of_built}

abbrev base_text : CString
base_text = slash ∷ 100 ∷ []

abbrev app_text : CString
app_text = 97 ∷ []

abbrev file_text : CString
file_text = 102 ∷ dot ∷ 120 ∷ []

abbrev whole_text : CString
whole_text = slash ∷ 100 ∷ slash ∷ 97 ∷ slash ∷ 102 ∷ dot ∷ 120 ∷ []

built_whole :
    path_build 9 (some base_text) (some app_text) (some file_text) ≡ (ok 0, some whole_text)
unfolding path_build add_base add_app add_file
built_whole = refl

extension_of_whole : path_get_extension whole_text ≡ some (120 ∷ [])
unfolding path_get_extension path_get_filename split_last
extension_of_whole = refl

path_build_lem_example :
    Built 8
      (join base_text app_text file_text)
      (path_build 8 (some base_text) (some app_text) (some file_text))
path_build_lem_example =
    path_build_lem 8 (some base_text) (some app_text) (some file_text) (omega arith)

built-Below_example : Below (walk [] [] base_text) (walk [] [] whole_text)
unfolding path_is_safe path_sanitize has_dots
built-Below_example = built-Below 9 base_text app_text file_text whole_text refl refl built_whole

walk-path_normalize_example :
    (walk ((98 ∷ []) ∷ []) [] (path_normalize (97 ∷ slash ∷ slash ∷ dot ∷ dot ∷ slash ∷ []))
      ≡ (98 ∷ []) ∷ [])
    × (is_absolute (path_normalize (97 ∷ slash ∷ slash ∷ dot ∷ dot ∷ slash ∷ [])) ≡ false)
unfolding str_eq
walk-path_normalize_example =
    walk-path_normalize ((98 ∷ []) ∷ []) (97 ∷ slash ∷ slash ∷ dot ∷ dot ∷ slash ∷ [])

parts_of_built_example :
    (path_get_filename whole_text ≡ file_text)
    × (path_get_directory whole_text 8 ≡ (ok 0, some (slash ∷ 100 ∷ slash ∷ 97 ∷ [])))
parts_of_built_example =
    parts_of_built 9 8 base_text app_text file_text whole_text refl refl refl built_whole
      (omega arith)
