-- ===== src/PathUtils.antt =====
-- src/lib/path_utils.c: checking, building, normalizing and taking apart of paths. A path is the list
-- of its bytes; an output buffer is the text that stands in it, `none` while it is untouched.
pub mod Build
pub mod Walk
pub mod Normal
pub mod Parts
mod Tests
use akira_os.Prelude.{
  ℕ, zero, suc, ◌+◌, ◌-◌, Bool, true, false, not, ◌&&◌, ◌||◌, Option, none, some, List, [], ◌∷◌,
  ◌++◌, Ret, ok, err, Errno, if◌then◌else◌, ltb, leb, ◌==◌, length, CString,
}

-- PATH_MAX_LEN
abbrev pub path_max_len : ℕ
path_max_len = 256

-- '/' and '.'
abbrev pub slash : ℕ
slash = 47

abbrev pub dot : ℕ
dot = 46

-- path[0] == '/'
abbrev pub is_absolute : CString → Bool
is_absolute [] = false
is_absolute (c ∷ s) = c == slash

abbrev pub starts_dot : CString → Bool
starts_dot [] = false
starts_dot (c ∷ s) = c == dot

-- strstr(path, "..") != NULL
unfoldable pub has_dots : CString → Bool
has_dots [] = false
has_dots (c ∷ s) = (c == dot) && starts_dot s || has_dots s

abbrev pub has_zero : CString → Bool
has_zero [] = false
has_zero (c ∷ s) = (c == 0) || has_zero s

unfoldable pub path_sanitize : Option CString → Ret
unfolding has_dots
path_sanitize none = err Errno.einval
path_sanitize (some []) = err Errno.einval
path_sanitize (some (c ∷ s)) =
    let path = c ∷ s in
    if is_absolute path
    then err Errno.eperm
    else if has_dots path
    then err Errno.eacces
    else if leb path_max_len (length path)
    then err Errno.enametoolong
    else if has_zero path
    then err Errno.einval
    else ok 0

unfoldable pub path_is_safe : Option CString → Bool
unfolding path_sanitize
path_is_safe path = elim (path_sanitize path) [ ok n ↦ n == 0 | err e ↦ false ]

-- A string that is NULL or empty is left out alike.
abbrev pub text_of : Option CString → CString
text_of none = []
text_of (some s) = s

abbrev pub is_empty : CString → Bool
is_empty [] = true
is_empty (c ∷ s) = false

-- s[strlen(s) - 1] == c
abbrev pub ends_with : ℕ → CString → Bool
ends_with c [] = false
ends_with c (d ∷ []) = d == c
ends_with c (d ∷ e ∷ s) = ends_with c (e ∷ s)

-- The steps of `path_build`: to put the base, then the app, then the file behind what the buffer holds.
-- Each says whether all fitted, and what the buffer holds then.
unfoldable pub add_base : ℕ → CString → Bool × CString
add_base out_len base =
    if is_empty base
    then (true, [])
    else if leb out_len (length base)
    then (false, [])
    else if ends_with slash base
    then (true, base)
    else if leb out_len (length base + 1)
    then (false, base)
    else (true, base ++ slash ∷ [])

unfoldable pub add_app : ℕ → CString → CString → CString → Bool × CString
add_app out_len out app file =
    if is_empty app
    then (true, out)
    else if leb out_len (length out + length app)
    then (false, out)
    else if is_empty file
    then (true, out ++ app)
    else if leb out_len (length (out ++ app) + 1)
    then (false, out ++ app)
    else (true, (out ++ app) ++ slash ∷ [])

unfoldable pub add_file : ℕ → CString → CString → Bool × CString
add_file out_len out file =
    if is_empty file
    then (true, out)
    else if leb out_len (length out + length file)
    then (false, out)
    else (true, out ++ file)

abbrev pub build_status : Bool → Ret
build_status true = ok 0
build_status false = err Errno.enametoolong

unfoldable pub path_build :
    ℕ → Option CString → Option CString → Option CString → Ret × Option CString
unfolding add_base add_app add_file
path_build out_len base app file =
    if out_len == 0
    then (err Errno.einval, none)
    else let (fits, with_base) = add_base out_len (text_of base) in
      let (fits', with_app) = add_app out_len with_base (text_of app) (text_of file) in
      let (fits'', whole) = add_file out_len with_app (text_of file) in
      if not fits
      then (build_status false, some with_base)
      else if not fits'
      then (build_status false, some with_app)
      else (build_status fits'', some whole)

-- The loop of `path_normalize`: of slashes that follow each other only the first is copied.
unfoldable pub squeeze : Bool → CString → CString
squeeze last_was_slash [] = []
squeeze last_was_slash (c ∷ s) =
    let after_slash = squeeze true s in
    let after_other = squeeze false s in
    if c == slash then if last_was_slash then after_slash else c ∷ after_slash else c ∷ after_other

abbrev pub drop_last : CString → CString
drop_last [] = []
drop_last (c ∷ []) = []
drop_last (c ∷ d ∷ s) = c ∷ drop_last (d ∷ s)

-- Removes the slash at the end, unless it is the whole path.
unfoldable pub strip_end : CString → CString
strip_end s = if ltb 1 (length s) && ends_with slash s then drop_last s else s

-- What the path is afterwards.
unfoldable pub path_normalize : CString → CString
unfolding squeeze strip_end
path_normalize [] = []
path_normalize (c ∷ s) = strip_end (squeeze false (c ∷ s))

-- strrchr(s, c): what stands before the last `c`, and behind it.
unfoldable pub split_last : ℕ → CString → Option (CString × CString)
split_last c [] = none
split_last c (d ∷ s) = elim (split_last c s) [
  | none ↦ if d == c then some ([], s) else none
  | some p ↦ some (d ∷ p.0, p.1)
]

unfoldable pub path_get_filename : CString → CString
unfolding split_last
path_get_filename path = elim (split_last slash path) [ none ↦ path | some p ↦ p.1 ]

-- The text in the buffer may be longer than the buffer here: without a slash the code writes two bytes
-- whatever `out_len` is.
unfoldable pub path_get_directory : CString → ℕ → Ret × Option CString
unfolding split_last
path_get_directory path out_len =
    if out_len == 0 then (err Errno.einval, none) else elim (split_last slash path) [
      | none ↦ (ok 0, some (dot ∷ []))
      | some p ↦
          if leb out_len (length p.0) then (err Errno.enametoolong, none) else (ok 0, some p.0)
    ]

unfoldable pub path_get_extension : CString → Option CString
unfolding split_last path_get_filename
path_get_extension path = elim (split_last dot (path_get_filename path)) [
  | none ↦ none
  | some p ↦ if is_empty p.0 then none else some p.1
]
