-- ===== src/PathUtils/Build.antt =====
-- `path_build` of src/lib/path_utils.c is the joining of three texts, cut off at the buffer's end.
use akira_os.Prelude.{
  ℕ, ◌+◌, ◌<◌, ◌≤◌, ◌≡◌, refl, ap, sym, ◌∙◌, Bool, true, false, not, Option, some, [], ◌∷◌, ◌++◌,
  Ret, ok, err, Errno, if◌then◌else◌, if_case, leb, ◌==◌, length, length-append, arith, CString,
  append-nil, append_assoc,
}
use akira_os.PathUtils.{
  slash, text_of, is_empty, ends_with, add_base, add_app, add_file, build_status, path_build,
}

-- The base with a slash behind it, unless it is empty or has one.
abbrev pub rooted : CString → CString
rooted base =
    if is_empty base then [] else if ends_with slash base then base else base ++ slash ∷ []

-- The app, with a slash behind it if a file follows.
abbrev pub folder : CString → CString → CString
folder app file = if is_empty app then [] else if is_empty file then app else app ++ slash ∷ []

abbrev pub join : CString → CString → CString → CString
join base app file = rooted base ++ (folder app file ++ file)

-- What a step of the building does: it fits and adds its part, or stops within the buffer because the
-- part is too long.
record Step (n : ℕ) (out part : CString) (r : Bool × CString) : Type 0 where
  fits : r.0 ≡ true → (r.1 ≡ out ++ part) × (length out + length part < n)
  stops : r.0 ≡ false → n ≤ length out + length part
  bound : length r.1 < n

module _ (n : ℕ) where
  stop-Step :
      (out part left : CString)
      → length left < n
      → n ≤ length out + length part
      → Step n out part (false, left)
  stop-Step out part left lt le = record {
    fits = λ e. absurd (ground (arith, e));
    stops = λ e. le;
    bound = lt;
  }

  fit-Step :
      (out part whole : CString)
      → whole ≡ out ++ part
      → length out + length part < n
      → Step n out part (true, whole)
  fit-Step out part whole e lt = record {
    fits = λ _. (e, lt);
    stops = λ e. absurd (ground (arith, e));
    bound = omega (arith, ap length e, length-append out part);
  }

  skip-Step : (out : CString) → length out < n → Step n out [] (true, out)
  skip-Step out lt = fit-Step out [] out (sym (append-nil out)) (omega arith)

  add_file-Step : (out file : CString) → length out < n → Step n out file (add_file n out file)
  unfolding add_file
  add_file-Step out [] lt = skip-Step out lt
  add_file-Step out (c ∷ s) lt =
      if_case (Step n out (c ∷ s)) (leb n (length out + length (c ∷ s)))
        (λ e. stop-Step out (c ∷ s) out lt (ground arith))
        λ e. fit-Step out (c ∷ s) _ refl (ground arith)

  base-Step :
      (s : CString) (ends : Bool)
      → 0 < n
      → Step n [] (if ends then s else s ++ slash ∷ []) (
          if leb n (length s)
          then (false, [])
          else if ends
          then (true, s)
          else if leb n (length s + 1)
          then (false, s)
          else (true, s ++ slash ∷ []))
  base-Step s true lt =
      if_case (Step n [] s) (leb n (length s)) (λ e. stop-Step [] s [] lt (ground arith))
        λ e. fit-Step [] s s refl (ground arith)
  base-Step s false lt =
      let more = length-append s (slash ∷ []) in
      let P : Bool × CString → Type 0 = Step n [] (s ++ slash ∷ []) in
      if_case P (leb n (length s))
        (λ e. stop-Step [] (s ++ slash ∷ []) [] lt (ground (arith, more)))
        λ e.
          if_case P (leb n (length s + 1))
            (λ e'. stop-Step [] (s ++ slash ∷ []) s (ground arith) (ground (arith, more)))
            λ e'. fit-Step [] (s ++ slash ∷ []) (s ++ slash ∷ []) refl (ground (arith, more))

  add_base-Step : (base : CString) → 0 < n → Step n [] (rooted base) (add_base n base)
  unfolding add_base
  add_base-Step [] lt = skip-Step [] lt
  add_base-Step (c ∷ s) lt = base-Step (c ∷ s) (ends_with slash (c ∷ s)) lt

  add_app-Step :
      (out app file : CString)
      → length out < n
      → Step n out (folder app file) (add_app n out app file)
  unfolding add_app
  add_app-Step out [] file lt = skip-Step out lt
  add_app-Step out (c ∷ s) [] lt =
      if_case (Step n out (c ∷ s)) (leb n (length out + length (c ∷ s)))
        (λ e. stop-Step out (c ∷ s) out lt (ground arith))
        λ e. fit-Step out (c ∷ s) _ refl (ground arith)
  add_app-Step out (c ∷ s) (d ∷ t) lt =
      let P : Bool × CString → Type 0 = Step n out ((c ∷ s) ++ slash ∷ []) in
      let more = length-append (c ∷ s) (slash ∷ []) in
      let more' = length-append out (c ∷ s) in
      if_case P (leb n (length out + length (c ∷ s)))
        (λ e. stop-Step out ((c ∷ s) ++ slash ∷ []) out lt (ground (arith, more)))
        λ e.
          if_case P (leb n (length (out ++ c ∷ s) + 1))
            (λ e'.
              stop-Step out ((c ∷ s) ++ slash ∷ []) (out ++ c ∷ s) (ground (arith, more'))
                (ground (arith, more, more')))
            λ e'.
              fit-Step out ((c ∷ s) ++ slash ∷ []) _ (append_assoc out (c ∷ s) (slash ∷ []))
                (ground (arith, more, more'))

-- What `path_build` promises: the joined text if the buffer has room for it and its terminator, else the
-- error; and whatever the outcome, the text left in the buffer fits with its terminator.
pub record Built (n : ℕ) (whole : CString) (r : Ret × Option CString) : Type 0 where
  pub fits : length whole < n → r ≡ (ok 0, some whole)
  pub too_long : n ≤ length whole → r.0 ≡ err Errno.enametoolong
  pub bound : length (text_of r.1) < n

three_lengths : (a b c : CString) → length (a ++ (b ++ c)) ≡ length a + (length b + length c)
three_lengths a b c = omega (arith, length-append a (b ++ c), length-append b c)

-- Three steps that follow each other join their parts.
three_steps :
    (n : ℕ) (p1 p2 p3 : CString) (r1 r2 r3 : Bool × CString)
    → Step n [] p1 r1
    → Step n r1.1 p2 r2
    → Step n r2.1 p3 r3
    → Built n (p1 ++ (p2 ++ p3)) (
        if not r1.0
        then (build_status false, some r1.1)
        else if not r2.0
        then (build_status false, some r2.1)
        else (build_status r3.0, some r3.1))
three_steps n p1 p2 p3 (false, o1) r2 r3 s1 s2 s3 = record {
  fits = λ lt. absurd (omega (arith, s1.stops refl, three_lengths p1 p2 p3));
  too_long = λ le. refl;
  bound = s1.bound;
}
three_steps n p1 p2 p3 (true, o1) (false, o2) r3 s1 s2 s3 =
    let f1 = s1.fits refl in
    record {
      fits = λ lt. absurd (omega (arith, ap length f1.0, s2.stops refl, three_lengths p1 p2 p3));
      too_long = λ le. refl;
      bound = s2.bound;
    }
three_steps n p1 p2 p3 (true, o1) (true, o2) (false, o3) s1 s2 s3 =
    let f1 = s1.fits refl in
    let f2 = s2.fits refl in
    record {
      fits = λ lt. absurd (
          omega (
            arith,
            ap length f1.0,
            ap length f2.0,
            length-append o1 p2,
            s3.stops refl,
            three_lengths p1 p2 p3,
          ));
      too_long = λ le. refl;
      bound = s3.bound;
    }
three_steps n p1 p2 p3 (true, o1) (true, o2) (true, o3) s1 s2 s3 =
    let f1 = s1.fits refl in
    let f2 = s2.fits refl in
    let f3 = s3.fits refl in
    let whole : o3 ≡ p1 ++ (p2 ++ p3) =
      f3.0 ∙ ap (λ o. o ++ p3) (f2.0 ∙ ap (λ o. o ++ p2) f1.0) ∙ append_assoc p1 p2 p3 in
    record {
      fits = λ lt. ap (λ o. (ok 0, some o)) whole;
      too_long = λ le. absurd (omega (arith, ap length whole, s3.bound));
      bound = s3.bound;
    }

-- For a buffer of at least one byte: `path_build` gives base, app and file joined, if that is shorter
-- than the buffer, and else -ENAMETOOLONG; in both cases what it leaves in the buffer is shorter.
pub path_build_lem :
    (n : ℕ) (base app file : Option CString)
    → 0 < n
    → Built n (join (text_of base) (text_of app) (text_of file)) (path_build n base app file)
unfolding path_build
path_build_lem n base app file lt =
    let b = text_of base in
    let a = text_of app in
    let f = text_of file in
    let s1 = add_base-Step n b lt in
    let s2 = add_app-Step n (add_base n b).1 a f s1.bound in
    let s3 = add_file-Step n (add_app n (add_base n b).1 a f).1 f s2.bound in
    if_case (Built n (join b a f)) (n == 0) (λ e. absurd (ground arith))
      λ _. three_steps n (rooted b) (folder a f) f _ _ _ s1 s2 s3
