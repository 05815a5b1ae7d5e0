-- ===== src/Ota/Update.antt =====
-- A whole update in src/OTA/ota_manager.c: what it installs is what was sent.
use akira_os.Prelude.{
  ℕ, ◌+◌, ◌<◌, ◌≡◌, refl, sym, ap, subst, ◌∙◌, true, false, not, ◌&&◌, ◌||◌, Option, none, some,
  List, [], ◌∷◌, ◌++◌, append-nil, append_assoc, if◌then◌else◌, if_case, option_case, Option-cases,
  Bool-cases, inl, inr, ltb, ◌==◌, replicate, length, arith,
}
use akira_os.Ota.{
  OtaResult, Flash, Ota, laid, word_of, image_magic, is_fine, is_idle, is_receiving, is_image,
  flush_write_buffer, do_abort_update, start_fresh, do_start_update, do_write_chunk, install,
  do_finalize_update,
}
use akira_os.Ota.Image.{Received, padding, flushed, flush-hit, flushed-laid, write_loop-Received}

abbrev pub concat : List (List ℕ) → List ℕ
concat [] = []
concat (c ∷ cs) = c ++ concat cs

module _ (F : Flash) where
  -- One chunk after the other, until one fails; there is always fuel enough.
  abbrev pub write_all : Ota → List (List ℕ) → Option (OtaResult × Ota)
  write_all s [] = some (OtaResult.fine, s)
  write_all s (c ∷ cs) = elim (do_write_chunk F (length c + 2) s c) [
    | none ↦ none
    | some r ↦ let rest = write_all r.1 cs in if is_fine r.0 then rest else some r
  ]

  -- A start, all chunks, and the end, until one of them fails.
  abbrev pub update : Ota → ℕ → List (List ℕ) → Option (OtaResult × Ota)
  update s expected_size chunks =
      let r = do_start_update F s expected_size in
      if not (is_fine r.0) then some r else elim (write_all r.1 chunks) [
        | none ↦ none
        | some w ↦ if is_fine w.0 then some (do_finalize_update F w.1) else some w
      ]

  -- What stands on the flash is what was sent, with padding behind it, and it is an image.
  pub record Installed (sent : List ℕ) (s : Ota) : Type 0 where
    pub pad : ℕ
    pub on_flash : laid s.flash ≡ some (sent ++ replicate pad 255)
    pub some_bytes : 0 < length sent
    pub image : word_of (sent ++ replicate pad 255) ≡ image_magic F

  start-Received :
      (s : Ota) (expected_size : ℕ)
      → is_fine (do_start_update F s expected_size).0 ≡ true
      → Received F (do_start_update F s expected_size).1 []
  unfolding do_start_update start_fresh
  start-Received s expected_size good =
      let old = if is_idle s.state then s else (do_abort_update F s).1 in
      let P : OtaResult × Ota → Type 0 = λ r. is_fine r.0 ≡ true → Received F r.1 [] in
      if_case P (not (F.opens old.calls)) (λ _ f. absurd (ground (arith, f)))
        (λ _.
          if_case P (not (F.erases (old.calls + 1))) (λ _ f. absurd (ground (arith, f)))
            λ _ f. record {
              opened = refl;
              receiving = refl;
              flashed = [];
              on_flash = refl;
              whole = refl;
              counted = refl;
              small = omega arith;
              room = omega arith;
            })
        good

  chunk-Received :
      (s : Ota) (got bytes : List ℕ)
      → Received F s got
      → (r : OtaResult × Ota) × (do_write_chunk F (length bytes + 2) s bytes ≡ some r)
        × (is_fine r.0 ≡ true → Received F r.1 (got ++ bytes))
  unfolding do_write_chunk
  chunk-Received s got bytes v =
      let Goal : Option (OtaResult × Ota) → Type 0 = λ o.
        (r : OtaResult × Ota) × (o ≡ some r)
        × (is_fine r.0 ≡ true → Received F r.1 (got ++ bytes)) in
      let refused : (e : OtaResult) → is_fine e ≡ false → Goal (some (e, s)) =
        λ e bad. ((e, s), refl, λ g. absurd (ground (arith, bad, g))) in
      if_case Goal (not s.is_open || length bytes == 0)
        (λ _. refused OtaResult.not_initialized refl)
        λ _.
          if_case Goal (not (is_receiving s.state)) (λ _. refused OtaResult.invalid_param refl)
            λ _.
              if_case Goal (ltb F.fa_size (s.bytes_written + length bytes))
                (λ _. refused OtaResult.insufficient_space refl)
                λ fits.
                  if_case Goal
                    (ltb 0 s.total_size && ltb s.total_size (s.bytes_written + length bytes))
                    (λ _. refused OtaResult.insufficient_space refl)
                    λ _.
                      write_loop-Received F (length bytes + 2) s got bytes v
                        (ground (arith, fits, v.counted)) (ground arith)

  write_all-Received :
      (chunks : List (List ℕ)) (s : Ota) (got : List ℕ)
      → Received F s got
      → (r : OtaResult × Ota) × (write_all s chunks ≡ some r)
        × (is_fine r.0 ≡ true → Received F r.1 (got ++ concat chunks))
  write_all-Received [] s got v =
      ((OtaResult.fine, s), refl, λ _. subst (Received F s) (sym (append-nil got)) v)
  write_all-Received (c ∷ cs) s got v =
      let (r, e, keeps) = chunk-Received s got c v in
      let step : Option (OtaResult × Ota) → Option (OtaResult × Ota) =
        λ o. elim o [ none ↦ none | some r ↦ if is_fine r.0 then write_all r.1 cs else some r ] in
      elim (Bool-cases (is_fine r.0)) [
        | inl good ↦
            let (r', e', keeps') = write_all-Received cs r.1 (got ++ c) (keeps good) in
            (
              r',
              ap step e
                  ∙ if_case (λ o. o ≡ some r') (is_fine r.0) (λ _. e')
                      (λ bad. absurd {A = some r ≡ some r'} (ground (arith, bad, good))),
              λ g. subst (Received F r'.1) (append_assoc got c (concat cs)) (keeps' g),
            )
        | inr bad ↦ (
          r,
          ap step e
              ∙ if_case (λ o. o ≡ some r) (is_fine r.0)
                  (λ good. absurd {A = write_all r.1 cs ≡ some r} (ground (arith, bad, good)))
                  (λ _. refl),
          λ g. absurd (ground (arith, bad, g)),
        )
      ]

  -- What is read back was written.
  magic-written :
      (s : Ota) (sent : List ℕ) (pad : ℕ)
      → laid s.flash ≡ some (sent ++ replicate pad 255)
      → is_image F (F.read_magic s.calls s.flash) ≡ true
      → word_of (sent ++ replicate pad 255) ≡ image_magic F
  magic-written s sent pad on_flash image = elim (Option-cases (F.read_magic s.calls s.flash)) [
    | inl failed ↦ absurd (ground (arith, failed, image))
    | inr (m, got) ↦
        let same : m ≡ image_magic F = ground (arith, got, image) in
        sym (F.read-back s.calls s.flash (sent ++ replicate pad 255) m on_flash got) ∙ same
  ]

  install-Installed :
      (s : Ota) (sent : List ℕ) (pad : ℕ)
      → laid s.flash ≡ some (sent ++ replicate pad 255)
      → s.bytes_written ≡ length sent
      → is_fine (install F s).0 ≡ true
      → Installed sent (install F s).1
  unfolding install
  install-Installed s sent pad on_flash counted good =
      let P : OtaResult × Ota → Type 0 = λ r. is_fine r.0 ≡ true → Installed sent r.1 in
      if_case P (s.bytes_written == 0) (λ _ f. absurd (ground (arith, f)))
        (λ some_written.
          if_case P (not (is_image F (F.read_magic s.calls s.flash)))
            (λ _ f. absurd (ground (arith, f)))
            λ image.
              if_case P (not (F.requests (s.calls + 1))) (λ _ f. absurd (ground (arith, f)))
                λ _ _. record {
                  pad = pad;
                  on_flash = on_flash;
                  some_bytes = ground (arith, some_written, counted);
                  image = magic-written s sent pad on_flash (ground (arith, image));
                })
        good

  flush-empty : (s : Ota) → length s.buffer ≡ 0 → flush_write_buffer F s ≡ (OtaResult.fine, s)
  unfolding flush_write_buffer
  flush-empty s e =
      if_case (λ (r : OtaResult × Ota). r ≡ (OtaResult.fine, s))
        (length s.buffer == 0 || not s.is_open) (λ _. refl) λ off. absurd (ground (arith, off, e))

  all_flashed :
      (s : Ota) (on_flash sent : List ℕ)
      → on_flash ++ s.buffer ≡ sent
      → length s.buffer ≡ 0
      → on_flash ≡ sent ++ []
  all_flashed s on_flash sent e zero_left =
      sym (append-nil on_flash)
      ∙ ap (λ b. on_flash ++ b) (sym (no_bytes s.buffer zero_left))
      ∙ e
      ∙ sym (append-nil sent)
    where
      no_bytes : (xs : List ℕ) → length xs ≡ 0 → xs ≡ []
      no_bytes [] z = refl
      no_bytes (x ∷ xs) z = absurd (omega arith)

  finalize-Installed :
      (s : Ota) (sent : List ℕ)
      → Received F s sent
      → is_fine (do_finalize_update F s).0 ≡ true
      → Installed sent (do_finalize_update F s).1
  unfolding do_finalize_update
  finalize-Installed s sent v good =
      let P : OtaResult × Ota → Type 0 = λ r. is_fine r.0 ≡ true → Installed sent r.1 in
      if_case P (not s.is_open) (λ _ f. absurd (ground (arith, f)))
        (λ _.
          if_case P (not (is_receiving s.state)) (λ _ f. absurd (ground (arith, f)))
            λ _.
              if_case P (not (is_fine (flush_write_buffer F s).0))
                (λ bad f. absurd (ground (arith, bad, f)))
                λ went. after_flush (ground (arith, went)))
        good
    where
      after_flush :
          is_fine (flush_write_buffer F s).0 ≡ true
          → is_fine (install F (flush_write_buffer F s).1).0 ≡ true
          → Installed sent (install F (flush_write_buffer F s).1).1
      after_flush went = elim (Bool-cases (ltb 0 (length s.buffer))) [
        | inl some_left ↦
            let (hit, up) = flush-hit F s v.opened (ground (arith, some_left)) v.small went in
            subst
              (λ (r : OtaResult × Ota).
                is_fine (install F r.1).0 ≡ true → Installed sent (install F r.1).1)
              (sym hit)
              (install-Installed (flushed F s) sent (padding F s) (flushed-laid F s sent v)
                v.counted)
        | inr empty ↦
            subst
              (λ (r : OtaResult × Ota).
                is_fine (install F r.1).0 ≡ true → Installed sent (install F r.1).1)
              (sym (flush-empty s (ground (arith, empty))))
              (install-Installed s sent 0
                (v.on_flash
                  ∙ ap (λ x. some x) (all_flashed s v.flashed sent v.whole (ground (arith, empty))))
                v.counted)
      ]

  -- Whatever the flash and the boot loader answer, an update comes to an end; and if it succeeds, then the
  -- flash, erased at its start, holds the chunks in the order in which they were sent, without a gap and with
  -- nothing but padding behind them, it is not empty, and the first four bytes of that are the magic number
  -- of an image, as a little-endian number.
  pub update_installs :
      (s : Ota) (expected_size : ℕ) (chunks : List (List ℕ))
      → (r : OtaResult × Ota) × (update s expected_size chunks ≡ some r)
        × (is_fine r.0 ≡ true → Installed (concat chunks) r.1)
  update_installs s expected_size chunks =
      let r = do_start_update F s expected_size in
      let Goal : Option (OtaResult × Ota) → Type 0 = λ o.
        (q : OtaResult × Ota) × (o ≡ some q)
        × (is_fine q.0 ≡ true → Installed (concat chunks) q.1) in
      if_case Goal (not (is_fine r.0)) (λ bad. (r, refl, λ g. absurd (ground (arith, bad, g))))
        λ good.
          let (w, e, keeps) =
            write_all-Received chunks r.1 []
              (start-Received s expected_size (ground (arith, good))) in
          option_case Goal (write_all r.1 chunks) (λ missing. absurd (ground (arith, missing, e)))
            λ w' e'.
              let w_eq : w ≡ w' = ground (arith, e, e') in
              if_case Goal (is_fine w'.0)
                (λ g. (
                  do_finalize_update F w'.1,
                  refl,
                  finalize-Installed w'.1 (concat chunks) (
                      subst
                        (λ (x : OtaResult × Ota).
                          is_fine x.0 ≡ true → Received F x.1 (concat chunks))
                        w_eq keeps g),
                ))
                λ bad. (w', refl, λ g. absurd (ground (arith, bad, g)))
