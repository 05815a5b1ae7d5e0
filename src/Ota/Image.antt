-- ===== src/Ota/Image.antt =====
-- What the flash holds while src/OTA/ota_manager.c receives an image.
use akira_os.Prelude.{
  ℕ, zero, suc, ◌+◌, ◌-◌, ◌%◌, ◌^◌, ◌<◌, ◌≤◌, ◌≡◌, min, refl, sym, ap, subst, ◌∙◌, true, false, not,
  ◌||◌, Option, some, List, [], ◌∷◌, ◌++◌, append-nil, append_assoc, if◌then◌else◌, if_case,
  Bool-cases, inl, inr, ltb, leb, ◌==◌, take, drop, replicate, length, length-append, length-take,
  length-replicate, arith,
}
use akira_os.Ota.{
  OtaResult, Write, laid, Flash, Ota, is_fine, is_receiving, write_buffer_size,
  progress_report_interval, asked, flush_write_buffer, report, copied, flush_full, write_loop,
}

-- While an image is received: the flash and then the buffer hold what was received so far.
pub record Received (F : Flash) (s : Ota) (got : List ℕ) : Type 0 where
  pub opened : s.is_open ≡ true
  pub receiving : is_receiving s.state ≡ true
  pub flashed : List ℕ
  pub on_flash : laid s.flash ≡ some flashed
  pub whole : flashed ++ s.buffer ≡ got
  pub counted : s.bytes_written ≡ length got
  pub small : length s.buffer ≤ write_buffer_size
  pub room : length got ≤ F.fa_size

take-drop : (n : ℕ) (xs : List ℕ) → take n xs ++ drop n xs ≡ xs
take-drop zero xs = refl
take-drop (suc n) [] = refl
take-drop (suc n) (x ∷ xs) = ap (◌∷◌ x) (take-drop n xs)

length-drop : (n : ℕ) (xs : List ℕ) → length (drop n xs) ≡ length xs - n
length-drop zero xs = omega arith
length-drop (suc n) [] = omega arith
length-drop (suc n) (x ∷ xs) = omega (arith, length-drop n xs)

take_all : (n : ℕ) (xs : List ℕ) → n ≡ length xs → take n xs ≡ xs
take_all zero [] e = refl
take_all zero (x ∷ xs) e = absurd (omega arith)
take_all (suc n) [] e = absurd (omega arith)
take_all (suc n) (x ∷ xs) e = ap (◌∷◌ x) (take_all n xs (omega arith))

module _ (F : Flash) where
  -- The bytes that a flush writes: the buffer, and padding after it.
  abbrev pub padding : Ota → ℕ
  padding s = F.round_up (length s.buffer) - length s.buffer

  pub padded_buffer :
      (s : Ota)
      → length s.buffer ≤ write_buffer_size
      → take
          (F.round_up (length s.buffer) % 2 ^ 16)
          (s.buffer ++ replicate (F.round_up (length s.buffer) % 2 ^ 16 - length s.buffer) 255)
        ≡ s.buffer ++ replicate (padding s) 255
  padded_buffer s le =
      let a = F.round_up (length s.buffer) in
      let same : a % 2 ^ 16 ≡ a = omega (arith, F.round_up-small (length s.buffer) le) in
      ap (λ a. take a (s.buffer ++ replicate (a - length s.buffer) 255)) same
      ∙ take_all a (s.buffer ++ replicate (a - length s.buffer) 255) (
          omega (
            arith,
            F.le-round_up (length s.buffer),
            length-append s.buffer (replicate (a - length s.buffer) 255),
            length-replicate {A = ℕ} (a - length s.buffer) 255,
          ))

  laid-next :
      (ws : List Write) (before bytes : List ℕ) (offset : ℕ)
      → laid ws ≡ some before
      → offset ≡ length before
      → laid ((offset, bytes) ∷ ws) ≡ some (before ++ bytes)
  laid-next ws before bytes offset e at = rw e (ground (arith, at))

  -- The state after a flush that writes.
  abbrev pub flushed : Ota → Ota
  flushed s = record (asked s) {
    flash = (s.bytes_written - length s.buffer, s.buffer ++ replicate (padding s) 255) ∷ s.flash;
    buffer = [];
  }

  -- A flush of some bytes that succeeds has written them, with padding.
  pub flush-hit :
      (s : Ota)
      → s.is_open ≡ true
      → 0 < length s.buffer
      → length s.buffer ≤ write_buffer_size
      → is_fine (flush_write_buffer F s).0 ≡ true
      → (flush_write_buffer F s ≡ (OtaResult.fine, flushed s))
        × (F.round_up (length s.buffer) ≤ write_buffer_size)
  unfolding flush_write_buffer
  flush-hit s opened some_bytes le good =
      let a = F.round_up (length s.buffer) in
      let P : OtaResult × Ota → Type 0 =
        λ r. is_fine r.0 ≡ true → (r ≡ (OtaResult.fine, flushed s)) × (a ≤ write_buffer_size) in
      let same : a % 2 ^ 16 ≡ a = omega (arith, F.round_up-small (length s.buffer) le) in
      if_case P (length s.buffer == 0 || not s.is_open)
        (λ off. absurd (ground (arith, off, opened)))
        (λ _.
          if_case P (ltb write_buffer_size (a % 2 ^ 16)) (λ _ f. absurd (ground (arith, f)))
            λ fits.
              if_case P (not (F.writes s.calls)) (λ _ f. absurd (ground (arith, f)))
                λ _ f. (
                  ap
                      (λ bytes. (
                        OtaResult.fine,
                        record (asked s) {
                          flash = (s.bytes_written - length s.buffer, bytes) ∷ s.flash;
                          buffer = [];
                        },
                      ))
                      (padded_buffer s le),
                  ground (arith, fits, same),
                ))
        good

  -- What it leaves on the flash.
  pub flushed-laid :
      (s : Ota) (got : List ℕ) (v : Received F s got)
      → laid (flushed s).flash ≡ some (got ++ replicate (padding s) 255)
  flushed-laid s got v =
      laid-next s.flash v.flashed (s.buffer ++ replicate (padding s) 255)
        (s.bytes_written - length s.buffer) v.on_flash
        (omega (arith, v.counted, ap length v.whole, length-append v.flashed s.buffer))
      ∙ ap (λ x. some x)
          (sym (append_assoc v.flashed s.buffer (replicate (padding s) 255))
            ∙ ap (λ x. x ++ replicate (padding s) 255) v.whole)

  flush_full-Received :
      (s : Ota) (got : List ℕ)
      → Received F s got
      → is_fine (flush_full F s).0 ≡ true
      → Received F (flush_full F s).1 got × (length (flush_full F s).1.buffer < write_buffer_size)
  flush_full-Received s got v good =
      let P : OtaResult × Ota → Type 0 =
        λ r. is_fine r.0 ≡ true → Received F r.1 got × (length r.1.buffer < write_buffer_size) in
      if_case P (leb write_buffer_size (length s.buffer))
        (λ full f.
          let (hit, up) = flush-hit s v.opened (ground (arith, full)) v.small f in
          let no_padding : padding s ≡ 0 = ground (arith, full, up) in
          subst
            (λ (r : OtaResult × Ota). Received F r.1 got × (length r.1.buffer < write_buffer_size))
            (sym hit)
            (
              record {
                opened = v.opened;
                receiving = v.receiving;
                flashed = got;
                on_flash =
                    flushed-laid s got v
                    ∙ ap (λ k. some (got ++ replicate k 255)) no_padding
                    ∙ ap (λ x. some x) (append-nil got);
                whole = append-nil got;
                counted = v.counted;
                small = omega arith;
                room = v.room;
              },
              omega arith,
            ))
        (λ low _. (v, ground (arith, low))) good

  report-Received : (s : Ota) (got : List ℕ) → Received F s got → Received F (report F s) got
  report-Received s got v =
      if_case (λ (s' : Ota). Received F s' got)
        (leb (s.last_progress_report + progress_report_interval) s.bytes_written)
        (λ _. record {
          opened = v.opened;
          receiving = refl;
          flashed = v.flashed;
          on_flash = v.on_flash;
          whole = v.whole;
          counted = v.counted;
          small = v.small;
          room = v.room;
        })
        λ _. v

  copied-Received :
      (s : Ota) (got bytes : List ℕ) (n : ℕ)
      → Received F s got
      → n ≤ length bytes
      → n ≤ write_buffer_size - length s.buffer
      → length got + n ≤ F.fa_size
      → Received F (copied F s bytes n) (got ++ take n bytes)
  copied-Received s got bytes n v le fits room =
      let taken : length (take n bytes) ≡ n = omega (arith, length-take n bytes, le) in
      record {
        opened = v.opened;
        receiving = v.receiving;
        flashed = v.flashed;
        on_flash = v.on_flash;
        whole =
            sym (append_assoc v.flashed s.buffer (take n bytes))
            ∙ ap (λ x. x ++ take n bytes) v.whole;
        counted =
            omega (arith, v.counted, taken, length-append got (take n bytes), F.size-small, room);
        small = omega (arith, fits, taken, length-append s.buffer (take n bytes), v.small);
        room = omega (arith, taken, length-append got (take n bytes), room);
      }

  report-buffer : (s : Ota) → (report F s).buffer ≡ s.buffer
  report-buffer s =
      if_case (λ (s' : Ota). s'.buffer ≡ s.buffer)
        (leb (s.last_progress_report + progress_report_interval) s.bytes_written) (λ _. refl)
        λ _. refl

  -- A round uses fuel for a byte, or for the full buffer that the first one may find.
  rounds_left :
      (s : Ota) (bytes : List ℕ) (fuel : ℕ)
      → length s.buffer ≤ write_buffer_size
      → 0 < length bytes
      → length bytes + (if leb write_buffer_size (length s.buffer) then 1 else 0) < suc fuel
      → length (drop (min (length bytes) (write_buffer_size - length s.buffer)) bytes) < fuel
  rounds_left s bytes fuel small some_bytes lt =
      ground (arith, length-drop (min (length bytes) (write_buffer_size - length s.buffer)) bytes)

  abbrev fitting : Ota → List ℕ → ℕ
  fitting s bytes = min (length bytes) (write_buffer_size - length s.buffer)

  abbrev round : Ota → List ℕ → OtaResult × Ota
  round s bytes = flush_full F (copied F s bytes (fitting s bytes))

  loop_goes_on :
      (fuel : ℕ) (s : Ota) (c : ℕ) (cs : List ℕ)
      → is_fine (round s (c ∷ cs)).0 ≡ true
      → write_loop F (suc fuel) s (c ∷ cs)
        ≡ write_loop F fuel (report F (round s (c ∷ cs)).1) (drop (fitting s (c ∷ cs)) (c ∷ cs))
  unfolding write_loop
  loop_goes_on fuel s c cs good =
      let rest =
        write_loop F fuel (report F (round s (c ∷ cs)).1) (drop (fitting s (c ∷ cs)) (c ∷ cs)) in
      if_case (λ o. o ≡ rest) (is_fine (round s (c ∷ cs)).0) (λ _. refl)
        λ bad.
          absurd {A = some ((round s (c ∷ cs)).0, report F (round s (c ∷ cs)).1) ≡ rest}
            (ground (arith, bad, good))

  loop_stops :
      (fuel : ℕ) (s : Ota) (c : ℕ) (cs : List ℕ)
      → is_fine (round s (c ∷ cs)).0 ≡ false
      → write_loop F (suc fuel) s (c ∷ cs)
        ≡ some ((round s (c ∷ cs)).0, report F (round s (c ∷ cs)).1)
  unfolding write_loop
  loop_stops fuel s c cs bad =
      let stop : Option (OtaResult × Ota) =
        some ((round s (c ∷ cs)).0, report F (round s (c ∷ cs)).1) in
      let rest =
        write_loop F fuel (report F (round s (c ∷ cs)).1) (drop (fitting s (c ∷ cs)) (c ∷ cs)) in
      if_case (λ o. o ≡ stop) (is_fine (round s (c ∷ cs)).0)
        (λ good. absurd {A = rest ≡ stop} (ground (arith, bad, good))) λ _. refl

  round-Received :
      (s : Ota) (got bytes : List ℕ)
      → Received F s got
      → length got + length bytes ≤ F.fa_size
      → is_fine (round s bytes).0 ≡ true
      → Received F (report F (round s bytes).1) (got ++ take (fitting s bytes) bytes)
        × (length (report F (round s bytes).1).buffer < write_buffer_size)
  round-Received s got bytes v room good =
      let n = fitting s bytes in
      let cv = copied-Received s got bytes n v (omega arith) (omega arith) (omega (arith, room)) in
      let (fv, low) = flush_full-Received (copied F s bytes n) (got ++ take n bytes) cv good in
      (
        report-Received (round s bytes).1 (got ++ take n bytes) fv,
        subst (λ xs. length xs < write_buffer_size) (sym (report-buffer (round s bytes).1)) low,
      )

  left_room :
      (n : ℕ) (got bytes : List ℕ)
      → length got + length bytes ≤ F.fa_size
      → length (got ++ take n bytes) + length (drop n bytes) ≤ F.fa_size
  left_room n got bytes room = omega (
    arith,
    room,
    length-append got (take n bytes),
    length-append (take n bytes) (drop n bytes),
    ap length (take-drop n bytes),
  )

  loop_done :
      (fuel : ℕ) (s : Ota) (got : List ℕ)
      → Received F s got
      → (r : OtaResult × Ota) × (write_loop F (suc fuel) s [] ≡ some r)
        × (is_fine r.0 ≡ true → Received F r.1 (got ++ []))
  unfolding write_loop
  loop_done fuel s got v =
      ((OtaResult.fine, s), refl, λ _. subst (Received F s) (sym (append-nil got)) v)

  joined :
      (s : Ota) (got bytes : List ℕ) (fuel fuel' n : ℕ) (s' : Ota)
      → write_loop F fuel' s bytes ≡ write_loop F fuel s' (drop n bytes)
      → (r : OtaResult × Ota) × (write_loop F fuel s' (drop n bytes) ≡ some r)
        × (is_fine r.0 ≡ true → Received F r.1 ((got ++ take n bytes) ++ drop n bytes))
      → (r : OtaResult × Ota) × (write_loop F fuel' s bytes ≡ some r)
        × (is_fine r.0 ≡ true → Received F r.1 (got ++ bytes))
  joined s got bytes fuel fuel' n s' e (r, e', keeps) = (
    r,
    e ∙ e',
    λ g.
        subst (Received F r.1)
          (append_assoc got (take n bytes) (drop n bytes) ∙ ap (λ x. got ++ x) (take-drop n bytes))
          (keeps g),
  )

  left_fuel :
      (n fuel : ℕ) (buffer : List ℕ)
      → length buffer < write_buffer_size
      → n < fuel
      → n + (if leb write_buffer_size (length buffer) then 1 else 0) < fuel
  left_fuel n fuel buffer low lt = ground arith

  -- The loop comes to an end; and if it succeeds, all bytes were received.
  pub write_loop-Received :
      (fuel : ℕ) (s : Ota) (got bytes : List ℕ)
      → Received F s got
      → length got + length bytes ≤ F.fa_size
      → length bytes + (if leb write_buffer_size (length s.buffer) then 1 else 0) < fuel
      → (r : OtaResult × Ota) × (write_loop F fuel s bytes ≡ some r)
        × (is_fine r.0 ≡ true → Received F r.1 (got ++ bytes))
  write_loop-Received zero s got bytes v room lt = absurd (omega arith)
  write_loop-Received (suc fuel) s got [] v room lt = loop_done fuel s got v
  write_loop-Received (suc fuel) s got (c ∷ cs) v room lt =
      elim (Bool-cases (is_fine (round s (c ∷ cs)).0)) [
        | inl good ↦
            let (rv, low) = round-Received s got (c ∷ cs) v room good in
            let left = rounds_left s (c ∷ cs) fuel v.small (omega arith) lt in
            joined s got (c ∷ cs) fuel (suc fuel) (fitting s (c ∷ cs))
              (report F (round s (c ∷ cs)).1) (loop_goes_on fuel s c cs good)
              (write_loop-Received fuel (report F (round s (c ∷ cs)).1)
                (got ++ take (fitting s (c ∷ cs)) (c ∷ cs)) (drop (fitting s (c ∷ cs)) (c ∷ cs)) rv
                (left_room (fitting s (c ∷ cs)) got (c ∷ cs) room)
                (left_fuel (length (drop (fitting s (c ∷ cs)) (c ∷ cs))) fuel
                  (report F (round s (c ∷ cs)).1).buffer low left))
        | inr bad ↦ (
          ((round s (c ∷ cs)).0, report F (round s (c ∷ cs)).1),
          loop_stops fuel s c cs bad,
          λ g. absurd (ground (arith, bad, g)),
        )
      ]
