-- ===== src/Ota/Tests.antt =====
-- An update in two chunks, on a flash that answers well.
use akira_os.Prelude.{
  ℕ, ◌≡◌, refl, sym, ap, ◌∙◌, true, false, Bool, Option, some, none, List, [], ◌∷◌, arith,
}
use akira_os.Ota.{
  OtaResult, Write, laid, word_of, Flash, Ota, is_fine, ota_manager_init, flush_write_buffer,
  start_fresh, do_start_update, write_loop, do_write_chunk, install, do_finalize_update,
}
use akira_os.Ota.Update.{update, Installed, update_installs}

abbrev magic_of : List Write → Option ℕ
magic_of ws = elim (laid ws) [ none ↦ none | some bytes ↦ some (word_of bytes) ]

magic_of-laid :
    (ws : List Write) (bytes : List ℕ) (m : ℕ)
    → laid ws ≡ some bytes
    → magic_of ws ≡ some m
    → m ≡ word_of bytes
magic_of-laid ws bytes m e r =
    let q : some m ≡ some (word_of bytes) =
      sym r ∙ ap (λ o. elim o [ none ↦ none | some bytes ↦ some (word_of bytes) ]) e in
    cc

abbrev good_flash : Flash
good_flash = record {
  fa_size = 100000;
  opens = λ n. true;
  erases = λ n. true;
  writes = λ n. true;
  requests = λ n. true;
  confirms = λ n. true;
  read_magic = λ n ws. magic_of ws;
  round_up = λ n. n;
  size-small = omega arith;
  read-back = λ n. magic_of-laid;
  le-round_up = λ n. omega arith;
  round_up-small = λ n le. omega arith;
}

abbrev before : Ota
before = ota_manager_init ((0, 9 ∷ []) ∷ [])

abbrev two_chunks : List (List ℕ)
two_chunks = (61 ∷ 184 ∷ 243 ∷ []) ∷ (150 ∷ 5 ∷ []) ∷ []

abbrev succeeded : Option (OtaResult × Ota) → Bool
succeeded none = false
succeeded (some r) = is_fine r.0

two_chunks_fine : succeeded (update good_flash before 0 two_chunks) ≡ true
unfolding ota_manager_init flush_write_buffer start_fresh do_start_update write_loop do_write_chunk
    install do_finalize_update
two_chunks_fine = refl

update_installs_example :
    (r : OtaResult × Ota) × (update good_flash before 0 two_chunks ≡ some r)
    × (is_fine r.0 ≡ true → Installed good_flash (61 ∷ 184 ∷ 243 ∷ 150 ∷ 5 ∷ []) r.1)
update_installs_example = update_installs good_flash before 0 two_chunks
