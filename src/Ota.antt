-- ===== src/Ota.antt =====
-- src/OTA/ota_manager.c: the transports, and the update that its thread carries out. Flash and boot loader are
-- the kernel's: a parameter answers each of their calls. The write buffer is the list of the bytes in it,
-- and the flash the list of the writes since it was erased, newest first. The text of the status and the
-- progress callback, which are told what the state says, are not modelled.
pub mod Image
pub mod Update
pub mod Thread
mod Tests
use akira_os.Prelude.{
  ℕ, zero, suc, ◌+◌, ◌-◌, ◌*◌, ◌/◌, ◌%◌, ◌^◌, ◌<◌, ◌≤◌, ◌≡◌, get_or, min, Bool, true, false, not,
  ◌&&◌, ◌||◌, Option, none, some, List, [], ◌∷◌, ◌++◌, if◌then◌else◌, ltb, leb, ◌==◌, take, drop,
  replicate, length, CString, str_eq, find_index, remove_at,
}

-- OTA_WRITE_BUFFER_SIZE, OTA_PROGRESS_REPORT_INTERVAL, MAX_OTA_TRANSPORTS
abbrev pub write_buffer_size : ℕ
write_buffer_size = 4096

abbrev pub progress_report_interval : ℕ
progress_report_interval = 8192

abbrev pub max_ota_transports : ℕ
max_ota_transports = 4

pub data OtaState : Type 0 where
  idle in_progress receiving validating installing complete error : OtaState

pub data OtaResult : Type 0 where
  fine invalid_param not_initialized already_in_progress flash_open_failed flash_erase_failed
        flash_write_failed :
      OtaResult
  invalid_image signature_verification insufficient_space timeout boot_request_failed : OtaResult

abbrev pub is_fine : OtaResult → Bool
is_fine OtaResult.fine = true
is_fine _ = false

abbrev pub is_idle : OtaState → Bool
is_idle OtaState.idle = true
is_idle _ = false

abbrev pub is_receiving : OtaState → Bool
is_receiving OtaState.receiving = true
is_receiving _ = false

-- A write: where, and what.
abbrev pub Write : Type 0
Write = ℕ × List ℕ

-- What writes without a gap or an overlap, from the start of the area on, have put there.
abbrev pub laid : List Write → Option (List ℕ)
laid [] = some []
laid (w ∷ ws) = elim (laid ws) [
  | none ↦ none
  | some before ↦ if w.0 == length before then some (before ++ w.1) else none
]

-- The first four bytes as a little-endian number; a byte that is not written since the erasure is 255.
abbrev pub word_of : List ℕ → ℕ
word_of bytes =
    get_or bytes 0 255
    + get_or bytes 1 255 * 2 ^ 8
    + get_or bytes 2 255 * 2 ^ 16
    + get_or bytes 3 255 * 2 ^ 24

-- The secondary flash area, of which the call number n of each kind answers, and ROUND_UP to its alignment.
-- `read_magic` is `flash_area_read` of the area's first four bytes after these writes, `none` if it fails;
-- if it does not, it gives what was written (`read-back`).
pub record Flash : Type 0 where
  pub fa_size : ℕ
  pub opens : ℕ → Bool
  pub erases : ℕ → Bool
  pub writes : ℕ → Bool
  pub requests : ℕ → Bool
  pub confirms : ℕ → Bool
  pub read_magic : ℕ → List Write → Option ℕ
  pub round_up : ℕ → ℕ
  pub size-small : fa_size < 2 ^ 32
  pub le-round_up : (n : ℕ) → n ≤ round_up n
  pub read-back :
      (n : ℕ) (ws : List Write) (bytes : List ℕ) (m : ℕ)
      → laid ws ≡ some bytes
      → read_magic n ws ≡ some m
      → m ≡ word_of bytes
  pub round_up-small : (n : ℕ) → n ≤ write_buffer_size → round_up n < 2 ^ 16

-- `ota_status`, the buffer, whether `secondary_fa` is open, the flash, and the number of calls so far.
pub record Ota : Type 0 where
  pub state : OtaState
  pub last_error : OtaResult
  pub total_size : ℕ
  pub bytes_written : ℕ
  pub last_progress_report : ℕ
  pub percentage : ℕ
  pub buffer : List ℕ
  pub is_open : Bool
  pub flash : List Write
  pub calls : ℕ

-- `ota_manager_init`; the flash holds what it held before.
unfoldable pub ota_manager_init : List Write → Ota
ota_manager_init flash = record {
  state = OtaState.idle;
  last_error = OtaResult.fine;
  total_size = 0;
  bytes_written = 0;
  last_progress_report = 0;
  percentage = 0;
  buffer = [];
  is_open = false;
  flash = flash;
  calls = 0;
}

-- The registered transports, by name.
unfoldable pub ota_manager_register_transport :
    List CString → Option CString → OtaResult × List CString
ota_manager_register_transport ts none = (OtaResult.invalid_param, ts)
ota_manager_register_transport ts (some name) =
    if leb max_ota_transports (length ts)
    then (OtaResult.insufficient_space, ts)
    else elim (find_index (λ t. str_eq t name) ts) [
      | some i ↦ (OtaResult.already_in_progress, ts)
      | none ↦ (OtaResult.fine, ts ++ name ∷ [])
    ]

-- The registered transports are kept packed, in order.
unfoldable pub ota_manager_unregister_transport :
    List CString → Option CString → OtaResult × List CString
ota_manager_unregister_transport ts none = (OtaResult.invalid_param, ts)
ota_manager_unregister_transport ts (some name) = elim (find_index (λ t. str_eq t name) ts) [
  | none ↦ (OtaResult.not_initialized, ts)
  | some i ↦ (OtaResult.fine, remove_at i ts)
]

abbrev pub update_progress_fast : OtaState → Ota → Ota
update_progress_fast state s = record s {
  state = state;
  percentage =
      if ltb 0 s.total_size then (s.bytes_written * 100 / s.total_size) % 2 ^ 8 else s.percentage;
}

abbrev pub set_error : OtaResult → Ota → Ota
set_error e s = record s { state = OtaState.error; last_error = e }

-- One more call of flash or boot loader.
abbrev pub asked : Ota → Ota
asked s = record s { calls = s.calls + 1 }

module _ (F : Flash) where
  unfoldable pub flush_write_buffer : Ota → OtaResult × Ota
  flush_write_buffer s =
      let aligned_size = F.round_up (length s.buffer) % 2 ^ 16 in
      let write_offset = s.bytes_written - length s.buffer in
      let padded = take aligned_size (s.buffer ++ replicate (aligned_size - length s.buffer) 255) in
      if length s.buffer == 0 || not s.is_open
      then (OtaResult.fine, s)
      else if ltb write_buffer_size aligned_size
      then (OtaResult.flash_write_failed, s)
      else if not (F.writes s.calls)
      then (OtaResult.flash_write_failed, asked s)
      else (
        OtaResult.fine,
        record (asked s) { flash = (write_offset, padded) ∷ s.flash; buffer = [] },
      )

  unfoldable pub do_abort_update : Ota → OtaResult × Ota
  unfolding flush_write_buffer
  do_abort_update s =
      let flushed = if s.is_open then (flush_write_buffer s).1 else s in
      (
        OtaResult.fine,
        record flushed {
          is_open = false;
          state = OtaState.idle;
          total_size = 0;
          bytes_written = 0;
          percentage = 0;
          last_error = OtaResult.fine;
          buffer = [];
        },
      )

  -- `do_start_update` once the earlier update is gone.
  unfoldable pub start_fresh : Ota → ℕ → OtaResult × Ota
  start_fresh s expected_size =
      let closed = record s { is_open = false; buffer = [] } in
      if not (F.opens closed.calls)
      then (OtaResult.flash_open_failed, update_progress_fast OtaState.error (asked closed))
      else let opened =
          update_progress_fast OtaState.receiving (record (asked closed) { is_open = true }) in
        if not (F.erases opened.calls)
        then (
          OtaResult.flash_erase_failed,
          update_progress_fast OtaState.error (record (asked opened) { is_open = false }),
        )
        else (
          OtaResult.fine,
          update_progress_fast OtaState.receiving (record (asked opened) {
            flash = [];
            total_size = if ltb 0 expected_size then expected_size else F.fa_size;
            bytes_written = 0;
            percentage = 0;
            last_error = OtaResult.fine;
            last_progress_report = 0;
          }),
        )

  unfoldable pub do_start_update : Ota → ℕ → OtaResult × Ota
  unfolding do_abort_update start_fresh
  do_start_update s expected_size =
      start_fresh (if is_idle s.state then s else (do_abort_update s).1) expected_size

  -- The report of progress at the end of a round of the loop below.
  abbrev pub report : Ota → Ota
  report s =
      if leb (s.last_progress_report + progress_report_interval) s.bytes_written
      then record (update_progress_fast OtaState.receiving s) {
        last_progress_report = s.bytes_written;
      }
      else s

  -- A round: to copy what fits, and to flush a full buffer.
  abbrev pub copied : Ota → List ℕ → ℕ → Ota
  copied s bytes n = record s {
    buffer = s.buffer ++ take n bytes;
    bytes_written = (s.bytes_written + n) % 2 ^ 32;
  }

  abbrev pub flush_full : Ota → OtaResult × Ota
  flush_full s =
      if leb write_buffer_size (length s.buffer) then flush_write_buffer s else (OtaResult.fine, s)

  -- The loop of `do_write_chunk` on fuel.
  unfoldable pub write_loop : ℕ → Ota → List ℕ → Option (OtaResult × Ota)
  unfolding flush_write_buffer
  write_loop zero s bytes = none
  write_loop (suc fuel) s [] = some (OtaResult.fine, s)
  write_loop (suc fuel) s (c ∷ cs) =
      let n = min (length (c ∷ cs)) (write_buffer_size - length s.buffer) in
      let r = flush_full (copied s (c ∷ cs) n) in
      let rest = write_loop fuel (report r.1) (drop n (c ∷ cs)) in
      if is_fine r.0 then rest else some (r.0, report r.1)

  -- `none` only if the fuel does not suffice.
  unfoldable pub do_write_chunk : ℕ → Ota → List ℕ → Option (OtaResult × Ota)
  unfolding write_loop
  do_write_chunk fuel s bytes =
      let after = write_loop fuel s bytes in
      if not s.is_open || length bytes == 0
      then some (OtaResult.not_initialized, s)
      else if not (is_receiving s.state)
      then some (OtaResult.invalid_param, s)
      else if ltb F.fa_size (s.bytes_written + length bytes)
      then some (OtaResult.insufficient_space, s)
      else if ltb 0 s.total_size && ltb s.total_size (s.bytes_written + length bytes)
      then some (OtaResult.insufficient_space, s)
      else after

  -- The magic number of an image.
  abbrev pub image_magic : ℕ
  image_magic = 2532554813

  abbrev pub is_image : Option ℕ → Bool
  is_image none = false
  is_image (some m) = m == image_magic

  -- `do_finalize_update` once the buffer is flushed.
  unfoldable pub install : Ota → OtaResult × Ota
  install s =
      let checked = update_progress_fast OtaState.validating s in
      let ready = update_progress_fast OtaState.installing (asked checked) in
      if checked.bytes_written == 0
      then (OtaResult.invalid_image, set_error OtaResult.invalid_image checked)
      else if not (is_image (F.read_magic checked.calls checked.flash))
      then (OtaResult.invalid_image, set_error OtaResult.invalid_image (asked checked))
      else if not (F.requests ready.calls)
      then (OtaResult.boot_request_failed, set_error OtaResult.boot_request_failed (asked ready))
      else (
        OtaResult.fine,
        update_progress_fast OtaState.complete (record (asked ready) { is_open = false }),
      )

  unfoldable pub do_finalize_update : Ota → OtaResult × Ota
  unfolding flush_write_buffer install
  do_finalize_update s =
      if not s.is_open
      then (OtaResult.not_initialized, s)
      else if not (is_receiving s.state)
      then (OtaResult.invalid_param, s)
      else let r = flush_write_buffer s in if not (is_fine r.0) then r else install r.1

  unfoldable pub do_confirm_firmware : Ota → OtaResult × Ota
  do_confirm_firmware s =
      ((if F.confirms s.calls then OtaResult.fine else OtaResult.boot_request_failed), asked s)

pub ota_is_update_in_progress : Ota → Bool
ota_is_update_in_progress s = elim s.state [
  | OtaState.receiving ↦ true
  | OtaState.validating ↦ true
  | OtaState.installing ↦ true
  | _ ↦ false
]
