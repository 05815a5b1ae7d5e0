-- ===== src/Ota/Thread.antt =====
-- The thread of src/OTA/ota_manager.c: the messages, and what the thread does with each of them. The waiting
-- of the callers is not modelled.
use akira_os.Prelude.{
  ℕ, ◌+◌, Bool, true, false, not, ◌&&◌, ◌||◌, Option, none, some, List, if◌then◌else◌, ltb, ◌==◌,
  length,
}
use akira_os.Ota.{
  OtaResult, Flash, Ota, is_fine, set_error, do_abort_update, do_start_update, do_write_chunk,
  do_finalize_update, do_confirm_firmware,
}

pub data OtaMsg : Type 0 where
  start_update : ℕ → OtaMsg
  write_chunk : List ℕ → OtaMsg
  finalize_update abort_update confirm_firmware request_rollback : OtaMsg
  reboot_request : ℕ → OtaMsg

abbrev is_write : OtaMsg → Bool
is_write (OtaMsg.write_chunk bytes) = true
is_write _ = false

-- The message that `ota_write_chunk` sends, if it sends one.
pub ota_write_chunk : List ℕ → Option OtaMsg
ota_write_chunk bytes =
    if length bytes == 0 || ltb 65535 (length bytes) then none else some (OtaMsg.write_chunk bytes)

-- The result and the state; a reboot leaves the state alone, and its result is that before the switch.
perform_msg : Flash → Ota → OtaMsg → Option (OtaResult × Ota)
perform_msg F s (OtaMsg.start_update expected_size) = some (do_start_update F s expected_size)
perform_msg F s (OtaMsg.write_chunk bytes) = do_write_chunk F (length bytes + 2) s bytes
perform_msg F s OtaMsg.finalize_update = some (do_finalize_update F s)
perform_msg F s OtaMsg.abort_update = some (do_abort_update F s)
perform_msg F s OtaMsg.confirm_firmware = some (do_confirm_firmware F s)
perform_msg F s OtaMsg.request_rollback = some (OtaResult.fine, s)
perform_msg F s (OtaMsg.reboot_request delay_ms) = some (OtaResult.invalid_param, s)

-- One round of `ota_thread_main`.
pub handle_msg : Flash → Ota → OtaMsg → Option (OtaResult × Ota)
unfolding perform_msg
handle_msg F s msg = elim (perform_msg F s msg) [
  | none ↦ none
  | some r ↦ some (r.0, if not (is_fine r.0) && not (is_write msg) then set_error r.0 r.1 else r.1)
]
