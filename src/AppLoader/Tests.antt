-- ===== src/AppLoader/Tests.antt =====
-- The loader with one small app.
use akira_os.Prelude.{
  ℕ, ◌+◌, ◌≡◌, refl, true, some, List, [], ◌∷◌, arith, ok, pos, if◌then◌else◌, ◌==◌, All-replicate,
  CString,
}
use akira_os.PathUtils.{path_get_filename, split_last}
use akira_os.AppLoader.{
  Loader, FlashFile, boot, no_app, app_max_loaded, app_at, get_app, find_free_slot,
  parse_app_metadata, app_loader_init, load_into, app_load_from_memory, load_buffer,
  app_load_from_flash,
}
use akira_os.AppLoader.States.{app_stop, app_pause}
use akira_os.AppLoader.Life.{AppValid, LoaderValid, allocations, owners}
use akira_os.AppLoader.Calls.{LoaderCall, call_all, call_all-LoaderValid}
use akira_os.AppLoader.Runtime.{pause_stop_counts_twice, flash_leaks}

abbrev empty : Loader
empty = record boot { initialized = true }

empty-LoaderValid : LoaderValid empty
empty-LoaderValid = record {
  room = refl;
  counted = refl;
  live = All-replicate AppValid app_max_loaded no_app (λ e. absurd (ground (arith, e)));
  owned = λ b. omega arith;
}

init_empty : (app_loader_init boot).1 ≡ empty
unfolding app_loader_init
init_empty = refl

abbrev wasm : List ℕ
wasm = 0 ∷ 97 ∷ 115 ∷ 109 ∷ 1 ∷ 0 ∷ 0 ∷ 0 ∷ []

abbrev file : FlashFile
file = record { opened = ok 0; stat = ok 8; buffer = some 50; content = wasm; copy = some 51 }

-- "/a"
abbrev path : CString
path = 47 ∷ 97 ∷ []

abbrev one_app : Loader
one_app = (app_load_from_flash empty (some path) file 5).1

abbrev running_app : Loader
running_app = call_all one_app (LoaderCall.start (pos 0) 100 ∷ [])

call_all-LoaderValid_example : LoaderValid (
    call_all empty (
      LoaderCall.load_flash (some path) file 5
      ∷ LoaderCall.start (pos 0) 100
      ∷ LoaderCall.unload (pos 0) 200
      ∷ []))
call_all-LoaderValid_example =
    call_all-LoaderValid
      (LoaderCall.load_flash (some path) file 5
        ∷ LoaderCall.start (pos 0) 100
        ∷ LoaderCall.unload (pos 0) 200
        ∷ [])
      empty empty-LoaderValid

pause_stop_counts_twice_example :
    (app_at (app_stop (app_pause running_app (pos 0) 110).1 (pos 0) 130).1 0).total_runtime ≡ 40
unfolding app_load_from_flash load_buffer app_load_from_memory find_free_slot load_into
    parse_app_metadata get_app path_get_filename split_last
pause_stop_counts_twice_example =
    pause_stop_counts_twice running_app 0 110 130
      (call_all-LoaderValid
        (LoaderCall.load_flash (some path) file 5 ∷ LoaderCall.start (pos 0) 100 ∷ []) empty
        empty-LoaderValid)
      (omega arith) refl refl (omega arith) (omega arith) (omega arith)

flash_leaks_example :
    (block : ℕ) × (file.buffer ≡ some block)
    × ((b : ℕ)
        → allocations b one_app + owners b empty
          ≡ allocations b empty + owners b one_app + (if block == b then 1 else 0))
unfolding app_load_from_flash load_buffer app_load_from_memory find_free_slot load_into
    parse_app_metadata
flash_leaks_example = flash_leaks empty one_app (some path) file 5 0 refl
