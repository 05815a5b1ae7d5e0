-- ===== src/AppLoader.antt =====
-- src/apps/app_loader.c: the table of loaded apps. The heap is the list of the blocks that are allocated,
-- named by numbers; what the allocator and the file system answer are arguments. A capability mask is
-- the function from bits to their values.
pub mod States
pub mod Life
pub mod Load
pub mod Calls
pub mod Runtime
mod Tests
use akira_os.Prelude.{
  ℕ, zero, suc, ◌+◌, ◌-◌, ◌*◌, ◌%◌, ◌^◌, Bool, true, false, not, ◌&&◌, ◌||◌, Option, none, some,
  List, [], ◌∷◌, Ret, ok, err, Errno, ℤ, pos, negsuc, if◌then◌else◌, ltb, ◌==◌, get_or, set, take,
  replicate, find_index, length, CString,
}
use akira_os.PathUtils.{path_get_filename}

-- APP_MAX_LOADED
abbrev pub app_max_loaded : ℕ
app_max_loaded = 8

pub data AppSource : Type 0 where
  flash sd network embedded : AppSource

pub data AppState : Type 0 where
  unloaded loading loaded running paused error : AppState

-- A mask of 32 bits.
abbrev pub Mask : Type 0
Mask = ℕ → Bool

-- `struct app_metadata`; the version, the author and the signature are the same for all apps.
pub record AppMetadata : Type 0 where
  pub name : CString
  pub wasm_size : ℕ
  pub required_memory : ℕ
  pub trust_level : ℕ
  pub is_signed : Bool
  pub is_verified : Bool

-- `struct app_cb`; module and instance are never set.
pub record App : Type 0 where
  pub in_use : Bool
  pub metadata : AppMetadata
  pub state : AppState
  pub source : AppSource
  pub wasm_data : Option ℕ
  pub wasm_size : ℕ
  pub load_time : ℕ
  pub start_time : ℕ
  pub total_runtime : ℕ
  pub capabilities : Mask

-- `loader_state`, with the heap.
pub record Loader : Type 0 where
  pub initialized : Bool
  pub apps : List App
  pub app_count : ℕ
  pub heap : List ℕ

abbrev pub no_metadata : AppMetadata
no_metadata = record {
  name = [];
  wasm_size = 0;
  required_memory = 0;
  trust_level = 0;
  is_signed = false;
  is_verified = false;
}

abbrev pub no_app : App
no_app = record {
  in_use = false;
  metadata = no_metadata;
  state = AppState.unloaded;
  source = AppSource.flash;
  wasm_data = none;
  wasm_size = 0;
  load_time = 0;
  start_time = 0;
  total_runtime = 0;
  capabilities = λ bit. false;
}

-- `loader_state` before `app_loader_init`
abbrev pub boot : Loader
boot = record {
  initialized = false;
  apps = replicate app_max_loaded no_app;
  app_count = 0;
  heap = [];
}

abbrev pub app_at : Loader → ℕ → App
app_at s i = get_or s.apps i no_app

abbrev pub put_app : Loader → ℕ → App → Loader
put_app s i a = record s { apps = set s.apps i a }

abbrev pub is_free : App → Bool
is_free a = not a.in_use

-- The index of the app, if the handle is one of an app.
unfoldable pub get_app : Loader → ℤ → Option ℕ
get_app s (negsuc n) = none
get_app s (pos i) =
    if not (ltb i app_max_loaded) then none else if not (app_at s i).in_use then none else some i

unfoldable pub find_free_slot : Loader → Option ℕ
find_free_slot s = find_index is_free s.apps

-- k_malloc, with the block it returns, and k_free.
abbrev pub allocate : ℕ → Loader → Loader
allocate block s = record s { heap = block ∷ s.heap }

abbrev pub remove_block : ℕ → List ℕ → List ℕ
remove_block block [] = []
remove_block block (b ∷ bs) =
    let rest = remove_block block bs in if b == block then bs else b ∷ rest

abbrev pub free_block : ℕ → Loader → Loader
free_block block s = record s { heap = remove_block block s.heap }

-- "unknown"
abbrev pub unknown : CString
unknown = 117 ∷ 110 ∷ 107 ∷ 110 ∷ 111 ∷ 119 ∷ 110 ∷ []

-- data[0..3] is the magic number "\0asm"
abbrev pub has_magic : List ℕ → Bool
has_magic data_ =
    (get_or data_ 0 0 == 0)
    && (get_or data_ 1 0 == 97)
    && (get_or data_ 2 0 == 115)
    && (get_or data_ 3 0 == 109)

-- The size is the length of the data.
unfoldable pub parse_app_metadata : List ℕ → Option AppMetadata
parse_app_metadata data_ =
    if ltb (length data_) 8
    then none
    else if not (has_magic data_)
    then none
    else some (record {
      name = unknown;
      wasm_size = length data_ % 2 ^ 32;
      required_memory = 64 * 1024;
      trust_level = 3;
      is_signed = false;
      is_verified = false;
    })

unfoldable pub verify_signature : App → Ret
verify_signature a = if not a.metadata.is_signed then err Errno.failed else err Errno.enotsup

-- It is not there yet, and succeeds.
abbrev pub instantiate_wasm : App → Ret
instantiate_wasm a = ok 0

unfoldable pub app_loader_init : Loader → Ret × Loader
app_loader_init s =
    if s.initialized
    then (ok 0, s)
    else (ok 0, record s { apps = map_free s.apps; app_count = 0; initialized = true })
  where
    map_free : List App → List App
    map_free [] = []
    map_free (a ∷ as_) = record a { in_use = false } ∷ map_free as_

abbrev pub name_or : Option CString → CString → CString
name_or none name = name
name_or (some n) name = take 31 n

-- `app_load_from_memory` with the slot found; `copy` is the block for the copy of the data.
unfoldable pub load_into : Loader → ℕ → List ℕ → Option CString → Option ℕ → ℕ → Ret × Loader
unfolding parse_app_metadata
load_into s i data_ name copy now =
    let slot = record (app_at s i) { in_use = true; state = AppState.loading } in
    elim (parse_app_metadata data_) [
      | none ↦ (err Errno.einval, put_app s i (record slot { in_use = false }))
      | some metadata ↦
          let named = record slot {
            metadata = record metadata { name = name_or name metadata.name };
          } in
          elim copy [
            | none ↦
                (err Errno.enomem, put_app s i (record named { in_use = false; wasm_data = none }))
            | some block ↦
                let filled = record named { wasm_data = some block; wasm_size = length data_ } in
                (
                  ok i,
                  record (allocate block (
                      put_app s i (record filled {
                        state = AppState.loaded;
                        source = AppSource.flash;
                        load_time = now;
                        capabilities = λ bit. false;
                      }))) { app_count = s.app_count + 1 },
                )
          ]
    ]

-- `none` for the data is NULL.
unfoldable pub app_load_from_memory :
    Loader → Option (List ℕ) → Option CString → Option ℕ → ℕ → Ret × Loader
unfolding find_free_slot load_into
app_load_from_memory s none name copy now = (err Errno.einval, s)
app_load_from_memory s (some data_) name copy now =
    if not s.initialized || length data_ == 0
    then (err Errno.einval, s)
    else elim (find_free_slot s) [
      | none ↦ (err Errno.enomem, s)
      | some i ↦ load_into s i data_ name copy now
    ]

-- What the file system and the allocator answer while a file is loaded: opening, the size, the buffer, what
-- is read, and the block for the copy.
pub record FlashFile : Type 0 where
  pub opened : Ret
  pub stat : Ret
  pub buffer : Option ℕ
  pub content : List ℕ
  pub copy : Option ℕ

-- `app_load_from_flash` once it has the buffer. EIO is 5.
unfoldable pub load_buffer : Loader → CString → FlashFile → ℕ → ℕ → ℕ → Ret × Loader
unfolding app_load_from_memory
load_buffer s path f size block now =
    let held = allocate block s in
    if not (length f.content == size)
    then (err (Errno.raw 5), free_block block held)
    else let r =
        app_load_from_memory held (some f.content) (some (path_get_filename path)) f.copy now in
      elim r.0 [ ok handle ↦ (ok handle, r.1) | err e ↦ (err e, free_block block r.1) ]

unfoldable pub app_load_from_flash : Loader → Option CString → FlashFile → ℕ → Ret × Loader
unfolding load_buffer
app_load_from_flash s none f now = (err Errno.einval, s)
app_load_from_flash s (some path) f now =
    if not s.initialized then (err Errno.einval, s) else elim f.opened [
      | err e ↦ (err e, s)
      | ok n ↦ elim f.stat [
        | err e ↦ (err e, s)
        | ok size ↦ elim f.buffer [
          | none ↦ (err Errno.enomem, s)
          | some block ↦ load_buffer s path f size block now
        ]
      ]
    ]

unfoldable pub app_load_embedded : Loader → Option CString → Ret
app_load_embedded s none = err Errno.einval
app_load_embedded s (some name) = if not s.initialized then err Errno.einval else err Errno.enotsup
