-- ===== src/SharedMemory.antt =====
-- src/ipc/shared_memory.c: named regions of one pool, with permissions. The mutexes are not modelled,
-- except for what `k_mutex_lock` and `k_mutex_unlock` on a region's own lock return, which is an
-- argument. A region's `data` (here `base`) is its offset in the pool, and the pool is a function from offsets to
-- bytes. `size_t` is 32 bits wide, as on the boards.
pub mod Access
pub mod Pool
pub mod Permission
pub mod Content
mod Tests
use akira_os.Prelude.{
  ℕ, zero, suc, ◌+◌, ◌-◌, ◌*◌, ◌/◌, ◌%◌, ◌^◌, Bool, true, false, not, ◌&&◌, ◌||◌, Option, none,
  some, List, [], ◌∷◌, ◌++◌, if◌then◌else◌, ltb, leb, ◌==◌, length, get_elem?, get_or, set, take,
  map, replicate, find_index, CString, str_eq, Ret, ok, err, Errno, ℤ, pos, negsuc,
}

abbrev pub max_regions : ℕ
max_regions = 16

abbrev pub max_name_len : ℕ
max_name_len = 32

abbrev pub pool_size : ℕ
pool_size = 64 * 1024

abbrev pub max_perm_entries : ℕ
max_perm_entries = 8

abbrev pub size_mod : ℕ
size_mod = 2 ^ 32

-- `shmem_perm_t`, by its two bits
pub record Perm : Type 0 where
  pub may_read : Bool
  pub may_write : Bool

-- `struct shmem_perm_entry`
pub record PermEntry : Type 0 where
  pub app_id : ℕ
  pub perm : Perm

-- `struct shmem_region`; `perm_entries` holds the entries below `perm_count`.
pub record Region : Type 0 where
  pub in_use : Bool
  pub name : CString
  pub base : ℕ
  pub size : ℕ
  pub owner_id : ℕ
  pub ref_count : ℕ
  pub default_perm : Perm
  pub perm_entries : List PermEntry
  pub is_locked : Bool
  pub lock_owner : ℕ

pub record ShmemState : Type 0 where
  pub initialized : Bool
  pub regions : List Region
  pub pool : ℕ → ℕ
  pub pool_used : ℕ

abbrev pub no_region : Region
no_region = record {
  in_use = false;
  name = [];
  base = 0;
  size = 0;
  owner_id = 0;
  ref_count = 0;
  default_perm = record { may_read = false; may_write = false };
  perm_entries = [];
  is_locked = false;
  lock_owner = 0;
}

-- `shmem_state` before `shmem_init`
abbrev pub boot : ShmemState
boot = record {
  initialized = false;
  regions = replicate max_regions no_region;
  pool = λ a. 0;
  pool_used = 0;
}

abbrev pub get_current_app_id : ℕ
get_current_app_id = 0

pub find_region_by_name : ShmemState → CString → Option ℕ
find_region_by_name s name = find_index (λ (r : Region). r.in_use && str_eq r.name name) s.regions

abbrev pub region_at : List Region → ℕ → Option Region
region_at regions h = elim (get_elem? regions h) [
  | none ↦ none
  | some r ↦ if r.in_use then some r else none
]

-- The test of the upper bound is that of the array, which has `max_regions` entries.
abbrev pub get_region : ShmemState → ℤ → Option Region
get_region s (pos h) = region_at s.regions h
get_region s (negsuc n) = none

-- The index of a handle that `get_region` accepts.
abbrev pub index : ℤ → ℕ
index (pos h) = h
index (negsuc n) = 0

-- (perm & required) == required
abbrev pub covers : Perm → Perm → Bool
covers perm required =
    (not required.may_read || perm.may_read) && (not required.may_write || perm.may_write)

pub find_entry : List PermEntry → ℕ → Option ℕ
find_entry entries app_id = find_index (λ (e : PermEntry). e.app_id == app_id) entries

pub check_permission : Region → ℕ → Perm → Bool
unfolding find_entry
check_permission region app_id required =
    if app_id == region.owner_id then true else elim (find_entry region.perm_entries app_id) [
      | none ↦ covers region.default_perm required
      | some i ↦ elim (get_elem? region.perm_entries i) [
        | none ↦ covers region.default_perm required
        | some e ↦ covers e.perm required
      ]
    ]

-- (size + 7) & ~7
abbrev pub aligned : ℕ → ℕ
aligned size = (size + 7) % size_mod / 8 * 8

-- The offset that is handed out, and the new mark; `none` is NULL.
pub pool_alloc : ℕ → ℕ → Option (ℕ × ℕ)
pool_alloc pool_used size =
    if ltb pool_size ((pool_used + aligned size) % size_mod)
    then none
    else some (pool_used, (pool_used + aligned size) % size_mod)

pub shmem_init : ShmemState → Ret × ShmemState
shmem_init s = if s.initialized then (ok 0, s) else (
  ok 0,
  record s {
    regions = map (λ (r : Region). record r { in_use = false }) s.regions;
    pool_used = 0;
    initialized = true;
  },
)

-- memset(data, 0, size)
abbrev pub clear_bytes : (ℕ → ℕ) → ℕ → ℕ → ℕ → ℕ
clear_bytes pool at size a = if leb at a && ltb a (at + size) then 0 else pool a

pub find_free_region : ShmemState → Option ℕ
find_free_region s = find_index (λ (r : Region). not r.in_use) s.regions

-- The region that `shmem_create` writes; its lock is free.
abbrev pub new_region : CString → ℕ → ℕ → Perm → Region → Region
new_region name at size default_perm old = record {
  in_use = true;
  name = take (max_name_len - 1) name;
  base = at;
  size = size;
  owner_id = get_current_app_id;
  ref_count = 1;
  default_perm = default_perm;
  perm_entries = [];
  is_locked = false;
  lock_owner = old.lock_owner;
}

-- The steps of `shmem_create` from the free slot on.
pub create_at : ShmemState → ℕ → CString → ℕ → Perm → Ret × ShmemState
unfolding pool_alloc
create_at s slot name size default_perm = elim (pool_alloc s.pool_used size) [
  | none ↦ (err Errno.enomem, s)
  | some (at, used) ↦ (
    ok slot,
    record s {
      regions =
          set s.regions slot
            (new_region name at size default_perm (get_or s.regions slot no_region));
      pool = clear_bytes s.pool at size;
      pool_used = used;
    },
  )
]

pub shmem_create : ShmemState → Option CString → ℕ → Perm → Ret × ShmemState
unfolding create_at find_free_region find_region_by_name
shmem_create s none size default_perm =
    if not s.initialized then (err Errno.enodev, s) else (err Errno.einval, s)
shmem_create s (some name) size default_perm =
    if not s.initialized
    then (err Errno.enodev, s)
    else if size == 0
    then (err Errno.einval, s)
    else elim (find_region_by_name s name) [
      | some i ↦ (err Errno.eexist, s)
      | none ↦ elim (find_free_region s) [
        | none ↦ (err Errno.enomem, s)
        | some slot ↦ create_at s slot name size default_perm
      ]
    ]

abbrev pub put_region : ShmemState → ℕ → Region → ShmemState
put_region s h r = record s { regions = set s.regions h r }

pub shmem_open : ShmemState → Option CString → Perm → Ret × ShmemState
unfolding find_region_by_name check_permission
shmem_open s none requested = (err Errno.einval, s)
shmem_open s (some name) requested =
    if not s.initialized then (err Errno.einval, s) else elim (find_region_by_name s name) [
      | none ↦ (err Errno.enoent, s)
      | some h ↦
          let r = get_or s.regions h no_region in
          if not (check_permission r get_current_app_id requested)
          then (err Errno.eacces, s)
          else (ok h, put_region s h (record r { ref_count = (r.ref_count + 1) % 2 ^ 32 }))
    ]

pub shmem_close : ShmemState → ℤ → Ret × ShmemState
shmem_close s z = elim (get_region s z) [
  | none ↦ (err Errno.einval, s)
  | some r ↦
      let count = r.ref_count - 1 in
      (ok 0, put_region s (index z) (record r { ref_count = count; in_use = not (count == 0) }))
]

pub shmem_destroy : ShmemState → ℤ → Ret × ShmemState
shmem_destroy s z = elim (get_region s z) [
  | none ↦ (err Errno.einval, s)
  | some r ↦
      if not (r.owner_id == get_current_app_id)
      then (err Errno.eacces, s)
      else (ok 0, put_region s (index z) (record r { in_use = false }))
]

pub shmem_set_permission : ShmemState → ℤ → ℕ → Perm → Ret × ShmemState
unfolding find_entry
shmem_set_permission s z app_id perm = elim (get_region s z) [
  | none ↦ (err Errno.einval, s)
  | some r ↦
      let entry : PermEntry = record { app_id = app_id; perm = perm } in
      if not (r.owner_id == get_current_app_id)
      then (err Errno.eacces, s)
      else elim (find_entry r.perm_entries app_id) [
        | some i ↦
            (ok 0, put_region s (index z) (record r { perm_entries = set r.perm_entries i entry }))
        | none ↦ if leb max_perm_entries (length r.perm_entries) then (err Errno.enomem, s) else (
          ok 0,
          put_region s (index z) (record r { perm_entries = r.perm_entries ++ (entry ∷ []) }),
        )
      ]
]
