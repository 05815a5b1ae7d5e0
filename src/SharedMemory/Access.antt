-- ===== src/SharedMemory/Access.antt =====
-- Reads, writes, locks and queries of src/ipc/shared_memory.c.
use akira_os.Prelude.{
  ℕ, zero, suc, ◌+◌, ◌-◌, Bool, true, false, not, Option, none, some, List, [], ◌∷◌, if◌then◌else◌,
  ltb, leb, ◌==◌, length, get_elem?, take, CString, Ret, ok, err, Errno, ℤ,
}
use akira_os.SharedMemory.{
  Perm, ShmemState, get_current_app_id, get_region, index, check_permission, put_region,
}

-- memcpy of `n` bytes out of the pool, and into it.
unfoldable pub read_bytes : (ℕ → ℕ) → ℕ → ℕ → List ℕ
read_bytes pool at zero = []
read_bytes pool at (suc n) = pool at ∷ read_bytes pool (at + 1) n

abbrev pub write_bytes : (ℕ → ℕ) → ℕ → List ℕ → ℕ → ℕ
write_bytes pool at bytes a =
    if leb at a then elim (get_elem? bytes (a - at)) [ none ↦ pool a | some b ↦ b ] else pool a

abbrev pub read_only : Perm
read_only = record { may_read = true; may_write = false }

abbrev pub write_only : Perm
write_only = record { may_read = false; may_write = true }

-- The bytes that are handed out; the count returned is their number.
unfoldable pub shmem_read : ShmemState → ℤ → ℕ → ℕ → Ret × List ℕ
unfolding check_permission read_bytes
shmem_read s z offset len = elim (get_region s z) [
  | none ↦ (err Errno.einval, [])
  | some r ↦
      let available = r.size - offset in
      let to_read = if ltb len available then len else available in
      if not (check_permission r get_current_app_id read_only)
      then (err Errno.eacces, [])
      else if leb r.size offset
      then (ok 0, [])
      else (ok to_read, read_bytes s.pool (r.base + offset) to_read)
]

unfoldable pub shmem_write : ShmemState → ℤ → ℕ → List ℕ → Ret × ShmemState
unfolding check_permission
shmem_write s z offset bytes = elim (get_region s z) [
  | none ↦ (err Errno.einval, s)
  | some r ↦
      let available = r.size - offset in
      let to_write = if ltb (length bytes) available then length bytes else available in
      if not (check_permission r get_current_app_id write_only)
      then (err Errno.eacces, s)
      else if leb r.size offset
      then (ok 0, s)
      else (
        ok to_write,
        record s { pool = write_bytes s.pool (r.base + offset) (take to_write bytes) },
      )
]

-- The offset of the region's memory; `none` is NULL.
pub shmem_map : ShmemState → ℤ → Option ℕ
shmem_map s z = elim (get_region s z) [ none ↦ none | some r ↦ some r.base ]

pub shmem_unmap : ShmemState → ℤ → Ret
shmem_unmap s z = elim (get_region s z) [ none ↦ err Errno.einval | some r ↦ ok 0 ]

-- `struct shmem_info`
pub record ShmemInfo : Type 0 where
  pub name : CString
  pub size : ℕ
  pub owner_id : ℕ
  pub ref_count : ℕ
  pub default_perm : Perm

pub shmem_get_info : ShmemState → ℤ → Ret × Option ShmemInfo
shmem_get_info s z = elim (get_region s z) [
  | none ↦ (err Errno.einval, none)
  | some r ↦ (
    ok 0,
    some (record {
      name = r.name;
      size = r.size;
      owner_id = r.owner_id;
      ref_count = r.ref_count;
      default_perm = r.default_perm;
    }),
  )
]

abbrev pub is_zero : Ret → Bool
is_zero (ok n) = n == 0
is_zero (err e) = false

-- `lock` is what `k_mutex_lock` on the region's lock returns.
unfoldable pub shmem_lock : ShmemState → ℤ → Ret → Ret × ShmemState
shmem_lock s z lock = elim (get_region s z) [
  | none ↦ (err Errno.einval, s)
  | some r ↦ (
    lock,
    if is_zero lock
        then put_region s (index z) (record r { is_locked = true; lock_owner = get_current_app_id })
        else s,
  )
]

-- `unlock` is what `k_mutex_unlock` returns.
unfoldable pub shmem_unlock : ShmemState → ℤ → Ret → Ret × ShmemState
shmem_unlock s z unlock = elim (get_region s z) [
  | none ↦ (err Errno.einval, s)
  | some r ↦
      if not (r.lock_owner == get_current_app_id)
      then (err Errno.eacces, s)
      else (unlock, put_region s (index z) (record r { is_locked = false }))
]
