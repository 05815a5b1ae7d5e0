-- ===== src/SharedMemory/Tests.antt =====
-- The shared memory with two regions.
use akira_os.Prelude.{◌-◌, ◌≡◌, refl, true, some, List, [], ◌∷◌, arith, pos, ok, str_eq}
use akira_os.SharedMemory.{
  Region, region_at, shmem_set_permission, covers, find_entry, Perm, ShmemState, boot, shmem_init,
  pool_alloc, size_mod, shmem_create, create_at, find_free_region, find_region_by_name,
  check_permission,
}
use akira_os.SharedMemory.Access.{read_only, shmem_read, shmem_write, read_bytes}
use akira_os.SharedMemory.Permission.{set_permission-check_permission}
use akira_os.SharedMemory.Content.{shmem_read-shmem_write_ne, shmem_read-shmem_write}
use akira_os.SharedMemory.Pool.{
  PoolValid, ShmemCall, call_shmems, call_shmems-PoolValid, shmem_init-PoolValid, pool_alloc_wraps,
}

abbrev both_ways : Perm
both_ways = record { may_read = true; may_write = true }

abbrev some_calls : List ShmemCall
some_calls =
    ShmemCall.create (some (65 ∷ [])) 100 both_ways
    ∷ ShmemCall.create (some (66 ∷ [])) 30 both_ways
    ∷ ShmemCall.opens (some (65 ∷ [])) both_ways
    ∷ ShmemCall.write (pos 0) 8 (1 ∷ 2 ∷ 3 ∷ [])
    ∷ ShmemCall.close (pos 1)
    ∷ []

call_shmems-PoolValid_example : PoolValid (call_shmems (shmem_init boot).1 some_calls)
call_shmems-PoolValid_example =
    call_shmems-PoolValid some_calls (shmem_init boot).1
      (omega arith, (omega arith, (tt, (tt, (tt, tt))))) shmem_init-PoolValid

pool_alloc_wraps_example : pool_alloc 104 (size_mod - 104) ≡ some (104, 0)
pool_alloc_wraps_example = pool_alloc_wraps 104 (omega arith) (omega arith) refl

abbrev two_regions : ShmemState
two_regions = call_shmems (shmem_init boot).1 (
    ShmemCall.create (some (65 ∷ [])) 100 both_ways
    ∷ ShmemCall.create (some (66 ∷ [])) 30 both_ways
    ∷ [])

two_regions-PoolValid : PoolValid two_regions
two_regions-PoolValid =
    call_shmems-PoolValid
      (ShmemCall.create (some (65 ∷ [])) 100 both_ways
        ∷ ShmemCall.create (some (66 ∷ [])) 30 both_ways
        ∷ [])
      (shmem_init boot).1 (omega arith, (omega arith, tt)) shmem_init-PoolValid

shmem_read-shmem_write_ne_example :
    shmem_read (shmem_write two_regions (pos 0) 98 (1 ∷ 2 ∷ 3 ∷ [])).1 (pos 1) 0 30
    ≡ shmem_read two_regions (pos 1) 0 30
shmem_read-shmem_write_ne_example =
    shmem_read-shmem_write_ne two_regions 0 1 98 0 30 (1 ∷ 2 ∷ 3 ∷ []) two_regions-PoolValid
      (omega arith)

shmem_read-shmem_write_example :
    shmem_read (shmem_write two_regions (pos 0) 98 (1 ∷ 2 ∷ 3 ∷ [])).1 (pos 0) 98 2
    ≡ (ok 2, 1 ∷ 2 ∷ [])
unfolding shmem_init shmem_create create_at find_free_region find_region_by_name str_eq pool_alloc
    shmem_read shmem_write check_permission read_bytes
shmem_read-shmem_write_example =
    shmem_read-shmem_write two_regions 0 98 2 (1 ∷ 2 ∷ 3 ∷ []) (omega arith) refl refl

set_permission-check_permission_example :
    (r : Region) × (region_at (shmem_set_permission two_regions (pos 0) 5 read_only).1.regions 0
      ≡ some r)
    × ((required : Perm) → check_permission r 5 required ≡ covers read_only required)
unfolding shmem_init shmem_create create_at find_free_region find_region_by_name str_eq pool_alloc
    shmem_set_permission find_entry
set_permission-check_permission_example =
    set_permission-check_permission two_regions 0 5 read_only (omega arith) refl
