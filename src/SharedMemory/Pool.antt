-- ===== src/SharedMemory/Pool.antt =====
-- The pool of src/ipc/shared_memory.c: the regions lie in it, apart from each other.
use akira_os.Prelude.{
  ℕ, zero, suc, ◌+◌, ◌-◌, ◌%◌, ◌≤◌, ◌<◌, ◌≡◌, ◌≢◌, ◌⊎◌, refl, sym, ap, subst, ◌∙◌, inl, inr, true,
  not, ◌&&◌, Option, none, some, List, [], ◌∷◌, arith, if_case, option_case, leb, ◌==◌, length,
  length-set, replicate, get_or, get_or_of_get_elem?, str_eq, All, set, find_index,
  find_index-Found, CString, Ret, ℤ, pos, negsuc,
}
use akira_os.SharedMemory.{
  Region, ShmemState, Perm, max_regions, pool_size, size_mod, region_at, put_region, pool_alloc,
  create_at, new_region, no_region, boot, shmem_init, shmem_create, shmem_open, shmem_close,
  shmem_destroy, shmem_set_permission, find_free_region, find_region_by_name, get_region, index,
  find_entry, get_current_app_id, check_permission, max_perm_entries,
}
use akira_os.SharedMemory.Access.{shmem_write, shmem_lock, shmem_unlock, is_zero, write_only}

-- Each region in use lies below the mark, the mark in the pool, and no two regions overlap.
pub record PoolValid (s : ShmemState) : Type 0 where
  pub slots : length s.regions ≡ max_regions
  pub used_in : s.pool_used ≤ pool_size
  pub inside : (i : ℕ) (r : Region) → region_at s.regions i ≡ some r → r.base + r.size ≤ s.pool_used
  pub apart :
      (i j : ℕ) (r q : Region)
      → i ≢ j
      → region_at s.regions i ≡ some r
      → region_at s.regions j ≡ some q
      → (r.base + r.size ≤ q.base) ⊎ (q.base + q.size ≤ r.base)

-- What a table holds after a write to one entry.
region_at-set :
    (xs : List Region) (h i : ℕ) (v r : Region)
    → region_at (set xs h v) i ≡ some r
    → ((h ≡ i) × (v ≡ r) × (v.in_use ≡ true)) ⊎ ((h ≢ i) × (region_at xs i ≡ some r))
region_at-set [] h i v r e = absurd (ground arith)
region_at-set (x ∷ xs) zero zero v r e = inl (refl, ground arith, ground arith)
region_at-set (x ∷ xs) zero (suc i) v r e = inr (omega arith, e)
region_at-set (x ∷ xs) (suc h) zero v r e = inr (omega arith, e)
region_at-set (x ∷ xs) (suc h) (suc i) v r e = ground (arith, region_at-set xs h i v r e)

-- A change to an entry that neither moves a region nor brings one back.
keep-PoolValid :
    (s : ShmemState) (h : ℕ) (r r' : Region)
    → region_at s.regions h ≡ some r
    → r'.base ≡ r.base
    → r'.size ≡ r.size
    → PoolValid s
    → PoolValid (put_region s h r')
keep-PoolValid s h r r' e d z v = record {
  slots = length-set s.regions h r' ∙ v.slots;
  used_in = v.used_in;
  inside = λ i q q_eq.
      let (q0, there, d0, z0) = same i q q_eq in omega (arith, v.inside i q0 there, d0, z0);
  apart = λ i j q p ne q_eq p_eq.
      let (q0, q_there, qd, qz) = same i q q_eq in
      let (p0, p_there, pd, pz) = same j p p_eq in
      ground (arith, v.apart i j q0 p0 ne q_there p_there);
}
  where
    same :
        (i : ℕ) (q : Region)
        → region_at (set s.regions h r') i ≡ some q
        → (q0 : Region) × (region_at s.regions i ≡ some q0)
          × (q.base ≡ q0.base)
          × (q.size ≡ q0.size)
    same i q q_eq = elim (region_at-set s.regions h i r' q q_eq) [
      | inl (hi, rq, _) ↦ (
        r,
        ap (region_at s.regions) (sym hi) ∙ e,
        ap (λ (x : Region). x.base) (sym rq) ∙ d,
        ap (λ (x : Region). x.size) (sym rq) ∙ z,
      )
      | inr (_, there) ↦ (q, there, refl, refl)
    ]

-- Below the size at which the sum with the mark would wrap, what the allocator hands out is free
-- and large enough.
alloc-fits :
    (used size : ℕ) {at used' : ℕ}
    → used ≤ pool_size
    → size + pool_size + 8 ≤ size_mod
    → pool_alloc used size ≡ some (at, used')
    → (at ≡ used) × (used + size ≤ used') × (used' ≤ pool_size)
unfolding pool_alloc
alloc-fits used size u small e = ground arith

create_at-PoolValid :
    (s : ShmemState) (slot : ℕ) (name : CString) (size : ℕ) (perm : Perm)
    → size + pool_size + 8 ≤ size_mod
    → PoolValid s
    → PoolValid (create_at s slot name size perm).1
unfolding create_at
create_at-PoolValid s slot name size perm small v =
    option_case (λ (r : Ret × ShmemState). PoolValid r.1) (pool_alloc s.pool_used size) (λ _. v)
      λ (at, used') e.
        let (at_eq, fits, top) = alloc-fits s.pool_used size v.used_in small e in
        let n = new_region name at size perm (get_or s.regions slot no_region) in
        record {
          slots = length-set s.regions slot n ∙ v.slots;
          used_in = top;
          inside = λ i r r_eq. elim (region_at-set s.regions slot i n r r_eq) [
            | inl new ↦
                subst (λ (x : Region). x.base + x.size ≤ used') new.1 (omega (arith, at_eq, fits))
            | inr old ↦ omega (arith, fits, v.inside i r old.1)
          ];
          apart = λ i j r q ne r_eq q_eq. elim (region_at-set s.regions slot i n r r_eq) [
            | inl new ↦ elim (region_at-set s.regions slot j n q q_eq) [
              | inl new' ↦ absurd (ne (sym new.0 ∙ new'.0))
              | inr old' ↦
                  subst (λ (x : Region). (x.base + x.size ≤ q.base) ⊎ (q.base + q.size ≤ x.base))
                    new.1 (inr (omega (arith, at_eq, v.inside j q old'.1)))
            ]
            | inr old ↦ elim (region_at-set s.regions slot j n q q_eq) [
              | inl new' ↦
                  subst (λ (x : Region). (r.base + r.size ≤ x.base) ⊎ (x.base + x.size ≤ r.base))
                    new'.1 (inl (omega (arith, at_eq, v.inside i r old.1)))
              | inr old' ↦ v.apart i j r q ne old.1 old'.1
            ]
          ];
        }

get_region-inv :
    (s : ShmemState) (z : ℤ) {r : Region}
    → get_region s z ≡ some r
    → region_at s.regions (index z) ≡ some r
get_region-inv s (pos h) e = e
get_region-inv s (negsuc n) e = absurd (ground arith)

keep_at :
    (s : ShmemState) (z : ℤ) (r r' : Region)
    → get_region s z ≡ some r
    → r'.base ≡ r.base
    → r'.size ≡ r.size
    → PoolValid s
    → PoolValid (put_region s (index z) r')
keep_at s z r r' e = keep-PoolValid s (index z) r r' (get_region-inv s z e)

-- The calls that change the table, the pool or the permissions; a region asked for is small enough
-- where the sum with the pool's size stays within 32 bits.
pub data ShmemCall : Type 0 where
  create : Option CString → ℕ → Perm → ShmemCall
  opens : Option CString → Perm → ShmemCall
  close destroy : ℤ → ShmemCall
  set_permission : ℤ → ℕ → Perm → ShmemCall
  lock unlock : ℤ → Ret → ShmemCall
  write : ℤ → ℕ → List ℕ → ShmemCall

abbrev pub IsSmall : ShmemCall → Type 0
IsSmall (create name size perm) = size + pool_size + 8 ≤ size_mod
IsSmall _ = Unit {0}

abbrev pub call_shmem : ShmemState → ShmemCall → ShmemState
call_shmem s (create name size perm) = (shmem_create s name size perm).1
call_shmem s (opens name perm) = (shmem_open s name perm).1
call_shmem s (close z) = (shmem_close s z).1
call_shmem s (destroy z) = (shmem_destroy s z).1
call_shmem s (set_permission z app perm) = (shmem_set_permission s z app perm).1
call_shmem s (lock z r) = (shmem_lock s z r).1
call_shmem s (unlock z r) = (shmem_unlock s z r).1
call_shmem s (write z offset bytes) = (shmem_write s z offset bytes).1

abbrev pub call_shmems : ShmemState → List ShmemCall → ShmemState
call_shmems s [] = s
call_shmems s (c ∷ cs) = call_shmems (call_shmem s c) cs

abbrev AfterValid : Ret × ShmemState → Type 0
AfterValid r = PoolValid r.1

call_shmem-PoolValid :
    (s : ShmemState) (c : ShmemCall) → IsSmall c → PoolValid s → PoolValid (call_shmem s c)
unfolding shmem_create shmem_open shmem_close shmem_destroy shmem_set_permission shmem_lock
    shmem_unlock shmem_write find_region_by_name
call_shmem-PoolValid s (create none size perm) b v =
    if_case AfterValid (not s.initialized) (λ _. v) (λ _. v)
call_shmem-PoolValid s (create (some name) size perm) b v =
    if_case AfterValid (not s.initialized) (λ _. v)
      λ _.
        if_case AfterValid (size == 0) (λ _. v)
          λ _.
            option_case AfterValid (find_region_by_name s name)
              (λ _.
                option_case AfterValid (find_free_region s) (λ _. v)
                  λ slot _. create_at-PoolValid s slot name size perm b v)
              (λ i _. v)
call_shmem-PoolValid s (opens none perm) b v = v
call_shmem-PoolValid s (opens (some name) perm) b v =
    if_case AfterValid (not s.initialized) (λ _. v)
      λ _.
        option_case AfterValid
          (find_index (λ (r : Region). r.in_use && str_eq r.name name) s.regions) (λ _. v)
          λ h e.
            let r = get_or s.regions h no_region in
            let f =
              find_index-Found (λ (r : Region). r.in_use && str_eq r.name name) s.regions h e in
            let there : region_at s.regions h ≡ some r =
              ground
                (arith, f.there, f.passes, get_or_of_get_elem? s.regions h no_region f.there) in
            if_case AfterValid (not (check_permission r get_current_app_id perm)) (λ _. v)
              λ _. keep-PoolValid s h r _ there refl refl v
call_shmem-PoolValid s (close z) b v =
    option_case AfterValid (get_region s z) (λ _. v) λ r e. keep_at s z r _ e refl refl v
call_shmem-PoolValid s (destroy z) b v =
    option_case AfterValid (get_region s z) (λ _. v)
      λ r e.
        if_case AfterValid (not (r.owner_id == get_current_app_id)) (λ _. v)
          λ _. keep_at s z r _ e refl refl v
call_shmem-PoolValid s (set_permission z app perm) b v =
    option_case AfterValid (get_region s z) (λ _. v)
      λ r e.
        if_case AfterValid (not (r.owner_id == get_current_app_id)) (λ _. v)
          λ _.
            option_case AfterValid (find_entry r.perm_entries app)
              (λ _.
                if_case AfterValid (leb max_perm_entries (length r.perm_entries)) (λ _. v)
                  λ _. keep_at s z r _ e refl refl v)
              (λ i _. keep_at s z r _ e refl refl v)
call_shmem-PoolValid s (lock z k) b v =
    option_case AfterValid (get_region s z) (λ _. v)
      λ r e. if_case PoolValid (is_zero k) (λ _. keep_at s z r _ e refl refl v) (λ _. v)
call_shmem-PoolValid s (unlock z k) b v =
    option_case AfterValid (get_region s z) (λ _. v)
      λ r e.
        if_case AfterValid (not (r.lock_owner == get_current_app_id)) (λ _. v)
          λ _. keep_at s z r _ e refl refl v
call_shmem-PoolValid s (write z offset bytes) b v =
    option_case AfterValid (get_region s z) (λ _. v)
      λ r e.
        if_case AfterValid (not (check_permission r get_current_app_id write_only)) (λ _. v)
          λ _.
            if_case AfterValid (leb r.size offset) (λ _. v)
              λ _. record {
                slots = v.slots;
                used_in = v.used_in;
                inside = v.inside;
                apart = v.apart;
              }

-- Where no region asked for is so large that the sum in the allocator wraps, any sequence of calls
-- keeps the regions in the pool and apart from each other.
pub call_shmems-PoolValid :
    (cs : List ShmemCall) (s : ShmemState)
    → All IsSmall cs
    → PoolValid s
    → PoolValid (call_shmems s cs)
call_shmems-PoolValid [] s b v = v
call_shmems-PoolValid (c ∷ cs) s b v =
    call_shmems-PoolValid cs (call_shmem s c) b.1 (call_shmem-PoolValid s c b.0 v)

-- The defect: once `used` bytes are taken, a request for 2 ^ 32 - `used` bytes, far beyond the
-- pool, is granted, and the mark goes back to 0.
pub pool_alloc_wraps :
    (used : ℕ)
    → 0 < used
    → used ≤ pool_size
    → used % 8 ≡ 0
    → pool_alloc used (size_mod - used) ≡ some (used, 0)
unfolding pool_alloc
pool_alloc_wraps used some_used le mult = ground arith

none_in_use : (n i : ℕ) (r : Region) → region_at (replicate n no_region) i ≢ some r
none_in_use zero i r e = ground arith
none_in_use (suc n) zero r e = ground arith
none_in_use (suc n) (suc i) r e = none_in_use n i r e

-- `shmem_init` starts with a valid pool.
pub shmem_init-PoolValid : PoolValid (shmem_init boot).1
unfolding shmem_init
shmem_init-PoolValid = record {
  slots = refl;
  used_in = omega arith;
  inside = λ i r e. absurd (none_in_use max_regions i r e);
  apart = λ i j r q ne e f. absurd (none_in_use max_regions i r e);
}
