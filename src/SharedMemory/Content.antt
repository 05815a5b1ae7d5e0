-- ===== src/SharedMemory/Content.antt =====
-- Reads and writes of src/ipc/shared_memory.c: what is written is read back, and a write to one region
-- leaves the others alone.
use akira_os.Prelude.{
  ℕ, zero, suc, ◌+◌, ◌-◌, ◌≤◌, ◌<◌, ◌≡◌, ◌≢◌, ◌⊎◌, refl, sym, ap, subst, ◌∙◌, inl, inr, false, not,
  none, some, List, [], ◌∷◌, arith, if◌then◌else◌, if_case, option_case, Option-cases, ltb, leb,
  length, length-take, get_elem?, take, Ret, ok, err, Errno, pos,
}
use akira_os.SharedMemory.{Region, ShmemState, region_at, get_current_app_id, check_permission}
use akira_os.SharedMemory.Access.{
  read_only, write_only, read_bytes, write_bytes, shmem_read, shmem_write,
}
use akira_os.SharedMemory.Pool.{PoolValid}

get_elem?-ge : (bs : List ℕ) (i : ℕ) → length bs ≤ i → get_elem? bs i ≡ none
get_elem?-ge [] i le = refl
get_elem?-ge (b ∷ bs) zero le = absurd (omega arith)
get_elem?-ge (b ∷ bs) (suc i) le = get_elem?-ge bs i (omega arith)

write_bytes-outside :
    (pool : ℕ → ℕ) (at : ℕ) (bs : List ℕ) (a : ℕ)
    → (a < at) ⊎ (at + length bs ≤ a)
    → write_bytes pool at bs a ≡ pool a
write_bytes-outside pool at bs a (inl lt) = ground arith
write_bytes-outside pool at bs a (inr ge) = ground (arith, get_elem?-ge bs (a - at) (omega arith))

write_bytes-inside :
    (pool : ℕ → ℕ) (at : ℕ) (bs : List ℕ) (i b : ℕ)
    → get_elem? bs i ≡ some b
    → write_bytes pool at bs (at + i) ≡ b
write_bytes-inside pool at bs i b e =
    let same : get_elem? bs (at + i - at) ≡ some b =
      ap (get_elem? bs) {x = at + i - at} {y = i} (omega arith) ∙ e in
    ground arith

read_bytes-cong :
    (p q : ℕ → ℕ) (at n : ℕ)
    → ((a : ℕ) → at ≤ a → a < at + n → p a ≡ q a)
    → read_bytes p at n ≡ read_bytes q at n
unfolding read_bytes
read_bytes-cong p q at zero f = refl
read_bytes-cong p q at (suc n) f =
    let rest = read_bytes-cong p q (at + 1) n (λ a lo hi. f a (omega arith) (omega arith)) in
    let here : p at ≡ q at = f at (omega arith) (omega arith) in λ i. here i ∷ rest i

read_bytes-list :
    (q : ℕ → ℕ) (at : ℕ) (bs : List ℕ)
    → ((i b : ℕ) → get_elem? bs i ≡ some b → q (at + i) ≡ b)
    → read_bytes q at (length bs) ≡ bs
unfolding read_bytes
read_bytes-list q at [] f = refl
read_bytes-list q at (b ∷ bs) f =
    let here : q at ≡ b = ap q {x = at} {y = at + 0} (omega arith) ∙ f 0 b refl in
    let rest =
      read_bytes-list q (at + 1) bs
        (λ i c e. ap q {x = at + 1 + i} {y = at + suc i} (omega arith) ∙ f (suc i) c e) in
    λ i. here i ∷ rest i

-- How much of `len` bytes from the offset `at` on lies in the region.
abbrev span : Region → ℕ → ℕ → ℕ
span r at len = if ltb len (r.size - at) then len else r.size - at

abbrev read_from : (ℕ → ℕ) → Region → ℕ → ℕ → Ret × List ℕ
read_from pool r at len =
    if not (check_permission r get_current_app_id read_only)
    then (err Errno.eacces, [])
    else if leb r.size at
    then (ok 0, [])
    else (ok (span r at len), read_bytes pool (r.base + at) (span r at len))

shmem_read-hit :
    (s : ShmemState) (g at len : ℕ) {r : Region}
    → region_at s.regions g ≡ some r
    → shmem_read s (pos g) at len ≡ read_from s.pool r at len
unfolding shmem_read
shmem_read-hit s g at len e = rw (e, shmem_read) refl

shmem_read-miss :
    (s : ShmemState) (g at len : ℕ)
    → region_at s.regions g ≡ none
    → shmem_read s (pos g) at len ≡ (err Errno.einval, [])
unfolding shmem_read
shmem_read-miss s g at len e = rw (e, shmem_read) refl

-- In a state in which the regions lie in the pool and apart from one another, a write to one region changes
-- nothing that is read from another, wherever it is read.
pub shmem_read-shmem_write_ne :
    (s : ShmemState) (h g offset at len : ℕ) (bytes : List ℕ)
    → PoolValid s
    → h ≢ g
    → shmem_read (shmem_write s (pos h) offset bytes).1 (pos g) at len ≡ shmem_read s (pos g) at len
unfolding shmem_write
shmem_read-shmem_write_ne s h g offset at len bytes v ne =
    let P : Ret × ShmemState → Type 0 =
      λ w. shmem_read w.1 (pos g) at len ≡ shmem_read s (pos g) at len in
    option_case P (region_at s.regions h) (λ _. refl)
      λ r e.
        let n = if ltb (length bytes) (r.size - offset) then length bytes else r.size - offset in
        let q = write_bytes s.pool (r.base + offset) (take n bytes) in
        if_case P (not (check_permission r get_current_app_id write_only)) (λ _. refl)
          λ _.
            if_case P (leb r.size offset) (λ _. refl)
              λ in_region. elim (Option-cases (region_at s.regions g)) [
                | inl m ↦
                    shmem_read-miss (record s { pool = q }) g at len m
                    ∙ sym (shmem_read-miss s g at len m)
                | inr (o, f) ↦
                    shmem_read-hit (record s { pool = q }) g at len f
                    ∙ ap {B = Ret × List ℕ}
                        (λ (bs : List ℕ).
                          if not (check_permission o get_current_app_id read_only)
                          then (err Errno.eacces, [])
                          else if leb o.size at
                          then (ok 0, [])
                          else (ok (span o at len), bs))
                        (read_bytes-cong q s.pool (o.base + at) (span o at len) λ a lo hi.
                          write_bytes-outside s.pool (r.base + offset) (take n bytes) a
                            (ground (arith, v.apart h g r o ne e f, length-take n bytes)))
                    ∙ sym (shmem_read-hit s g at len f)
              ]

length-take_le : (n : ℕ) (bs : List ℕ) → n ≤ length bs → length (take n bs) ≡ n
length-take_le n bs le = omega (arith, length-take n bs)

-- A read that gives all that is asked for is allowed, and within the region.
read_from-inv :
    (pool : ℕ → ℕ) (r : Region) (offset n : ℕ)
    → 0 < n
    → (read_from pool r offset n).0 ≡ ok n
    → (not (check_permission r get_current_app_id read_only) ≡ false)
      × (leb r.size offset ≡ false)
      × (span r offset n ≡ n)
read_from-inv pool r offset n some_n =
    let P : Ret × List ℕ → Type 0 = λ w.
      w.0 ≡ ok n
      → (not (check_permission r get_current_app_id read_only) ≡ false)
        × (leb r.size offset ≡ false)
        × (span r offset n ≡ n) in
    if_case P (not (check_permission r get_current_app_id read_only)) (λ _ q. absurd (ground arith))
      λ c.
        if_case P (leb r.size offset) (λ _ q. absurd (ground arith))
          λ l q. (c, l, ground (arith, q))

read_from-written :
    (pool : ℕ → ℕ) (r : Region) (offset n : ℕ) (bytes : List ℕ)
    → n ≤ length bytes
    → (read_from pool r offset n).0 ≡ ok n
    → 0 < n
    → read_from (write_bytes pool (r.base + offset) (take n bytes)) r offset n
      ≡ (ok n, take n bytes)
read_from-written pool r offset n bytes le reads some_n =
    let q = write_bytes pool (r.base + offset) (take n bytes) in
    let back : read_bytes q (r.base + offset) n ≡ take n bytes =
      ap (read_bytes q (r.base + offset)) (sym (length-take_le n bytes le))
      ∙ read_bytes-list q (r.base + offset) (take n bytes)
          (λ i b e. write_bytes-inside pool (r.base + offset) (take n bytes) i b e) in
    let (allowed, within, full) = read_from-inv pool r offset n some_n reads in
    if_case (λ w. w ≡ (ok n, take n bytes)) (not (check_permission r get_current_app_id read_only))
      (λ c. absurd (cc (c, allowed)))
      λ _.
        if_case (λ w. w ≡ (ok n, take n bytes)) (leb r.size offset) (λ c. absurd (cc (c, within)))
          λ _. λ i. (ok (full i), (ap (read_bytes q (r.base + offset)) full ∙ back) i)

-- Where some bytes of a region can be read and a write there takes as many, a read afterwards gives
-- back the bytes that were written.
pub shmem_read-shmem_write :
    (s : ShmemState) (h offset n : ℕ) (bytes : List ℕ)
    → 0 < n
    → (shmem_read s (pos h) offset n).0 ≡ ok n
    → (shmem_write s (pos h) offset bytes).0 ≡ ok n
    → shmem_read (shmem_write s (pos h) offset bytes).1 (pos h) offset n ≡ (ok n, take n bytes)
unfolding shmem_write
shmem_read-shmem_write s h offset n bytes some_n reads =
    let P : Ret × ShmemState → Type 0 =
      λ w. w.0 ≡ ok n → shmem_read w.1 (pos h) offset n ≡ (ok n, take n bytes) in
    option_case P (region_at s.regions h) (λ _ q. absurd (ground arith))
      λ r e.
        let m = if ltb (length bytes) (r.size - offset) then length bytes else r.size - offset in
        let readable : (read_from s.pool r offset n).0 ≡ ok n =
          ap (λ (w : Ret × List ℕ). w.0) (sym (shmem_read-hit s h offset n e)) ∙ reads in
        if_case P (not (check_permission r get_current_app_id write_only))
          (λ _ q. absurd (ground arith))
          λ _.
            if_case P (leb r.size offset) (λ _ q. absurd (ground arith))
              λ _ q.
                let all : m ≡ n = ground (arith, q) in
                subst
                  (λ k.
                    shmem_read
                      (record s { pool = write_bytes s.pool (r.base + offset) (take k bytes) })
                      (pos h) offset n
                    ≡ (ok n, take n bytes))
                  (sym all)
                  (shmem_read-hit
                      (record s { pool = write_bytes s.pool (r.base + offset) (take n bytes) }) h
                      offset n e
                    ∙ read_from-written s.pool r offset n bytes (ground (arith, all)) readable
                        some_n)
