-- ===== src/Prelude/Shift.antt =====
-- The two loops by which the program keeps an array packed: closing a gap, and opening one.
use Prim.Native.Nat.{ℕ, zero, suc, ◌+◌, ◌<◌, ◌≤◌}
use Prim.Native.Nat.add
use mathlib.Core.Path.{◌≡◌, refl, sym, ap, ◌∙◌}
use mathlib.Core.List.{List, [], ◌∷◌, ◌++◌, append_assoc}
use mathlib.Core.Option.{none, some}
use native.Mathlib.Omega.{arith}
use akira_os.Prelude.Lists.{length, get_elem?, set, take, drop, length-set, get_elem?-lt}

module _ {ℓ} {A : Type ℓ} where
  -- a[to] = a[from]; a read out of range changes nothing.
  unfoldable pub copy_elem : List A → ℕ → ℕ → List A
  copy_elem xs from to = elim (get_elem? xs from) [ none ↦ xs | some v ↦ set xs to v ]

  -- for (j = i; j < i + k; j++) a[j] = a[j + 1];
  unfoldable pub shift_down : ℕ → ℕ → List A → List A
  unfolding copy_elem
  shift_down zero i xs = xs
  shift_down (suc k) i xs = shift_down k (suc i) (copy_elem xs (suc i) i)

  -- for (j = pos + k; j > pos; j--) a[j] = a[j - 1];
  unfoldable pub shift_up : ℕ → ℕ → List A → List A
  unfolding copy_elem
  shift_up zero pos xs = xs
  shift_up (suc k) pos xs = shift_up k pos (copy_elem xs (pos + k) (suc (pos + k)))

  -- The list without its entry `i`, and the list with `a` put before its entry `i`.
  abbrev pub remove_at : ℕ → List A → List A
  remove_at i [] = []
  remove_at zero (x ∷ xs) = xs
  remove_at (suc i) (x ∷ xs) = x ∷ remove_at i xs

  abbrev pub insert_at : ℕ → A → List A → List A
  insert_at zero a xs = a ∷ xs
  insert_at (suc i) a [] = a ∷ []
  insert_at (suc i) a (x ∷ xs) = x ∷ insert_at i a xs

module _ {ℓ} {A : Type ℓ} where
  length-copy_elem : (xs : List A) (i j : ℕ) → length (copy_elem xs i j) ≡ length xs
  unfolding copy_elem
  length-copy_elem xs i j =
      elim (get_elem? xs i)
        as (λ o. length (elim o [ none ↦ xs | some v ↦ set xs j v ]) ≡ length xs) [
          | none ↦ refl
          | some v ↦ length-set xs j v
        ]

  pub length-shift_down : (k i : ℕ) (xs : List A) → length (shift_down k i xs) ≡ length xs
  unfolding shift_down
  length-shift_down zero i xs = refl
  length-shift_down (suc k) i xs =
      omega
        (arith, length-shift_down k (suc i) (copy_elem xs (suc i) i), length-copy_elem xs (suc i) i)

  pub length-shift_up : (k pos : ℕ) (xs : List A) → length (shift_up k pos xs) ≡ length xs
  unfolding shift_up
  length-shift_up zero pos xs = refl
  length-shift_up (suc k) pos xs = omega (
    arith,
    length-shift_up k pos (copy_elem xs (pos + k) (suc (pos + k))),
    length-copy_elem xs (pos + k) (suc (pos + k)),
  )

  copy_elem-cons :
      (x : A) (xs : List A) (i j : ℕ) → copy_elem (x ∷ xs) (suc i) (suc j) ≡ x ∷ copy_elem xs i j
  unfolding copy_elem
  copy_elem-cons x xs i j = ground arith

  shift_down-cons :
      (k i : ℕ) (x : A) (xs : List A) → shift_down k (suc i) (x ∷ xs) ≡ x ∷ shift_down k i xs
  unfolding shift_down
  shift_down-cons zero i x xs = refl
  shift_down-cons (suc k) i x xs =
      rw copy_elem-cons (shift_down-cons k (suc i) x (copy_elem xs (suc i) i))

  shift_down_front :
      (k : ℕ) (x : A) (ys : List A) → k ≤ length ys → take k (shift_down k 0 (x ∷ ys)) ≡ take k ys
  unfolding shift_down
  shift_down_front zero x ys h = refl
  shift_down_front (suc k) x [] h = absurd (omega arith)
  shift_down_front (suc k) x (y ∷ ys) h =
      rw (copy_elem, shift_down-cons) (ap (◌∷◌ y) (shift_down_front k y ys (omega arith)))

  -- Closing the gap at `i` over `n` live entries removes that entry, and keeps the others in order.
  pub take-shift_down :
      (i k n : ℕ) (xs : List A)
      → i + k ≡ n
      → n < length xs
      → take n (shift_down k i xs) ≡ remove_at i (take (suc n) xs)
  take-shift_down i k n [] e h = absurd (omega arith)
  take-shift_down zero k n (x ∷ xs) e h =
      let e' : k ≡ n = omega arith in rw (← e') (shift_down_front k x xs (omega arith))
  take-shift_down (suc i) k zero (x ∷ xs) e h = absurd (omega arith)
  take-shift_down (suc i) k (suc n) (x ∷ xs) e h =
      rw shift_down-cons (ap (◌∷◌ x) (take-shift_down i k n xs (omega arith) (omega arith)))

  take-set : (k j : ℕ) (xs : List A) (v : A) → k ≤ j → take k (set xs j v) ≡ take k xs
  take-set zero j xs v h = refl
  take-set (suc k) j [] v h = refl
  take-set (suc k) zero (x ∷ xs) v h = absurd (omega arith)
  take-set (suc k) (suc j) (x ∷ xs) v h = ap (◌∷◌ x) (take-set k j xs v (omega arith))

  drop-set_self :
      (k : ℕ) (xs : List A) (v : A) → k < length xs → drop k (set xs k v) ≡ v ∷ drop (suc k) xs
  drop-set_self k [] v h = absurd (omega arith)
  drop-set_self zero (x ∷ xs) v h = refl
  drop-set_self (suc k) (x ∷ xs) v h = drop-set_self k xs v (omega arith)

  take-suc :
      (k : ℕ) (xs : List A) (v : A)
      → get_elem? xs k ≡ some v
      → take (suc k) xs ≡ take k xs ++ v ∷ []
  take-suc k [] v h = ground arith
  take-suc zero (x ∷ xs) v h = ground arith
  take-suc (suc k) (x ∷ xs) v h = ap (◌∷◌ x) (take-suc k xs v h)

  copy_elem_front :
      (m k : ℕ) (x : A) (ys : List A) (v : A)
      → m ≡ k
      → get_elem? (x ∷ ys) k ≡ some v
      → copy_elem (x ∷ ys) m (suc m) ≡ x ∷ set ys k v
  unfolding copy_elem
  copy_elem_front m k x ys v e h = rw (e, copy_elem, h) (ap (λ j. x ∷ set ys j v) e)

  shift_up_front :
      (k : ℕ) (x : A) (ys : List A)
      → k ≤ length ys
      → shift_up k 0 (x ∷ ys) ≡ x ∷ (take k (x ∷ ys) ++ drop k ys)
  unfolding shift_up
  shift_up_front zero x ys h = refl
  shift_up_front (suc k) x ys h =
      let (v, e) = get_elem?-lt (x ∷ ys) k (omega arith) in
      ap (shift_up k 0) (copy_elem_front (0 + k) k x ys v (add.zero k) e)
      ∙ shift_up_front k x (set ys k v) (omega (arith, length-set ys k v))
      ∙ ap (◌∷◌ x) (
          rw (take-set k (suc k) (x ∷ ys) v (omega arith), drop-set_self k ys v (omega arith))
            (sym (append_assoc (take k (x ∷ ys)) (v ∷ []) (drop (suc k) ys))
              ∙ ap (λ l. l ++ drop (suc k) ys) (sym (take-suc k (x ∷ ys) v e))))

  take-append-take : (n : ℕ) (xs ys : List A) → n ≤ length xs → take n (take n xs ++ ys) ≡ take n xs
  take-append-take zero xs ys h = refl
  take-append-take (suc n) [] ys h = absurd (omega arith)
  take-append-take (suc n) (x ∷ xs) ys h = ap (◌∷◌ x) (take-append-take n xs ys (omega arith))

  shift_up-cons :
      (k pos : ℕ) (x : A) (xs : List A) → shift_up k (suc pos) (x ∷ xs) ≡ x ∷ shift_up k pos xs
  unfolding shift_up
  shift_up-cons zero pos x xs = refl
  shift_up-cons (suc k) pos x xs =
      rw (add.suc pos k, copy_elem-cons)
        (shift_up-cons k pos x (copy_elem xs (pos + k) (suc (pos + k))))

  -- Opening a gap at `pos` in `n` live entries and writing there inserts the entry at `pos`.
  pub take-set-shift_up :
      (pos k n : ℕ) (xs : List A) (a : A)
      → pos + k ≡ n
      → n < length xs
      → take (suc n) (set (shift_up k pos xs) pos a) ≡ insert_at pos a (take n xs)
  take-set-shift_up pos k n [] a e h = absurd (omega arith)
  take-set-shift_up zero k n (x ∷ xs) a e h =
      let e' : k ≡ n = omega arith in
      rw (e', shift_up_front n x xs (omega arith))
        (ap (◌∷◌ a) (take-append-take n (x ∷ xs) (drop n xs) (omega arith)))
  take-set-shift_up (suc pos) k zero (x ∷ xs) a e h = absurd (omega arith)
  take-set-shift_up (suc pos) k (suc n) (x ∷ xs) a e h =
      rw shift_up-cons (ap (◌∷◌ x) (take-set-shift_up pos k n xs a (omega arith) (omega arith)))
