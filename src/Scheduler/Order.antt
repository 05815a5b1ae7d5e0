-- ===== src/Scheduler/Order.antt =====
-- Lists of handles in order of priority: insertion behind the equals, removal, and counting.
use akira_os.Prelude.{
  ℕ, zero, suc, ◌+◌, ◌-◌, ◌≤◌, ◌<◌, ◌≡◌, ◌≢◌, refl, Bool, true, false, none, some, List, [], ◌∷◌,
  arith, if◌then◌else◌, ◌==◌, if_case, count_if, All, find_index, insert_at, remove_at, length,
  or_else,
}
use native.Mathlib.Nat.{le_trans}

-- How often a handle is in the list.
abbrev pub count : ℕ → List ℕ → ℕ
count g = count_if (λ x. x == g)

-- Put `h` before the first entry that `p` marks, or at the end.
pub insert_before : (ℕ → Bool) → ℕ → List ℕ → List ℕ
insert_before p h [] = h ∷ []
insert_before p h (x ∷ xs) = if p x then h ∷ x ∷ xs else x ∷ insert_before p h xs

-- Drop the first `h`.
pub erase : ℕ → List ℕ → List ℕ
erase h [] = []
erase h (x ∷ xs) = if x == h then xs else x ∷ erase h xs

pub insert_at-insert_before :
    (p : ℕ → Bool) (h : ℕ) (xs : List ℕ)
    → insert_at (or_else (find_index p xs) (length xs)) h xs ≡ insert_before p h xs
unfolding insert_before
insert_at-insert_before p h [] = refl
insert_at-insert_before p h (x ∷ xs) = ground (arith, insert_at-insert_before p h xs)

pub remove_at-erase :
    (h i : ℕ) (xs : List ℕ) → find_index (λ x. x == h) xs ≡ some i → remove_at i xs ≡ erase h xs
unfolding erase
remove_at-erase h i [] e = ground arith
remove_at-erase h zero (x ∷ xs) e = ground arith
remove_at-erase h (suc i) (x ∷ xs) e = ground (arith, remove_at-erase h i xs)

pub erase-miss : (h : ℕ) (xs : List ℕ) → find_index (λ x. x == h) xs ≡ none → erase h xs ≡ xs
unfolding erase
erase-miss h [] e = refl
erase-miss h (x ∷ xs) e = ground (arith, erase-miss h xs)

pub count-insert_before :
    (p : ℕ → Bool) (h g : ℕ) (xs : List ℕ)
    → count g (insert_before p h xs) ≡ (if h == g then 1 else 0) + count g xs
unfolding insert_before
count-insert_before p h g [] = refl
count-insert_before p h g (x ∷ xs) = ground (arith, count-insert_before p h g xs)

pub count-erase :
    (h g : ℕ) (xs : List ℕ) → count g (erase h xs) ≡ count g xs - (if h == g then 1 else 0)
unfolding erase
count-erase h g [] = ground arith
count-erase h g (x ∷ xs) = ground (arith, count-erase h g xs)

erase-gone : (h : ℕ) (xs : List ℕ) → count h xs ≡ 0 → erase h xs ≡ xs
unfolding erase
erase-gone h [] e = refl
erase-gone h (x ∷ xs) e = ground (arith, erase-gone h xs)

pub length-erase :
    (h : ℕ) (xs : List ℕ) → count h xs ≤ 1 → length (erase h xs) + count h xs ≡ length xs
unfolding erase
length-erase h [] le = refl
length-erase h (x ∷ xs) le = ground (arith, length-erase h xs, erase-gone h xs)

pub All-erase : (P : ℕ → Type 0) (h : ℕ) (xs : List ℕ) → All P xs → All P (erase h xs)
unfolding erase
All-erase P h [] a = tt
All-erase P h (x ∷ xs) a = if_case (All P) (x == h) (λ _. a.1) (λ _. (a.0, All-erase P h xs a.1))

pub All-insert_before :
    (P : ℕ → Type 0) (p : ℕ → Bool) (h : ℕ) (xs : List ℕ)
    → All P xs
    → P h
    → All P (insert_before p h xs)
unfolding insert_before
All-insert_before P p h [] a b = (b, tt)
All-insert_before P p h (x ∷ xs) a b =
    if_case (All P) (p x) (λ _. (b, a)) (λ _. (a.0, All-insert_before P p h xs a.1 b))

pub All-mono : (P Q : ℕ → Type 0) (xs : List ℕ) → ((x : ℕ) → P x → Q x) → All P xs → All Q xs
All-mono P Q [] f a = tt
All-mono P Q (x ∷ xs) f a = (f x a.0, All-mono P Q xs f a.1)

pub All-ne : (h : ℕ) (xs : List ℕ) → count h xs ≡ 0 → All (λ x. x ≢ h) xs
All-ne h [] e = tt
All-ne h (x ∷ xs) e = (λ q. ground arith, All-ne h xs (ground arith))

-- Priorities never rise along the list.
abbrev pub IsSorted : (ℕ → ℕ) → List ℕ → Type 0
IsSorted prio [] = Unit {0}
IsSorted prio (x ∷ xs) = All (λ y. prio y ≤ prio x) xs × IsSorted prio xs

pub erase-IsSorted :
    (prio : ℕ → ℕ) (h : ℕ) (xs : List ℕ) → IsSorted prio xs → IsSorted prio (erase h xs)
unfolding erase
erase-IsSorted prio h [] s = tt
erase-IsSorted prio h (x ∷ xs) s =
    if_case (IsSorted prio) (x == h) (λ _. s.1)
      λ _. (All-erase (λ y. prio y ≤ prio x) h xs s.0, erase-IsSorted prio h xs s.1)

-- Insertion before the first entry of lower priority keeps the order.
pub insert_before-IsSorted :
    (prio : ℕ → ℕ) (p : ℕ → Bool) (h : ℕ) (xs : List ℕ)
    → ((x : ℕ) → p x ≡ true → prio x ≤ prio h)
    → All (λ x. p x ≡ false → prio h ≤ prio x) xs
    → IsSorted prio xs
    → IsSorted prio (insert_before p h xs)
unfolding insert_before
insert_before-IsSorted prio p h [] lo hi s = (tt, tt)
insert_before-IsSorted prio p h (x ∷ xs) lo hi s =
    if_case (IsSorted prio) (p x)
      (λ e. (
        (
          lo x e,
          All-mono (λ y. prio y ≤ prio x) (λ y. prio y ≤ prio h) xs (λ y le. le_trans le (lo x e))
              s.0,
        ),
        s,
      ))
      λ e. (
        All-insert_before (λ y. prio y ≤ prio x) p h xs s.0 (hi.0 e),
        insert_before-IsSorted prio p h xs lo hi.1 s.1,
      )

-- The order depends on the priorities of the listed entries alone.
pub IsSorted-cong :
    (f g : ℕ → ℕ) (xs : List ℕ) → All (λ x. f x ≡ g x) xs → IsSorted f xs → IsSorted g xs
IsSorted-cong f g [] e s = tt
IsSorted-cong f g (x ∷ xs) e s = (below xs e.1 s.0, IsSorted-cong f g xs e.1 s.1)
  where
    below :
        (ys : List ℕ) → All (λ y. f y ≡ g y) ys → All (λ y. f y ≤ f x) ys → All (λ y. g y ≤ g x) ys
    below [] a b = tt
    below (y ∷ ys) a b = (omega (arith, e.0), below ys a.1 b.1)

pub length-insert_before :
    (p : ℕ → Bool) (h : ℕ) (xs : List ℕ) → length (insert_before p h xs) ≡ length xs + 1
unfolding insert_before
length-insert_before p h [] = refl
length-insert_before p h (x ∷ xs) = ground (arith, length-insert_before p h xs)

-- What holds of every handle that occurs holds of the entries.
pub All-of_count : (P : ℕ → Type 0) (xs : List ℕ) → ((x : ℕ) → 0 < count x xs → P x) → All P xs
All-of_count P [] f = tt
All-of_count P (x ∷ xs) f = (f x (ground arith), All-of_count P xs (λ y lt. f y (ground arith)))
