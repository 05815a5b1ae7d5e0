-- ===== src/Prelude/Slots.antt =====
-- The search that every fixed table of the program makes: the first entry that passes a test.
use Prim.Native.Nat.{ℕ, zero, suc, ◌<◌}
use mathlib.Core.Path.{◌≡◌, refl, subst}
use mathlib.Core.Bool.{Bool, true, false}
use mathlib.Core.List.{List, [], ◌∷◌}
use mathlib.Core.Option
use mathlib.Core.Option.{Option, none, some}
use native.Mathlib.Omega.{arith}
use akira_os.Prelude.Tests.{if◌then◌else◌, Bool-cases, Option-cases}
use akira_os.Prelude.Lists.{get_elem?, set, count_if}
use mathlib.Core.Logic.{inl, inr}

module _ {ℓ} {A : Type ℓ} where
  -- for (i = 0; i < N; i++) if (p(a[i])) return i;
  abbrev pub find_index : (A → Bool) → List A → Option ℕ
  find_index p [] = none
  find_index p (x ∷ xs) = if p x then some 0 else Option.map suc (find_index p xs)

  -- What a hit says: the entry passes, and none before it does.
  pub record Found (p : A → Bool) (xs : List A) (i : ℕ) : Type ℓ where
    pub entry : A
    pub there : get_elem? xs i ≡ some entry
    pub passes : p entry ≡ true
    pub first : (j : ℕ) (y : A) → j < i → get_elem? xs j ≡ some y → p y ≡ false

module _ {ℓ} {A : Type ℓ} (p : A → Bool) where
  Found-here : (x : A) (xs : List A) → p x ≡ true → Found p (x ∷ xs) 0
  Found-here x xs e = record {
    entry = x;
    there = refl;
    passes = e;
    first = λ j y lt h. absurd (omega arith);
  }

  Found-there :
      (x : A) (xs : List A) (i : ℕ) → p x ≡ false → Found p xs i → Found p (x ∷ xs) (suc i)
  Found-there x xs i e f = record {
    entry = f.entry;
    there = f.there;
    passes = f.passes;
    first = before;
  }
    where
      before : (j : ℕ) (y : A) → j < suc i → get_elem? (x ∷ xs) j ≡ some y → p y ≡ false
      before zero y lt h = ground arith
      before (suc j) y lt h = f.first j y (omega arith) h

  -- The search answers with the first entry that passes, or with none where no entry does.
  pub find_index-Found : (xs : List A) (i : ℕ) → find_index p xs ≡ some i → Found p xs i
  find_index-Found [] i h = ground arith
  find_index-Found (x ∷ xs) i h = elim (Bool-cases (p x)) [
    | inl e ↦ subst (Found p (x ∷ xs)) {x = 0} {y = i} (ground arith) (Found-here x xs e)
    | inr e ↦ elim (Option-cases (find_index p xs)) [
      | inl n ↦ ground arith
      | inr (j, s) ↦
          subst (Found p (x ∷ xs)) {x = suc j} {y = i} (ground arith)
            (Found-there x xs j e (find_index-Found xs j s))
    ]
  ]

  pub find_index-none : (xs : List A) → find_index p xs ≡ none → count_if p xs ≡ 0
  find_index-none [] h = refl
  find_index-none (x ∷ xs) h = ground (arith, find_index-none xs)

  -- A write that does not change an entry's test does not change the search.
  pub find_index-set :
      (xs : List A) (i : ℕ) (x v : A)
      → get_elem? xs i ≡ some x
      → p v ≡ p x
      → find_index p (set xs i v) ≡ find_index p xs
  find_index-set [] i x v h e = refl
  find_index-set (y ∷ xs) zero x v h e = ground arith
  find_index-set (y ∷ xs) (suc i) x v h e = ground (arith, find_index-set xs i x v h e)

abbrev pub or_else : Option ℕ → ℕ → ℕ
or_else none d = d
or_else (some n) d = n
