-- ===== src/Event/Ring.antt =====
-- The circular queue of src/akira/kernel/event.c read as a list, oldest event first.
use akira_os.Prelude.{
  ℕ, zero, suc, ◌+◌, ◌-◌, ◌%◌, ◌<◌, ◌≤◌, ◌≡◌, refl, sym, ap, ap₂, ◌∙◌, List, [], ◌∷◌, ◌++◌, arith,
  length, get_or, get_elem?, some, set, get_or-set_self, get_or-set_ne, length-set, remove_at,
}
use akira_os.Event.{Event, no_event, queue_size}
use akira_os.Event.Waiting.{ring_shift}

-- The `n` events from position `h` on, positions taken round the array.
abbrev pub ring_read : List Event → ℕ → ℕ → List Event
ring_read q h zero = []
ring_read q h (suc n) = get_or q (h % queue_size) no_event ∷ ring_read q (suc h) n

pub length-ring_read : (q : List Event) (h n : ℕ) → length (ring_read q h n) ≡ n
length-ring_read q h zero = refl
length-ring_read q h (suc n) = ap suc (length-ring_read q (suc h) n)

-- Only the position modulo the size matters.
pub ring_read-cong :
    (q : List Event) (h g n : ℕ)
    → h % queue_size ≡ g % queue_size
    → ring_read q h n ≡ ring_read q g n
ring_read-cong q h g zero e = refl
ring_read-cong q h g (suc n) e =
    ap₂ ◌∷◌ (ap (λ k. get_or q k no_event) e) (ring_read-cong q (suc h) (suc g) n (omega arith))

-- A write outside the window is not seen.
pub ring_read-set :
    (q : List Event) (h n b i : ℕ) (v : Event)
    → i ≡ b % queue_size
    → h ≤ b
    → b < h + queue_size
    → h + n ≤ b
    → ring_read (set q i v) h n ≡ ring_read q h n
ring_read-set q h zero b i v e p r k = refl
ring_read-set q h (suc n) b i v e p r k =
    ap₂ ◌∷◌ (get_or-set_ne q i (h % queue_size) v no_event (omega arith))
      (ring_read-set q (suc h) n b i v e (omega arith) (omega arith) (omega arith))

pub ring_read-append :
    (q : List Event) (h n : ℕ)
    → ring_read q h (suc n) ≡ ring_read q h n ++ get_or q ((h + n) % queue_size) no_event ∷ []
ring_read-append q h zero = ap (λ k. get_or q (k % queue_size) no_event ∷ []) (omega arith)
ring_read-append q h (suc n) = ap (◌∷◌ (get_or q (h % queue_size) no_event)) (
    ring_read-append q (suc h) n
    ∙ ap (λ k. ring_read q (suc h) n ++ get_or q (k % queue_size) no_event ∷ []) (omega arith))

pub length-ring_shift : (b k : ℕ) (q : List Event) → length (ring_shift b k q) ≡ length q
unfolding ring_shift
length-ring_shift b zero q = refl
length-ring_shift b (suc k) q =
    length-ring_shift (b + 1) k (set q (b % queue_size) (get_or q ((b + 1) % queue_size) no_event))
    ∙ length-set q (b % queue_size) (get_or q ((b + 1) % queue_size) no_event)

abbrev shifted : ℕ → List Event → List Event
shifted b q = set q (b % queue_size) (get_or q ((b + 1) % queue_size) no_event)

-- The shift leaves the positions before it alone.
ring_shift_before :
    (b k h n : ℕ) (q : List Event)
    → h + n ≤ b
    → b + k < h + queue_size
    → ring_read (ring_shift b k q) h n ≡ ring_read q h n
unfolding ring_shift
ring_shift_before b zero h n q p r = refl
ring_shift_before b (suc k) h n q p r =
    ring_shift_before (b + 1) k h n (shifted b q) (omega arith) (omega arith)
    ∙ ring_read-set q h n b (b % queue_size) _ refl (omega arith) (omega arith) (omega arith)

-- It moves the next `k` events one position down.
ring_shift_moves :
    (b k : ℕ) (q : List Event)
    → k < queue_size
    → length q ≡ queue_size
    → ring_read (ring_shift b k q) b k ≡ ring_read q (suc b) k
unfolding ring_shift
ring_shift_moves b zero q p l = refl
ring_shift_moves b (suc k) q p l =
    ap₂ ◌∷◌
      (ap (λ r. get_or r 0 no_event)
          (ring_shift_before (b + 1) k b 1 (shifted b q) (omega arith) (omega arith))
        ∙ get_or-set_self q (b % queue_size) _ no_event (omega arith)
        ∙ ap (λ i. get_or q (i % queue_size) no_event) (omega arith))
      (ap (λ c. ring_read (ring_shift (b + 1) k (shifted b q)) c k) (omega arith)
        ∙ ring_shift_moves (b + 1) k (shifted b q) (omega arith)
            (length-set q (b % queue_size) _ ∙ l)
        ∙ ring_read-set q (suc (b + 1)) k (b + queue_size) (b % queue_size) _ (omega arith)
            (omega arith) (omega arith) (omega arith)
        ∙ ap (λ c. ring_read q c k) (omega arith))

ring_read-split :
    (q : List Event) (h i k n : ℕ)
    → i + k ≡ n
    → ring_read q h n ≡ ring_read q h i ++ ring_read q (h + i) k
ring_read-split q h zero k n e =
    let a : h ≡ h + 0 = omega arith in let b : n ≡ k = omega arith in λ j. ring_read q (a j) (b j)
ring_read-split q h (suc i) k zero e = absurd (omega arith)
ring_read-split q h (suc i) k (suc n) e = ap (◌∷◌ (get_or q (h % queue_size) no_event)) (
    ring_read-split q (suc h) i k n (omega arith)
    ∙ ap (λ c. ring_read q (suc h) i ++ ring_read q c k) (omega arith))

remove_at-append :
    (i : ℕ) (xs : List Event) (y : Event) (ys : List Event)
    → length xs ≡ i
    → remove_at i (xs ++ y ∷ ys) ≡ xs ++ ys
remove_at-append zero [] y ys e = refl
remove_at-append zero (x ∷ xs) y ys e = absurd (omega arith)
remove_at-append (suc i) [] y ys e = absurd (omega arith)
remove_at-append (suc i) (x ∷ xs) y ys e = ap (◌∷◌ x) (remove_at-append i xs y ys (omega arith))

-- So the loop of `akira_event_wait` removes the event at offset `i`, and keeps the others in order.
pub ring_read-ring_shift :
    (q : List Event) (h i k n : ℕ)
    → i + k ≡ n
    → n < queue_size
    → length q ≡ queue_size
    → ring_read (ring_shift (h + i) k q) h n ≡ remove_at i (ring_read q h (suc n))
ring_read-ring_shift q h i k n e p l =
    ring_read-split (ring_shift (h + i) k q) h i k n e
    ∙ ap₂ ◌++◌ (ring_shift_before (h + i) k h i q (omega arith) (omega arith))
        (ring_shift_moves (h + i) k q (omega arith) l)
    ∙ sym (
        remove_at-append i (ring_read q h i) (get_or q ((h + i) % queue_size) no_event)
          (ring_read q (suc (h + i)) k) (length-ring_read q h i))
    ∙ ap (remove_at i) (sym (ring_read-split q h i (suc k) (suc n) (omega arith)))

-- A write just past the window extends it.
pub ring_push :
    (q : List Event) (h n t : ℕ) (e : Event)
    → n < queue_size
    → length q ≡ queue_size
    → t ≡ (h + n) % queue_size
    → ring_read (set q t e) h (n + 1) ≡ ring_read q h n ++ e ∷ []
ring_push q h n t e p l k =
    ap (ring_read (set q t e) h) {x = n + 1} {y = suc n} (omega arith)
    ∙ ring_read-append (set q t e) h n
    ∙ ap₂ (λ xs x. xs ++ x ∷ [])
        (ring_read-set q h n (h + n) t e k (omega arith) (omega arith) (omega arith))
        (ap (λ i. get_or (set q t e) i no_event) (sym k)
          ∙ get_or-set_self q t e no_event (omega arith))

-- A window that is not empty is its first event and the window from the next position on.
pub ring_pop :
    (q : List Event) (h n : ℕ)
    → h < queue_size
    → 0 < n
    → ring_read q h n ≡ get_or q h no_event ∷ ring_read q ((h + 1) % queue_size) (n - 1)
ring_pop q h zero p k = absurd (omega arith)
ring_pop q h (suc n) p k = ap₂ ◌∷◌ (ap (λ i. get_or q i no_event) (omega arith)) (
    ring_read-cong q (suc h) ((h + 1) % queue_size) n (omega arith)
    ∙ ap (ring_read q ((h + 1) % queue_size)) (omega arith))

-- The position after the moved events keeps its old event.
pub ring_shift_end :
    (b k j : ℕ) (q : List Event)
    → k < queue_size
    → j ≡ (b + k) % queue_size
    → get_or (ring_shift b k q) j no_event ≡ get_or q j no_event
unfolding ring_shift
ring_shift_end b zero j q p e = refl
ring_shift_end b (suc k) j q p e =
    ring_shift_end (b + 1) k j (shifted b q) (omega arith) (omega arith)
    ∙ get_or-set_ne q (b % queue_size) j _ no_event (omega arith)

pub get_elem?-ring_read :
    (q : List Event) (h n i : ℕ)
    → i < n
    → get_elem? (ring_read q h n) i ≡ some (get_or q ((h + i) % queue_size) no_event)
get_elem?-ring_read q h zero i p = absurd (omega arith)
get_elem?-ring_read q h (suc n) zero p =
    ap (λ j. some (get_or q (j % queue_size) no_event)) (omega arith)
get_elem?-ring_read q h (suc n) (suc i) p =
    get_elem?-ring_read q (suc h) n i (omega arith)
    ∙ ap (λ j. some (get_or q (j % queue_size) no_event)) (omega arith)

-- A write one place too far is not seen: the window extends by what the array held.
pub ring_push_late :
    (q : List Event) (h n t : ℕ) (e : Event)
    → n + 1 < queue_size
    → t ≡ (h + n + 1) % queue_size
    → ring_read (set q t e) h (n + 1)
      ≡ ring_read q h n ++ get_or q ((h + n) % queue_size) no_event ∷ []
ring_push_late q h n t e p k =
    ring_read-set q h (n + 1) (h + n + 1) t e k (omega arith) (omega arith) (omega arith)
    ∙ ap (ring_read q h) {x = n + 1} {y = suc n} (omega arith)
    ∙ ring_read-append q h n
