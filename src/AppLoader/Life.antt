-- ===== src/AppLoader/Life.antt =====
-- The table and the heap of src/apps/app_loader.c over all sequences of calls.
use akira_os.Prelude.{
  ℕ, ◌+◌, ◌-◌, ◌<◌, ◌≤◌, ◌≡◌, ap₂, subst, ◌∙◌, Bool, true, false, not, ◌&&◌, ◌||◌, Option, none,
  some, List, [], ◌∷◌, arith, Ret, ℤ, pos, negsuc, if◌then◌else◌, if_case, option_case, ltb, ◌==◌,
  length, All, All-set, All-get_or, count_if, count_if-set_or, length-set,
}
use akira_os.AppLoader.{
  AppState, App, Loader, no_app, app_max_loaded, app_at, put_app, get_app, allocate, remove_block,
  free_block,
}
use akira_os.AppLoader.States.{is_running, is_paused, is_loaded, change_app}

abbrev pub uses : App → Bool
uses a = a.in_use

-- The app is in use and the block is its data.
abbrev pub owns : ℕ → App → Bool
owns b a = a.in_use && elim a.wasm_data [ none ↦ false | some d ↦ d == b ]

-- How often the block is allocated, and how many apps own it.
abbrev pub allocations : ℕ → Loader → ℕ
allocations b s = count_if (λ d. d == b) s.heap

abbrev pub owners : ℕ → Loader → ℕ
owners b s = count_if (owns b) s.apps

-- An app in use is LOADED, RUNNING or PAUSED, and has its data.
abbrev pub is_live : App → Bool
is_live a =
    (is_loaded a.state || (is_running a.state || is_paused a.state))
    && elim a.wasm_data [ none ↦ false | some d ↦ true ]

abbrev pub AppValid : App → Type 0
AppValid a = a.in_use ≡ true → is_live a ≡ true

pub record LoaderValid (s : Loader) : Type 0 where
  pub room : length s.apps ≡ app_max_loaded
  pub counted : s.app_count ≡ count_if uses s.apps
  pub live : All AppValid s.apps
  pub owned : (b : ℕ) → owners b s ≤ allocations b s

-- Rewriting an app that stays in use with its data, or free.
pub put_app-LoaderValid :
    (s : Loader) (i : ℕ) (a : App)
    → i < length s.apps
    → a.in_use ≡ (app_at s i).in_use
    → a.wasm_data ≡ (app_at s i).wasm_data
    → AppValid a
    → LoaderValid s
    → LoaderValid (put_app s i a)
put_app-LoaderValid s i a lt same held av v = record {
  room = length-set s.apps i a ∙ v.room;
  counted = ground (arith, v.counted, same, count_if-set_or uses s.apps i no_app a lt);
  live = All-set AppValid s.apps i a v.live av;
  owned = λ b.
      let same_owns : owns b a ≡ owns b (app_at s i) =
        ap₂ (λ u d. u && elim d [ none ↦ false | some d ↦ d == b ]) same held in
      ground (arith, v.owned b, same_owns, count_if-set_or (owns b) s.apps i no_app a lt);
}

-- What a handle that is found says.
pub get_app-hit :
    (s : Loader) (h : ℤ) (i : ℕ)
    → get_app s h ≡ some i
    → (i < app_max_loaded) × ((app_at s i).in_use ≡ true)
unfolding get_app
get_app-hit s (negsuc n) i e = absurd (ground (arith, e))
get_app-hit s (pos j) i e =
    let P : Option ℕ → Type 0 =
      λ o. o ≡ some i → (i < app_max_loaded) × ((app_at s i).in_use ≡ true) in
    if_case P (not (ltb j app_max_loaded)) (λ _ f. absurd (ground (arith, f)))
      (λ lt.
        if_case P (not (app_at s j).in_use) (λ _ f. absurd (ground (arith, f)))
          λ on f.
            let j_eq : j ≡ i = ground (arith, f) in
            subst (λ k. (k < app_max_loaded) × ((app_at s k).in_use ≡ true)) j_eq
              (ground (arith, lt), ground (arith, on)))
      e

pub app_at-AppValid : (s : Loader) (i : ℕ) → LoaderValid s → AppValid (app_at s i)
app_at-AppValid s i v = All-get_or AppValid s.apps i no_app (λ e. absurd (ground (arith, e))) v.live

pub change_app-LoaderValid :
    (s : Loader) (h : ℤ) (asks : AppState → Bool) (f : App → App)
    → ((a : App) → (f a).in_use ≡ a.in_use)
    → ((a : App) → (f a).wasm_data ≡ a.wasm_data)
    → ((a : App) → AppValid a → AppValid (f a))
    → LoaderValid s
    → LoaderValid (change_app s h asks f).1
change_app-LoaderValid s h asks f same held keeps v =
    let P : Ret × Loader → Type 0 = λ r. LoaderValid r.1 in
    option_case P (get_app s h) (λ _. v)
      λ i e.
        let (lt, on) = get_app-hit s h i e in
        if_case P (not (asks (app_at s i).state)) (λ _. v)
          λ _.
            put_app-LoaderValid s i (f (app_at s i)) (omega (arith, lt, v.room)) (same (app_at s i))
              (held (app_at s i)) (keeps (app_at s i) (app_at-AppValid s i v)) v

-- A block more on the heap.
pub allocate-LoaderValid : (s : Loader) (block : ℕ) → LoaderValid s → LoaderValid (allocate block s)
allocate-LoaderValid s block v = record {
  room = v.room;
  counted = v.counted;
  live = v.live;
  owned = λ b. ground (arith, v.owned b);
}

-- A block that is freed is allocated once less.
pub count_if-remove_block :
    (block b : ℕ) (bs : List ℕ)
    → 0 < count_if (λ d. d == block) bs
    → count_if (λ d. d == b) (remove_block block bs) + (if block == b then 1 else 0)
      ≡ count_if (λ d. d == b) bs
count_if-remove_block block b [] lt = absurd (omega arith)
count_if-remove_block block b (d ∷ bs) lt = ground (arith, count_if-remove_block block b bs)

-- Rewriting a slot that is free and stays free.
pub put_free-LoaderValid :
    (s : Loader) (i : ℕ) (a : App)
    → i < length s.apps
    → (app_at s i).in_use ≡ false
    → a.in_use ≡ false
    → LoaderValid s
    → LoaderValid (put_app s i a)
put_free-LoaderValid s i a lt was is_ v = record {
  room = length-set s.apps i a ∙ v.room;
  counted = ground (arith, v.counted, was, is_, count_if-set_or uses s.apps i no_app a lt);
  live = All-set AppValid s.apps i a v.live (λ e. absurd (ground (arith, e, is_)));
  owned = λ b. ground (arith, v.owned b, was, is_, count_if-set_or (owns b) s.apps i no_app a lt);
}

-- A free slot gets an app with a new block.
pub fill-LoaderValid :
    (s : Loader) (i block : ℕ) (a : App)
    → i < length s.apps
    → (app_at s i).in_use ≡ false
    → a.in_use ≡ true
    → a.wasm_data ≡ some block
    → is_live a ≡ true
    → LoaderValid s
    → LoaderValid (record (allocate block (put_app s i a)) { app_count = s.app_count + 1 })
fill-LoaderValid s i block a lt was on held l v = record {
  room = length-set s.apps i a ∙ v.room;
  counted = ground (arith, v.counted, was, on, count_if-set_or uses s.apps i no_app a lt);
  live = All-set AppValid s.apps i a v.live (λ _. l);
  owned = λ b.
      let mine : owns b a ≡ (block == b) =
        ap₂ (λ u d. u && elim d [ none ↦ false | some d ↦ d == b ]) on held in
      ground (arith, v.owned b, was, mine, count_if-set_or (owns b) s.apps i no_app a lt);
}

-- An app in use gives its slot and its block back.
pub close-LoaderValid :
    (s : Loader) (i block : ℕ) (a : App)
    → i < length s.apps
    → (app_at s i).in_use ≡ true
    → (app_at s i).wasm_data ≡ some block
    → a.in_use ≡ false
    → LoaderValid s
    → LoaderValid (record (put_app (free_block block s) i a) { app_count = s.app_count - 1 })
close-LoaderValid s i block a lt on held off v =
    let had : (b : ℕ) → owns b (app_at s i) ≡ (block == b) =
      λ b. ap₂ (λ u d. u && elim d [ none ↦ false | some d ↦ d == b ]) on held in
    let one : 0 < allocations block s =
      ground
        (arith, v.owned block, had block, off, count_if-set_or (owns block) s.apps i no_app a lt) in
    record {
      room = length-set s.apps i a ∙ v.room;
      counted = ground (arith, v.counted, on, off, count_if-set_or uses s.apps i no_app a lt);
      live = All-set AppValid s.apps i a v.live (λ e. absurd (ground (arith, e, off)));
      owned = λ b. ground (
        arith,
        v.owned b,
        had b,
        off,
        count_if-set_or (owns b) s.apps i no_app a lt,
        count_if-remove_block block b s.heap one,
      );
    }
