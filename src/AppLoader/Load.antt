-- ===== src/AppLoader/Load.antt =====
-- Loading an app, in src/apps/app_loader.c, keeps the table and the heap in order.
use akira_os.Prelude.{
  ℕ, ◌+◌, ◌<◌, ◌≤◌, ◌≡◌, refl, ap, ap₂, subst, inl, inr, true, false, not, ◌&&◌, ◌||◌, Option, none,
  some, List, ◌∷◌, arith, Ret, ok, err, if◌then◌else◌, if_case, option_case, ret_case, Bool-cases,
  ◌==◌, length, count_if, count_if-set_or, find_index, find_index-Found, lt_of_get_elem?,
  get_or_of_get_elem?, CString,
}
use akira_os.AppLoader.{
  App, Loader, FlashFile, no_app, app_at, put_app, is_free, find_free_slot, allocate, free_block,
  parse_app_metadata, load_into, load_buffer, app_load_from_memory, app_load_from_flash,
}
use akira_os.PathUtils.{path_get_filename}
use akira_os.AppLoader.Life.{
  owns, allocations, owners, LoaderValid, allocate-LoaderValid, count_if-remove_block,
  put_free-LoaderValid, fill-LoaderValid,
}

pub load_into-LoaderValid :
    (s : Loader) (i : ℕ) (data_ : List ℕ) (name : Option CString) (copy : Option ℕ) (now : ℕ)
    → i < length s.apps
    → (app_at s i).in_use ≡ false
    → LoaderValid s
    → LoaderValid (load_into s i data_ name copy now).1
unfolding load_into
load_into-LoaderValid s i data_ name copy now lt was v =
    let P : Ret × Loader → Type 0 = λ r. LoaderValid r.1 in
    option_case P (parse_app_metadata data_) (λ _. put_free-LoaderValid s i _ lt was refl v)
      λ metadata _.
        option_case P copy (λ _. put_free-LoaderValid s i _ lt was refl v)
          λ block _. fill-LoaderValid s i block _ lt was refl refl refl v

pub app_load_from_memory-LoaderValid :
    (s : Loader) (data_ : Option (List ℕ)) (name : Option CString) (copy : Option ℕ) (now : ℕ)
    → LoaderValid s
    → LoaderValid (app_load_from_memory s data_ name copy now).1
unfolding app_load_from_memory find_free_slot
app_load_from_memory-LoaderValid s none name copy now v = v
app_load_from_memory-LoaderValid s (some data_) name copy now v =
    let P : Ret × Loader → Type 0 = λ r. LoaderValid r.1 in
    if_case P (not s.initialized || length data_ == 0) (λ _. v)
      λ _.
        option_case P (find_index is_free s.apps) (λ _. v)
          λ i e.
            let f = find_index-Found is_free s.apps i e in
            load_into-LoaderValid s i data_ name copy now (lt_of_get_elem? s.apps i f.there)
              (ground (arith, f.passes, get_or_of_get_elem? s.apps i no_app f.there)) v

-- A block of no app may be freed.
free_block-LoaderValid :
    (s : Loader) (block : ℕ)
    → owners block s < allocations block s
    → LoaderValid s
    → LoaderValid (free_block block s)
free_block-LoaderValid s block more v = record {
  room = v.room;
  counted = v.counted;
  live = v.live;
  owned = λ b. elim (Bool-cases (block == b)) [
    | inl same ↦
        let b_eq : block ≡ b = ground (arith, same) in
        subst (λ b. owners b s ≤ allocations b (free_block block s)) b_eq
          (ground (arith, more, count_if-remove_block block block s.heap (omega (arith, more))))
    | inr other ↦
        ground (arith, other, v.owned b, count_if-remove_block block b s.heap (omega (arith, more)))
  ];
}

-- What loading comes to: one block more, that of the new app; or, where it is refused, nothing.
abbrev pub Outcome : Loader → Option ℕ → Ret × Loader → Type 0
Outcome s copy (ok h, s') =
    (c : ℕ) × (copy ≡ some c)
    × ((b : ℕ) → owners b s' ≡ owners b s + (if c == b then 1 else 0))
    × (s'.heap ≡ c ∷ s.heap)
Outcome s copy (err e, s') = ((b : ℕ) → owners b s' ≡ owners b s) × (s'.heap ≡ s.heap)

refused-owners :
    (s : Loader) (i : ℕ) (a : App) (b : ℕ)
    → i < length s.apps
    → (app_at s i).in_use ≡ false
    → a.in_use ≡ false
    → owners b (put_app s i a) ≡ owners b s
refused-owners s i a b lt was off =
    ground (arith, was, off, count_if-set_or (owns b) s.apps i no_app a lt)

filled_owners :
    (s : Loader) (i block : ℕ) (a : App) (b : ℕ)
    → i < length s.apps
    → (app_at s i).in_use ≡ false
    → a.in_use ≡ true
    → a.wasm_data ≡ some block
    → owners b (put_app s i a) ≡ owners b s + (if block == b then 1 else 0)
filled_owners s i block a b lt was on held =
    let mine : owns b a ≡ (block == b) =
      ap₂ (λ u d. u && elim d [ none ↦ false | some d ↦ d == b ]) on held in
    ground (arith, was, mine, count_if-set_or (owns b) s.apps i no_app a lt)

load_into-Outcome :
    (s : Loader) (i : ℕ) (data_ : List ℕ) (name : Option CString) (copy : Option ℕ) (now : ℕ)
    → i < length s.apps
    → (app_at s i).in_use ≡ false
    → Outcome s copy (load_into s i data_ name copy now)
unfolding load_into
load_into-Outcome s i data_ name copy now lt was =
    option_case (Outcome s copy) (parse_app_metadata data_)
      (λ _. ((λ b. refused-owners s i _ b lt was refl), refl))
      λ metadata _.
        option_case (Outcome s copy) copy (λ _. ((λ b. refused-owners s i _ b lt was refl), refl))
          λ block e. (block, e, (λ b. filled_owners s i block _ b lt was refl refl), refl)

app_load_from_memory-Outcome :
    (s : Loader) (data_ : Option (List ℕ)) (name : Option CString) (copy : Option ℕ) (now : ℕ)
    → Outcome s copy (app_load_from_memory s data_ name copy now)
unfolding app_load_from_memory find_free_slot
app_load_from_memory-Outcome s none name copy now = ((λ b. refl), refl)
app_load_from_memory-Outcome s (some data_) name copy now =
    if_case (Outcome s copy) (not s.initialized || length data_ == 0) (λ _. ((λ b. refl), refl))
      λ _.
        option_case (Outcome s copy) (find_index is_free s.apps) (λ _. ((λ b. refl), refl))
          λ i e.
            let f = find_index-Found is_free s.apps i e in
            load_into-Outcome s i data_ name copy now (lt_of_get_elem? s.apps i f.there)
              (ground (arith, f.passes, get_or_of_get_elem? s.apps i no_app f.there))

-- A file that is loaded costs its buffer as well, which no app owns; one that is refused costs nothing.
unfoldable pub FlashOutcome : Loader → FlashFile → Ret × Loader → Type 0
FlashOutcome s f (ok h, s') =
    (block : ℕ) × (f.buffer ≡ some block)
    × ((b : ℕ)
        → allocations b s' + owners b s
          ≡ allocations b s + owners b s' + (if block == b then 1 else 0))
FlashOutcome s f (err e, s') =
    ((b : ℕ) → allocations b s' + owners b s ≡ allocations b s + owners b s')

-- Freeing a block that is allocated.
freed_allocations :
    (s : Loader) (block b : ℕ)
    → 0 < allocations block s
    → allocations b (free_block block s) + (if block == b then 1 else 0) ≡ allocations b s
freed_allocations s block b lt = count_if-remove_block block b s.heap lt

load_buffer-FlashOutcome :
    (s : Loader) (path : CString) (f : FlashFile) (size block now : ℕ)
    → f.buffer ≡ some block
    → FlashOutcome s f (load_buffer s path f size block now)
unfolding load_buffer FlashOutcome
load_buffer-FlashOutcome s path f size block now buf =
    let held = allocate block s in
    let r = app_load_from_memory held (some f.content) (some (path_get_filename path)) f.copy now in
    let out =
      app_load_from_memory-Outcome held (some f.content) (some (path_get_filename path)) f.copy
        now in
    if_case (FlashOutcome s f) (not (length f.content == size))
      (λ _ b. ground (arith, freed_allocations held block b (ground arith))) λ _. outcome r out
  where
    outcome :
        (r : Ret × Loader)
        → Outcome (allocate block s) f.copy r
        → FlashOutcome s f
            (elim r.0 [ ok handle ↦ (ok handle, r.1) | err e ↦ (err e, free_block block r.1) ])
    outcome (ok h, s') (c, ce, o, heap) =
        (block, buf, λ b. ground (arith, o b, ap (count_if (λ d. d == b)) heap))
    outcome (err e, s') (o, heap) = λ b.
        let some_left : 0 < allocations block s' =
          ground (arith, ap (count_if (λ d. d == block)) heap) in
        ground
          (arith, o b, ap (count_if (λ d. d == b)) heap, freed_allocations s' block b some_left)

pub app_load_from_flash-FlashOutcome :
    (s : Loader) (path : Option CString) (f : FlashFile) (now : ℕ)
    → FlashOutcome s f (app_load_from_flash s path f now)
unfolding app_load_from_flash FlashOutcome
app_load_from_flash-FlashOutcome s none f now = λ b. refl
app_load_from_flash-FlashOutcome s (some path) f now =
    if_case (FlashOutcome s f) (not s.initialized) (λ _. λ b. refl)
      λ _.
        ret_case (FlashOutcome s f) f.opened
          (λ n _.
            ret_case (FlashOutcome s f) f.stat
              (λ size _.
                option_case (FlashOutcome s f) f.buffer (λ _ b. refl)
                  λ block e. load_buffer-FlashOutcome s path f size block now e)
              λ e _ b. refl)
          λ e _ b. refl

load_buffer-LoaderValid :
    (s : Loader) (path : CString) (f : FlashFile) (size block now : ℕ)
    → LoaderValid s
    → LoaderValid (load_buffer s path f size block now).1
unfolding load_buffer
load_buffer-LoaderValid s path f size block now v =
    let held = allocate block s in
    let hv = allocate-LoaderValid s block v in
    let r = app_load_from_memory held (some f.content) (some (path_get_filename path)) f.copy now in
    let out =
      app_load_from_memory-Outcome held (some f.content) (some (path_get_filename path)) f.copy
        now in
    let rv =
      app_load_from_memory-LoaderValid held (some f.content) (some (path_get_filename path)) f.copy
        now hv in
    if_case (λ (r : Ret × Loader). LoaderValid r.1) (not (length f.content == size))
      (λ _. free_block-LoaderValid held block (ground (arith, v.owned block)) hv)
      λ _. settled_valid r out rv
  where
    settled : Ret × Loader → Ret × Loader
    settled r = elim r.0 [ ok handle ↦ (ok handle, r.1) | err e ↦ (err e, free_block block r.1) ]

    settled_valid :
        (r : Ret × Loader)
        → Outcome (allocate block s) f.copy r
        → LoaderValid r.1
        → LoaderValid (settled r).1
    settled_valid (ok h, s') o v' = v'
    settled_valid (err e, s') (o, heap) v' =
        free_block-LoaderValid s' block
          (ground (arith, o block, v.owned block, ap (count_if (λ d. d == block)) heap)) v'

pub app_load_from_flash-LoaderValid :
    (s : Loader) (path : Option CString) (f : FlashFile) (now : ℕ)
    → LoaderValid s
    → LoaderValid (app_load_from_flash s path f now).1
unfolding app_load_from_flash
app_load_from_flash-LoaderValid s none f now v = v
app_load_from_flash-LoaderValid s (some path) f now v =
    let P : Ret × Loader → Type 0 = λ r. LoaderValid r.1 in
    if_case P (not s.initialized) (λ _. v)
      λ _.
        ret_case P f.opened
          (λ n _.
            ret_case P f.stat
              (λ size _.
                option_case P f.buffer (λ _. v)
                  λ block e. load_buffer-LoaderValid s path f size block now v)
              λ e _. v)
          λ e _. v
