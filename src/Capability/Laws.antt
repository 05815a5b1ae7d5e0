-- ===== src/Capability/Laws.antt =====
-- The table of src/security/capability.c is a map from names to masks.
use akira_os.Prelude.{
  ℕ, zero, suc, ◌≤◌, ◌≡◌, ◌≢◌, refl, sym, ap, ◌∙◌, Bool, true, false, Option, none, some, [], ◌∷◌,
  ◌++◌, Ret, ok, if_case, option_case, Bool-cases, Option-cases, inl, inr, leb, get_or, get_elem?,
  take, length, find_index, find_index-Found, find_index-set, get_or-set_self, get_or-set_ne,
  get_or_of_get_elem?, lt_of_get_elem?, CString, str_eq, str_eq_refl, eq_of_str_eq, arith,
}
use akira_os.Capability.{
  Mask, CapSet, CapSets, cap_none, no_set, max_containers, is_set_of, find_cap_set, change_flags,
  capability_set, capability_get, without, capability_revoke,
}

take_short : (n : ℕ) (s : CString) → length s ≤ n → take n s ≡ s
take_short zero [] h = refl
take_short zero (c ∷ s) h = absurd (omega arith)
take_short (suc n) [] h = refl
take_short (suc n) (c ∷ s) h = ap (◌∷◌ c) (take_short n s (omega arith))

abbrev look : CapSets → Option ℕ → Mask
look s none = cap_none
look s (some i) = (get_or s i no_set).flags

-- The mask of a name.
abbrev mask_of : CapSets → CString → Mask
mask_of s name = look s (find_index (is_set_of name) s)

get_mask : (s : CapSets) (name : CString) → capability_get s (some name) ≡ mask_of s name
unfolding capability_get find_cap_set
get_mask s name =
    option_case (λ m. m ≡ mask_of s name) (find_index (is_set_of name) s) (λ e. sym (ap (look s) e))
      λ i e. sym (ap (look s) e)

module _ (s : CapSets) (name : CString) (i : ℕ) (e : find_index (is_set_of name) s ≡ some i)
    (f : Mask → Mask) where
  changed : CapSet
  changed = record (get_or s i no_set) { flags = f (get_or s i no_set).flags }

  same_search :
      (other : CString)
      → find_index (is_set_of other) (change_flags s i f) ≡ find_index (is_set_of other) s
  same_search other =
      let h = find_index-Found (is_set_of name) s i e in
      find_index-set (is_set_of other) s i h.entry _ h.there
        (ap (λ (c : CapSet). is_set_of other c) (get_or_of_get_elem? s i no_set h.there))

  mask-changed : mask_of (change_flags s i f) name ≡ f (mask_of s name)
  mask-changed =
      let h = find_index-Found (is_set_of name) s i e in
      let at =
        get_or-set_self s i (record (get_or s i no_set) { flags = f (get_or s i no_set).flags })
          no_set (lt_of_get_elem? s i h.there) in
      ap (look (change_flags s i f)) (same_search name ∙ e)
      ∙ ap (λ (c : CapSet). c.flags) at
      ∙ sym (ap f (ap (look s) e))

  mask-other :
      (other : CString) → other ≢ name → mask_of (change_flags s i f) other ≡ mask_of s other
  mask-other other ne =
      let h = find_index-Found (is_set_of name) s i e in
      ap (look (change_flags s i f)) (same_search other)
      ∙ elsewhere (find_index (is_set_of other) s) refl
    where
      elsewhere :
          (o : Option ℕ)
          → find_index (is_set_of other) s ≡ o
          → look (change_flags s i f) o ≡ look s o
      elsewhere none g = refl
      elsewhere (some j) g =
          let h = find_index-Found (is_set_of name) s i e in
          let k = find_index-Found (is_set_of other) s j g in
          let apart : i ≢ j = λ same. ne (
            sym (eq_of_str_eq k.entry.container_name other k.passes)
            ∙ ap (λ (o : Option CapSet). elim o [ none ↦ [] | some c ↦ c.container_name ])
                (sym k.there ∙ ap (get_elem? s) (sym same) ∙ h.there)
            ∙ eq_of_str_eq h.entry.container_name name h.passes) in
          ap (λ (c : CapSet). c.flags) (get_or-set_ne s i j _ no_set apart)

append-found :
    (p : CapSet → Bool) (s : CapSets) (c : CapSet)
    → find_index p s ≡ none
    → p c ≡ true
    → find_index p (s ++ c ∷ []) ≡ some (length s)
append-found p [] c e h = ground (arith, h)
append-found p (x ∷ s) c e h = ground (arith, append-found p s c)

get_or-append : (s : CapSets) (c : CapSet) → get_or (s ++ c ∷ []) (length s) no_set ≡ c
get_or-append [] c = refl
get_or-append (x ∷ s) c = get_or-append s c

mask-skip :
    (x : CapSet) (s : CapSets) (other : CString)
    → is_set_of other x ≡ false
    → mask_of (x ∷ s) other ≡ mask_of s other
mask-skip x s other h = elim (Option-cases (find_index (is_set_of other) s)) [
  | inl e ↦
      ap (look (x ∷ s)) {x = find_index (is_set_of other) (x ∷ s)} {y = none} (ground (arith, h, e))
      ∙ sym (ap (look s) e)
  | inr (j, e) ↦
      ap (look (x ∷ s)) {x = find_index (is_set_of other) (x ∷ s)} {y = some (suc j)}
        (ground (arith, h, e))
      ∙ sym (ap (look s) e)
]

-- An entry of another name does not change what is found.
append-other :
    (s : CapSets) (c : CapSet) (other : CString)
    → is_set_of other c ≡ false
    → mask_of (s ++ c ∷ []) other ≡ mask_of s other
append-other [] c other h = ground (arith, h)
append-other (x ∷ s) c other h = elim (Bool-cases (is_set_of other x)) [
  | inl here ↦
      ap (look (x ∷ s ++ c ∷ [])) {x = find_index (is_set_of other) (x ∷ s ++ c ∷ [])} {y = some 0}
        (ground (arith, here))
      ∙ sym (
          ap (look (x ∷ s)) {x = find_index (is_set_of other) (x ∷ s)} {y = some 0}
            (ground (arith, here)))
  | inr there ↦
      mask-skip x (s ++ c ∷ []) other there
      ∙ append-other s c other h
      ∙ sym (mask-skip x s other there)
]

-- What the calls promise of the table as a map from names to masks, for a name that fits its field.
pub record MapLaws (s : CapSets) (name : CString) (cap : ℕ) (caps : Mask) : Type 0 where
  pub set_here :
      (capability_set s (some name) caps).0 ≡ ok 0
      → capability_get (capability_set s (some name) caps).1 (some name) ≡ caps
  pub set_others :
      (other : CString)
      → other ≢ name
      → capability_get (capability_set s (some name) caps).1 (some other)
        ≡ capability_get s (some other)
  pub revoked_here :
      capability_get (capability_revoke s (some name) cap).1 (some name)
      ≡ without cap (capability_get s (some name))
  pub revoked_others :
      (other : CString)
      → other ≢ name
      → capability_get (capability_revoke s (some name) cap).1 (some other)
        ≡ capability_get s (some other)

module _ (s : CapSets) (name : CString) (small : length name ≤ 31) where
  new_name :
      (caps : Mask) (other : CString)
      → is_set_of other (record { flags = caps; container_name = take 31 name }) ≡ str_eq name other
  new_name caps other = ap (λ n. str_eq n other) (take_short 31 name small)

  set-here :
      (caps : Mask)
      → (capability_set s (some name) caps).0 ≡ ok 0
      → capability_get (capability_set s (some name) caps).1 (some name) ≡ caps
  unfolding capability_set find_cap_set
  set-here caps good =
      let P : Ret × CapSets → Type 0 = λ r. r.0 ≡ ok 0 → mask_of r.1 name ≡ caps in
      let c : CapSet = record { flags = caps; container_name = take 31 name } in
      get_mask (capability_set s (some name) caps).1 name
      ∙ option_case P (find_index (is_set_of name) s)
          (λ e.
            if_case P (leb max_containers (length s)) (λ _ f. absurd (ground (arith, f)))
              λ _ _.
                ap (look (s ++ c ∷ []))
                  (append-found (is_set_of name) s c e (new_name caps name ∙ str_eq_refl name))
                ∙ ap (λ (x : CapSet). x.flags) (get_or-append s c))
          (λ i e _. mask-changed s name i e (λ flags. caps)) good

  set-others :
      (caps : Mask) (other : CString)
      → other ≢ name
      → capability_get (capability_set s (some name) caps).1 (some other)
        ≡ capability_get s (some other)
  unfolding capability_set find_cap_set
  set-others caps other ne =
      let P : Ret × CapSets → Type 0 = λ r. mask_of r.1 other ≡ mask_of s other in
      let c : CapSet = record { flags = caps; container_name = take 31 name } in
      get_mask (capability_set s (some name) caps).1 other
      ∙ option_case P (find_index (is_set_of name) s)
          (λ e.
            if_case P (leb max_containers (length s)) (λ _. refl)
              λ _. append-other s c other (new_name caps other ∙ differs))
          (λ i e. mask-other s name i e (λ flags. caps) other ne)
      ∙ sym (get_mask s other)
    where
      differs : str_eq name other ≡ false
      differs = elim (Bool-cases (str_eq name other)) [
        | inl same ↦ absurd (ne (sym (eq_of_str_eq name other same)))
        | inr no_match ↦ no_match
      ]

  -- For a name of at most 31 bytes the table is a map: setting a mask that is accepted is what is got
  -- afterwards, revoking a capability takes away that one and leaves the others of the name, and
  -- neither changes what any other name has.
  pub caps-MapLaws : (cap : ℕ) (caps : Mask) → MapLaws s name cap caps
  unfolding capability_revoke find_cap_set
  caps-MapLaws cap caps = record {
    set_here = set-here caps;
    set_others = set-others caps;
    revoked_here =
        get_mask (capability_revoke s (some name) cap).1 name
        ∙ option_case (λ (r : Ret × CapSets). mask_of r.1 name ≡ without cap (mask_of s name))
            (find_index (is_set_of name) s)
            (λ e. ap (look s) e ∙ ap (without cap) (sym (ap (look s) e)))
            (λ i e. mask-changed s name i e (without cap))
        ∙ ap (without cap) (sym (get_mask s name));
    revoked_others = λ other ne.
        get_mask (capability_revoke s (some name) cap).1 other
        ∙ option_case (λ (r : Ret × CapSets). mask_of r.1 other ≡ mask_of s other)
            (find_index (is_set_of name) s) (λ _. refl)
            (λ i e. mask-other s name i e (without cap) other ne)
        ∙ sym (get_mask s other);
  }
