-- ===== src/Capability/Tests.antt =====
-- One container with capability 3.
use akira_os.Prelude.{ℕ, ◌≡◌, refl, true, some, [], ◌∷◌, arith, ◌==◌, All, str_eq, CString}
use akira_os.Capability.{
  Mask, CapSets, cap_strings, find_cap_set, capability_set, capability_check,
  capability_from_string, capability_to_string,
}
use akira_os.Capability.Laws.{MapLaws, caps-MapLaws}

abbrev just : ℕ → Mask
just n = λ bit. bit == n

abbrev one_container : CapSets
one_container = (capability_set [] (some (97 ∷ [])) (just 3)).1

granted : capability_check one_container (some (97 ∷ [])) 3 ≡ true
unfolding capability_set capability_check find_cap_set str_eq
granted = refl

-- Each name of the table stands for its bit, and back.
names_round :
    All
      (λ (e : CString × ℕ).
        (capability_from_string cap_strings (some e.0) ≡ some e.1)
        × (capability_to_string cap_strings e.1 ≡ some e.0))
      cap_strings
unfolding capability_from_string capability_to_string str_eq
names_round = (
  (refl, refl),
  (
    (refl, refl),
    (
      (refl, refl),
      (
        (refl, refl),
        (
          (refl, refl),
          (
            (refl, refl),
            (
              (refl, refl),
              (
                (refl, refl),
                (
                  (refl, refl),
                  (
                    (refl, refl),
                    (
                      (refl, refl),
                      (
                        (refl, refl),
                        (
                          (refl, refl),
                          (
                            (refl, refl),
                            (
                              (refl, refl),
                              (
                                (refl, refl),
                                (
                                  (refl, refl),
                                  (
                                    (refl, refl),
                                    (
                                      (refl, refl),
                                      (
                                        (refl, refl),
                                        (
                                          (refl, refl),
                                          (
                                            (refl, refl),
                                            ((refl, refl), ((refl, refl), ((refl, refl), tt))),
                                          ),
                                        ),
                                      ),
                                    ),
                                  ),
                                ),
                              ),
                            ),
                          ),
                        ),
                      ),
                    ),
                  ),
                ),
              ),
            ),
          ),
        ),
      ),
    ),
  ),
)

caps-MapLaws_example : MapLaws one_container (97 ∷ []) 3 (just 5)
caps-MapLaws_example = caps-MapLaws one_container (97 ∷ []) (omega arith) 3 (just 5)
