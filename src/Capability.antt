-- ===== src/Capability.antt =====
-- src/security/capability.c: the capabilities of containers. A mask of 32 bits is the function from bits to
-- their values; a single capability is the number of its bit.
pub mod Laws
mod Tests
use akira_os.Prelude.{
  ℕ, ◌+◌, Bool, true, false, not, ◌&&◌, ◌||◌, Option, none, some, List, [], ◌∷◌, ◌++◌, Ret, ok, err,
  Errno, if◌then◌else◌, leb, ◌==◌, get_or, set, take, length, find_index, CString, str_eq,
}

-- MAX_CONTAINERS
abbrev pub max_containers : ℕ
max_containers = 16

abbrev pub Mask : Type 0
Mask = ℕ → Bool

abbrev pub cap_none : Mask
cap_none = λ bit. false

-- `akira_cap_set_t`
pub record CapSet : Type 0 where
  pub flags : Mask
  pub container_name : CString

-- The part of `g_cap_sets` that is in use; its length is `g_cap_count`.
abbrev pub CapSets : Type 0
CapSets = List CapSet

abbrev pub capability_init : CapSets → Ret × CapSets
capability_init s = (ok 0, [])

abbrev pub is_set_of : CString → CapSet → Bool
is_set_of name c = str_eq c.container_name name

-- The index of the set; `none` for the name is NULL.
unfoldable pub find_cap_set : CapSets → Option CString → Option ℕ
find_cap_set s none = none
find_cap_set s (some name) = find_index (is_set_of name) s

abbrev pub no_set : CapSet
no_set = record { flags = cap_none; container_name = [] }

abbrev pub change_flags : CapSets → ℕ → (Mask → Mask) → CapSets
change_flags s i f = set s i (record (get_or s i no_set) { flags = f (get_or s i no_set).flags })

unfoldable pub capability_set : CapSets → Option CString → Mask → Ret × CapSets
unfolding find_cap_set
capability_set s none caps = (err Errno.failed, s)
capability_set s (some name) caps = elim (find_cap_set s (some name)) [
  | some i ↦ (ok 0, change_flags s i (λ flags. caps))
  | none ↦
      if leb max_containers (length s)
      then (err (Errno.raw 2), s)
      else (ok 0, s ++ record { flags = caps; container_name = take 31 name } ∷ [])
]

unfoldable pub capability_get : CapSets → Option CString → Mask
unfolding find_cap_set
capability_get s name = elim (find_cap_set s name) [
  | none ↦ cap_none
  | some i ↦ (get_or s i no_set).flags
]

unfoldable pub capability_check : CapSets → Option CString → ℕ → Bool
unfolding find_cap_set
capability_check s name cap = elim (find_cap_set s name) [
  | none ↦ false
  | some i ↦ (get_or s i no_set).flags cap
]

-- flags &= ~cap
abbrev pub without : ℕ → Mask → Mask
without cap flags = λ bit. flags bit && not (bit == cap)

unfoldable pub capability_revoke : CapSets → Option CString → ℕ → Ret × CapSets
unfolding find_cap_set
capability_revoke s name cap = elim (find_cap_set s name) [
  | none ↦ (err Errno.failed, s)
  | some i ↦ (ok 0, change_flags s i (without cap))
]

-- The table of names, with the bit of each.
abbrev pub cap_strings : List (CString × ℕ)
cap_strings =
    (100 ∷ 105 ∷ 115 ∷ 112 ∷ 108 ∷ 97 ∷ 121 ∷ 46 ∷ 114 ∷ 101 ∷ 97 ∷ 100 ∷ [], 0)
    ∷ (100 ∷ 105 ∷ 115 ∷ 112 ∷ 108 ∷ 97 ∷ 121 ∷ 46 ∷ 119 ∷ 114 ∷ 105 ∷ 116 ∷ 101 ∷ [], 1)
    ∷ (105 ∷ 110 ∷ 112 ∷ 117 ∷ 116 ∷ 46 ∷ 114 ∷ 101 ∷ 97 ∷ 100 ∷ [], 2)
    ∷ (105 ∷ 110 ∷ 112 ∷ 117 ∷ 116 ∷ 46 ∷ 99 ∷ 97 ∷ 108 ∷ 108 ∷ 98 ∷ 97 ∷ 99 ∷ 107 ∷ [], 3)
    ∷ (114 ∷ 102 ∷ 46 ∷ 105 ∷ 110 ∷ 105 ∷ 116 ∷ [], 4)
    ∷ (114 ∷ 102 ∷ 46 ∷ 116 ∷ 114 ∷ 97 ∷ 110 ∷ 115 ∷ 99 ∷ 101 ∷ 105 ∷ 118 ∷ 101 ∷ [], 5)
    ∷ (114 ∷ 102 ∷ 46 ∷ 99 ∷ 111 ∷ 110 ∷ 102 ∷ 105 ∷ 103 ∷ [], 6)
    ∷ (115 ∷ 101 ∷ 110 ∷ 115 ∷ 111 ∷ 114 ∷ 46 ∷ 105 ∷ 109 ∷ 117 ∷ [], 7)
    ∷ (115 ∷ 101 ∷ 110 ∷ 115 ∷ 111 ∷ 114 ∷ 46 ∷ 101 ∷ 110 ∷ 118 ∷ [], 8)
    ∷ (115 ∷ 101 ∷ 110 ∷ 115 ∷ 111 ∷ 114 ∷ 46 ∷ 112 ∷ 111 ∷ 119 ∷ 101 ∷ 114 ∷ [], 9)
    ∷ (115 ∷ 101 ∷ 110 ∷ 115 ∷ 111 ∷ 114 ∷ 46 ∷ 108 ∷ 105 ∷ 103 ∷ 104 ∷ 116 ∷ [], 10)
    ∷ (115 ∷ 116 ∷ 111 ∷ 114 ∷ 97 ∷ 103 ∷ 101 ∷ 46 ∷ 114 ∷ 101 ∷ 97 ∷ 100 ∷ [], 11)
    ∷ (115 ∷ 116 ∷ 111 ∷ 114 ∷ 97 ∷ 103 ∷ 101 ∷ 46 ∷ 119 ∷ 114 ∷ 105 ∷ 116 ∷ 101 ∷ [], 12)
    ∷ (110 ∷ 101 ∷ 116 ∷ 119 ∷ 111 ∷ 114 ∷ 107 ∷ 46 ∷ 104 ∷ 116 ∷ 116 ∷ 112 ∷ [], 13)
    ∷ (110 ∷ 101 ∷ 116 ∷ 119 ∷ 111 ∷ 114 ∷ 107 ∷ 46 ∷ 109 ∷ 113 ∷ 116 ∷ 116 ∷ [], 14)
    ∷ (110 ∷ 101 ∷ 116 ∷ 119 ∷ 111 ∷ 114 ∷ 107 ∷ 46 ∷ 114 ∷ 97 ∷ 119 ∷ [], 15)
    ∷ (115 ∷ 121 ∷ 115 ∷ 116 ∷ 101 ∷ 109 ∷ 46 ∷ 105 ∷ 110 ∷ 102 ∷ 111 ∷ [], 16)
    ∷ (115 ∷ 121 ∷ 115 ∷ 116 ∷ 101 ∷ 109 ∷ 46 ∷ 114 ∷ 101 ∷ 98 ∷ 111 ∷ 111 ∷ 116 ∷ [], 17)
    ∷ (
      115 ∷ 121 ∷ 115 ∷ 116 ∷ 101 ∷ 109 ∷ 46 ∷ 115 ∷ 101 ∷ 116 ∷ 116 ∷ 105 ∷ 110 ∷ 103 ∷ 115 ∷ [],
      18,
    )
    ∷ (98 ∷ 116 ∷ 46 ∷ 97 ∷ 100 ∷ 118 ∷ 101 ∷ 114 ∷ 116 ∷ 105 ∷ 115 ∷ 101 ∷ [], 19)
    ∷ (98 ∷ 116 ∷ 46 ∷ 99 ∷ 111 ∷ 110 ∷ 110 ∷ 101 ∷ 99 ∷ 116 ∷ [], 20)
    ∷ (98 ∷ 116 ∷ 46 ∷ 104 ∷ 105 ∷ 100 ∷ [], 21)
    ∷ (105 ∷ 112 ∷ 99 ∷ 46 ∷ 115 ∷ 101 ∷ 110 ∷ 100 ∷ [], 22)
    ∷ (105 ∷ 112 ∷ 99 ∷ 46 ∷ 114 ∷ 101 ∷ 99 ∷ 101 ∷ 105 ∷ 118 ∷ 101 ∷ [], 23)
    ∷ (105 ∷ 112 ∷ 99 ∷ 46 ∷ 115 ∷ 104 ∷ 109 ∷ [], 24)
    ∷ []

-- The bit of the first entry with the name; `none` is CAP_NONE.
unfoldable pub capability_from_string : List (CString × ℕ) → Option CString → Option ℕ
capability_from_string table none = none
capability_from_string [] (some s) = none
capability_from_string (e ∷ es) (some s) =
    let rest = capability_from_string es (some s) in if str_eq e.0 s then some e.1 else rest

-- The name of the first entry with the bit; `none` is "unknown".
unfoldable pub capability_to_string : List (CString × ℕ) → ℕ → Option CString
capability_to_string [] cap = none
capability_to_string (e ∷ es) cap =
    let rest = capability_to_string es cap in if e.1 == cap then some e.0 else rest
