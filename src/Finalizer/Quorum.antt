-- ===== src/Finalizer/Quorum.antt =====
-- Why two blocks cannot be finalized at one height by honest validators: the voter sets that
-- `Finalizer` (internal/consensus/finalizer.go) records are sets of validators, and any two that
-- reach the threshold share more than a third of them.
use blackchain_node.Prelude.{
  ℕ, suc, ◌+◌, ◌≤◌, ◌≡◌, refl, arith, String, str_eq, str_eq_iff, true, false, ◌&&◌, List, [], ◌∷◌,
  length, count, if◌then◌else◌, Bool-cases, inl, inr,
}
use blackchain_node.Dict.{lookup, insert, contains, string_Eq, nat_Eq, contains-insert}
use blackchain_node.Dict.Size.{length-insert}
use blackchain_node.Signing.{is_empty}
use blackchain_node.Finalizer.{Names, collect}

-- How many of the validators are in a set.
abbrev pub members : Names → Names → ℕ
members set validators = count (λ (entry : String × Unit {0}). contains entry.0 set) validators

-- How many of the validators are in two sets.
abbrev pub shared : Names → Names → Names → ℕ
shared a b validators =
    count (λ (entry : String × Unit {0}). contains entry.0 a && contains entry.0 b) validators

pub members-shared_le :
    (a b validators : Names)
    → members a validators + members b validators ≤ length validators + shared a b validators
members-shared_le a b [] = omega arith
members-shared_le a b ((id, u) ∷ validators) = ground (arith, members-shared_le a b validators)

-- Each validator has one entry.
abbrev pub occurrences : String → Names → ℕ
occurrences id = count (λ (entry : String × Unit {0}). str_eq id entry.0)

abbrev pub IsDistinct : Names → Type 0
IsDistinct validators = (id : String) → occurrences id validators ≤ 1

occurrences-insert :
    (id k : String) (set : Names)
    → occurrences id (insert k tt set) ≡ (
        if contains k set
        then occurrences id set
        else (if str_eq id k then suc (occurrences id set) else occurrences id set))
unfolding insert contains lookup
occurrences-insert id k [] = ground arith
occurrences-insert id k ((j, u) ∷ set) =
    ground (arith, occurrences-insert id k set, str_eq_iff j k, str_eq_iff id j, str_eq_iff id k)

-- What is not in a set does not occur there.
absent : (k : String) (set : Names) → contains k set ≡ false → occurrences k set ≡ 0
unfolding contains lookup
absent k [] h = refl
absent k ((j, u) ∷ set) h = ground (arith, h, absent k set, str_eq_iff j k, str_eq_iff k j)

members-insert :
    (k : String) (set validators : Names)
    → members (insert k tt set) validators ≡ (
        if contains k set
        then members set validators
        else members set validators + occurrences k validators)
members-insert k set [] = ground arith
members-insert k set ((id, u) ∷ validators) =
    ground (arith, members-insert k set validators, contains-insert k id tt set, str_eq_iff k id)

occurs :
    (k : String) (validators : Names) → contains k validators ≡ true → 1 ≤ occurrences k validators
unfolding contains lookup
occurs k [] h = ground (arith, h)
occurs k ((j, u) ∷ validators) h =
    ground (arith, h, occurs k validators, str_eq_iff j k, str_eq_iff k j)

-- The size of the set is the number of validators in it.
abbrev pub IsFull : Names → Names → Type 0
IsFull validators set = length set ≡ members set validators

pub IsFull-insert :
    (k : String) (set validators : Names)
    → IsDistinct validators
    → contains k validators ≡ true
    → IsFull validators set
    → IsFull validators (insert k tt set)
IsFull-insert k set validators one member h = ground (
  arith,
  length-insert k tt set,
  members-insert k set validators,
  one k,
  occurs k validators member,
  h,
)

pub collect-IsDistinct :
    (ids : List String) (set : Names) → IsDistinct set → IsDistinct (collect ids set)
unfolding collect
collect-IsDistinct [] set h = h
collect-IsDistinct (id ∷ ids) set h = elim (Bool-cases (is_empty id)) [
  | inl blank ↦ rw (collect, blank) (collect-IsDistinct ids set h)
  | inr named ↦
      rw (collect, named)
        (collect-IsDistinct ids (insert id tt set)
          (λ x. ground (arith, occurrences-insert x id set, h x, str_eq_iff x id, absent id set)))
]
