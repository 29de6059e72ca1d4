-- ===== src/Frontend/Select/Walks.antt =====
-- frontend/src/components/ui/Select.tsx: what `findEnabled` finds.
use native.Mathlib.Decide.{dec_lt}
use coop_lumen_index.Base.{
  ℕ, zero, suc, ◌+◌, ◌≤◌, ◌<◌, ◌≡◌, refl, inl, inr, true, false, Option, none, some, List, [], ◌∷◌,
  length, arith, Bool-cases, ltb,
}
use coop_lumen_index.Frontend.Select.{
  SelectOption, enabled_at, walk_down, walk_up, find_enabled, WalkDirection, down, up,
}

-- The index is in front, in the direction of the walk.
abbrev pub IsAhead : WalkDirection → ℕ → ℕ → Type 0
IsAhead down from i = from ≤ i
IsAhead up from i = i ≤ from

-- The index is in front of another, which is ahead too.
abbrev pub IsBefore : WalkDirection → ℕ → ℕ → ℕ → Type 0
IsBefore down from found i = (from ≤ i) × (i < found)
IsBefore up from found i = (found < i) × (i ≤ from)

-- The nearest enabled option ahead, or that there is none.
pub data IsNearest (direction : WalkDirection) (options : List SelectOption) (from : ℕ)
    : Option ℕ → Type 0 where
  none_ahead :
      ((i : ℕ) → IsAhead direction from i → enabled_at options i ≡ false)
      → IsNearest direction options from none
  nearest :
      (found : ℕ)
      → enabled_at options found ≡ true
      → IsAhead direction from found
      → ((i : ℕ) → IsBefore direction from found i → enabled_at options i ≡ false)
      → IsNearest direction options from (some found)

pub out_of_range :
    (options : List SelectOption) (i : ℕ) → length options ≤ i → enabled_at options i ≡ false
unfolding enabled_at
out_of_range [] i h = refl
out_of_range (o ∷ os) zero h = absurd (omega arith)
out_of_range (o ∷ os) (suc i) h = out_of_range os i (omega arith)

module _ (options : List SelectOption) where
  disabled_from :
      (from i : ℕ) → enabled_at options from ≡ false → from ≡ i → enabled_at options i ≡ false
  disabled_from from i d e = rw e at d

  past_down :
      (from : ℕ) (r : Option ℕ)
      → enabled_at options from ≡ false
      → IsNearest down options (from + 1) r
      → IsNearest down options from r
  past_down from _ d (none_ahead rest) = none_ahead λ i le. elim (dec_lt from i) [
    | yes h ↦ rest i (omega arith)
    | no h ↦ disabled_from from i d (omega arith)
  ]
  past_down from _ d (nearest found e le rest) = nearest found e (omega arith) λ i (lo, hi).
      elim (dec_lt from i) [
        | yes h ↦ rest i (omega arith, hi)
        | no h ↦ disabled_from from i d (omega arith)
      ]

  past_up :
      (from : ℕ) (r : Option ℕ)
      → enabled_at options (suc from) ≡ false
      → IsNearest up options from r
      → IsNearest up options (suc from) r
  past_up from _ d (none_ahead rest) = none_ahead λ i le. elim (dec_lt from i) [
    | yes h ↦ disabled_from (suc from) i d (omega arith)
    | no h ↦ rest i (omega arith)
  ]
  past_up from _ d (nearest found e le rest) = nearest found e (omega arith) λ i (lo, hi).
      elim (dec_lt from i) [
        | yes h ↦ disabled_from (suc from) i d (omega arith)
        | no h ↦ rest i (lo, omega arith)
      ]

  walk_down-IsNearest :
      (rounds from : ℕ)
      → length options ≤ from + rounds
      → IsNearest down options from (walk_down rounds options from)
  unfolding walk_down
  walk_down-IsNearest zero from h = none_ahead λ i le. out_of_range options i (omega arith)
  walk_down-IsNearest (suc rounds) from h = elim (Bool-cases (enabled_at options from)) [
    | inl e ↦ rw e (nearest from e (omega arith) λ i (lo, hi). absurd (omega arith))
    | inr e ↦ rw e (past_down from _ e (walk_down-IsNearest rounds (from + 1) (omega arith)))
  ]

  walk_up-IsNearest : (from : ℕ) → IsNearest up options from (walk_up options from)
  unfolding walk_up
  walk_up-IsNearest zero = elim (Bool-cases (enabled_at options 0)) [
    | inl e ↦ rw e (nearest 0 e (omega arith) λ i (lo, hi). absurd (omega arith))
    | inr e ↦ rw e (none_ahead λ i le. disabled_from 0 i e (omega arith))
  ]
  walk_up-IsNearest (suc from) = elim (Bool-cases (enabled_at options (suc from))) [
    | inl e ↦ rw e (nearest (suc from) e (omega arith) λ i (lo, hi). absurd (omega arith))
    | inr e ↦ rw e (past_up from _ e (walk_up-IsNearest from))
  ]

  -- The walk from an index of the options finds the nearest enabled option in its direction, or
  -- there is none.
  pub find_enabled-IsNearest :
      (from : ℕ) (direction : WalkDirection)
      → from < length options
      → IsNearest direction options from (find_enabled options (some from) direction)
  unfolding find_enabled
  find_enabled-IsNearest from down h = walk_down-IsNearest (length options) from (omega arith)
  find_enabled-IsNearest from up h =
      let inside : ltb from (length options) ≡ true = ground arith in
      rw inside (walk_up-IsNearest from)

  walk_down_enabled :
      (rounds from i : ℕ) → walk_down rounds options from ≡ some i → enabled_at options i ≡ true
  unfolding walk_down
  walk_down_enabled zero from i h = absurd (ground arith)
  walk_down_enabled (suc rounds) from i h = ground (arith, walk_down_enabled rounds (from + 1) i)

  walk_up_enabled : (from i : ℕ) → walk_up options from ≡ some i → enabled_at options i ≡ true
  unfolding walk_up
  walk_up_enabled zero i h = ground arith
  walk_up_enabled (suc from) i h = ground (arith, walk_up_enabled from i)

  pub find_enabled-enabled :
      (from : Option ℕ) (direction : WalkDirection) (i : ℕ)
      → find_enabled options from direction ≡ some i
      → enabled_at options i ≡ true
  unfolding find_enabled
  find_enabled-enabled none direction i h = absurd (ground arith)
  find_enabled-enabled (some from) down i h = walk_down_enabled (length options) from i h
  find_enabled-enabled (some from) up i h = ground (arith, walk_up_enabled from i)
