-- ===== src/Stellar/TimeBounds.antt =====
-- backend/src/contracts/timeBounds.ts: `resolveTimeBounds`.
use coop_lumen_index.Base.{
  ℕ, ◌/◌, ◌≡◌, ◌↔◌, refl, ◌⊎◌, inl, inr, Bool, false, not, ◌&&◌, Option, none, some, arith,
  if◌then◌else◌, ◌==◌, ℤ, pos, negsuc, ◌+ℤ◌, ◌≤ℤ◌, ◌<ℤ◌, leb_ℤ, ltb_ℤ, Sum-cases, ap, sym, ◌∙◌, ◌<◌,
}

-- A point in time: a Date, by its milliseconds (none if it is invalid); a number, by its floor
-- (none if it is not finite); or a text, by what the tests of `toUnixSeconds` find once it is
-- trimmed: nothing, digits alone, or anything else, by its `Date.parse` (none is NaN).
pub data TimeBound : Type 0 where
  date : Option ℤ → TimeBound
  number : Option ℤ → TimeBound
  empty_text : TimeBound
  digits : ℕ → TimeBound
  other_text : Option ℤ → TimeBound

-- `TimeBoundsInput`, and `ResolveTimeBoundsOptions` with their defaults filled in.
pub record Input : Type 0 where
  pub min_time : Option TimeBound
  pub max_time : Option TimeBound

pub record Options : Type 0 where
  pub default_timeout_seconds : ℤ
  pub now_seconds : ℤ

pub record ResolvedTimeBounds : Type 0 where
  pub min_time : ℤ
  pub max_time : ℤ

pub data Refusal : Type 0 where
  invalid_date not_finite empty unreadable negative too_far : Refusal
  not_after_min in_the_past : Refusal

-- 9999-12-31T23:59:59Z
abbrev pub max_unix_seconds : ℤ
max_unix_seconds = pos 253402300799

-- Math.floor(milliseconds / 1000)
abbrev pub floor_seconds : ℤ → ℤ
floor_seconds (pos n) = pos (n / 1000)
floor_seconds (negsuc n) = negsuc (n / 1000)

abbrev pub or_refuse : Refusal → (ℤ → ℤ) → Option ℤ → Refusal ⊎ ℤ
or_refuse r f none = inl r
or_refuse r f (some z) = inr (f z)

unfoldable pub to_unix_seconds : TimeBound → Refusal ⊎ ℤ
to_unix_seconds (date ms) = or_refuse invalid_date floor_seconds ms
to_unix_seconds (number n) = or_refuse not_finite (λ z. z) n
to_unix_seconds empty_text = inl empty
to_unix_seconds (digits n) = inr (pos n)
to_unix_seconds (other_text ms) = or_refuse unreadable floor_seconds ms

-- `assertInRange`, of a bound that may already be refused.
unfoldable pub in_range : Refusal ⊎ ℤ → Refusal ⊎ ℤ
in_range (inl r) = inl r
in_range (inr s) =
    if ltb_ℤ s (pos 0)
    then inl negative
    else if ltb_ℤ max_unix_seconds s
    then inl too_far
    else inr s

abbrev pub is_zero : ℤ → Bool
is_zero (pos n) = n == 0
is_zero (negsuc n) = false

-- The tests once both bounds are whole seconds in range.
unfoldable pub window : ℤ → ℤ → ℤ → Refusal ⊎ ResolvedTimeBounds
window now from to =
    if is_zero to
    then inr (record { min_time = from; max_time = pos 0 })
    else if not (is_zero from) && leb_ℤ to from
    then inl not_after_min
    else if leb_ℤ to now
    then inl in_the_past
    else inr (record { min_time = from; max_time = to })

unfoldable pub min_seconds : Input → Refusal ⊎ ℤ
min_seconds input = elim input.min_time [ none ↦ inr (pos 0) | some t ↦ to_unix_seconds t ]

unfoldable pub max_seconds : Input → Options → Refusal ⊎ ℤ
max_seconds input options = elim input.max_time [
  | none ↦ inr (options.now_seconds +ℤ options.default_timeout_seconds)
  | some t ↦ to_unix_seconds t
]

unfoldable pub resolve_time_bounds : Input → Options → Refusal ⊎ ResolvedTimeBounds
unfolding in_range window min_seconds max_seconds to_unix_seconds
resolve_time_bounds input options = elim (in_range (min_seconds input)) [
  | inl r ↦ inl r
  | inr from ↦ elim (in_range (max_seconds input options)) [
    | inl r ↦ inl r
    | inr to ↦ window options.now_seconds from to
  ]
]

-- What the bounds promise at the time `now`: both can be represented; and the transaction never
-- expires, or the window is still open and, if it has a beginning, not empty.
pub record IsUsable (now : ℤ) (b : ResolvedTimeBounds) : Type 0 where
  pub min_nonneg : pos 0 ≤ℤ b.min_time
  pub min_le : b.min_time ≤ℤ max_unix_seconds
  pub max_nonneg : pos 0 ≤ℤ b.max_time
  pub max_le : b.max_time ≤ℤ max_unix_seconds
  pub open_window :
      (b.max_time ≡ pos 0)
      ⊎ ((now <ℤ b.max_time) × ((b.min_time ≡ pos 0) ⊎ (b.min_time <ℤ b.max_time)))

in_range_bounds :
    (t : Refusal ⊎ ℤ) (s : ℤ)
    → in_range t ≡ inr s
    → (t ≡ inr s) × (pos 0 ≤ℤ s) × (s ≤ℤ max_unix_seconds)
unfolding in_range
in_range_bounds t s e = ground arith

in_range_passes : (s : ℤ) → pos 0 ≤ℤ s → s ≤ℤ max_unix_seconds → in_range (inr s) ≡ inr s
unfolding in_range
in_range_passes s h k = ground arith

window_sound :
    (now from to : ℤ) (b : ResolvedTimeBounds)
    → window now from to ≡ inr b
    → (b.min_time ≡ from)
      × (b.max_time ≡ to)
      × ((to ≡ pos 0) ⊎ ((now <ℤ to) × ((from ≡ pos 0) ⊎ (from <ℤ to))))
unfolding window
window_sound now from to b e = ground arith

window_complete :
    (now from to : ℤ)
    → pos 0 ≤ℤ from
    → pos 0 ≤ℤ to
    → (to ≡ pos 0) ⊎ ((now <ℤ to) × ((from ≡ pos 0) ⊎ (from <ℤ to)))
    → window now from to ≡ inr (record { min_time = from; max_time = to })
unfolding window
window_complete now from to h k w = ground arith

-- The bounds that are resolved are the caller's, in whole seconds, with their defaults, and they
-- are usable now: representable, and never expiring, or open and not empty.
pub resolve_time_bounds_sound :
    (input : Input) (options : Options) (b : ResolvedTimeBounds)
    → resolve_time_bounds input options ≡ inr b
    → IsUsable options.now_seconds b
      × (min_seconds input ≡ inr b.min_time)
      × (max_seconds input options ≡ inr b.max_time)
unfolding resolve_time_bounds
resolve_time_bounds_sound input options b e = elim (Sum-cases (in_range (min_seconds input))) [
  | inl (r, f) ↦ absurd (ground arith)
  | inr (from, f) ↦ elim (Sum-cases (in_range (max_seconds input options))) [
    | inl (r, g) ↦ absurd (ground arith)
    | inr (to, g) ↦
        let (given, low, high) = in_range_bounds (min_seconds input) from f in
        let (given', low', high') = in_range_bounds (max_seconds input options) to g in
        let opened : window options.now_seconds from to ≡ inr b = ground arith in
        let (same, same', fits) = window_sound options.now_seconds from to b opened in
        (
          record {
            min_nonneg = rw same low;
            min_le = rw same high;
            max_nonneg = rw same' low';
            max_le = rw same' high';
            open_window = rw same (rw same' fits);
          },
          given ∙ ap inr (sym same),
          given' ∙ ap inr (sym same'),
        )
  ]
]

-- Bounds whose whole seconds are usable now are never refused.
pub resolve_time_bounds_complete :
    (input : Input) (options : Options) (b : ResolvedTimeBounds)
    → min_seconds input ≡ inr b.min_time
    → max_seconds input options ≡ inr b.max_time
    → IsUsable options.now_seconds b
    → resolve_time_bounds input options ≡ inr b
unfolding resolve_time_bounds
resolve_time_bounds_complete input options b given given' u =
    let first = in_range_passes b.min_time u.min_nonneg u.min_le in
    let second = in_range_passes b.max_time u.max_nonneg u.max_le in
    let fits =
      window_complete options.now_seconds b.min_time b.max_time u.min_nonneg u.max_nonneg
        u.open_window in
    rw (given, resolve_time_bounds) (rw first (rw given' (rw second fits)))

-- Bounds are resolved exactly if they are the caller's, in whole seconds, with their defaults,
-- and are usable now: representable, and never expiring, or open and not empty. So such bounds
-- are never refused, and no others come out.
pub resolve_time_bounds_exact :
    (input : Input) (options : Options) (b : ResolvedTimeBounds)
    → (resolve_time_bounds input options ≡ inr b) ↔ (
        IsUsable options.now_seconds b
        × (min_seconds input ≡ inr b.min_time)
        × (max_seconds input options ≡ inr b.max_time))
resolve_time_bounds_exact input options b = (
  resolve_time_bounds_sound input options b,
  λ h. resolve_time_bounds_complete input options b h.1 h.2 h.0,
)

-- A maxTime below one second, as a Date, is taken for zero: the transaction never expires.
pub sub_second_never_expires :
    (ms : ℕ) (options : Options)
    → ms < 1000
    → resolve_time_bounds
        (record { min_time = none; max_time = some (date (some (pos ms))) })
        options
      ≡ inr (record { min_time = pos 0; max_time = pos 0 })
unfolding resolve_time_bounds min_seconds max_seconds to_unix_seconds in_range window
sub_second_never_expires ms options h =
    let zero_seconds : ms / 1000 ≡ 0 = omega arith in rw (zero_seconds, resolve_time_bounds) refl
