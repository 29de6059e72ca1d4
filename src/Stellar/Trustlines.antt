-- ===== src/Stellar/Trustlines.antt =====
-- backend/src/contracts/trustlines.ts: amounts in stroops, `getTrustlineLimit`, and the checks of
-- `revokeTrustline` before it submits anything. Codes and issuers are numbers.
use native.Mathlib.Nat.{pow-succ', add-mul, mul_assoc}
use coop_lumen_index.Base.{
  ℕ, zero, suc, ◌+◌, ◌-◌, ◌*◌, ◌/◌, ◌%◌, ◌^◌, ◌<◌, ◌≡◌, refl, sym, ap, ◌∙◌, inl, inr, Bool, true,
  false, ◌&&◌, ◌||◌, Option, none, some, List, [], ◌∷◌, ◌++◌, length, take, replicate, arith,
  if◌then◌else◌, ◌==◌, ltb, find, ℤ, pos, sub_ℕ, length-append, find_holds, Option-cases,
  Bool-cases,
}

-- A decimal text: the number before its dot, and the digits after it.
pub record Amount : Type 0 where
  pub whole : ℕ
  pub fraction : List ℕ

-- STROOPS_PER_UNIT
abbrev pub stroops_per_unit : ℕ
stroops_per_unit = 10 ^ 7

-- `BigInt` of a text of digits, from what stands before them.
abbrev pub digits_value : ℕ → List ℕ → ℕ
digits_value acc [] = acc
digits_value acc (d ∷ ds) = digits_value (acc * 10 + d) ds

-- `padEnd(7, '0').slice(0, 7)`
unfoldable pub seven_digits : List ℕ → List ℕ
seven_digits ds = take 7 (ds ++ replicate (7 - length ds) 0)

unfoldable pub to_stroops : Amount → ℕ
unfolding seven_digits
to_stroops amount = amount.whole * stroops_per_unit + digits_value 0 (seven_digits amount.fraction)

-- The last k digits of a number: `toString().padStart(k, '0')`, if it has no more.
abbrev pub padded : ℕ → ℕ → List ℕ
padded zero n = []
padded (suc k) n = padded k (n / 10) ++ n % 10 ∷ []

-- A text with its sign.
pub record Difference : Type 0 where
  pub negative : Bool
  pub magnitude : Amount

abbrev pub amount_of : ℕ → Amount
amount_of n = record { whole = n / stroops_per_unit; fraction = padded 7 (n % stroops_per_unit) }

unfoldable pub subtract_amounts : Amount → Amount → Difference
unfolding to_stroops
subtract_amounts minuend subtrahend =
    let a = to_stroops minuend in
    let b = to_stroops subtrahend in
    if ltb a b
    then record { negative = true; magnitude = amount_of (b - a) }
    else record { negative = false; magnitude = amount_of (a - b) }

-- A balance line of an issued asset, or another.
pub data BalanceLine : Type 0 where
  native_line pool_line : BalanceLine
  issued :
      (asset_code asset_issuer : ℕ) (limit balance : Amount)
      (selling_liabilities buying_liabilities : Option Amount) (is_authorized : Option Bool)
      → BalanceLine

abbrev pub is_line_of : ℕ → ℕ → BalanceLine → Bool
is_line_of code issuer (issued c i _ _ _ _ _) = (c == code) && (i == issuer)
is_line_of code issuer _ = false

unfoldable pub find_trustline : List BalanceLine → ℕ → ℕ → Option BalanceLine
find_trustline lines code issuer = find (is_line_of code issuer) lines

pub record TrustlineLimit : Type 0 where
  pub limit : Amount
  pub balance : Amount
  pub available : Difference
  pub is_authorized : Bool

abbrev pub or_true : Option Bool → Bool
or_true none = true
or_true (some b) = b

abbrev pub limit_of : Option BalanceLine → Option TrustlineLimit
limit_of (some (issued _ _ limit balance _ _ authorized)) = some (record {
  limit = limit;
  balance = balance;
  available = subtract_amounts limit balance;
  is_authorized = or_true authorized;
})
limit_of _ = none

-- `getTrustlineLimit`, of the account's balance lines.
unfoldable pub get_trustline_limit : List BalanceLine → ℕ → ℕ → Option TrustlineLimit
unfolding find_trustline subtract_amounts
get_trustline_limit lines code issuer = limit_of (find_trustline lines code issuer)

pub data RevokeError : Type 0 where
  no_trustline holds_balance open_liabilities : RevokeError

-- `Number(amount) > 0`, and `Number(amount ?? '0') > 0`.
abbrev pub is_positive : Amount → Bool
is_positive amount = ltb 0 (to_stroops amount)

abbrev pub is_open : Option Amount → Bool
is_open none = false
is_open (some amount) = is_positive amount

abbrev pub revoke_line : Option BalanceLine → Option RevokeError
revoke_line (some (issued _ _ _ balance selling buying _)) =
    if is_positive balance
    then some holds_balance
    else if is_open selling || is_open buying
    then some open_liabilities
    else none
revoke_line _ = some no_trustline

-- The refusal of `revokeTrustline`, none if it goes on to submit.
unfoldable pub revoke_check : List BalanceLine → ℕ → ℕ → Option RevokeError
unfolding find_trustline to_stroops
revoke_check lines code issuer = revoke_line (find_trustline lines code issuer)

digits_value-append :
    (acc : ℕ) (ds : List ℕ) (d : ℕ) → digits_value acc (ds ++ d ∷ []) ≡ digits_value acc ds * 10 + d
digits_value-append acc [] d = refl
digits_value-append acc (x ∷ ds) d = digits_value-append (acc * 10 + x) ds d

length-padded : (k n : ℕ) → length (padded k n) ≡ k
length-padded zero n = refl
length-padded (suc k) n =
    length-append (padded k (n / 10)) (n % 10 ∷ []) ∙ omega (arith, length-padded k (n / 10))

digits_value-padded : (k n : ℕ) → n < 10 ^ k → digits_value 0 (padded k n) ≡ n
digits_value-padded zero n h = omega arith
digits_value-padded (suc k) n h =
    let power = pow-succ' 10 k in
    let shorter : n / 10 < 10 ^ k = omega (arith, power) in
    digits_value-append 0 (padded k (n / 10)) (n % 10)
    ∙ omega (arith, digits_value-padded k (n / 10) shorter)

take-exact : (k : ℕ) (ds : List ℕ) → length ds ≡ k → take k (ds ++ []) ≡ ds
take-exact zero [] h = refl
take-exact zero (d ∷ ds) h = absurd (omega arith)
take-exact (suc k) [] h = absurd (omega arith)
take-exact (suc k) (d ∷ ds) h = ap (λ xs. d ∷ xs) (take-exact k ds (omega arith))

seven_digits-full : (ds : List ℕ) → length ds ≡ 7 → seven_digits ds ≡ ds
unfolding seven_digits
seven_digits-full ds h = rw (h, replicate) (take-exact 7 ds h)

-- An amount that is printed from stroops reads back as the same stroops.
pub to_stroops-amount_of : (n : ℕ) → to_stroops (amount_of n) ≡ n
unfolding to_stroops
to_stroops-amount_of n =
    let small : n % stroops_per_unit < 10 ^ 7 = omega arith in
    let full =
      seven_digits-full (padded 7 (n % stroops_per_unit))
        (length-padded 7 (n % stroops_per_unit)) in
    let value = digits_value-padded 7 (n % stroops_per_unit) small in
    let fraction = ap (digits_value 0) full ∙ value in omega (arith, fraction)

-- What the digits behind a dot are worth, in units of which the first digit is worth 10 ^ (k - 1);
-- what is worth less than one unit is not counted.
abbrev pub places_value : ℕ → List ℕ → ℕ
places_value zero ds = 0
places_value (suc k) [] = 0
places_value (suc k) (d ∷ ds) = d * 10 ^ k + places_value k ds

-- What an amount is worth in stroops, of which 10 ^ 7 are a unit.
unfoldable pub worth : Amount → ℕ
worth amount = amount.whole * 10 ^ 7 + places_value 7 amount.fraction

shifted : (k acc d : ℕ) → (acc * 10 + d) * 10 ^ k ≡ acc * 10 ^ suc k + d * 10 ^ k
shifted k acc d =
    rw (pow-succ' 10 k)
      (add-mul (acc * 10) d (10 ^ k) ∙ ap (λ n. n + d * 10 ^ k) (mul_assoc acc 10 (10 ^ k)))

no_places : (k : ℕ) → places_value k [] ≡ 0
no_places zero = refl
no_places (suc k) = refl

zeros_value : (k acc : ℕ) → digits_value acc (take k (replicate k 0)) ≡ acc * 10 ^ k
zeros_value zero acc = omega arith
zeros_value (suc k) acc = zeros_value k (acc * 10 + 0) ∙ omega (arith, shifted k acc 0)

nothing_less : (k : ℕ) → suc k - 0 ≡ suc k
nothing_less k = omega arith

both_less : (k n : ℕ) → suc k - suc n ≡ k - n
both_less k n = omega arith

digits_value-places :
    (k acc : ℕ) (ds : List ℕ)
    → digits_value acc (take k (ds ++ replicate (k - length ds) 0))
      ≡ acc * 10 ^ k + places_value k ds
digits_value-places zero acc ds = omega arith
digits_value-places (suc k) acc [] = rw (nothing_less k) (zeros_value (suc k) acc ∙ omega arith)
digits_value-places (suc k) acc (d ∷ ds) =
    rw (both_less k (length ds))
      (digits_value-places k (acc * 10 + d) ds ∙ omega (arith, shifted k acc d))

to_stroops-worth : (amount : Amount) → to_stroops amount ≡ worth amount
unfolding to_stroops seven_digits worth
to_stroops-worth amount = omega (arith, digits_value-places 7 0 amount.fraction)

abbrev pub signed_worth : Difference → ℤ
signed_worth d = if d.negative then sub_ℕ 0 (worth d.magnitude) else pos (worth d.magnitude)

worth-amount_of : (n : ℕ) → worth (amount_of n) ≡ n
worth-amount_of n = sym (to_stroops-worth (amount_of n)) ∙ to_stroops-amount_of n

abbrev difference : ℕ → ℕ → Difference
difference a b =
    if ltb a b
    then record { negative = true; magnitude = amount_of (b - a) }
    else record { negative = false; magnitude = amount_of (a - b) }

signed_worth-difference : (a b : ℕ) → signed_worth (difference a b) ≡ sub_ℕ a b
signed_worth-difference a b = elim (Bool-cases (ltb a b)) [
  | inl e ↦ rw e (rw (worth-amount_of (b - a)) (ground arith))
  | inr e ↦ rw e (rw (worth-amount_of (a - b)) (ground arith))
]

-- The difference of two amounts is exact to the stroop, as their decimal digits are read by
-- places, and negative amounts carry their sign.
pub subtract_amounts_exact :
    (a b : Amount) → signed_worth (subtract_amounts a b) ≡ sub_ℕ (worth a) (worth b)
unfolding subtract_amounts
subtract_amounts_exact a b =
    signed_worth-difference (to_stroops a) (to_stroops b)
    ∙ ap (λ x. sub_ℕ x (to_stroops b)) (to_stroops-worth a)
    ∙ ap (sub_ℕ (worth a)) (to_stroops-worth b)

-- A line of this asset that holds nothing and is not in an open offer.
pub data IsEmptyLine (code issuer : ℕ) : BalanceLine → Type 0 where
  empty_line :
      (limit balance : Amount) (selling buying : Option Amount) (authorized : Option Bool)
      → to_stroops balance ≡ 0
      → is_open selling ≡ false
      → is_open buying ≡ false
      → IsEmptyLine code issuer (issued code issuer limit balance selling buying authorized)

line_empty :
    (code issuer : ℕ) (line : BalanceLine)
    → is_line_of code issuer line ≡ true
    → revoke_line (some line) ≡ none
    → IsEmptyLine code issuer line
line_empty code issuer native_line h k = absurd (ground arith)
line_empty code issuer pool_line h k = absurd (ground arith)
line_empty code issuer (issued c i limit balance selling buying authorized) h k =
    let same_code : c ≡ code = ground arith in
    let same_issuer : i ≡ issuer = ground arith in
    rw same_code (
      rw same_issuer (
        empty_line limit balance selling buying authorized (ground arith) (ground arith)
          (ground arith)))

-- A revocation is submitted only if the account has a line of this asset that holds nothing and
-- has no liabilities.
pub revoke_check_sound :
    (lines : List BalanceLine) (code issuer : ℕ)
    → revoke_check lines code issuer ≡ none
    → (line : BalanceLine) × (find_trustline lines code issuer ≡ some line)
      × IsEmptyLine code issuer line
unfolding revoke_check find_trustline
revoke_check_sound lines code issuer h = elim (Option-cases (find_trustline lines code issuer)) [
  | inl e ↦ absurd (ground arith)
  | inr (line, e) ↦
      let checked : revoke_line (some line) ≡ none = ap revoke_line (sym e) ∙ h in
      (line, e, line_empty code issuer line (find_holds _ lines line e) checked)
]
