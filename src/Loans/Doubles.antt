-- ===== src/Loans/Doubles.antt =====
-- The floating-point numbers of the language, as an interface: loans.ts computes with `number`.
use coop_lumen_index.Base.{ℕ, ◌+◌, ◌<◌, ◌^◌, ◌≡◌, Bool}
use coop_lumen_index.Base.Int.{ℤ, pos}

-- `of_stroops k` is `Number` of the decimal text of k / 10^7, `of_hundredths k` of that of k / 100,
-- and `of_nat` a whole number. `to_fixed` is `toFixed(7)`, read back as a count of stroops.
pub record Doubles : Type 1 where
  pub Double : Type 0
  pub of_nat : ℕ → Double
  pub of_stroops : ℕ → Double
  pub of_hundredths : ℕ → Double
  pub plus : Double → Double → Double
  pub minus : Double → Double → Double
  pub times : Double → Double → Double
  pub over : Double → Double → Double
  pub gtb : Double → Double → Bool
  pub geb : Double → Double → Bool
  pub round : Double → ℤ
  pub to_fixed : Double → ℤ

module _ (D : Doubles) where
  open D use {Double, of_nat, of_stroops, plus, times, over, geb, round, to_fixed}

  -- Two amounts whose sum is below 2^50 stroops: the error of reading both and of adding them is
  -- below half a stroop, so `toFixed(7)` gives the exact sum.
  pub record AddsStroops : Type 0 where
    pub to_fixed-plus :
        (a b : ℕ) → a + b < 2 ^ 50 → to_fixed (plus (of_stroops a) (of_stroops b)) ≡ pos (a + b)
