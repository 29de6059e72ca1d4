-- ===== src/Payments/Signers.antt =====
-- backend/src/contracts/transactions.ts: the signers of an account and the fewest signatures that
-- `buildMultiSigPayment` asks for. Keys and kinds of signers are numbers.
pub mod Sorting
pub mod Fewest
use coop_lumen_index.Base.{
  ℕ, ◌+◌, ◌≡◌, Bool, ◌&&◌, ◌||◌, List, [], ◌∷◌, length, arith, if◌then◌else◌, ltb, leb, ◌==◌,
}

-- `MultiSigSigner`
pub record Signer : Type 0 where
  pub key : ℕ
  pub weight : ℕ
  pub kind : ℕ

-- `signers.reduce((total, signer) => total + signer.weight, 0)`
unfoldable pub weight_sum : List Signer → ℕ
weight_sum [] = 0
weight_sum (s ∷ rest) = s.weight + weight_sum rest

-- `filter((signer) => signer.weight > 0)`
unfoldable pub weighted : List Signer → List Signer
weighted [] = []
weighted (s ∷ rest) = let later = weighted rest in if ltb 0 s.weight then s ∷ later else later

module _ (locale_leb : ℕ → ℕ → Bool) where
  -- `b.weight - a.weight || a.key.localeCompare(b.key)`, at most 0.
  unfoldable pub heavier_first : Signer → Signer → Bool
  heavier_first a b = ltb b.weight a.weight || (a.weight == b.weight) && locale_leb a.key b.key

  abbrev pub insert_signer : Signer → List Signer → List Signer
  insert_signer s [] = s ∷ []
  insert_signer s (t ∷ rest) =
      let later = insert_signer s rest in if heavier_first s t then s ∷ t ∷ rest else t ∷ later

  unfoldable pub sort_signers : List Signer → List Signer
  sort_signers [] = []
  sort_signers (s ∷ rest) = insert_signer s (sort_signers rest)

  unfoldable pub eligible_signers : List Signer → List Signer
  eligible_signers signers = sort_signers (weighted signers)

-- The loop over the signers, of what is accumulated and of the signatures so far.
unfoldable pub gather : ℕ → List Signer → ℕ → ℕ → ℕ
gather required [] accumulated signatures = signatures
gather required (s ∷ rest) accumulated signatures =
    let later = gather required rest (accumulated + s.weight) (signatures + 1) in
    if leb required accumulated then signatures else later
