-- ===== src/Payments/Signers/Fewest.antt =====
-- backend/src/contracts/transactions.ts: signing the heaviest first takes the fewest signatures.
use coop_lumen_index.Base.{
  ℕ, zero, suc, ◌+◌, ◌≤◌, ◌<◌, ◌≡◌, refl, Bool, true, false, List, [], ◌∷◌, arith, leb, inl, inr,
  Bool-cases, All,
}
use coop_lumen_index.Payments.Signers.{
  Signer, weight_sum, heavier_first, insert_signer, sort_signers, weighted, eligible_signers,
  gather,
}
use coop_lumen_index.Payments.Signers.Sorting.{
  Chosen, none_left, skip, pick, eligible-Within, Chosen-eligible,
}

abbrev IsBelow : ℕ → List Signer → Type 0
IsBelow bound = All (λ s. s.weight ≤ bound)

-- The heaviest comes first.
abbrev IsDescending : List Signer → Type 0
IsDescending [] = Unit
IsDescending (s ∷ rest) = IsBelow s.weight rest × IsDescending rest

IsBelow-mono : (a b : ℕ) (xs : List Signer) → a ≤ b → IsBelow a xs → IsBelow b xs
IsBelow-mono a b [] le h = tt
IsBelow-mono a b (x ∷ xs) le (h, rest) = (omega arith, IsBelow-mono a b xs le rest)

module _ (locale_leb : ℕ → ℕ → Bool) where
  insert_signer-IsBelow :
      (bound : ℕ) (s : Signer) (xs : List Signer)
      → s.weight ≤ bound
      → IsBelow bound xs
      → IsBelow bound (insert_signer locale_leb s xs)
  insert_signer-IsBelow bound s [] le h = (le, tt)
  insert_signer-IsBelow bound s (t ∷ rest) le (here, h) =
      elim (Bool-cases (heavier_first locale_leb s t)) [
        | inl e ↦ rw e (le, (here, h))
        | inr e ↦ rw e (here, insert_signer-IsBelow bound s rest le h)
      ]

  comes_first_heavier : (s t : Signer) → heavier_first locale_leb s t ≡ true → t.weight ≤ s.weight
  unfolding heavier_first
  comes_first_heavier s t h = ground arith

  comes_later_lighter : (s t : Signer) → heavier_first locale_leb s t ≡ false → s.weight ≤ t.weight
  unfolding heavier_first
  comes_later_lighter s t h = ground arith

  insert_signer-IsDescending :
      (s : Signer) (xs : List Signer)
      → IsDescending xs
      → IsDescending (insert_signer locale_leb s xs)
  insert_signer-IsDescending s [] h = (tt, tt)
  insert_signer-IsDescending s (t ∷ rest) (below, h) =
      elim (Bool-cases (heavier_first locale_leb s t)) [
        | inl e ↦
            let le = comes_first_heavier s t e in
            rw e ((le, IsBelow-mono t.weight s.weight rest le below), (below, h))
        | inr e ↦ rw e (
          insert_signer-IsBelow t.weight s rest (comes_later_lighter s t e) below,
          insert_signer-IsDescending s rest h,
        )
      ]

  sort_signers-IsDescending : (xs : List Signer) → IsDescending (sort_signers locale_leb xs)
  unfolding sort_signers
  sort_signers-IsDescending [] = tt
  sort_signers-IsDescending (s ∷ rest) =
      insert_signer-IsDescending s _ (sort_signers-IsDescending rest)

  eligible-IsDescending : (xs : List Signer) → IsDescending (eligible_signers locale_leb xs)
  unfolding eligible_signers
  eligible-IsDescending xs = sort_signers-IsDescending (weighted xs)

-- No choice weighs more than all signers.
Chosen-le : (xs : List Signer) (count total : ℕ) → Chosen xs count total → total ≤ weight_sum xs
unfolding weight_sum
Chosen-le [] count total (none_left _ _ e f) = omega arith
Chosen-le (s ∷ rest) count total (skip _ _ _ _ c) = omega (arith, Chosen-le rest count total c)
Chosen-le (s ∷ rest) count total (pick _ _ _ _ fewer others c e f) =
    omega (arith, Chosen-le rest fewer others c)

Chosen-zero : (xs : List Signer) (count total : ℕ) → Chosen xs count total → count ≡ 0 → total ≡ 0
Chosen-zero [] count total (none_left _ _ e f) h = f
Chosen-zero (s ∷ rest) count total (skip _ _ _ _ c) h = Chosen-zero rest count total c h
Chosen-zero (s ∷ rest) count total (pick _ _ _ _ fewer others c e f) h = absurd (omega arith)

-- One signer fewer takes away no more than the heaviest weight.
one_fewer :
    (bound : ℕ) (xs : List Signer) (count total fewer : ℕ)
    → IsBelow bound xs
    → Chosen xs count total
    → count ≡ suc fewer
    → (others : ℕ) × Chosen xs fewer others × (total ≤ bound + others)
one_fewer bound [] count total fewer h (none_left _ _ e f) g = absurd (omega arith)
one_fewer bound (s ∷ rest) count total fewer (here, h) (skip _ _ _ _ c) g =
    let (others, d, le) = one_fewer bound rest count total fewer h c g in
    (others, skip s rest fewer others d, le)
one_fewer bound (s ∷ rest) count total fewer (here, h) (pick _ _ _ _ less others c e f) g =
    let same : less ≡ fewer = omega arith in
    (others, skip s rest fewer others (rw same at c), omega arith)

pub gather_least :
    (required : ℕ) (xs : List Signer) (accumulated signatures count total : ℕ)
    → IsDescending xs
    → Chosen xs count total
    → required ≤ accumulated + total
    → gather required xs accumulated signatures ≤ signatures + count
unfolding gather
gather_least required [] accumulated signatures count total h c le = omega arith
gather_least required (s ∷ rest) accumulated signatures count total (below, h)
      (pick _ _ _ _ fewer others c e f) le =
    let later =
      gather_least required rest (accumulated + s.weight) (signatures + 1) fewer others h c
        (omega arith) in
    ground arith
gather_least required (s ∷ rest) accumulated signatures zero total (below, h) (skip _ _ _ _ c) le =
    let nothing = Chosen-zero rest 0 total c refl in ground arith
gather_least required (s ∷ rest) accumulated signatures (suc count) total (below, h)
      (skip _ _ _ _ c) le =
    let (others, d, bound) = one_fewer s.weight rest (suc count) total count below c refl in
    let later =
      gather_least required rest (accumulated + s.weight) (signatures + 1) count others h d
        (omega arith) in
    ground arith

nobody : (xs : List Signer) → Chosen xs 0 0
nobody [] = none_left 0 0 refl refl
nobody (x ∷ xs) = skip x xs 0 0 (nobody xs)

-- The signers that the loop has counted reach the weight.
pub gather_reaches :
    (required : ℕ) (xs : List Signer) (accumulated signatures : ℕ)
    → required ≤ accumulated + weight_sum xs
    → (count : ℕ) × (total : ℕ) × Chosen xs count total
      × (gather required xs accumulated signatures ≡ signatures + count)
      × (required ≤ accumulated + total)
unfolding gather weight_sum
gather_reaches required [] accumulated signatures le =
    (0, 0, none_left 0 0 refl refl, omega arith, omega arith)
gather_reaches required (s ∷ rest) accumulated signatures le =
    elim (Bool-cases (leb required accumulated)) [
      | inl done ↦ (0, 0, nobody (s ∷ rest), rw done (omega arith), ground arith)
      | inr more ↦
          let (count, total, c, e, enough) =
            gather_reaches required rest (accumulated + s.weight) (signatures + 1) (omega arith) in
          (
            suc count,
            s.weight + total,
            pick s rest (suc count) _ count total c refl refl,
            rw more (omega arith),
            omega arith,
          )
    ]

-- `count` of an account's signers can reach the weight, and no fewer can.
pub record IsFewest (signers : List Signer) (required count : ℕ) : Type 0 where
  pub weight : ℕ
  pub chosen : Chosen signers count weight
  pub enough : required ≤ weight
  pub least : (fewer total : ℕ) → Chosen signers fewer total → required ≤ total → count ≤ fewer

module _ (locale_leb : ℕ → ℕ → Bool) (signers : List Signer) (required : ℕ) where
  pub gather-IsFewest :
      required ≤ weight_sum (eligible_signers locale_leb signers)
      → IsFewest signers required (gather required (eligible_signers locale_leb signers) 0 0)
  gather-IsFewest available =
      let list = eligible_signers locale_leb signers in
      let (count, total, c, e, enough) = gather_reaches required list 0 0 (omega arith) in
      let same : count ≡ gather required list 0 0 = omega arith in
      record {
        weight = total;
        chosen = eligible-Within locale_leb signers _ total (rw same at c);
        enough = omega arith;
        least = λ fewer weight d reach.
            let (less, le, d') = Chosen-eligible locale_leb signers fewer weight d in
            let bound =
              gather_least required list 0 0 less weight (eligible-IsDescending locale_leb signers)
                d' (omega arith) in
            omega arith;
      }

  -- Signers that cannot reach the weight together cannot reach it at all.
  pub unreachable :
      weight_sum (eligible_signers locale_leb signers) < required
      → (count total : ℕ) → Chosen signers count total
      → total < required
  unreachable below count total c =
      let (fewer, le, d) = Chosen-eligible locale_leb signers count total c in
      omega (arith, Chosen-le (eligible_signers locale_leb signers) fewer total d)
