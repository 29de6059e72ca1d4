-- ===== src/Payments/Signers/Sorting.antt =====
-- How many signers with what weight can be chosen from a list, and what the filter and the sort of
-- backend/src/contracts/transactions.ts do to that.
use coop_lumen_index.Base.{
  ℕ, suc, ◌+◌, ◌≤◌, ◌≡◌, refl, sym, Bool, List, [], ◌∷◌, arith, ltb, inl, inr, Bool-cases,
}
use coop_lumen_index.Payments.Signers.{
  Signer, weighted, heavier_first, insert_signer, sort_signers, eligible_signers,
}

-- `count` of the signers sign, with the weight `total`.
pub data Chosen : List Signer → ℕ → ℕ → Type 0 where
  none_left : (count total : ℕ) → count ≡ 0 → total ≡ 0 → Chosen [] count total
  skip :
      (s : Signer) (rest : List Signer) (count total : ℕ)
      → Chosen rest count total
      → Chosen (s ∷ rest) count total
  pick :
      (s : Signer) (rest : List Signer) (count total fewer others : ℕ)
      → Chosen rest fewer others
      → count ≡ suc fewer
      → total ≡ s.weight + others
      → Chosen (s ∷ rest) count total

-- Every choice from the one is a choice from the other.
abbrev Within : List Signer → List Signer → Type 0
Within xs ys = (count total : ℕ) → Chosen xs count total → Chosen ys count total

cons-Within : (s : Signer) (xs ys : List Signer) → Within xs ys → Within (s ∷ xs) (s ∷ ys)
cons-Within s xs ys h count total (skip _ _ _ _ c) = skip s ys count total (h count total c)
cons-Within s xs ys h count total (pick _ _ _ _ fewer others c e f) =
    pick s ys count total fewer others (h fewer others c) e f

swap-Within : (s t : Signer) (rest : List Signer) → Within (s ∷ t ∷ rest) (t ∷ s ∷ rest)
swap-Within s t rest count total (skip _ _ _ _ (skip _ _ _ _ c)) =
    skip t _ count total (skip s rest count total c)
swap-Within s t rest count total (skip _ _ _ _ (pick _ _ _ _ fewer others c e f)) =
    pick t _ count total fewer others (skip s rest fewer others c) e f
swap-Within s t rest count total (pick _ _ _ _ fewer others (skip _ _ _ _ c) e f) =
    skip t _ count total (pick s rest count total fewer others c e f)
swap-Within s t rest count total (pick _ _ _ _ fewer others (pick _ _ _ _ least last c e f) e' f') =
    pick t _ count total fewer (s.weight + last) (pick s rest fewer _ least last c e refl) e'
      (omega arith)

module _ (locale_leb : ℕ → ℕ → Bool) where
  cons-insert_signer :
      (s : Signer) (xs : List Signer) → Within (s ∷ xs) (insert_signer locale_leb s xs)
  cons-insert_signer s [] count total c = c
  cons-insert_signer s (t ∷ rest) count total c = elim (Bool-cases (heavier_first locale_leb s t)) [
    | inl e ↦ rw e c
    | inr e ↦ rw e (
        cons-Within t _ _ (cons-insert_signer s rest) count total
          (swap-Within s t rest count total c))
  ]

  insert_signer-cons :
      (s : Signer) (xs : List Signer) → Within (insert_signer locale_leb s xs) (s ∷ xs)
  insert_signer-cons s [] count total c = c
  insert_signer-cons s (t ∷ rest) count total c = elim (Bool-cases (heavier_first locale_leb s t)) [
    | inl e ↦ rw e at c
    | inr e ↦
        swap-Within t s rest count total
          (cons-Within t _ _ (insert_signer-cons s rest) count total (rw e at c))
  ]

  Within-sort_signers : (xs : List Signer) → Within xs (sort_signers locale_leb xs)
  unfolding sort_signers
  Within-sort_signers [] count total c = c
  Within-sort_signers (s ∷ rest) count total c =
      cons-insert_signer s _ count total
        (cons-Within s _ _ (Within-sort_signers rest) count total c)

  sort_signers-Within : (xs : List Signer) → Within (sort_signers locale_leb xs) xs
  unfolding sort_signers
  sort_signers-Within [] count total c = c
  sort_signers-Within (s ∷ rest) count total c =
      cons-Within s _ _ (sort_signers-Within rest) count total
        (insert_signer-cons s _ count total c)

weighted-Within : (xs : List Signer) → Within (weighted xs) xs
unfolding weighted
weighted-Within [] count total c = c
weighted-Within (s ∷ rest) count total c = elim (Bool-cases (ltb 0 s.weight)) [
  | inl e ↦ cons-Within s _ _ (weighted-Within rest) count total (rw e at c)
  | inr e ↦ skip s rest count total (weighted-Within rest count total (rw e at c))
]

-- A choice of no more signers with the same weight.
abbrev pub ChosenWithin : List Signer → ℕ → ℕ → Type 0
ChosenWithin xs count total = (fewer : ℕ) × (fewer ≤ count) × Chosen xs fewer total

Chosen-weighted :
    (xs : List Signer) (count total : ℕ)
    → Chosen xs count total
    → ChosenWithin (weighted xs) count total
unfolding weighted
Chosen-weighted [] count total c = (count, omega arith, c)
Chosen-weighted (s ∷ rest) count total (skip _ _ _ _ c) =
    let (fewer, le, d) = Chosen-weighted rest count total c in
    elim (Bool-cases (ltb 0 s.weight)) [
      | inl e ↦ (fewer, le, rw e (skip s _ fewer total d))
      | inr e ↦ (fewer, le, rw e d)
    ]
Chosen-weighted (s ∷ rest) count total (pick _ _ _ _ less others c e f) =
    let (fewer, le, d) = Chosen-weighted rest less others c in
    elim (Bool-cases (ltb 0 s.weight)) [
      | inl w ↦ (suc fewer, omega arith, rw w (pick s _ (suc fewer) total fewer others d refl f))
      | inr w ↦ let same : others ≡ total = ground arith in (fewer, omega arith, rw (w, sym same) d)
    ]

module _ (locale_leb : ℕ → ℕ → Bool) where
  pub eligible-Within : (xs : List Signer) → Within (eligible_signers locale_leb xs) xs
  unfolding eligible_signers
  eligible-Within xs count total c =
      weighted-Within xs count total (sort_signers-Within locale_leb (weighted xs) count total c)

  pub Chosen-eligible :
      (xs : List Signer) (count total : ℕ)
      → Chosen xs count total
      → ChosenWithin (eligible_signers locale_leb xs) count total
  unfolding eligible_signers
  Chosen-eligible xs count total c =
      let (fewer, le, d) = Chosen-weighted xs count total c in
      (fewer, le, Within-sort_signers locale_leb (weighted xs) fewer total d)
