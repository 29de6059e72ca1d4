-- ===== src/TokenRoutes/Submit.antt =====
-- tokens.ts: POST /tokens/submit, with the supply that it reads back from Horizon.
use coop_lumen_index.Base.{
  ℕ, ◌≡◌, refl, inl, inr, ◌⊎◌, Bool, true, false, ◌&&◌, Option, none, some, List, [], ◌∷◌,
  if◌then◌else◌, ◌==◌, Bool-cases,
}
use coop_lumen_index.Stellar.Errors.{Thrown}
use coop_lumen_index.Stellar.Errors.Mapped.{map_horizon_error}
use coop_lumen_index.TokenRoutes.{ErrorAnswer, has_response, mapped_answer}

-- A row of tokens; codes, issuers and amounts are numbers.
pub record TokenRow : Type 0 where
  pub asset_code : ℕ
  pub asset_issuer : ℕ
  pub total_supply : ℕ

pub record RefreshSupply : Type 0 where
  pub asset_code : ℕ
  pub asset_issuer : ℕ

pub data SubmitAnswer : Type 0 where
  submitted : ℕ → SubmitAnswer
  refused_by : ErrorAnswer → SubmitAnswer

abbrev pub is_token : RefreshSupply → TokenRow → Bool
is_token refresh row =
    (row.asset_code == refresh.asset_code) && (row.asset_issuer == refresh.asset_issuer)

-- UPDATE tokens SET total_supply = $1 WHERE asset_code = $2 AND asset_issuer = $3
unfoldable pub set_supply : RefreshSupply → ℕ → List TokenRow → List TokenRow
set_supply refresh supply [] = []
set_supply refresh supply (row ∷ rows) =
    let rest = set_supply refresh supply rows in
    if is_token refresh row then record row { total_supply = supply } ∷ rest else row ∷ rest

-- The `catch` of the route.
unfoldable pub submit_failed : Thrown → SubmitAnswer
submit_failed err = refused_by (
    if has_response err then mapped_answer (map_horizon_error err none) else record {
      status = 400;
      error = "The signedXdr is not a valid transaction for the configured Stellar network.";
    })

-- The route with a valid body, by what submitSignedXdr and getTotalSupply give.
unfoldable pub submit :
    Thrown ⊎ ℕ → Option RefreshSupply → Thrown ⊎ ℕ → List TokenRow → SubmitAnswer × List TokenRow
submit (inl err) refresh supply rows = (submit_failed err, rows)
submit (inr hash) none supply rows = (submitted hash, rows)
submit (inr hash) (some refresh) (inl err) rows = (submit_failed err, rows)
submit (inr hash) (some refresh) (inr supply) rows =
    (submitted hash, set_supply refresh supply rows)

-- A row has the supply, if it is the token's, and stands unchanged otherwise.
pub data Refreshed (refresh : RefreshSupply) (supply : ℕ)
    : List TokenRow → List TokenRow → Type 0 where
  no_rows : Refreshed refresh supply [] []
  own_row :
      {row : TokenRow} {rows after : List TokenRow}
      → is_token refresh row ≡ true
      → Refreshed refresh supply rows after
      → Refreshed refresh supply (row ∷ rows) (record row { total_supply = supply } ∷ after)
  other_row :
      {row : TokenRow} {rows after : List TokenRow}
      → is_token refresh row ≡ false
      → Refreshed refresh supply rows after
      → Refreshed refresh supply (row ∷ rows) (row ∷ after)

set_supply-Refreshed :
    (refresh : RefreshSupply) (supply : ℕ) (rows : List TokenRow)
    → Refreshed refresh supply rows (set_supply refresh supply rows)
unfolding set_supply
set_supply-Refreshed refresh supply [] = no_rows
set_supply-Refreshed refresh supply (row ∷ rows) =
    let rest = set_supply-Refreshed refresh supply rows in
    elim (Bool-cases (is_token refresh row)) [
      | inl t ↦ rw t (own_row t rest)
      | inr f ↦ rw f (other_row f rest)
    ]

-- When Horizon has accepted a transaction that is to refresh a supply: if Horizon then gives the
-- supply, the answer has the hash, and just the rows of that token get it; if that fails, the
-- answer is an error, with status 400 for an error without a response, and no row changes,
-- although the transaction went through.
pub submit_accepted :
    (hash : ℕ) (refresh : RefreshSupply) (supply : Thrown ⊎ ℕ) (rows : List TokenRow)
    → ((n : ℕ) × (supply ≡ inr n)
        × ((submit (inr hash) (some refresh) supply rows).0 ≡ submitted hash)
        × Refreshed refresh n rows (submit (inr hash) (some refresh) supply rows).1)
      ⊎ ((err : Thrown) × (supply ≡ inl err)
          × (answer : ErrorAnswer) × (submit (inr hash) (some refresh) supply rows
              ≡ (refused_by answer, rows))
          × ((has_response err ≡ true) ⊎ (answer.status ≡ 400)))
unfolding submit submit_failed
submit_accepted hash refresh (inr n) rows = inl (n, refl, refl, set_supply-Refreshed refresh n rows)
submit_accepted hash refresh (inl err) rows = elim (Bool-cases (has_response err)) [
  | inl t ↦ inr (err, refl, _, refl, inl t)
  | inr f ↦ inr (err, refl, _, refl, inr (rw f refl))
]
