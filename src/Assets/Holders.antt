-- ===== src/Assets/Holders.antt =====
-- backend/src/contracts/assets.ts: `getAssetHolders` reads every page.
use native.Mathlib.Nat.{suc-mul, zero-add, suc-add}
use coop_lumen_index.Base.{
  ℕ, zero, suc, ◌+◌, ◌*◌, ◌≤◌, ◌<◌, ◌≡◌, refl, sym, ap, ◌∙◌, ◌⊎◌, inl, inr, some, List, [], ◌∷◌,
  ◌++◌, length, take, drop, arith, ltb, append_assoc, append-nil, Bool-cases, Option-cases,
  length-append,
}
use coop_lumen_index.Stellar.Errors.{Thrown}
use coop_lumen_index.Assets.{
  HolderAccount, AssetHolder, balance_of, holders_of, page_size, holder_pages, get_asset_holders,
}

module _ (code issuer : ℕ) where
  holders_of-append :
      (xs ys : List HolderAccount)
      → holders_of code issuer (xs ++ ys) ≡ holders_of code issuer xs ++ holders_of code issuer ys
  unfolding holders_of
  holders_of-append [] ys = refl
  holders_of-append (x ∷ xs) ys = elim (Option-cases (balance_of code issuer x)) [
    | inl e ↦ rw (e, holders_of) (holders_of-append xs ys)
    | inr (b, e) ↦
        rw (e, holders_of)
          (ap (λ hs. record { account = x.account_id; balance = b } ∷ hs) (holders_of-append xs ys))
  ]

-- Horizon answers the accounts a page at a time, in one order.
abbrev pub IsPaged : ℕ → List HolderAccount → (ℕ → Thrown ⊎ List HolderAccount) → Type 0
IsPaged limit accounts pages = (n : ℕ) → pages n ≡ inr (take limit (drop (n * limit) accounts))

append-take-drop : {A : Type 0} (k : ℕ) (xs : List A) → take k xs ++ drop k xs ≡ xs
append-take-drop zero xs = refl
append-take-drop (suc k) [] = refl
append-take-drop (suc k) (x ∷ xs) = ap (λ ys. x ∷ ys) (append-take-drop k xs)

drop-nil : {A : Type 0} (k : ℕ) → drop {A = A} k [] ≡ []
drop-nil zero = refl
drop-nil (suc k) = refl

drop-drop : {A : Type 0} (j k : ℕ) (xs : List A) → drop k (drop j xs) ≡ drop (j + k) xs
drop-drop zero k xs = rw zero-add
drop-drop (suc j) k [] = drop-nil k ∙ sym (drop-nil (suc j + k))
drop-drop (suc j) k (x ∷ xs) = rw suc-add (drop-drop j k xs)

length-take_lt : {A : Type 0} (k : ℕ) (xs : List A) → length (take k xs) < k → take k xs ≡ xs
length-take_lt zero xs h = absurd (omega arith)
length-take_lt (suc k) [] h = refl
length-take_lt (suc k) (x ∷ xs) h = ap (λ ys. x ∷ ys) (length-take_lt k xs (omega arith))

length-take-drop :
    {A : Type 0} (k : ℕ) (xs : List A) → length (take k xs) + length (drop k xs) ≡ length xs
length-take-drop k xs =
    sym (length-append (take k xs) (drop k xs)) ∙ ap length (append-take-drop k xs)

module _ (pages : ℕ → Thrown ⊎ List HolderAccount) (limit code issuer rounds n : ℕ)
    (left rest : List HolderAccount) where
  -- One round of the loop, by the accounts that are left and the page that they begin with.
  round :
      (page : List HolderAccount) (holders : List AssetHolder)
      → pages n ≡ inr page
      → page ++ rest ≡ left
      → 0 < limit
      → (length page < limit → page ≡ left)
      → ((found : List AssetHolder)
          → limit ≤ length page
          → holder_pages pages limit code issuer rounds (n + 1) found
            ≡ some (inr (found ++ holders_of code issuer rest)))
      → holder_pages pages limit code issuer (suc rounds) n holders
        ≡ some (inr (holders ++ holders_of code issuer left))
  unfolding holder_pages
  round [] holders answer parts positive last next =
      rw (answer, holder_pages) (rw (sym (last positive)) (sym (rw append-nil refl)))
  round (a ∷ page) holders answer parts positive last next =
      elim (Bool-cases (ltb (length (a ∷ page)) limit)) [
        | inl short ↦ rw (answer, holder_pages) (rw short (rw (last (ground arith)) refl))
        | inr full ↦
            rw (answer, holder_pages)
              (rw full (
                next _ (ground arith)
                ∙ ap (λ hs. some (inr hs))
                    (append_assoc holders _ _
                      ∙ ap (λ hs. holders ++ hs)
                          (sym (holders_of-append code issuer (a ∷ page) rest)
                            ∙ ap (holders_of code issuer) parts))))
      ]

fewer :
    {limit first rest all rounds : ℕ}
    → first + rest ≡ all
    → all < suc rounds
    → 0 < limit
    → limit ≤ first
    → rest < rounds
fewer parts enough positive full = omega arith

the_next : (n : ℕ) → n + 1 ≡ suc n
the_next n = omega arith

next_page : (limit n : ℕ) → (n + 1) * limit ≡ n * limit + limit
next_page limit n = ap (λ k. k * limit) (the_next n) ∙ suc-mul n limit

drop-next_page :
    {A : Type 0} (limit n : ℕ) (xs : List A)
    → drop ((n + 1) * limit) xs ≡ drop limit (drop (n * limit) xs)
drop-next_page limit n xs =
    ap (λ k. drop k xs) (next_page limit n) ∙ sym (drop-drop (n * limit) limit xs)

module _ (pages : ℕ → Thrown ⊎ List HolderAccount) (limit code issuer : ℕ)
    (accounts : List HolderAccount) (paged : IsPaged limit accounts pages) where
  pages-IsAll :
      (rounds n : ℕ) (holders : List AssetHolder)
      → 0 < limit
      → length (drop (n * limit) accounts) < rounds
      → holder_pages pages limit code issuer rounds n holders
        ≡ some (inr (holders ++ holders_of code issuer (drop (n * limit) accounts)))
  pages-IsAll zero n holders positive enough = absurd (omega arith)
  pages-IsAll (suc rounds) n holders positive enough =
      let left = drop (n * limit) accounts in
      let more = length-take-drop limit left in
      let later = drop-next_page limit n accounts in
      round pages limit code issuer rounds n left (drop limit left) (take limit left) holders
        (paged n) (append-take-drop limit left) positive (length-take_lt limit left)
        (λ found full.
          pages-IsAll rounds (n + 1) found positive (rw later (fewer more enough positive full))
          ∙ ap (λ l. some (inr (found ++ holders_of code issuer l))) later)

-- If Horizon answers the accounts with an asset in pages of 200, the listing ends within one
-- round more than there are accounts, with the holders among all of them in order.
pub get_asset_holders-IsWhole :
    (pages : ℕ → Thrown ⊎ List HolderAccount) (code issuer rounds : ℕ)
    (accounts : List HolderAccount)
    → IsPaged page_size accounts pages
    → length accounts < rounds
    → get_asset_holders pages code issuer rounds ≡ some (inr (holders_of code issuer accounts))
unfolding get_asset_holders
get_asset_holders-IsWhole pages code issuer rounds accounts paged enough =
    pages-IsAll pages page_size code issuer accounts paged rounds 0 [] (omega arith) enough
