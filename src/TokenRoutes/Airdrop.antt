-- ===== src/TokenRoutes/Airdrop.antt =====
-- tokens.ts: POST /tokens/build-airdrop, over the members of a community and the batches of
-- batchPayments.ts. `load_account` is what StellarService.loadAccount throws, if it throws.
use Prim.Native.String.{String}
use mathlib.Core.Path.{subst}
use coop_lumen_index.Base.{
  ℕ, suc, ◌≤◌, ◌<◌, ◌≡◌, ◌≢◌, refl, ap, ◌⊎◌, Bool, true, find, find_holds, ◌++◌, inl, inr, ◌&&◌,
  not, Option, none, some, List, [], ◌∷◌, arith, if◌then◌else◌, ◌==◌, length, Bool-cases,
  Option-cases, List-cases,
}
use coop_lumen_index.Http.Guards.{Member}
use coop_lumen_index.Communities.{Community, Tables}
use coop_lumen_index.Communities.Store.{is_null, is_live, live_community}
use coop_lumen_index.Stellar.Batch.{
  Sdk, Asset, too_many_payments, native, credit, pays_cons, resolve_asset, BatchError,
  BatchPaymentEntry, Payment, Pays, max_batch_payments, batch_error, build_payments,
  batch_error-none,
}
use coop_lumen_index.Stellar.Errors.{Thrown, stellar_error, to_stellar_error}
use coop_lumen_index.TokenRoutes.{ErrorAnswer, build_failed}

-- The amount is a list of ASCII codes, the memo its length in bytes.
pub record AirdropBody : Type 0 where
  pub community_id : ℕ
  pub issuer_public_key : ℕ
  pub amount : List ℕ
  pub memo : Option ℕ

pub data AirdropAnswer : Type 0 where
  community_missing wrong_issuer no_members : AirdropAnswer
  batch_refused : BatchError → AirdropAnswer
  account_failed : ErrorAnswer → AirdropAnswer
  -- The operations of the unsigned transaction, and `recipientCount`.
  airdrop_built : List Payment → ℕ → AirdropAnswer

-- SELECT stellar_address FROM members WHERE community_id = $1 AND deleted_at IS NULL
unfoldable pub addresses_of : ℕ → List Member → List ℕ
addresses_of community [] = []
addresses_of community (m ∷ ms) =
    let rest = addresses_of community ms in
    if (m.community_id == community) && is_null m.deleted_at then m.stellar_address ∷ rest else rest

-- The texts of keys and codes as in `Stellar.Batch`, where an issuer of a row is never empty.
unfoldable pub entries_of : Community → List ℕ → List ℕ → List BatchPaymentEntry
entries_of c amount [] = []
entries_of c amount (address ∷ addresses) =
    record {
      destination_public_key = address;
      asset_code = c.asset_code;
      asset_issuer = some c.asset_issuer;
      amount = amount;
    }
    ∷ entries_of c amount addresses

null_none : (o : Option ℕ) → is_null o ≡ true → o ≡ none
null_none none h = refl
null_none (some t) h = absurd (ground arith)

module _ (K : Sdk) (to_lower : String → String) where
  -- `buildBatchPayment`; what the SDK throws in building is not modelled.
  unfoldable pub build_batch_payment :
      Option Thrown → List BatchPaymentEntry → Option ℕ → AirdropAnswer
  build_batch_payment load_account payments memo = elim (batch_error K payments memo) [
    | some refusal ↦ batch_refused refusal
    | none ↦ elim load_account [
      | some err ↦
          account_failed
            (build_failed (stellar_error (to_stellar_error to_lower err "Batch payment build")))
      | none ↦ elim (build_payments K 1 payments) [
        | inl refusal ↦ batch_refused refusal
        | inr operations ↦ airdrop_built operations (length payments)
      ]
    ]
  ]

  unfoldable pub build_airdrop : Option Thrown → AirdropBody → Tables → AirdropAnswer
  build_airdrop load_account body db = elim (live_community body.community_id db.communities) [
    | none ↦ community_missing
    | some c ↦
        if not (c.asset_issuer == body.issuer_public_key)
        then wrong_issuer
        else elim (addresses_of body.community_id db.members) [
          | [] ↦ no_members
          | address ∷ addresses ↦
              build_batch_payment load_account (entries_of c body.amount (address ∷ addresses))
                body.memo
        ]
  ]

  -- The asset that a row of communities stands for: lumens, if its code is XLM.
  abbrev pub asset_of : Community → Asset
  asset_of c = if c.asset_code == K.xlm then native else credit c.asset_code c.asset_issuer

  -- An operation for each address, in order, of the amount and the community's asset.
  pub data PaysEach (c : Community) (amount : List ℕ) : List ℕ → List Payment → Type 0 where
    pays_none : PaysEach c amount [] []
    pays_next :
        {address : ℕ} {p : Payment} {addresses : List ℕ} {ps : List Payment}
        → p.destination ≡ address
        → p.amount ≡ amount
        → p.asset ≡ asset_of c
        → PaysEach c amount addresses ps
        → PaysEach c amount (address ∷ addresses) (p ∷ ps)

  resolved_asset :
      (c : Community) (position : ℕ) (asset : Asset)
      → resolve_asset K c.asset_code (some c.asset_issuer) position ≡ inr asset
      → asset ≡ asset_of c
  unfolding resolve_asset
  resolved_asset c position asset h = ground arith

  Pays-PaysEach :
      (c : Community) (amount : List ℕ) (addresses : List ℕ) (ps : List Payment)
      → Pays K (entries_of c amount addresses) ps
      → PaysEach c amount addresses ps
  unfolding entries_of
  Pays-PaysEach c amount [] [] h = pays_none
  Pays-PaysEach c amount [] (_ ∷ _) h = elim h [ ]
  Pays-PaysEach c amount (_ ∷ _) [] h = elim h [ ]
  Pays-PaysEach c amount (a ∷ addresses) (p ∷ ps) (pays_cons d m positive n r rest) =
      pays_next d m (resolved_asset c n p.asset r) (Pays-PaysEach c amount addresses ps rest)

  length-entries_of :
      (c : Community) (amount addresses : List ℕ)
      → length (entries_of c amount addresses) ≡ length addresses
  unfolding entries_of
  length-entries_of c amount [] = refl
  length-entries_of c amount (a ∷ addresses) =
      let rest = length-entries_of c amount addresses in ground arith

  -- What a built batch is.
  record IsBuilt (payments : List BatchPaymentEntry) (memo : Option ℕ) (operations : List Payment)
      (count : ℕ) : Type 0 where
    some_payments : 1 ≤ count
    few_payments : count ≤ max_batch_payments
    counted : count ≡ length payments
    pays : Pays K payments operations

  build_batch_payment-IsBuilt :
      (load_account : Option Thrown) (payments : List BatchPaymentEntry) (memo : Option ℕ)
      (operations : List Payment) (count : ℕ)
      → build_batch_payment load_account payments memo ≡ airdrop_built operations count
      → IsBuilt payments memo operations count
  unfolding build_batch_payment
  build_batch_payment-IsBuilt load_account payments memo operations count h =
      elim (Option-cases (batch_error K payments memo)) [
        | inr (refusal, e) ↦ absurd (ground arith)
        | inl e ↦
            let (one, hundred, ps, same, pays) = batch_error-none K payments memo e in
            elim (Option-cases load_account) [
              | inr (err, l) ↦ absurd (ground arith)
              | inl l ↦
                  let ps_is : ps ≡ operations = ground arith in
                  let count_is : length payments ≡ count = ground arith in
                  record {
                    some_payments = ground arith;
                    few_payments = ground arith;
                    counted = ground arith;
                    pays = subst (Pays K payments) ps_is pays;
                  }
            ]
      ]

  -- What is paid to the members of a table, in its order: one payment to each that belongs to the
  -- community and has not left it, and none to the others.
  pub data PaysMembers (c : Community) (amount : List ℕ) (community : ℕ)
      : List Member → List Payment → Type 0 where
    pays_no_more : PaysMembers c amount community [] []
    pays_member :
        {m : Member} {p : Payment} {ms : List Member} {ps : List Payment}
        → m.community_id ≡ community
        → m.deleted_at ≡ none
        → p.destination ≡ m.stellar_address
        → p.amount ≡ amount
        → p.asset ≡ asset_of c
        → PaysMembers c amount community ms ps
        → PaysMembers c amount community (m ∷ ms) (p ∷ ps)
    passes_over :
        {m : Member} {ms : List Member} {ps : List Payment}
        → (m.community_id ≢ community) ⊎ ((left : ℕ) × (m.deleted_at ≡ some left))
        → PaysMembers c amount community ms ps
        → PaysMembers c amount community (m ∷ ms) ps

  paid_first :
      (c : Community) (amount : List ℕ) (community : ℕ) (m : Member) (ms : List Member)
      (ps : List Payment)
      → m.community_id ≡ community
      → m.deleted_at ≡ none
      → PaysEach c amount (m.stellar_address ∷ addresses_of community ms) ps
      → ((rest : List Payment)
          → PaysEach c amount (addresses_of community ms) rest
          → PaysMembers c amount community ms rest)
      → PaysMembers c amount community (m ∷ ms) ps
  paid_first c amount community m ms _ here active (pays_next d a t rest) later =
      pays_member here active d a t (later _ rest)

  PaysEach-PaysMembers :
      (c : Community) (amount : List ℕ) (community : ℕ) (ms : List Member) (ps : List Payment)
      → PaysEach c amount (addresses_of community ms) ps
      → PaysMembers c amount community ms ps
  unfolding addresses_of
  PaysEach-PaysMembers c amount community [] _ pays_none = pays_no_more
  PaysEach-PaysMembers c amount community (m ∷ ms) ps h =
      elim (Bool-cases (m.community_id == community)) [
        | inr other ↦
            passes_over (inl (ground arith))
              (PaysEach-PaysMembers c amount community ms ps (simp other at h))
        | inl same ↦ elim (Option-cases m.deleted_at) [
          | inr (left, gone) ↦
              passes_over (inr (left, gone))
                (PaysEach-PaysMembers c amount community ms ps (simp (same, gone) at h))
          | inl active ↦
              let here : m.community_id ≡ community = ground arith in
              paid_first c amount community m ms ps here active (simp (same, active) at h)
                (PaysEach-PaysMembers c amount community ms)
        ]
      ]

  length-PaysEach :
      (c : Community) (amount addresses : List ℕ) (ps : List Payment)
      → PaysEach c amount addresses ps
      → length addresses ≡ length ps
  length-PaysEach c amount [] _ pays_none = refl
  length-PaysEach c amount (_ ∷ as') _ (pays_next d a t rest) =
      ap suc (length-PaysEach c amount as' _ rest)

  found_in :
      (p : Community → Bool) (cs : List Community) (c : Community)
      → find p cs ≡ some c
      → (before : List Community) × (after : List Community) × (cs ≡ before ++ c ∷ after)
  found_in p [] c h = absurd (ground arith)
  found_in p (x ∷ cs) c h = elim (Bool-cases (p x)) [
    | inl e ↦ ([], cs, ap (λ y. y ∷ cs) (ground arith))
    | inr e ↦
        let (before, after, same) = found_in p cs c (ground arith) in
        (x ∷ before, after, ap (λ l. x ∷ l) same)
  ]

  -- The community of the request: a row of the table that is not deleted, whose issuer asks.
  pub record IsAsked (body : AirdropBody) (db : Tables) (c : Community) : Type 0 where
    pub before : List Community
    pub after : List Community
    pub in_table : db.communities ≡ before ++ c ∷ after
    pub named : c.id ≡ body.community_id
    pub active : c.deleted_at ≡ none
    pub by_issuer : c.asset_issuer ≡ body.issuer_public_key

  live-IsAsked :
      (body : AirdropBody) (db : Tables) (c : Community)
      → live_community body.community_id db.communities ≡ some c
      → c.asset_issuer ≡ body.issuer_public_key
      → IsAsked body db c
  live-IsAsked body db c e own =
      let (before, after, same) = found_in _ db.communities c e in
      let holds = find_holds (is_live body.community_id) db.communities c e in
      record {
        before = before;
        after = after;
        in_table = same;
        named = ground arith;
        active = null_none c.deleted_at (ground arith);
        by_issuer = own;
      }

  -- An airdrop that is built pays each active member of the community exactly once, in the order
  -- of the table, the amount asked for, in the asset of the community's row, where the code XLM
  -- stands for lumens; the community is active, its asset's issuer asks, and the members are 1
  -- to 100.
  pub build_airdrop_pays :
      (load_account : Option Thrown) (body : AirdropBody) (db : Tables) (operations : List Payment)
      (count : ℕ)
      → build_airdrop load_account body db ≡ airdrop_built operations count
      → (c : Community) × IsAsked body db c
        × (1 ≤ count)
        × (count ≤ max_batch_payments)
        × (count ≡ length operations)
        × PaysMembers c body.amount body.community_id db.members operations
  unfolding build_airdrop
  build_airdrop_pays load_account body db operations count h =
      elim (Option-cases (live_community body.community_id db.communities)) [
        | inl e ↦ absurd (ground arith)
        | inr (c, e) ↦ elim (Bool-cases (c.asset_issuer == body.issuer_public_key)) [
          | inr f ↦ absurd (ground arith)
          | inl own ↦
              let addresses = addresses_of body.community_id db.members in
              elim (List-cases addresses) [
                | inl n ↦ absurd (ground arith)
                | inr (a, as', n) ↦
                    let same : build_batch_payment load_account (entries_of c body.amount addresses)
                          body.memo
                        ≡ airdrop_built operations count =
                      ground arith in
                    let b =
                      build_batch_payment-IsBuilt load_account (entries_of c body.amount addresses)
                        body.memo operations count same in
                    let counted = b.counted in
                    let as_many = length-entries_of c body.amount addresses in
                    let paid = Pays-PaysEach c body.amount addresses operations b.pays in
                    let long = length-PaysEach c body.amount addresses operations paid in
                    (
                      c,
                      live-IsAsked body db c e (ground arith),
                      b.some_payments,
                      b.few_payments,
                      omega (arith, counted, as_many, long),
                      PaysEach-PaysMembers c body.amount body.community_id db.members operations
                          paid,
                    )
              ]
        ]
      ]

  -- A community with more than 100 active members gets no airdrop.
  pub build_airdrop_too_many :
      (load_account : Option Thrown) (body : AirdropBody) (db : Tables) (c : Community)
      → live_community body.community_id db.communities ≡ some c
      → c.asset_issuer ≡ body.issuer_public_key
      → max_batch_payments < length (addresses_of body.community_id db.members)
      → build_airdrop load_account body db ≡ batch_refused too_many_payments
  unfolding build_airdrop build_batch_payment batch_error
  build_airdrop_too_many load_account body db c e own many =
      let addresses = addresses_of body.community_id db.members in
      elim (List-cases addresses) [
        | inl n ↦ absurd (ground arith)
        | inr (a, others, n) ↦
            let as_many = length-entries_of c body.amount addresses in ground arith
      ]
