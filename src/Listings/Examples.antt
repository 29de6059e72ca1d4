-- ===== src/Listings/Examples.antt =====
-- Runs of the listings.
use coop_lumen_index.Base.{
  ℕ, suc, ◌<◌, ◌≡◌, ◌≢◌, refl, ap, ◌∙◌, ◌⊎◌, inl, inr, false, none, some, List, [], ◌∷◌, length,
  ltb, if◌then◌else◌, All, Bool-cases, arith,
}
use coop_lumen_index.Communities.{Community}
use coop_lumen_index.Listings.Pages.{nth_page, first_pages}
use coop_lumen_index.Listings.Histories.{
  LogRow, HistoryQuery, history_conditions, transaction_history,
}
use coop_lumen_index.Listings.Histories.Ordered.{IsIn, IsDistinct, IsDescending, OrdersByTime}
use coop_lumen_index.Listings.Histories.Shown.{
  IsWhole, ToldApart, answer, rows_of, pages_of, transaction_history-IsWhole,
}

abbrev coop : Community
coop = record {
  id = 1;
  name = 10;
  description = none;
  issuer_public_key = 20;
  asset_code = 30;
  asset_issuer = 40;
  avatar_url = none;
  created_at = 50;
  deleted_at = none;
}

abbrev logged : ℕ → ℕ → ℕ → LogRow
logged id community created_at = record {
  id = id;
  community_id = some community;
  actor_address = none;
  action = 5;
  stellar_tx_hash = none;
  created_at = created_at;
}

abbrev log : List LogRow
log = logged 4 1 60 ∷ logged 2 2 80 ∷ logged 3 1 70 ∷ logged 1 1 90 ∷ logged 5 1 20 ∷ []

-- From the time 50 on.
abbrev since_50 : HistoryQuery
since_50 = record { from_time = some 50; to_time = none; action = none }

-- A sort that puts the later row first.
abbrev placed : LogRow → List LogRow → List LogRow
placed row [] = row ∷ []
placed row (r ∷ rows) =
    let rest = placed row rows in
    if ltb row.created_at r.created_at then r ∷ rest else row ∷ r ∷ rows

abbrev by_time : List LogRow → List LogRow
by_time [] = []
by_time (r ∷ rows) = placed r (by_time rows)

into_placed :
    (row : LogRow) (rows : List LogRow) (a : LogRow)
    → (a ≡ row) ⊎ IsIn a rows
    → IsIn a (placed row rows)
into_placed row [] a h = h
into_placed row (r ∷ rows) a h = elim (Bool-cases (ltb row.created_at r.created_at)) [
  | inr e ↦ simp e h
  | inl e ↦ simp e (elim h [
    | inl same ↦ inr (into_placed row rows a (inl same))
    | inr (inl first) ↦ inl first
    | inr (inr later) ↦ inr (into_placed row rows a (inr later))
  ])
]

from_placed :
    (row : LogRow) (rows : List LogRow) (a : LogRow)
    → IsIn a (placed row rows)
    → (a ≡ row) ⊎ IsIn a rows
from_placed row [] a h = h
from_placed row (r ∷ rows) a h = elim (Bool-cases (ltb row.created_at r.created_at)) [
  | inr e ↦ simp e at h
  | inl e ↦
      let h' : (a ≡ r) ⊎ IsIn a (placed row rows) = simp e at h in
      elim h' [
        | inl first ↦ inr (inl first)
        | inr later ↦ elim (from_placed row rows a later) [
          | inl same ↦ inl same
          | inr i ↦ inr (inr i)
        ]
      ]
]

length-placed : (row : LogRow) (rows : List LogRow) → length (placed row rows) ≡ suc (length rows)
length-placed row [] = refl
length-placed row (r ∷ rows) = let rest = length-placed row rows in ground arith

placed_below :
    (row : LogRow) (rows : List LogRow) (t : ℕ)
    → row.created_at < t
    → All (λ s. s.created_at < t) rows
    → All (λ s. s.created_at < t) (placed row rows)
placed_below row [] t a h = (a, tt)
placed_below row (r ∷ rows) t a (first, h) = elim (Bool-cases (ltb row.created_at r.created_at)) [
  | inl e ↦ simp e (first, placed_below row rows t a h)
  | inr e ↦ simp e (a, (first, h))
]

lower :
    (rows : List LogRow) (t u : ℕ)
    → t < u
    → All (λ s. s.created_at < t) rows
    → All (λ s. s.created_at < u) rows
lower [] t u a h = tt
lower (r ∷ rows) t u a (first, h) = (omega arith, lower rows t u a h)

later_of : {a b : ℕ} → ltb a b ≡ false → b ≢ a → b < a
later_of e other = ground arith

placed-IsDescending :
    (row : LogRow) (rows : List LogRow)
    → All (λ s. s.created_at ≢ row.created_at) rows
    → IsDescending rows
    → IsDescending (placed row rows)
placed-IsDescending row [] d h = (tt, tt)
placed-IsDescending row (r ∷ rows) (other, d) (below, h) =
    elim (Bool-cases (ltb row.created_at r.created_at)) [
      | inl e ↦
          let before : row.created_at < r.created_at = ground arith in
          simp e (placed_below row rows r.created_at before below, placed-IsDescending row rows d h)
      | inr e ↦
          let after : r.created_at < row.created_at = later_of e other in
          simp e ((after, lower rows r.created_at row.created_at after below), (below, h))
    ]

placed_other :
    (row : LogRow) (rows : List LogRow) (t : ℕ)
    → row.created_at ≢ t
    → All (λ s. s.created_at ≢ t) rows
    → All (λ s. s.created_at ≢ t) (placed row rows)
placed_other row [] t a h = (a, tt)
placed_other row (r ∷ rows) t a (first, h) = elim (Bool-cases (ltb row.created_at r.created_at)) [
  | inl e ↦ simp e (first, placed_other row rows t a h)
  | inr e ↦ simp e (a, (first, h))
]

by_time_other :
    (rows : List LogRow) (t : ℕ)
    → All (λ s. s.created_at ≢ t) rows
    → All (λ s. s.created_at ≢ t) (by_time rows)
by_time_other [] t h = tt
by_time_other (r ∷ rows) t (first, h) =
    placed_other r (by_time rows) t first (by_time_other rows t h)

into_by_time : (rows : List LogRow) (a : LogRow) → IsIn a rows → IsIn a (by_time rows)
into_by_time (r ∷ rows) a (inl e) = into_placed r (by_time rows) a (inl e)
into_by_time (r ∷ rows) a (inr i) = into_placed r (by_time rows) a (inr (into_by_time rows a i))
into_by_time [] a i = absurd i

from_by_time : (rows : List LogRow) (a : LogRow) → IsIn a (by_time rows) → IsIn a rows
from_by_time [] a i = i
from_by_time (r ∷ rows) a i = elim (from_placed r (by_time rows) a i) [
  | inl e ↦ inl e
  | inr j ↦ inr (from_by_time rows a j)
]

length-by_time : (rows : List LogRow) → length (by_time rows) ≡ length rows
length-by_time [] = refl
length-by_time (r ∷ rows) = length-placed r (by_time rows) ∙ ap suc (length-by_time rows)

by_time-IsDescending : (rows : List LogRow) → IsDistinct rows → IsDescending (by_time rows)
by_time-IsDescending [] d = tt
by_time-IsDescending (r ∷ rows) (other, d) =
    placed-IsDescending r (by_time rows) (by_time_other rows r.created_at other)
      (by_time-IsDescending rows d)

by_time-OrdersByTime : OrdersByTime by_time
by_time-OrdersByTime = record {
  into = into_by_time;
  from = from_by_time;
  as_long = length-by_time;
  descends = by_time-IsDescending;
}

second_page :
    rows_of (transaction_history by_time (coop ∷ []) log 1 since_50 (nth_page 2 2))
    ≡ logged 4 1 60 ∷ []
unfolding transaction_history
second_page = refl

abbrev each_page : ℕ → List LogRow → List LogRow
each_page n = by_time

told_apart : ToldApart each_page (coop ∷ []) log 1 since_50
unfolding history_conditions
told_apart = ((λ e. omega arith, (λ e. omega arith, tt)), ((λ e. omega arith, tt), (tt, tt)))

transaction_history-IsWhole_example : IsWhole log 1 since_50 (
    first_pages
      (λ n. rows_of (answer each_page (coop ∷ []) log 1 since_50 2 n))
      (pages_of (answer each_page (coop ∷ []) log 1 since_50 2 1)))
transaction_history-IsWhole_example =
    transaction_history-IsWhole each_page (coop ∷ []) log coop 1 since_50 2 1 refl (omega arith)
      (λ k. by_time-OrdersByTime) told_apart
