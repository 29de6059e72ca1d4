-- ===== src/Listings/Histories.antt =====
-- backend/src/api/routes/transactions.ts, balances.ts, communities.ts and reputation.ts: the listings.
-- Ids, addresses, times, actions and codes are numbers; the parameters have passed the schemas.
pub mod Ordered
pub mod Shown
use coop_lumen_index.Base.{
  ℕ, ◌+◌, ◌-◌, ◌*◌, ◌/◌, Bool, true, false, ◌&&◌, ◌||◌, not, Option, none, some, List, [], ◌∷◌,
  ◌++◌, length, filter, all, any, if◌then◌else◌, ◌==◌, leb,
}
use coop_lumen_index.Communities.{Community, role_admin, role_treasurer, role_member}
use coop_lumen_index.Communities.Store.{is_null, live_community}
use coop_lumen_index.Http.Guards.{Member}
use coop_lumen_index.Http.Pages.{PageParams}
use coop_lumen_index.Listings.{Listing, listing}

-- A row of transactions_log.
pub record LogRow : Type 0 where
  pub id : ℕ
  pub community_id : Option ℕ
  pub actor_address : Option ℕ
  pub action : ℕ
  pub stellar_tx_hash : Option ℕ
  pub created_at : ℕ

-- What the listings read of a loan.
pub record LoanRow : Type 0 where
  pub id : ℕ
  pub community_id : ℕ
  pub borrower_address : ℕ
  pub lender_address : ℕ
  pub created_at : ℕ

pub record ReputationScore : Type 0 where
  pub stellar_address : ℕ
  pub community_id : ℕ
  pub score : ℕ
  pub total_loans : ℕ
  pub on_time_repayments : ℕ
  pub defaults : ℕ

-- `from`, `to` and `type` of the query.
pub record HistoryQuery : Type 0 where
  pub from_time : Option ℕ
  pub to_time : Option ℕ
  pub action : Option ℕ

pub data ListingAnswer (A : Type 0) : Type 0 where
  listed : Listing A → ListingAnswer A
  no_community bad_role search_missing : ListingAnswer A

-- `column = $n`, of a column that may be NULL.
abbrev pub equals : ℕ → Option ℕ → Bool
equals value none = false
equals value (some v) = v == value

-- `if (value) conditions.push(…)`, before the conditions that follow.
abbrev pub given : {A : Type 0} → Option ℕ → (ℕ → A → Bool) → List (A → Bool) → List (A → Bool)
given none condition conditions = conditions
given (some v) condition conditions = condition v ∷ conditions

-- `conditions.join(' AND ')`
abbrev pub conjunction : {A : Type 0} → List (A → Bool) → A → Bool
conjunction conditions row = all (λ c. c row) conditions

unfoldable pub history_conditions : ℕ → HistoryQuery → List (LogRow → Bool)
history_conditions community query =
    (λ row. equals community row.community_id)
    ∷ given query.from_time (λ t row. leb t row.created_at)
        (given query.to_time (λ t row. leb row.created_at t)
          (given query.action (λ a row. row.action == a) []))

module _ (newest_first : List LogRow → List LogRow) where
  -- GET /transactions/history/:communityId
  unfoldable pub transaction_history :
      List Community → List LogRow → ℕ → HistoryQuery → PageParams → ListingAnswer LogRow
  unfolding history_conditions listing
  transaction_history communities log community query params =
      elim (live_community community communities) [
        | none ↦ no_community
        | some _ ↦
            listed
              (listing (conjunction (history_conditions community query)) newest_first params log)
      ]

  -- GET /balances/:publicKey/history
  unfoldable pub balance_history : List LogRow → ℕ → PageParams → Listing LogRow
  unfolding listing
  balance_history log address params =
      listing (λ row. equals address row.actor_address) newest_first params log

module _ (newest_first : List LoanRow → List LoanRow) where
  -- GET /balances/:publicKey/loans
  unfoldable pub address_loans : List LoanRow → ℕ → PageParams → Listing LoanRow
  unfolding listing
  address_loans loans address params =
      listing (λ l. l.borrower_address == address || l.lender_address == address) newest_first
        params loans

  -- GET /balances/community/:communityId/loans
  unfoldable pub community_loans : List LoanRow → ℕ → PageParams → Listing LoanRow
  unfolding listing
  community_loans loans community params =
      listing (λ l. l.community_id == community) newest_first params loans

-- `observer` of VALID_ROLES.
abbrev pub role_observer : ℕ
role_observer = 4

abbrev pub is_valid_role : ℕ → Bool
is_valid_role role =
    role == role_admin || role == role_treasurer || role == role_member || role == role_observer

abbrev pub is_bad_role : Option ℕ → Bool
is_bad_role none = false
is_bad_role (some role) = not (is_valid_role role)

unfoldable pub member_conditions : ℕ → Option ℕ → List (Member → Bool)
member_conditions community role =
    (λ m. m.community_id == community)
    ∷ (λ m. is_null m.deleted_at)
    ∷ given role (λ r m. m.role == r) []

-- GET /communities/:id/members, where a role is none if its text is blank.
unfoldable pub list_members :
    (List Member → List Member) → List Member → ℕ → Option ℕ → PageParams → ListingAnswer Member
unfolding member_conditions listing
list_members in_order members community role params =
    if is_bad_role role
    then bad_role
    else listed (listing (conjunction (member_conditions community role)) in_order params members)

-- `queryOffset ?? (queryPage - 1) * limit`, and its page.
unfoldable pub resolved_page : ℕ → ℕ → Option ℕ → PageParams
resolved_page limit page none = record { page = page; limit = limit; offset = (page - 1) * limit }
resolved_page limit page (some offset) = record {
  page = offset / limit + 1;
  limit = limit;
  offset = offset;
}

-- PostgreSQL's full-text search, of a community's name and description.
module _ (found_by : ℕ → Community → Bool) (in_order : List Community → List Community) where
  abbrev pub search_conditions : Option ℕ → List (Community → Bool)
  search_conditions search = (λ c. is_null c.deleted_at) ∷ given search found_by []

  -- GET /communities, with `limit`, and `page` or `offset`.
  unfoldable pub list_communities : List Community → Option ℕ → PageParams → Listing Community
  unfolding listing
  list_communities communities search params =
      listing (conjunction (search_conditions search)) in_order params communities

  -- GET /communities/search
  unfoldable pub search_communities :
      List Community → Option ℕ → PageParams → ListingAnswer Community
  unfolding listing
  search_communities communities none params = search_missing
  search_communities communities (some q) params =
      listed (listing (conjunction (search_conditions (some q))) in_order params communities)

-- What GET /communities/:id shows: the row, its live members, its log entries and its tokens' supply.
pub record CommunityDetail : Type 0 where
  pub community : Community
  pub member_count : ℕ
  pub total_transactions : ℕ
  pub total_token_supply : ℕ

-- A row of tokens: its community and its supply, 0 if it is NULL.
pub record IssuedToken : Type 0 where
  pub community_id : ℕ
  pub total_supply : ℕ

abbrev pub supply : List IssuedToken → ℕ
supply [] = 0
supply (t ∷ ts) = t.total_supply + supply ts

unfoldable pub community_detail :
    List Community → List Member → List LogRow → List IssuedToken → ℕ → Option CommunityDetail
community_detail communities members log tokens id = elim (live_community id communities) [
  | none ↦ none
  | some community ↦ some (record {
    community = community;
    member_count =
        length (filter (λ m. m.community_id == community.id && is_null m.deleted_at) members);
    total_transactions = length (filter (λ row. equals community.id row.community_id) log);
    total_token_supply = supply (filter (λ t. t.community_id == community.id) tokens);
  })
]

-- The sums of GET /reputation/:address.
pub record Summary : Type 0 where
  pub total_loans : ℕ
  pub on_time_repayments : ℕ
  pub defaults : ℕ

-- The `reduce` over the scores, from what is summed so far.
unfoldable pub summary_from : Summary → List ReputationScore → Summary
summary_from acc [] = acc
summary_from acc (s ∷ scores) =
    summary_from
      (record {
        total_loans = acc.total_loans + s.total_loans;
        on_time_repayments = acc.on_time_repayments + s.on_time_repayments;
        defaults = acc.defaults + s.defaults;
      })
      scores

abbrev pub no_summary : Summary
no_summary = record { total_loans = 0; on_time_repayments = 0; defaults = 0 }

pub record AddressReputation : Type 0 where
  pub communities : List ReputationScore
  pub summary : Summary

abbrev pub unless_empty : List ReputationScore → Option AddressReputation
unless_empty [] = none
unless_empty (s ∷ scores) =
    some (record { communities = s ∷ scores; summary = summary_from no_summary (s ∷ scores) })

module _ (in_order : List ReputationScore → List ReputationScore) where
  -- GET /reputation
  unfoldable pub leaderboard :
      List ReputationScore → Option ℕ → PageParams → Listing ReputationScore
  unfolding listing
  leaderboard scores community params =
      listing (conjunction (given community (λ c s. s.community_id == c) [])) in_order params scores

  -- GET /reputation/:address
  unfoldable pub address_reputation : List ReputationScore → ℕ → Option ℕ → Option AddressReputation
  unfolding summary_from
  address_reputation scores address community = unless_empty (
      in_order (
        filter
          (conjunction
            ((λ s. s.stellar_address == address) ∷ given community (λ c s. s.community_id == c) []))
          scores))
