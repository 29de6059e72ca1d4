-- ===== src/Listings/Histories/Shown.antt =====
-- The listings of backend/src/api/routes: which rows they show, and how they agree.
use mathlib.Core.Path.{subst}
use std.Path.{fun_ext}
use coop_lumen_index.Listings.Histories.Ordered.{
  IsIn, IsDistinct, IsDescending, OrdersByTime, orders_agree,
}
use coop_lumen_index.Base.{
  ℕ, ◌≤◌, ◌<◌, ◌≡◌, ◌↔◌, refl, sym, ap, ◌∙◌, inl, inr, Bool, true, ◌&&◌, Option, none, some, List,
  [], length, filter, arith, ◌==◌, leb, Option-cases,
}
use coop_lumen_index.Communities.{Community}
use coop_lumen_index.Communities.Store.{is_null, live_community}
use coop_lumen_index.Http.Guards.{Member}
use coop_lumen_index.Http.Pages.{PageParams, page_meta}
use coop_lumen_index.Listings.{Listing, listing}
use coop_lumen_index.Listings.Pages.{nth_page, first_pages, listing_pages}
use coop_lumen_index.Listings.Histories.{
  LogRow, HistoryQuery, ListingAnswer, listed, equals, given, conjunction, history_conditions,
  transaction_history, list_members, community_detail, CommunityDetail, IssuedToken,
  member_conditions,
}

-- The community, the times and the action that a query asks for.
pub record IsAsked (community : ℕ) (query : HistoryQuery) (row : LogRow) : Type 0 where
  pub of_community : row.community_id ≡ some community
  pub not_before : (t : ℕ) → query.from_time ≡ some t → t ≤ row.created_at
  pub not_after : (t : ℕ) → query.to_time ≡ some t → row.created_at ≤ t
  pub of_action : (a : ℕ) → query.action ≡ some a → row.action ≡ a

equals-some : (value : ℕ) (o : Option ℕ) → equals value o ≡ true → o ≡ some value
equals-some value none h = absurd (ground arith)
equals-some value (some v) h = ground arith

module _ {A : Type 0} where
  given_holds :
      (o : Option ℕ) (condition : ℕ → A → Bool) (rest : List (A → Bool)) (row : A) (v : ℕ)
      → conjunction (given o condition rest) row ≡ true
      → o ≡ some v
      → condition v row ≡ true
  given_holds none condition rest row v h e = absurd (ground arith)
  given_holds (some w) condition rest row v h e =
      let same : w ≡ v = ground arith in rw (← same) (ground arith)

  given_rest :
      (o : Option ℕ) (condition : ℕ → A → Bool) (rest : List (A → Bool)) (row : A)
      → conjunction (given o condition rest) row ≡ true
      → conjunction rest row ≡ true
  given_rest none condition rest row h = h
  given_rest (some w) condition rest row h = ground arith

  given_all :
      (o : Option ℕ) (condition : ℕ → A → Bool) (rest : List (A → Bool)) (row : A)
      → ((v : ℕ) → o ≡ some v → condition v row ≡ true)
      → conjunction rest row ≡ true
      → conjunction (given o condition rest) row ≡ true
  given_all none condition rest row h k = k
  given_all (some w) condition rest row h k = let here = h w refl in ground arith

module _ (community : ℕ) (query : HistoryQuery) (row : LogRow) where
  abbrev of_type : List (LogRow → Bool)
  of_type = given query.action (λ a r. r.action == a) []

  abbrev until : List (LogRow → Bool)
  until = given query.to_time (λ t r. leb r.created_at t) of_type

  abbrev since : List (LogRow → Bool)
  since = given query.from_time (λ t r. leb t r.created_at) until

  conditions-IsAsked :
      conjunction (history_conditions community query) row ≡ true → IsAsked community query row
  unfolding history_conditions
  conditions-IsAsked h =
      let after : conjunction since row ≡ true = ground arith in
      let before = given_rest query.from_time _ until row after in
      let last = given_rest query.to_time _ of_type row before in
      record {
        of_community = equals-some community row.community_id (ground arith);
        not_before =
            λ t e. let k = given_holds query.from_time _ until row t after e in ground arith;
        not_after =
            λ t e. let k = given_holds query.to_time _ of_type row t before e in ground arith;
        of_action = λ a e. let k = given_holds query.action _ [] row a last e in ground arith;
      }

  IsAsked-conditions :
      IsAsked community query row → conjunction (history_conditions community query) row ≡ true
  unfolding history_conditions
  IsAsked-conditions asked =
      let of_community = asked.of_community in
      let last =
        given_all query.action (λ a r. r.action == a) [] row
          (λ a e. let k = asked.of_action a e in ground arith) refl in
      let before =
        given_all query.to_time (λ t r. leb r.created_at t) of_type row
          (λ t e. let k = asked.not_after t e in ground arith) last in
      let after =
        given_all query.from_time (λ t r. leb t r.created_at) until row
          (λ t e. let k = asked.not_before t e in ground arith) before in
      rw of_community (ground arith)

-- The rows are all those of the log that the query asks for and no others, as many times as they are
-- there, and the later first.
pub record IsWhole (log : List LogRow) (community : ℕ) (query : HistoryQuery) (rows : List LogRow)
    : Type 0 where
  pub keeps : LogRow → Bool
  pub exact : (row : LogRow) → (keeps row ≡ true) ↔ IsAsked community query row
  pub all_kept : (row : LogRow) → IsIn row (filter keeps log) → IsIn row rows
  pub no_others : (row : LogRow) → IsIn row rows → IsIn row (filter keeps log)
  pub as_many : length rows ≡ length (filter keeps log)
  pub in_order : IsDescending rows

abbrev pub rows_of : {A : Type 0} → ListingAnswer A → List A
rows_of (listed l) = l.data_rows
rows_of _ = []

abbrev pub pages_of : {A : Type 0} → ListingAnswer A → ℕ
pages_of (listed l) = l.meta.pages
pages_of _ = 0

-- Every statement has an order of its own: `order n` is the one of the n-th page.
module _ (order : ℕ → List LogRow → List LogRow) (communities : List Community)
    (log : List LogRow) where
  history_listed :
      (newest_first : List LogRow → List LogRow) (found : Community) (community : ℕ)
      (query : HistoryQuery)
      → live_community community communities ≡ some found
      → (params : PageParams)
      → transaction_history newest_first communities log community query params
        ≡ listed
            (listing (conjunction (history_conditions community query)) newest_first params log)
  unfolding transaction_history
  history_listed newest_first found community query live params = ground arith

  -- Rows of the log that were logged at the same time are not told apart by the order.
  abbrev pub ToldApart : ℕ → HistoryQuery → Type 0
  ToldApart community query =
      IsDistinct (filter (conjunction (history_conditions community query)) log)

  page_as :
      (community : ℕ) (query : HistoryQuery) (m n : ℕ) (params : PageParams)
      → ((k : ℕ) → OrdersByTime (order k))
      → ToldApart community query
      → listing (conjunction (history_conditions community query)) (order m) params log
        ≡ listing (conjunction (history_conditions community query)) (order n) params log
  unfolding listing
  page_as community query m n params by_time apart =
      let rows = filter (conjunction (history_conditions community query)) log in
      rw (orders_agree (order m) (order n) rows (by_time m) (by_time n) apart) refl

  abbrev pub answer : ℕ → HistoryQuery → ℕ → ℕ → ListingAnswer LogRow
  answer community query limit n =
      transaction_history (order n) communities log community query (nth_page limit n)

  -- The pages of a live community's history, as many as each of them says there are, show one
  -- after the other all rows of the log of the community, the times and the action that the
  -- query asks for, no others, and later ones first, where those rows have different times and
  -- the ORDER BY of each statement orders them by it.
  pub transaction_history-IsWhole :
      (found : Community) (community : ℕ) (query : HistoryQuery) (limit page : ℕ)
      → live_community community communities ≡ some found
      → 0 < limit
      → ((k : ℕ) → OrdersByTime (order k))
      → ToldApart community query
      → IsWhole log community query (
          first_pages
            (λ n. rows_of (answer community query limit n))
            (pages_of (answer community query limit page)))
  transaction_history-IsWhole found community query limit page live h by_time apart =
      let keeps = conjunction (history_conditions community query) in
      let shown : (n : ℕ)
          → rows_of (answer community query limit n)
            ≡ (listing keeps (order page) (nth_page limit n) log).data_rows =
        λ n.
          ap rows_of (history_listed (order n) found community query live (nth_page limit n))
          ∙ ap (λ (l : Listing LogRow). l.data_rows)
              (page_as community query n page (nth_page limit n) by_time apart) in
      let counted : pages_of (answer community query limit page)
          ≡ (listing keeps (order page) (nth_page limit page) log).meta.pages =
        ap pages_of
          (history_listed (order page) found community query live (nth_page limit page)) in
      let whole : first_pages (λ n. rows_of (answer community query limit n))
            (pages_of (answer community query limit page))
          ≡ order page (filter keeps log) =
        ap (λ rows. first_pages rows (pages_of (answer community query limit page))) (fun_ext shown)
        ∙ ap (first_pages (λ n. (listing keeps (order page) (nth_page limit n) log).data_rows))
            counted
        ∙ listing_pages keeps (order page) log limit page h (by_time page).as_long in
      subst (IsWhole log community query) (sym whole) (record {
        keeps = keeps;
        exact =
            λ row. (conditions-IsAsked community query row, IsAsked-conditions community query row);
        all_kept = (by_time page).into (filter keeps log);
        no_others = (by_time page).from (filter keeps log);
        as_many = (by_time page).as_long (filter keeps log);
        in_order = (by_time page).descends (filter keeps log) apart;
      })

filter-same :
    {A : Type 0} (p q : A → Bool) (xs : List A) → ((x : A) → p x ≡ q x) → filter p xs ≡ filter q xs
filter-same p q xs h = ap (λ f. filter f xs) (fun_ext h)

-- The number of members in a community's details is the total of its member list.
pub detail_count :
    (communities : List Community) (members : List Member) (log : List LogRow)
    (tokens : List IssuedToken) (id : ℕ) (d : CommunityDetail)
    → community_detail communities members log tokens id ≡ some d
    → d.member_count
      ≡ length (filter (λ m. m.community_id == d.community.id && is_null m.deleted_at) members)
unfolding community_detail
detail_count communities members log tokens id d h =
    elim (Option-cases (live_community id communities)) [
      | inl e ↦ absurd (ground arith)
      | inr (c, e) ↦
          let same : c ≡ d.community = ground arith in
          let count : length (filter (λ m. m.community_id == c.id && is_null m.deleted_at) members)
              ≡ d.member_count =
            ground arith in
          sym count
          ∙ ap
              (λ (k : Community).
                length (filter (λ m. m.community_id == k.id && is_null m.deleted_at) members))
              same
    ]

member_total :
    (in_order : List Member → List Member) (members : List Member) (community : ℕ)
    (params : PageParams) (l : Listing Member)
    → list_members in_order members community none params ≡ listed l
    → l.meta.total ≡ length (filter (conjunction (member_conditions community none)) members)
unfolding list_members listing page_meta
member_total in_order members community params l h = ground arith

no_role_same :
    (community : ℕ) (m : Member)
    → (m.community_id == community && is_null m.deleted_at)
      ≡ conjunction (member_conditions community none) m
unfolding member_conditions
no_role_same community m = ground arith

-- The number of members in a community's details is the total of its member list.
pub community_detail-list_members :
    (in_order : List Member → List Member) (communities : List Community) (members : List Member)
    (log : List LogRow) (tokens : List IssuedToken) (id : ℕ) (params : PageParams)
    (d : CommunityDetail) (l : Listing Member)
    → community_detail communities members log tokens id ≡ some d
    → list_members in_order members d.community.id none params ≡ listed l
    → d.member_count ≡ l.meta.total
community_detail-list_members in_order communities members log tokens id params d l h k =
    detail_count communities members log tokens id d h
    ∙ ap length (filter-same _ _ members (no_role_same d.community.id))
    ∙ sym (member_total in_order members d.community.id params l k)
