-- ===== src/Frontend/Select.antt =====
-- frontend/src/components/ui/Select.tsx: the state of a dropdown and the handlers of its events. A
-- value is a number, a label or a query the list of its characters; an index of -1 is none.
pub mod Walks
pub mod Sound
mod Examples
use coop_lumen_index.Base.{
  ℕ, zero, suc, ◌+◌, ◌-◌, ◌%◌, Bool, true, false, not, ◌&&◌, Option, none, some, List, [], ◌∷◌,
  ◌++◌, map, length, find, if◌then◌else◌, ◌==◌, ltb,
}

-- TYPEAHEAD_RESET_MS
abbrev pub typeahead_reset_ms : ℕ
typeahead_reset_ms = 500

pub record SelectOption : Type 0 where
  pub value : ℕ
  pub label : List ℕ
  pub disabled : Bool

-- The properties that the handlers read; `value` is none if the component owns its selection.
pub record SelectProps : Type 0 where
  pub options : List SelectOption
  pub value : Option ℕ
  pub default_value : ℕ
  pub disabled : Bool

-- `reported` are the values that onChange was called with, the latest first.
pub record SelectState : Type 0 where
  pub open_list : Bool
  pub active_index : Option ℕ
  pub uncontrolled_value : ℕ
  pub query : List ℕ
  pub typed_at : ℕ
  pub reported : List ℕ

unfoldable pub initial : SelectProps → SelectState
initial p = record {
  open_list = false;
  active_index = none;
  uncontrolled_value = p.default_value;
  query = [];
  typed_at = 0;
  reported = [];
}

-- `options[i]`
abbrev pub option_at : List SelectOption → ℕ → Option SelectOption
option_at [] i = none
option_at (o ∷ os) zero = some o
option_at (o ∷ os) (suc i) = option_at os i

abbrev pub is_enabled : Option SelectOption → Bool
is_enabled none = false
is_enabled (some o) = not o.disabled

unfoldable pub enabled_at : List SelectOption → ℕ → Bool
enabled_at options i = is_enabled (option_at options i)

-- The direction of a walk: a step of 1, or of -1.
pub data WalkDirection : Type 0 where
  down up : WalkDirection

-- The loop of `findEnabled` that counts up, of the rounds that may be left; past the end of the
-- options no index is enabled.
unfoldable pub walk_down : ℕ → List SelectOption → ℕ → Option ℕ
walk_down zero options i = none
walk_down (suc rounds) options i =
    let later = walk_down rounds options (i + 1) in if enabled_at options i then some i else later

-- The loop of `findEnabled` that counts down.
unfoldable pub walk_up : List SelectOption → ℕ → Option ℕ
walk_up options zero = if enabled_at options 0 then some 0 else none
walk_up options (suc i) =
    let earlier = walk_up options i in if enabled_at options (suc i) then some (suc i) else earlier

unfoldable pub find_enabled : List SelectOption → Option ℕ → WalkDirection → Option ℕ
unfolding walk_down walk_up
find_enabled options none direction = none
find_enabled options (some from) down = walk_down (length options) options from
find_enabled options (some from) up =
    if ltb from (length options) then walk_up options from else none

-- `value ?? uncontrolledValue`
abbrev pub selected_value : SelectProps → SelectState → ℕ
selected_value p s = elim p.value [ none ↦ s.uncontrolled_value | some v ↦ v ]

-- `options.findIndex((option) => option.value === selectedValue)`, from an index on.
abbrev pub index_of_value : ℕ → List SelectOption → ℕ → Option ℕ
index_of_value v [] i = none
index_of_value v (o ∷ os) i =
    let later = index_of_value v os (i + 1) in if o.value == v then some i else later

unfoldable pub selected_index : SelectProps → SelectState → Option ℕ
selected_index p s = index_of_value (selected_value p s) p.options 0

unfoldable pub close_list : SelectState → SelectState
close_list s = record s { open_list = false; active_index = none }

abbrev pub start_index : SelectProps → Option ℕ → Option ℕ
start_index p none = find_enabled p.options (some 0) down
start_index p (some i) =
    if enabled_at p.options i then some i else find_enabled p.options (some 0) down

-- `openList`
unfoldable pub show_list : SelectProps → SelectState → SelectState
unfolding selected_index enabled_at find_enabled
show_list p s =
    if p.disabled
    then s
    else record s { open_list = true; active_index = start_index p (selected_index p s) }

abbrev pub owned : Option ℕ → ℕ → ℕ → ℕ
owned none old new = new
owned (some _) old new = old

-- `commit`, of `options[index]`.
abbrev pub commit_option : SelectProps → Option SelectOption → SelectState → SelectState
commit_option p none s = s
commit_option p (some o) s =
    if o.disabled
    then s
    else close_list (record s {
      uncontrolled_value = owned p.value s.uncontrolled_value o.value;
      reported = o.value ∷ s.reported;
    })

unfoldable pub commit_index : SelectProps → Option ℕ → SelectState → SelectState
unfolding close_list
commit_index p none s = s
commit_index p (some i) s = commit_option p (option_at p.options i) s

-- `from` of `moveActive`
abbrev pub from_index : List SelectOption → Option ℕ → WalkDirection → Option ℕ
from_index options none down = some 0
from_index options none up = if length options == 0 then none else some (length options - 1)
from_index options (some i) down = some (i + 1)
from_index options (some zero) up = none
from_index options (some (suc i)) up = some i

abbrev pub or_keep : Option ℕ → Option ℕ → Option ℕ
or_keep old none = old
or_keep old (some i) = some i

unfoldable pub move_active : SelectProps → WalkDirection → SelectState → SelectState
unfolding find_enabled
move_active p direction s = record s {
  active_index =
      or_keep s.active_index
        (find_enabled p.options (from_index p.options s.active_index direction) direction);
}

-- The keys and the pointer: what a key types, if no modifier is held, comes with its time. The
-- options are hidden while the list is closed, so that the pointer does not meet them.
pub data SelectEvent : Type 0 where
  arrow_down arrow_up home_key end_key enter_key escape_key tab_key other_key : SelectEvent
  typed : (char now : ℕ) → SelectEvent
  trigger_click press_outside : SelectEvent
  hover option_click : ℕ → SelectEvent

-- `label.startsWith(query)`
abbrev pub starts_with : List ℕ → List ℕ → Bool
starts_with [] cs = true
starts_with (q ∷ qs) [] = false
starts_with (q ∷ qs) (c ∷ cs) = q == c && starts_with qs cs

-- The indices below a number, in order, from one on.
abbrev pub indices : ℕ → ℕ → List ℕ
indices zero i = []
indices (suc n) i = i ∷ indices n (i + 1)

abbrev pub index_after : Option ℕ → ℕ
index_after none = 0
index_after (some i) = i + 1

-- `order` of `jumpToTyped`, where `from` is none for -1.
unfoldable pub search_order : ℕ → Option ℕ → List ℕ
search_order n from = map (λ i. (index_after from + i + n) % n) (indices n 0)

-- `toLowerCase` is a parameter.
module _ (lower : List ℕ → List ℕ) where
  -- The test of `order.find`.
  unfoldable pub is_match : List SelectOption → List ℕ → ℕ → Bool
  is_match options query i = elim (option_at options i) [
    | none ↦ false
    | some o ↦ not o.disabled && starts_with (lower query) (lower o.label)
  ]

  abbrev pub next_query : SelectState → ℕ → ℕ → List ℕ
  next_query s char now =
      if ltb typeahead_reset_ms (now - s.typed_at) then char ∷ [] else s.query ++ char ∷ []

  abbrev pub or_selected : Option ℕ → Option ℕ → Option ℕ
  or_selected none selected = selected
  or_selected (some i) selected = some i

  -- What `jumpToTyped` does with the match.
  abbrev pub jumped : SelectProps → Option ℕ → SelectState → SelectState
  jumped p none s = s
  jumped p (some i) s =
      if s.open_list then record s { active_index = some i } else commit_index p (some i) s

  unfoldable pub jump_to_typed : SelectProps → ℕ → ℕ → SelectState → SelectState
  unfolding is_match search_order selected_index commit_index
  jump_to_typed p char now s =
      let query = next_query s char now in
      let from = or_selected s.active_index (selected_index p s) in
      let match = find (is_match p.options query) (search_order (length p.options) from) in
      jumped p match (record s { query = query; typed_at = now })

  abbrev pub last_index : List SelectOption → Option ℕ
  last_index [] = none
  last_index (o ∷ os) = some (length os)

  -- The handler of a key, where `open_list` tells what most keys do.
  unfoldable pub handle_key : SelectProps → SelectEvent → SelectState → SelectState
  unfolding jump_to_typed move_active show_list commit_index close_list find_enabled
  handle_key p arrow_down s = if s.open_list then move_active p down s else show_list p s
  handle_key p arrow_up s = if s.open_list then move_active p up s else show_list p s
  handle_key p home_key s =
      if s.open_list then record s { active_index = find_enabled p.options (some 0) down } else s
  handle_key p end_key s =
      if s.open_list
      then record s { active_index = find_enabled p.options (last_index p.options) up }
      else s
  handle_key p enter_key s = if s.open_list then commit_index p s.active_index s else show_list p s
  handle_key p escape_key s = if s.open_list then close_list s else s
  handle_key p tab_key s = if s.open_list then close_list s else s
  handle_key p (typed char now) s = jump_to_typed p char now s
  handle_key p _ s = s

  abbrev pub hovered : SelectProps → ℕ → SelectState → SelectState
  hovered p i s =
      if s.open_list && enabled_at p.options i then record s { active_index = some i } else s

  unfoldable pub handle : SelectProps → SelectEvent → SelectState → SelectState
  unfolding handle_key show_list close_list commit_index enabled_at
  handle p trigger_click s =
      if p.disabled then s else if s.open_list then close_list s else show_list p s
  handle p press_outside s = if s.open_list then close_list s else s
  handle p (hover i) s = hovered p i s
  handle p (option_click i) s = if s.open_list then commit_index p (some i) s else s
  handle p event s = if p.disabled then s else handle_key p event s

  -- The state after some events, of which the latest comes first, each with the properties that the
  -- dropdown was rendered with when it happened; `first` are those of the first render.
  unfoldable pub after_events : SelectProps → List (SelectProps × SelectEvent) → SelectState
  unfolding initial handle
  after_events first [] = initial first
  after_events first ((p, event) ∷ earlier) = handle p event (after_events first earlier)
