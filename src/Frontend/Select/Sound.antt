-- ===== src/Frontend/Select/Sound.antt =====
-- frontend/src/components/ui/Select.tsx: what holds however the keys and the pointer are used.
use coop_lumen_index.Base.{
  ℕ, ◌≡◌, refl, ◌⊎◌, inl, inr, Bool, true, false, ◌&&◌, Option, none, some, List, [], ◌∷◌, length,
  find, find_holds, arith, if◌then◌else◌, Bool-cases, Option-cases, All,
}
use coop_lumen_index.Frontend.Select.{
  SelectOption, SelectProps, SelectState, SelectEvent, option_at, enabled_at, find_enabled,
  WalkDirection, down, up, close_list, show_list, commit_index, move_active, is_match, initial,
  jump_to_typed, handle_key, handle, after_events, selected_index, start_index, from_index,
  search_order, last_index, arrow_down, arrow_up, home_key, end_key, enter_key, escape_key, tab_key,
  other_key, typed, trigger_click, press_outside, hover, option_click, next_query, or_selected,
  owned, commit_option, jumped,
}
use coop_lumen_index.Frontend.Select.Walks.{find_enabled-enabled}

-- The active option, if there is one, can be chosen.
abbrev pub IsActive : List SelectOption → Option ℕ → Type 0
IsActive options none = Unit
IsActive options (some i) = enabled_at options i ≡ true

-- The value is that of an option that can be chosen.
abbrev pub IsOffered : List SelectOption → ℕ → Type 0
IsOffered options v =
    (i : ℕ) × (o : SelectOption) × (option_at options i ≡ some o)
    × (o.disabled ≡ false)
    × (o.value ≡ v)

-- The value that was reported last, or the default.
abbrev pub latest : ℕ → List ℕ → ℕ
latest default [] = default
latest default (v ∷ earlier) = v

-- What the component owns: the value that was reported last, unless its parent holds the value.
abbrev pub owned_value : Option ℕ → ℕ → List ℕ → ℕ
owned_value none default reported = latest default reported
owned_value (some v) default reported = default

-- What holds of a state, where `Offered` is what holds of every reported value, and `fixed` that the
-- properties have always been these.
pub record IsSound (fixed : Type 0) (Offered : ℕ → Type 0) (p : SelectProps) (s : SelectState)
    : Type 0 where
  pub active : fixed → IsActive p.options s.active_index
  pub closed : s.open_list ≡ false → s.active_index ≡ none
  pub usable : fixed → p.disabled ≡ true → s.open_list ≡ false
  pub offered : All Offered s.reported
  pub owns : fixed → s.uncontrolled_value ≡ owned_value p.value p.default_value s.reported

found-IsActive :
    (options : List SelectOption) (from : Option ℕ) (direction : WalkDirection)
    → IsActive options (find_enabled options from direction)
found-IsActive options from direction = elim (Option-cases (find_enabled options from direction)) [
  | inl e ↦ rw e tt
  | inr (i, e) ↦ rw e (find_enabled-enabled options from direction i e)
]

owned_next :
    (value : Option ℕ) (default old v : ℕ) (reported : List ℕ)
    → old ≡ owned_value value default reported
    → owned value old v ≡ owned_value value default (v ∷ reported)
owned_next none default old v reported h = refl
owned_next (some held) default old v reported h = h

initially : (value : Option ℕ) (default : ℕ) → default ≡ owned_value value default []
initially none default = refl
initially (some held) default = refl

module _ (fixed : Type 0) (Offered : ℕ → Type 0) (p : SelectProps)
    (offers : (v : ℕ) → IsOffered p.options v → Offered v) where
  branch :
      (b : Bool) (x y : SelectState)
      → (b ≡ true → IsSound fixed Offered p x)
      → (b ≡ false → IsSound fixed Offered p y)
      → IsSound fixed Offered p (if b then x else y)
  branch true x y h k = h refl
  branch false x y h k = k refl

  start-IsActive : (selected : Option ℕ) → IsActive p.options (start_index p selected)
  start-IsActive none = found-IsActive p.options (some 0) down
  start-IsActive (some i) = elim (Bool-cases (enabled_at p.options i)) [
    | inl e ↦ rw e e
    | inr e ↦ rw e (found-IsActive p.options (some 0) down)
  ]

  -- A state that differs in what is active.
  activate :
      (s : SelectState) (i : Option ℕ)
      → IsActive p.options i
      → s.open_list ≡ true
      → IsSound fixed Offered p s
      → IsSound fixed Offered p (record s { active_index = i })
  activate s i a o h = record {
    active = λ _. a;
    closed = λ c. absurd (ground arith);
    usable = h.usable;
    offered = h.offered;
    owns = h.owns;
  }

  close_list-IsSound :
      (s : SelectState) → IsSound fixed Offered p s → IsSound fixed Offered p (close_list s)
  unfolding close_list
  close_list-IsSound s h = record {
    active = λ _. tt;
    closed = λ _. refl;
    usable = λ _ _. refl;
    offered = h.offered;
    owns = h.owns;
  }

  show_list-IsSound :
      (s : SelectState) → IsSound fixed Offered p s → IsSound fixed Offered p (show_list p s)
  unfolding show_list
  show_list-IsSound s h = elim (Bool-cases p.disabled) [
    | inl e ↦ simp e h
    | inr e ↦ simp e (record {
      active = λ _. start-IsActive (selected_index p s);
      closed = λ c. absurd (ground arith);
      usable = λ _ d. absurd (ground arith);
      offered = h.offered;
      owns = h.owns;
    })
  ]

  commit_option-IsSound :
      (s : SelectState) (i : ℕ) (o : SelectOption)
      → option_at p.options i ≡ some o
      → IsSound fixed Offered p s
      → IsSound fixed Offered p (commit_option p (some o) s)
  unfolding close_list
  commit_option-IsSound s i o at h = elim (Bool-cases o.disabled) [
    | inl e ↦ simp e h
    | inr e ↦ simp e (record {
      active = λ _. tt;
      closed = λ _. refl;
      usable = λ _ _. refl;
      offered = (offers o.value (i, o, at, e, refl), h.offered);
      owns = λ k.
          owned_next p.value p.default_value s.uncontrolled_value o.value s.reported (h.owns k);
    })
  ]

  commit_index-IsSound :
      (s : SelectState) (i : Option ℕ)
      → IsSound fixed Offered p s
      → IsSound fixed Offered p (commit_index p i s)
  unfolding commit_index
  commit_index-IsSound s none h = h
  commit_index-IsSound s (some i) h = elim (Option-cases (option_at p.options i)) [
    | inl e ↦ simp e h
    | inr (o, e) ↦ simp e (commit_option-IsSound s i o e h)
  ]

  move_active-IsSound :
      (s : SelectState) (direction : WalkDirection)
      → s.open_list ≡ true
      → IsSound fixed Offered p s
      → IsSound fixed Offered p (move_active p direction s)
  unfolding move_active
  move_active-IsSound s direction o h =
      let from = from_index p.options s.active_index direction in
      elim (Option-cases (find_enabled p.options from direction)) [
        | inl e ↦ simp e h
        | inr (i, e) ↦
            simp e (activate s (some i) (find_enabled-enabled p.options from direction i e) o h)
      ]

  is_match-enabled :
      (lower : List ℕ → List ℕ) (query : List ℕ) (i : ℕ)
      → is_match lower p.options query i ≡ true
      → enabled_at p.options i ≡ true
  unfolding is_match enabled_at
  is_match-enabled lower query i h = ground arith

  typing-IsSound :
      (s : SelectState) (query : List ℕ) (now : ℕ)
      → IsSound fixed Offered p s
      → IsSound fixed Offered p (record s { query = query; typed_at = now })
  typing-IsSound s query now h = record {
    active = h.active;
    closed = h.closed;
    usable = h.usable;
    offered = h.offered;
    owns = h.owns;
  }

  jumped-IsSound :
      (lower : List ℕ → List ℕ) (s : SelectState) (i : ℕ)
      → enabled_at p.options i ≡ true
      → IsSound fixed Offered p s
      → IsSound fixed Offered p (jumped lower p (some i) s)
  jumped-IsSound lower s i e h =
      branch s.open_list _ _ (λ o. activate s (some i) e o h)
        (λ o. commit_index-IsSound s (some i) h)

  jump_to_typed-IsSound :
      (lower : List ℕ → List ℕ) (s : SelectState) (char now : ℕ)
      → IsSound fixed Offered p s
      → IsSound fixed Offered p (jump_to_typed lower p char now s)
  unfolding jump_to_typed
  jump_to_typed-IsSound lower s char now h =
      let query = next_query lower s char now in
      let order =
        search_order (length p.options) (or_selected lower s.active_index (selected_index p s)) in
      let after : SelectState = record s { query = query; typed_at = now } in
      elim (Option-cases (find (is_match lower p.options query) order)) [
        | inl e ↦ simp e (typing-IsSound s query now h)
        | inr (i, e) ↦ simp e (
            jumped-IsSound lower after i (is_match-enabled lower query i (find_holds _ order i e))
              (typing-IsSound s query now h))
      ]

  walked-IsSound :
      (s : SelectState) (from : Option ℕ) (direction : WalkDirection)
      → s.open_list ≡ true
      → IsSound fixed Offered p s
      → IsSound fixed Offered p (record s { active_index = find_enabled p.options from direction })
  walked-IsSound s from direction o h = activate s _ (found-IsActive p.options from direction) o h

  closing-IsSound :
      (s : SelectState)
      → IsSound fixed Offered p s
      → IsSound fixed Offered p (if s.open_list then close_list s else s)
  closing-IsSound s h = branch s.open_list _ _ (λ _. close_list-IsSound s h) (λ _. h)

  module _ (lower : List ℕ → List ℕ) where
    handle_key-IsSound :
        (event : SelectEvent) (s : SelectState)
        → IsSound fixed Offered p s
        → IsSound fixed Offered p (handle_key lower p event s)
    unfolding handle_key
    handle_key-IsSound arrow_down s h =
        branch s.open_list _ _ (λ o. move_active-IsSound s down o h) (λ _. show_list-IsSound s h)
    handle_key-IsSound arrow_up s h =
        branch s.open_list _ _ (λ o. move_active-IsSound s up o h) (λ _. show_list-IsSound s h)
    handle_key-IsSound home_key s h =
        branch s.open_list _ _ (λ o. walked-IsSound s (some 0) down o h) (λ _. h)
    handle_key-IsSound end_key s h =
        branch s.open_list _ _ (λ o. walked-IsSound s (last_index lower p.options) up o h) (λ _. h)
    handle_key-IsSound enter_key s h =
        branch s.open_list _ _ (λ _. commit_index-IsSound s s.active_index h)
          (λ _. show_list-IsSound s h)
    handle_key-IsSound escape_key s h = closing-IsSound s h
    handle_key-IsSound tab_key s h = closing-IsSound s h
    handle_key-IsSound other_key s h = h
    handle_key-IsSound (typed char now) s h = jump_to_typed-IsSound lower s char now h
    handle_key-IsSound trigger_click s h = h
    handle_key-IsSound press_outside s h = h
    handle_key-IsSound (hover i) s h = h
    handle_key-IsSound (option_click i) s h = h

    key-IsSound :
        (event : SelectEvent) (s : SelectState)
        → IsSound fixed Offered p s
        → IsSound fixed Offered p (if p.disabled then s else handle_key lower p event s)
    key-IsSound event s h = branch p.disabled _ _ (λ _. h) (λ _. handle_key-IsSound event s h)

    handle-IsSound :
        (event : SelectEvent) (s : SelectState)
        → IsSound fixed Offered p s
        → IsSound fixed Offered p (handle lower p event s)
    unfolding handle
    handle-IsSound trigger_click s h =
        branch p.disabled _ _ (λ _. h)
          (λ _. branch s.open_list _ _ (λ _. close_list-IsSound s h) (λ _. show_list-IsSound s h))
    handle-IsSound press_outside s h = closing-IsSound s h
    handle-IsSound (hover i) s h = elim (Bool-cases s.open_list) [
      | inl o ↦
          branch (s.open_list && enabled_at p.options i) _ _
            (λ e. activate s (some i) (ground arith) o h) (λ _. h)
      | inr o ↦
          branch (s.open_list && enabled_at p.options i) _ _ (λ e. absurd (ground arith)) (λ _. h)
    ]
    handle-IsSound (option_click i) s h =
        branch s.open_list _ _ (λ _. commit_index-IsSound s (some i) h) (λ _. h)
    handle-IsSound (typed char now) s h = key-IsSound (typed char now) s h
    handle-IsSound arrow_down s h = key-IsSound arrow_down s h
    handle-IsSound arrow_up s h = key-IsSound arrow_up s h
    handle-IsSound home_key s h = key-IsSound home_key s h
    handle-IsSound end_key s h = key-IsSound end_key s h
    handle-IsSound enter_key s h = key-IsSound enter_key s h
    handle-IsSound escape_key s h = key-IsSound escape_key s h
    handle-IsSound tab_key s h = key-IsSound tab_key s h
    handle-IsSound other_key s h = key-IsSound other_key s h

-- A value was offered by one of the renders.
abbrev pub OfferedIn : List (SelectProps × SelectEvent) → ℕ → Type 0
OfferedIn [] v = ⊥
OfferedIn ((p, event) ∷ earlier) v = IsOffered p.options v ⊎ OfferedIn earlier v

-- The properties were the same at every event.
abbrev pub NeverChanges : SelectProps → List (SelectProps × SelectEvent) → Type 0
NeverChanges first = All λ e. e.0 ≡ first

All-weaken : {P Q : ℕ → Type 0} (xs : List ℕ) → ((x : ℕ) → P x → Q x) → All P xs → All Q xs
All-weaken [] f h = tt
All-weaken (x ∷ xs) f (here, h) = (f x here, All-weaken xs f h)

reoffered :
    (p q : SelectProps) (Offered More : ℕ → Type 0) (s : SelectState)
    → ((v : ℕ) → Offered v → More v)
    → IsSound ⊥ Offered p s
    → IsSound ⊥ More q s
reoffered p q Offered More s f h = record {
  active = λ k. absurd k;
  closed = h.closed;
  usable = λ k. absurd k;
  offered = All-weaken s.reported f h.offered;
  owns = λ k. absurd k;
}

initial-IsSound :
    (fixed : Type 0) (Offered : ℕ → Type 0) (p : SelectProps) → IsSound fixed Offered p (initial p)
unfolding initial
initial-IsSound fixed Offered p = record {
  active = λ _. tt;
  closed = λ _. refl;
  usable = λ _ _. refl;
  offered = tt;
  owns = λ _. initially p.value p.default_value;
}

module _ (lower : List ℕ → List ℕ) (first : SelectProps) where
  -- The properties at the latest event.
  abbrev pub latest_props : List (SelectProps × SelectEvent) → SelectProps
  latest_props [] = first
  latest_props ((p, event) ∷ earlier) = p

  rendered-IsSound :
      (events : List (SelectProps × SelectEvent))
      → IsSound ⊥ (OfferedIn events) (latest_props events) (after_events lower first events)
  unfolding after_events
  rendered-IsSound [] = initial-IsSound ⊥ (OfferedIn []) first
  rendered-IsSound ((p, event) ∷ earlier) =
      handle-IsSound ⊥ (OfferedIn ((p, event) ∷ earlier)) p (λ v o. inl o) lower event _
        (reoffered (latest_props earlier) p (OfferedIn earlier) (OfferedIn ((p, event) ∷ earlier)) _
          (λ v o. inr o) (rendered-IsSound earlier))

  -- However the keys and the pointer are used, and whatever the properties are at each event: no
  -- option is active while the list is closed, and every value that was reported is that of an
  -- option that could be chosen at one of the events.
  pub after_events-IsOffered :
      (events : List (SelectProps × SelectEvent))
      → ((after_events lower first events).open_list ≡ false
          → (after_events lower first events).active_index ≡ none)
        × All (OfferedIn events) (after_events lower first events).reported
  after_events-IsOffered events = let h = rendered-IsSound events in (h.closed, h.offered)

  -- However the keys and the pointer are used, while the properties of the dropdown never
  -- change: an active option can be chosen, there is none while the list is closed, and a
  -- disabled dropdown is never open. Every value that was reported is that of an option that can
  -- be chosen, and a dropdown that owns its value has the one that was reported last, or else
  -- its default.
  pub after_events-IsSound :
      (events : List (SelectProps × SelectEvent))
      → NeverChanges first events
      → IsSound (Unit {0}) (IsOffered first.options) first (after_events lower first events)
  unfolding after_events
  after_events-IsSound [] same = initial-IsSound (Unit {0}) (IsOffered first.options) first
  after_events-IsSound ((p, event) ∷ earlier) (here, same) = rw here (
      handle-IsSound (Unit {0}) (IsOffered first.options) first (λ v o. o) lower event _
        (after_events-IsSound earlier same))
