-- ===== src/Frontend/Select/Examples.antt =====
-- Runs of the dropdown.
use coop_lumen_index.Base.{ℕ, ◌≡◌, refl, Bool, true, false, none, List, [], ◌∷◌, All}
use coop_lumen_index.Frontend.Select.{
  SelectOption, SelectProps, after_events, arrow_down, enter_key, escape_key, typed, SelectEvent,
  option_click,
}
use coop_lumen_index.Frontend.Select.Sound.{
  IsSound, IsOffered, OfferedIn, after_events-IsOffered, after_events-IsSound,
}

abbrev choice : ℕ → ℕ → Bool → SelectOption
choice value letter disabled = record {
  value = value;
  label = letter ∷ b'e' ∷ [];
  disabled = disabled;
}

abbrev roles : SelectProps
roles = record {
  options = choice 1 b'm' false ∷ choice 2 b'a' true ∷ choice 3 b'm' false ∷ [];
  value = none;
  default_value = 0;
  disabled = false;
}

abbrev same_case : List ℕ → List ℕ
same_case cs = cs

-- The same roles, shown by a dropdown that is switched off.
abbrev switched_off : SelectProps
switched_off = record roles { disabled = true }

-- Opened, moved down past the disabled option, and chosen; the latest event comes first.
abbrev picking : List (SelectProps × SelectEvent)
picking = (roles, enter_key) ∷ (roles, arrow_down) ∷ (roles, arrow_down) ∷ []

picked_third : (after_events same_case roles picking).reported ≡ 3 ∷ []
unfolding after_events
picked_third = refl

-- The second letter of a word leaves an option that it still fits for the next that it fits.
typed_on :
    (after_events same_case roles (
      (roles, typed b'e' 1100)
      ∷ (roles, typed b'm' 1000)
      ∷ (roles, escape_key)
      ∷ [])).uncontrolled_value
    ≡ 3
unfolding after_events
typed_on = refl

-- A list that is open when the dropdown is switched off stays open, and an option is chosen.
picked_while_off :
    (after_events same_case roles
      ((switched_off, option_click 2) ∷ (roles, arrow_down) ∷ [])).reported
    ≡ 3 ∷ []
unfolding after_events
picked_while_off = refl

after_events-IsOffered_example :
    ((after_events same_case roles picking).open_list ≡ false
      → (after_events same_case roles picking).active_index ≡ none)
    × All (OfferedIn picking) (after_events same_case roles picking).reported
after_events-IsOffered_example = after_events-IsOffered same_case roles picking

after_events-IsSound_example :
    IsSound (Unit {0}) (IsOffered roles.options) roles (after_events same_case roles picking)
after_events-IsSound_example =
    after_events-IsSound same_case roles picking (refl, (refl, (refl, tt)))
