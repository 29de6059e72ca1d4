-- ===== src/Frontend/Toasts/Examples.antt =====
-- Runs of the toasts.
use coop_lumen_index.Base.{◌≡◌, refl, none, some, List, [], ◌∷◌, pos}
use coop_lumen_index.Frontend.Toasts.{
  ToastEvent, creates, fires, info, error, milliseconds, after_toasts,
}
use coop_lumen_index.Frontend.Toasts.Timers.{IsTimed, after_toasts-IsTimed}

-- A toast with a duration of 0, one with the default, and the timer of the latter.
abbrev shown_toasts : List ToastEvent
shown_toasts =
    creates 11 info (record { duration = none; dismissible = none })
    ∷ creates 12 error (record { duration = some (milliseconds (pos 0)); dismissible = none })
    ∷ []

timer_fired : (after_toasts (fires 2 ∷ shown_toasts)).pending ≡ []
unfolding after_toasts
timer_fired = refl

after_toasts-IsTimed_example : IsTimed (after_toasts (fires 2 ∷ shown_toasts))
after_toasts-IsTimed_example = after_toasts-IsTimed (fires 2 ∷ shown_toasts)
