-- ===== src/Frontend/Toasts.antt =====
-- frontend/src/hooks/useToast.tsx: the toasts, and the timers that dismiss them. The id `toast-n` is
-- the number n, and a timer goes by the id of its toast.
pub mod Timers
mod Examples
use coop_lumen_index.Base.{
  ℕ, suc, ◌+◌, ◌≤◌, ◌<◌, ◌≡◌, refl, sym, ap, ◌∙◌, Bool, true, false, not, ◌&&◌, Option, none, some,
  List, [], ◌∷◌, ◌++◌, arith, if◌then◌else◌, ◌==◌, ltb, ℤ, pos, ltb_ℤ, any, inl, inr, Bool-cases,
  All, All-append, append-nil,
}

pub data ToastVariant : Type 0 where
  success error info warning : ToastVariant

-- A number of milliseconds: a whole number, Infinity, or NaN.
pub data Duration : Type 0 where
  milliseconds : ℤ → Duration
  infinite not_a_number : Duration

pub record ToastOptions : Type 0 where
  pub duration : Option Duration
  pub dismissible : Option Bool

pub record Toast : Type 0 where
  pub id : ℕ
  pub message : ℕ
  pub variant : ToastVariant
  pub duration : Duration
  pub dismissible : Bool

-- `timers` is what the hook keeps of them, `pending` are those that the browser will run.
pub record Toaster : Type 0 where
  pub toasts : List Toast
  pub id_counter : ℕ
  pub timers : List ℕ
  pub pending : List ℕ

abbrev pub or_default {ℓ} : {A : Type ℓ} → Option A → A → A
or_default none d = d
or_default (some a) d = a

-- `duration > 0 && isFinite(duration)`
abbrev pub is_timed : Duration → Bool
is_timed (milliseconds n) = ltb_ℤ (pos 0) n
is_timed infinite = false
is_timed not_a_number = false

-- The elements but a number: `delete`, `clearTimeout`.
abbrev pub without_id : ℕ → List ℕ → List ℕ
without_id id [] = []
without_id id (t ∷ ts) = let rest = without_id id ts in if t == id then rest else t ∷ rest

-- `prev.filter((t) => t.id !== id)`
abbrev pub without_toast : ℕ → List Toast → List Toast
without_toast id [] = []
without_toast id (t ∷ ts) = let rest = without_toast id ts in if t.id == id then rest else t ∷ rest

abbrev pub has : ℕ → List ℕ → Bool
has id = any λ t. t == id

abbrev pub new_toast : ℕ → ℕ → ToastVariant → ToastOptions → Toast
new_toast id message variant options = record {
  id = id;
  message = message;
  variant = variant;
  duration = or_default options.duration (milliseconds (pos 4000));
  dismissible = or_default options.dismissible true;
}

unfoldable pub create_toast : ℕ → ToastVariant → ToastOptions → Toaster → Toaster
create_toast message variant options s =
    let id = s.id_counter + 1 in
    let toast = new_toast id message variant options in
    let shown : Toaster = record s { toasts = s.toasts ++ toast ∷ []; id_counter = id } in
    if is_timed toast.duration
    then record shown { timers = s.timers ++ id ∷ []; pending = s.pending ++ id ∷ [] }
    else shown

unfoldable pub dismiss_toast : ℕ → Toaster → Toaster
dismiss_toast id s =
    let cleared : Toaster =
      if has id s.timers
      then record s { timers = without_id id s.timers; pending = without_id id s.pending }
      else s in
    record cleared { toasts = without_toast id s.toasts }

-- `clearTimeout` of each timer.
abbrev pub clear_each : List ℕ → List ℕ → List ℕ
clear_each [] pending = pending
clear_each (t ∷ ts) pending = clear_each ts (without_id t pending)

unfoldable pub dismiss_all : Toaster → Toaster
dismiss_all s = record s { toasts = []; timers = []; pending = clear_each s.timers s.pending }

-- The cleanup when the provider is unmounted.
unfoldable pub unmount : Toaster → Toaster
unmount s = record s { pending = clear_each s.timers s.pending }

-- The browser runs a timer that is pending, once.
unfoldable pub fire : ℕ → Toaster → Toaster
unfolding dismiss_toast
fire id s =
    if has id s.pending
    then dismiss_toast id (record s { pending = without_id id s.pending })
    else s

pub data ToastEvent : Type 0 where
  creates : (message : ℕ) (variant : ToastVariant) (options : ToastOptions) → ToastEvent
  dismisses fires : ℕ → ToastEvent
  dismisses_all : ToastEvent

unfoldable pub toast_step : ToastEvent → Toaster → Toaster
unfolding create_toast dismiss_toast dismiss_all fire
toast_step (creates message variant options) s = create_toast message variant options s
toast_step (dismisses id) s = dismiss_toast id s
toast_step (fires id) s = fire id s
toast_step dismisses_all s = dismiss_all s

-- The provider after some events, of which the latest comes first.
unfoldable pub after_toasts : List ToastEvent → Toaster
unfolding toast_step
after_toasts [] = record { toasts = []; id_counter = 0; timers = []; pending = [] }
after_toasts (event ∷ earlier) = toast_step event (after_toasts earlier)
