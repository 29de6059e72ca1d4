-- ===== src/Frontend/Toasts/Timers.antt =====
-- frontend/src/hooks/useToast.tsx: which timers are kept and run.
use coop_lumen_index.Base.{
  ℕ, ◌+◌, ◌≤◌, ◌<◌, ◌≡◌, refl, sym, ap, ◌∙◌, true, false, List, [], ◌∷◌, ◌++◌, arith, if◌then◌else◌,
  ◌==◌, inl, inr, Bool-cases, All, All-append, append-nil,
}
use coop_lumen_index.Frontend.Toasts.{
  Toast, ToastVariant, ToastOptions, Toaster, is_timed, without_id, without_toast, has, new_toast,
  create_toast, dismiss_toast, clear_each, dismiss_all, unmount, fire, ToastEvent, creates,
  dismisses, fires, dismisses_all, toast_step, after_toasts,
}

-- The ids of the toasts that have a duration.
abbrev pub timed_ids : List Toast → List ℕ
timed_ids [] = []
timed_ids (t ∷ ts) = let rest = timed_ids ts in if is_timed t.duration then t.id ∷ rest else rest

-- Ids grow, and none is above the counter.
abbrev pub IsNumbered : ℕ → List Toast → Type 0
IsNumbered counter [] = Unit
IsNumbered counter (t ∷ ts) =
    (t.id ≤ counter) × All (λ later. t.id < later.id) ts × IsNumbered counter ts

pub record IsTimed (s : Toaster) : Type 0 where
  pub numbered : IsNumbered s.id_counter s.toasts
  pub kept : s.timers ≡ timed_ids s.toasts
  pub running : s.pending ≡ timed_ids s.toasts

timed_ids-append :
    (ts : List Toast) (t : Toast) → timed_ids (ts ++ t ∷ []) ≡ timed_ids ts ++ timed_ids (t ∷ [])
timed_ids-append [] t = refl
timed_ids-append (x ∷ ts) t = elim (Bool-cases (is_timed x.duration)) [
  | inl e ↦ simp e (ap (λ ids. x.id ∷ ids) (timed_ids-append ts t))
  | inr e ↦ simp e (timed_ids-append ts t)
]

without_id-timed_ids :
    (id : ℕ) (ts : List Toast) → without_id id (timed_ids ts) ≡ timed_ids (without_toast id ts)
without_id-timed_ids id [] = refl
without_id-timed_ids id (t ∷ ts) = ground (arith, without_id-timed_ids id ts)

-- Without the id, nothing is taken away.
without_id-absent : (id : ℕ) (ids : List ℕ) → has id ids ≡ false → without_id id ids ≡ ids
without_id-absent id [] h = refl
without_id-absent id (t ∷ ts) h = ground (arith, without_id-absent id ts)

without_id-without_id :
    (a b : ℕ) (ids : List ℕ) → without_id a (without_id b ids) ≡ without_id b (without_id a ids)
without_id-without_id a b [] = refl
without_id-without_id a b (t ∷ ts) = ground (arith, without_id-without_id a b ts)

without_twice : (id : ℕ) (ids : List ℕ) → without_id id (without_id id ids) ≡ without_id id ids
without_twice id [] = refl
without_twice id (t ∷ ts) = ground (arith, without_twice id ts)

clear_each-without_id :
    (ts ids : List ℕ) (id : ℕ)
    → clear_each ts (without_id id ids) ≡ without_id id (clear_each ts ids)
clear_each-without_id [] ids id = refl
clear_each-without_id (t ∷ ts) ids id =
    ap (clear_each ts) (without_id-without_id t id ids)
    ∙ clear_each-without_id ts (without_id t ids) id

clear_each_self : (ids : List ℕ) → clear_each ids ids ≡ []
clear_each_self [] = refl
clear_each_self (t ∷ ts) =
    let gone : without_id t (t ∷ ts) ≡ without_id t ts = ground arith in
    ap (clear_each ts) gone ∙ clear_each-without_id ts ts t ∙ ap (without_id t) (clear_each_self ts)

IsNumbered-create :
    (counter : ℕ) (ts : List Toast) (t : Toast)
    → t.id ≡ counter + 1
    → IsNumbered counter ts
    → IsNumbered (counter + 1) (ts ++ t ∷ [])
IsNumbered-create counter [] t e h = (omega arith, tt, tt)
IsNumbered-create counter (x ∷ ts) t e (le, above, rest) = (
  omega arith,
  All-append (λ later. x.id < later.id) ts (t ∷ []) above (omega arith, tt),
  IsNumbered-create counter ts t e rest,
)

All-without_toast {ℓ} :
    (P : Toast → Type ℓ) (id : ℕ) (ts : List Toast) → All P ts → All P (without_toast id ts)
All-without_toast P id [] h = h
All-without_toast P id (t ∷ ts) (here, h) = elim (Bool-cases (t.id == id)) [
  | inl e ↦ rw e (All-without_toast P id ts h)
  | inr e ↦ rw e (here, All-without_toast P id ts h)
]

IsNumbered-dismiss_toast :
    (counter id : ℕ) (ts : List Toast)
    → IsNumbered counter ts
    → IsNumbered counter (without_toast id ts)
IsNumbered-dismiss_toast counter id [] h = h
IsNumbered-dismiss_toast counter id (t ∷ ts) (le, above, rest) = elim (Bool-cases (t.id == id)) [
  | inl e ↦ rw e (IsNumbered-dismiss_toast counter id ts rest)
  | inr e ↦ rw e (le, All-without_toast _ id ts above, IsNumbered-dismiss_toast counter id ts rest)
]

timed_added :
    (ts : List Toast) (t : Toast) (ids : List ℕ)
    → is_timed t.duration ≡ true
    → ids ≡ timed_ids ts
    → ids ++ t.id ∷ [] ≡ timed_ids (ts ++ t ∷ [])
timed_added ts t ids e h = rw timed_ids-append (simp e (ap (λ xs. xs ++ t.id ∷ []) h))

untimed_added :
    (ts : List Toast) (t : Toast) (ids : List ℕ)
    → is_timed t.duration ≡ false
    → ids ≡ timed_ids ts
    → ids ≡ timed_ids (ts ++ t ∷ [])
untimed_added ts t ids e h = rw timed_ids-append (simp (e, append-nil) h)

create_toast-IsTimed :
    (message : ℕ) (variant : ToastVariant) (options : ToastOptions) (s : Toaster)
    → IsTimed s
    → IsTimed (create_toast message variant options s)
unfolding create_toast
create_toast-IsTimed message variant options s h =
    let t = new_toast (s.id_counter + 1) message variant options in
    let numbered = IsNumbered-create s.id_counter s.toasts t refl h.numbered in
    elim (Bool-cases (is_timed t.duration)) [
      | inl e ↦ simp e (record {
        numbered = numbered;
        kept = timed_added s.toasts t s.timers e h.kept;
        running = timed_added s.toasts t s.pending e h.running;
      })
      | inr e ↦ simp e (record {
        numbered = numbered;
        kept = untimed_added s.toasts t s.timers e h.kept;
        running = untimed_added s.toasts t s.pending e h.running;
      })
    ]

-- Timers that are those of the toasts, but perhaps the one of a toast that goes.
still_timed :
    (id : ℕ) (ts : List Toast) (ids : List ℕ)
    → without_id id ids ≡ without_id id (timed_ids ts)
    → without_id id ids ≡ timed_ids (without_toast id ts)
still_timed id ts ids h = h ∙ without_id-timed_ids id ts

dismiss_toast-IsTimed :
    (id : ℕ) (s : Toaster)
    → IsNumbered s.id_counter s.toasts
    → s.timers ≡ timed_ids s.toasts
    → without_id id s.pending ≡ without_id id (timed_ids s.toasts)
    → (has id s.timers ≡ false → s.pending ≡ timed_ids s.toasts)
    → IsTimed (dismiss_toast id s)
unfolding dismiss_toast
dismiss_toast-IsTimed id s numbered kept running idle = elim (Bool-cases (has id s.timers)) [
  | inl e ↦ simp e (record {
    numbered = IsNumbered-dismiss_toast s.id_counter id s.toasts numbered;
    kept = still_timed id s.toasts s.timers (ap (without_id id) kept);
    running = still_timed id s.toasts s.pending running;
  })
  | inr e ↦
      let same = sym (without_id-absent id s.timers e) in
      let timers = still_timed id s.toasts s.timers (ap (without_id id) kept) in
      simp e (record {
        numbered = IsNumbered-dismiss_toast s.id_counter id s.toasts numbered;
        kept = same ∙ timers;
        running = idle e ∙ sym kept ∙ same ∙ timers;
      })
]

fire-IsTimed : (id : ℕ) (s : Toaster) → IsTimed s → IsTimed (fire id s)
unfolding fire
fire-IsTimed id s h = elim (Bool-cases (has id s.pending)) [
  | inr e ↦ simp e h
  | inl e ↦
      let known : has id s.timers ≡ true = ap (has id) (h.kept ∙ sym h.running) ∙ e in
      simp e (
        dismiss_toast-IsTimed id (record s { pending = without_id id s.pending }) h.numbered h.kept
          (without_twice id s.pending ∙ ap (without_id id) h.running) (λ n. absurd (ground arith)))
]

dismiss_all-IsTimed : (s : Toaster) → IsTimed s → IsTimed (dismiss_all s)
unfolding dismiss_all
dismiss_all-IsTimed s h = record {
  numbered = tt;
  kept = refl;
  running = ap (clear_each s.timers) (h.running ∙ sym h.kept) ∙ clear_each_self s.timers;
}

toast_step-IsTimed : (event : ToastEvent) (s : Toaster) → IsTimed s → IsTimed (toast_step event s)
unfolding toast_step
toast_step-IsTimed (creates message variant options) s h =
    create_toast-IsTimed message variant options s h
toast_step-IsTimed (dismisses id) s h =
    dismiss_toast-IsTimed id s h.numbered h.kept (ap (without_id id) h.running) (λ _. h.running)
toast_step-IsTimed (fires id) s h = fire-IsTimed id s h
toast_step-IsTimed dismisses_all s h = dismiss_all-IsTimed s h

-- However toasts come and go: their ids grow, so that no two are the same, and the timers that
-- are kept and those that run are, in order, those of the toasts that are shown and have a
-- duration.
pub after_toasts-IsTimed : (events : List ToastEvent) → IsTimed (after_toasts events)
unfolding after_toasts
after_toasts-IsTimed [] = record { numbered = tt; kept = refl; running = refl }
after_toasts-IsTimed (event ∷ earlier) = toast_step-IsTimed event _ (after_toasts-IsTimed earlier)

-- When the provider is unmounted, no timer is left running.
pub unmount_clears : (events : List ToastEvent) → (unmount (after_toasts events)).pending ≡ []
unfolding unmount
unmount_clears events =
    let h = after_toasts-IsTimed events in
    let s = after_toasts events in
    ap (clear_each s.timers) (h.running ∙ sym h.kept) ∙ clear_each_self s.timers
