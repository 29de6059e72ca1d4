-- ===== src/Communities/Clashes.antt =====
-- Communities that share an id, or a normalized name while neither is deleted.
use mathlib.Core.Path.{subst}
use coop_lumen_index.Base.{
  ℕ, ◌≡◌, refl, inl, inr, Bool, true, false, ◌&&◌, ◌||◌, not, none, some, List, [], ◌∷◌, ◌++◌,
  arith, if◌then◌else◌, ◌==◌, find, any, all, Bool-cases,
}
use coop_lumen_index.Communities.{Community, Texts}
use coop_lumen_index.Communities.Store.{is_null, is_live, update_where}

module _ {A : Type 0} where
  pub find-none : (p : A → Bool) (xs : List A) → find p xs ≡ none → all (λ x. not (p x)) xs ≡ true
  find-none p [] h = refl
  find-none p (x ∷ xs) h = let rest = find-none p xs in ground arith

  pub any-false : (p : A → Bool) (xs : List A) → any p xs ≡ false → all (λ x. not (p x)) xs ≡ true
  any-false p [] h = refl
  any-false p (x ∷ xs) h = let rest = any-false p xs in ground arith

  pub all-find :
      (p q : A → Bool) (xs : List A) (x : A)
      → all p xs ≡ true
      → find q xs ≡ some x
      → (p x ≡ true) × (q x ≡ true)
  all-find p q [] x h e = absurd (ground arith)
  all-find p q (y ∷ ys) x h e = elim (Bool-cases (q y)) [
    | inl t ↦ let same : y ≡ x = ground arith in ground arith
    | inr f ↦ let rest = all-find p q ys x (ground arith) (ground arith) in ground arith
  ]

  pub all-map :
      (p q : A → Bool)
      → ((x : A) → p x ≡ true → q x ≡ true)
      → (xs : List A) → all p xs ≡ true
      → all q xs ≡ true
  all-map p q f [] h = refl
  all-map p q f (x ∷ xs) h =
      let head = f x (ground arith) in let rest = all-map p q f xs (ground arith) in ground arith

  pub all-both :
      (p q : A → Bool) (xs : List A)
      → all p xs ≡ true
      → all q xs ≡ true
      → all (λ x. p x && q x) xs ≡ true
  all-both p q [] h k = refl
  all-both p q (x ∷ xs) h k = let rest = all-both p q xs in ground arith

  pub all-update :
      (p q : A → Bool) (f : A → A)
      → ((x : A) → q x ≡ true → q (f x) ≡ true)
      → (xs : List A) → all q xs ≡ true
      → all q (update_where p f xs) ≡ true
  all-update p q f k [] h = refl
  all-update p q f k (x ∷ xs) h =
      let head = k x (ground arith) in let rest = all-update p q f k xs in ground arith

  pub all-snoc :
      (p : A → Bool) (xs : List A) (x : A)
      → all p xs ≡ true
      → p x ≡ true
      → all p (xs ++ x ∷ []) ≡ true
  all-snoc p [] x h k = ground arith
  all-snoc p (y ∷ ys) x h k = let rest = all-snoc p ys x in ground arith

module _ (T : Texts) where
  open T use {lower_btrim, trim_lower}

  abbrev pub same_name : Community → Community → Bool
  same_name c d =
      (lower_btrim c.name == lower_btrim d.name) && is_null c.deleted_at && is_null d.deleted_at

  abbrev pub clash : Community → Community → Bool
  clash c d = (c.id == d.id) || same_name c d

  unfoldable pub IsDistinct : List Community → Type 0
  IsDistinct [] = Unit
  IsDistinct (c ∷ cs) = (all (λ d. not (clash c d)) cs ≡ true) × IsDistinct cs

  pub clash_sym : (c d : Community) → clash c d ≡ false → clash d c ≡ false
  clash_sym c d h = ground arith

  pub IsDistinct-snoc :
      (c : Community) (cs : List Community)
      → IsDistinct cs
      → all (λ d. not (clash c d)) cs ≡ true
      → IsDistinct (cs ++ c ∷ [])
  unfolding IsDistinct
  IsDistinct-snoc c [] h k = (refl, tt)
  IsDistinct-snoc c (d ∷ cs) h k =
      let turned = clash_sym c d (ground arith) in
      (
        all-snoc (λ x. not (clash d x)) cs c h.0 (ground arith),
        IsDistinct-snoc c cs h.1 (ground arith),
      )

  module _ (p Q : Community → Bool) (f : Community → Community)
      (keeps : (c d : Community)
        → Q c ≡ true
        → Q d ≡ true
        → clash c d ≡ false
        → clash (if p c then f c else c) (if p d then f d else d) ≡ false) where
    no_clash_after :
        (c : Community) (cs : List Community)
        → Q c ≡ true
        → all Q cs ≡ true
        → all (λ d. not (clash c d)) cs ≡ true
        → all (λ d. not (clash (if p c then f c else c) d)) (update_where p f cs) ≡ true
    no_clash_after c [] q qs h = refl
    no_clash_after c (d ∷ cs) q qs h =
        let step = keeps c d q (ground arith) (ground arith) in
        let rest = no_clash_after c cs q (ground arith) (ground arith) in ground arith

    pub IsDistinct-update :
        (cs : List Community) → IsDistinct cs → all Q cs ≡ true → IsDistinct (update_where p f cs)
    unfolding IsDistinct
    IsDistinct-update [] h qs = tt
    IsDistinct-update (c ∷ cs) h qs = (
      no_clash_after c cs (ground arith) (ground arith) h.0,
      IsDistinct-update cs h.1 (ground arith),
    )

  pub live-alone :
      (id : ℕ) (cs : List Community) (c : Community)
      → IsDistinct cs
      → find (is_live id) cs ≡ some c
      → all (λ d. (d.id == id) || not (clash c d)) cs ≡ true
  unfolding IsDistinct
  live-alone id [] c h e = refl
  live-alone id (x ∷ cs) c h e = elim (Bool-cases (is_live id x)) [
    | inl t ↦
        let same : x ≡ c = ground arith in
        let rest =
          all-map (λ d. not (clash x d)) (λ d. (d.id == id) || not (clash x d))
            (λ d k. ground arith) cs h.0 in
        subst (λ y. all (λ d. (d.id == id) || not (clash y d)) (x ∷ cs) ≡ true) same (ground arith)
    | inr f ↦
        let found : find (is_live id) cs ≡ some c = ground arith in
        let rest = live-alone id cs c h.1 found in
        let head = all-find (λ d. not (clash x d)) (is_live id) cs c h.0 found in
        let turned = clash_sym x c in ground arith
  ]
