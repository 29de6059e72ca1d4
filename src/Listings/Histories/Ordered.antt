-- ===== src/Listings/Histories/Ordered.antt =====
-- ORDER BY created_at DESC of the routes' listings: rows with different times have one such order.
use coop_lumen_index.Base.{
  ℕ, ◌<◌, ◌≡◌, ◌≢◌, refl, sym, ap, ◌∙◌, ◌⊎◌, inl, inr, List, [], ◌∷◌, length, arith, All,
}
use coop_lumen_index.Listings.Histories.{LogRow}

abbrev pub IsIn : LogRow → List LogRow → Type 0
IsIn row [] = ⊥
IsIn row (r ∷ rows) = (row ≡ r) ⊎ IsIn row rows

abbrev pub IsDistinct : List LogRow → Type 0
IsDistinct [] = Unit
IsDistinct (r ∷ rows) = All (λ s. s.created_at ≢ r.created_at) rows × IsDistinct rows

abbrev pub IsDescending : List LogRow → Type 0
IsDescending [] = Unit
IsDescending (r ∷ rows) = All (λ s. s.created_at < r.created_at) rows × IsDescending rows

-- What PostgreSQL documents of one ORDER BY created_at DESC: the rows are those that were there, and
-- the later comes first; of rows with the same time it says nothing.
pub record OrdersByTime (order : List LogRow → List LogRow) : Type 0 where
  pub into : (rows : List LogRow) (row : LogRow) → IsIn row rows → IsIn row (order rows)
  pub from : (rows : List LogRow) (row : LogRow) → IsIn row (order rows) → IsIn row rows
  pub as_long : (rows : List LogRow) → length (order rows) ≡ length rows
  pub descends : (rows : List LogRow) → IsDistinct rows → IsDescending (order rows)

earlier :
    (rows : List LogRow) (row : LogRow) (t : ℕ)
    → All (λ s. s.created_at < t) rows
    → IsIn row rows
    → row.created_at < t
earlier [] row t h i = absurd i
earlier (r ∷ rows) row t (first, h) (inl e) = rw e first
earlier (r ∷ rows) row t (first, h) (inr i) = earlier rows row t h i

first_same :
    (x y : LogRow) (xs ys : List LogRow)
    → All (λ s. s.created_at < x.created_at) xs
    → All (λ s. s.created_at < y.created_at) ys
    → IsIn x (y ∷ ys)
    → IsIn y (x ∷ xs)
    → x ≡ y
first_same x y xs ys hx hy (inl e) k = e
first_same x y xs ys hx hy (inr i) (inl e) = sym e
first_same x y xs ys hx hy (inr i) (inr j) =
    let a = earlier ys x y.created_at hy i in
    let b = earlier xs y x.created_at hx j in absurd (omega arith)

rest-IsIn :
    (x y : LogRow) (xs ys : List LogRow)
    → x ≡ y
    → All (λ s. s.created_at < x.created_at) xs
    → ((r : LogRow) → IsIn r (x ∷ xs) → IsIn r (y ∷ ys))
    → (r : LogRow) → IsIn r xs
    → IsIn r ys
rest-IsIn x y xs ys e hx into r i = elim (into r (inr i)) [
  | inr j ↦ j
  | inl k ↦
      let a = earlier xs r x.created_at hx i in
      let same : r.created_at ≡ x.created_at = ap (λ (l : LogRow). l.created_at) (k ∙ sym e) in
      absurd (omega arith)
]

pub one_order :
    (xs ys : List LogRow)
    → IsDescending xs
    → IsDescending ys
    → ((r : LogRow) → IsIn r xs → IsIn r ys)
    → ((r : LogRow) → IsIn r ys → IsIn r xs)
    → xs ≡ ys
one_order [] [] dx dy f g = refl
one_order [] (y ∷ ys) dx dy f g = absurd (g y (inl refl))
one_order (x ∷ xs) [] dx dy f g = absurd (f x (inl refl))
one_order (x ∷ xs) (y ∷ ys) (hx, dx) (hy, dy) f g =
    let same = first_same x y xs ys hx hy (f x (inl refl)) (g y (inl refl)) in
    let rest =
      one_order xs ys dx dy (rest-IsIn x y xs ys same hx f) (rest-IsIn y x ys xs (sym same) hy g) in
    ap (λ (l : LogRow). l ∷ xs) same ∙ ap (λ rows. y ∷ rows) rest

pub orders_agree :
    (order other : List LogRow → List LogRow) (rows : List LogRow)
    → OrdersByTime order
    → OrdersByTime other
    → IsDistinct rows
    → order rows ≡ other rows
orders_agree order other rows h k d =
    one_order (order rows) (other rows) (h.descends rows d) (k.descends rows d)
      (λ r i. k.into rows r (h.from rows r i)) (λ r i. h.into rows r (k.from rows r i))
