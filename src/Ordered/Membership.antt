-- ===== src/Ordered/Membership.antt =====
-- A sorted list holds what the list held.
use planless.Prelude.{◌≡◌, Bool, ◌||◌, List, [], ◌∷◌, any, ap, ◌∙◌, refl, arith}
use planless.Ordered.{insert, sort}

-- Sorting keeps what a list holds.
module _ {ℓ} {A : Type ℓ} (f : A → Bool) (less : A → A → Bool) where
  any-insert : (a : A) (l : List A) → any f (insert less a l) ≡ (f a || any f l)
  unfolding insert
  any-insert a [] = refl
  any-insert a (b ∷ bs) = ground (arith, any-insert a bs)

  pub any-sort : (l : List A) → any f (sort less l) ≡ any f l
  unfolding sort
  any-sort [] = refl
  any-sort (a ∷ l) = any-insert a (sort less l) ∙ ap (λ (b : Bool). f a || b) (any-sort l)
