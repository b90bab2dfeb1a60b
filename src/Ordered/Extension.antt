-- ===== src/Ordered/Extension.antt =====
-- A sorted list is determined by what its keys find.
use planless.Prelude.{
  ◌≡◌, refl, sym, ap, ◌∙◌, Bool, true, false, List, [], ◌∷◌, if◌then◌else◌, All, Bool-cases, inl,
  inr, Option, none, some, find,
}
use planless.Ordered.{Order, sort, upsert}
use planless.Ordered.Sorting.{IsSorted, sort-IsSorted, IsSorted→Distinct, upsert-Distinct}
use planless.Ordered.Lookup.{IsClass, same-IsClass, find-sort, find-upsert}

module _ {ℓ} {A : Type ℓ} (o : Order A) where
  -- What is found at the key of `w`.
  abbrev pub at : A → List A → Option A
  at w l = find (λ a. o.same a w) l

  same_false : (a w : A) → o.less w a ≡ true → o.same a w ≡ false
  same_false a w h = elim (Bool-cases (o.same a w)) [
    | inr e ↦ e
    | inl e ↦ absurd (cc (o.same_sym a w e, o.less-ne-same w a h))
  ]

  at_above : (w : A) (l : List A) → All (λ a. o.less w a ≡ true) l → at w l ≡ none
  at_above w [] u = refl
  at_above w (a ∷ rest) u = rw (same_false a w u.0) (at_above w rest u.1)

  above_trans :
      (w a : A) (l : List A)
      → o.less w a ≡ true
      → All (λ b. o.less a b ≡ true) l
      → All (λ b. o.less w b ≡ true) l
  above_trans w a [] h u = tt
  above_trans w a (b ∷ rest) h u = (o.less_trans w a b h u.0, above_trans w a rest h u.1)

  -- The first elements of two lists that agree have the same key.
  first_not-less :
      (a b : A) (xs ys : List A)
      → IsSorted o (b ∷ ys)
      → at a (a ∷ xs) ≡ at a (b ∷ ys)
      → o.less a b ≡ false
  first_not-less a b xs ys t e = elim (Bool-cases (o.less a b)) [
    | inr f ↦ f
    | inl f ↦
        let gone = at_above a (b ∷ ys) (f, above_trans a b ys f t.0) in
        let found : at a (a ∷ xs) ≡ some a = rw (o.same_refl a) in absurd (cc (gone, found, e))
  ]

  at_same :
      (a w : A) (l : List A) → o.same a w ≡ true → All (λ b. o.less a b ≡ true) l → at w l ≡ none
  at_same a w [] h u = refl
  at_same a w (b ∷ rest) h u = elim (Bool-cases (o.same b w)) [
    | inr e ↦ rw e (at_same a w rest h u.1)
    | inl e ↦ absurd (cc (o.less-ne-same a b u.0, o.same_trans a w b h (o.same_sym b w e)))
  ]

  tail_at :
      (a b w : A) (xs ys : List A)
      → IsSorted o (a ∷ xs)
      → IsSorted o (b ∷ ys)
      → a ≡ b
      → at w (a ∷ xs) ≡ at w (b ∷ ys)
      → at w xs ≡ at w ys
  tail_at a b w xs ys s t p e = elim (Bool-cases (o.same a w)) [
    | inl f ↦
        let g : o.same b w ≡ true = rw p at f in at_same a w xs f s.0 ∙ sym (at_same b w ys g t.0)
    | inr f ↦ let g : o.same b w ≡ false = rw p at f in rw f at (rw g at e)
  ]

  -- Two sorted lists in which every key finds the same are the same list.
  pub sorted_ext :
      (xs ys : List A) → IsSorted o xs → IsSorted o ys → ((w : A) → at w xs ≡ at w ys) → xs ≡ ys
  sorted_ext [] [] s t e = refl
  sorted_ext [] (b ∷ ys) s t e =
      absurd (cc (e b, (let h : at b (b ∷ ys) ≡ some b = rw (o.same_refl b) in h)))
  sorted_ext (a ∷ xs) [] s t e =
      absurd (cc (e a, (let h : at a (a ∷ xs) ≡ some a = rw (o.same_refl a) in h)))
  sorted_ext (a ∷ xs) (b ∷ ys) s t e =
      let n = first_not-less a b xs ys t (e a) in
      let m = first_not-less b a ys xs s (sym (e b)) in
      let k : o.same b a ≡ true = o.same_sym a b (o.less_total a b n m) in
      let p : at a (a ∷ xs) ≡ some a = rw (o.same_refl a) in
      let q : at a (b ∷ ys) ≡ some b = rw k in
      let first : a ≡ b = cc (p, q, e a) in
      let rest = sorted_ext xs ys s.1 t.1 (λ w. tail_at a b w xs ys s t first (e w)) in
      cc (first, rest)

  -- What every write of the store does to its collection.
  abbrev pub put : A → List A → List A
  put v l = sort o.less (upsert l v o.same)

  pub put-IsSorted : (v : A) (l : List A) → IsSorted o l → IsSorted o (put v l)
  put-IsSorted v l s =
      sort-IsSorted o (upsert l v o.same) (upsert-Distinct o l v (IsSorted→Distinct o l s))

  -- The key of `v` finds `v` afterwards, every other key what it found before.
  pub find-put :
      (p : A → Bool) (v : A) (l : List A)
      → IsClass o p
      → IsSorted o l
      → find p (put v l) ≡ (if p v then some v else find p l)
  find-put p v l c s =
      find-sort o p c (upsert l v o.same) (upsert-Distinct o l v (IsSorted→Distinct o l s))
      ∙ find-upsert o p c l v

  -- Writes at different keys commute, order and all.
  pub put_comm :
      (v w : A) (l : List A) → IsSorted o l → o.same v w ≡ false → put v (put w l) ≡ put w (put v l)
  put_comm v w l s h =
      sorted_ext (put v (put w l)) (put w (put v l)) (put-IsSorted v (put w l) (put-IsSorted w l s))
        (put-IsSorted w (put v l) (put-IsSorted v l s))
        (λ u.
          let c = same-IsClass o u in
          find-put (λ a. o.same a u) v (put w l) c (put-IsSorted w l s)
          ∙ ap (λ (x : Option A). if o.same v u then some v else x)
              (find-put (λ a. o.same a u) w l c s)
          ∙ swap_tests u
          ∙ sym (
              find-put (λ a. o.same a u) w (put v l) c (put-IsSorted v l s)
              ∙ ap (λ (x : Option A). if o.same w u then some w else x)
                  (find-put (λ a. o.same a u) v l c s)))
    where
      both : (u : A) → o.same v u ≡ true → o.same w u ≡ true → ⊥
      both u f g = cc (o.same_trans v u w f (o.same_sym w u g), h)

      swap_tests :
          (u : A)
          → (if o.same v u then some v else if o.same w u then some w else at u l)
            ≡ (if o.same w u then some w else if o.same v u then some v else at u l)
      swap_tests u = elim (Bool-cases (o.same v u)) [
        | inl f ↦ elim (Bool-cases (o.same w u)) [ inl g ↦ absurd (both u f g) | inr g ↦ rw (f, g) ]
        | inr f ↦ rw f
      ]

  -- Writing the same value twice is writing it once.
  pub put_idem : (v : A) (l : List A) → IsSorted o l → put v (put v l) ≡ put v l
  put_idem v l s =
      sorted_ext (put v (put v l)) (put v l) (put-IsSorted v (put v l) (put-IsSorted v l s))
        (put-IsSorted v l s)
        (λ u.
          let c = same-IsClass o u in
          find-put (λ a. o.same a u) v (put v l) c (put-IsSorted v l s)
          ∙ ap (λ (x : Option A). if o.same v u then some v else x)
              (find-put (λ a. o.same a u) v l c s)
          ∙ nested u
          ∙ sym (find-put (λ a. o.same a u) v l c s))
    where
      nested :
          (u : A)
          → (if o.same v u then some v else if o.same v u then some v else at u l)
            ≡ (if o.same v u then some v else at u l)
      nested u = elim (Bool-cases (o.same v u)) [ inl f ↦ rw f | inr f ↦ rw f ]
