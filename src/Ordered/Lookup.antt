-- ===== src/Ordered/Lookup.antt =====
-- Looking up by key after an `upsert`, a sort and a removal.
use planless.Prelude.{
  ◌≡◌, refl, ap, ◌∙◌, Bool, true, false, not, List, [], ◌∷◌, if◌then◌else◌, All, Bool-cases, inl,
  inr, arith, Option, none, some, find, keep,
}
use planless.Ordered.{Order, insert, sort, upsert}
use planless.Ordered.Sorting.{Distinct, sort-All}

module _ {ℓ} {A : Type ℓ} (o : Order A) where
  -- A test that only reads the key: it passes the elements of at most one key, and all of those.
  pub record IsClass (p : A → Bool) : Type ℓ where
    pub joins : (a b : A) → p a ≡ true → p b ≡ true → o.same a b ≡ true
    pub closed : (a b : A) → p a ≡ true → o.same a b ≡ true → p b ≡ true

  pub same-IsClass : (w : A) → IsClass (λ a. o.same a w)
  same-IsClass w = record {
    joins = λ a b h k. o.same_trans a w b h (o.same_sym b w k);
    closed = λ a b h k. o.same_trans b a w (o.same_sym a b k) h;
  }

  module _ (p : A → Bool) (c : IsClass p) where
    find-insert :
        (a : A) (l : List A)
        → All (λ b. o.same a b ≡ false) l
        → find p (insert o.less a l) ≡ find p (a ∷ l)
    unfolding insert
    find-insert a [] u = refl
    find-insert a (b ∷ bs) u = elim (Bool-cases (o.less b a)) [
      | inr e ↦ rw e
      | inl e ↦ elim (Bool-cases (p a)) [
        | inl pa ↦
            let pb : p b ≡ false = other a b u.0 pa in
            rw e (rw (pa, pb) (find-insert a bs u.1 ∙ rw pa))
        | inr pa ↦ rw e (
            rw pa (ap (λ (x : Option A). if p b then some b else x) (find-insert a bs u.1 ∙ rw pa)))
      ]
    ]
      where
        other : (x y : A) → o.same x y ≡ false → p x ≡ true → p y ≡ false
        other x y h k = elim (Bool-cases (p y)) [
          | inr f ↦ f
          | inl f ↦ absurd (cc (c.joins x y k f, h))
        ]

    -- Sorting a list with distinct keys does not change what a key finds.
    pub find-sort : (l : List A) → Distinct o l → find p (sort o.less l) ≡ find p l
    unfolding sort
    find-sort [] d = refl
    find-sort (a ∷ rest) d =
        find-insert a (sort o.less rest) (sort-All o (λ b. o.same a b ≡ false) rest d.0)
        ∙ ap (λ (x : Option A). if p a then some a else x) (find-sort rest d.1)

    closed_false : (a b : A) → p b ≡ false → o.same a b ≡ true → p a ≡ false
    closed_false a b h e = elim (Bool-cases (p a)) [
      | inr f ↦ f
      | inl f ↦ absurd (cc (c.closed a b f e, h))
    ]

    joins_false : (a b : A) → p b ≡ true → o.same a b ≡ false → p a ≡ false
    joins_false a b h e = elim (Bool-cases (p a)) [
      | inr f ↦ f
      | inl f ↦ absurd (cc (c.joins a b f h, e))
    ]

    -- After `upsert` the key of `v` finds `v`, and other keys find what they found.
    pub find-upsert :
        (l : List A) (v : A) → find p (upsert l v o.same) ≡ (if p v then some v else find p l)
    unfolding upsert
    find-upsert [] v = refl
    find-upsert (a ∷ rest) v = elim (Bool-cases (o.same a v)) [
      | inl e ↦ elim (Bool-cases (p v)) [
        | inl pv ↦ rw e (rw pv)
        | inr pv ↦ rw e (rw pv (rw (closed_false a v pv e)))
      ]
      | inr e ↦ elim (Bool-cases (p v)) [
        | inl pv ↦
            let ih = find-upsert rest v in rw e (rw pv (rw (joins_false a v pv e) (ih ∙ rw pv)))
        | inr pv ↦
            let ih = find-upsert rest v in
            rw e (rw pv (ap (λ (x : Option A). if p a then some a else x) (ih ∙ rw pv)))
      ]
    ]

  pub find-keep_self : (p : A → Bool) (l : List A) → find p (keep (λ a. not (p a)) l) ≡ none
  find-keep_self p [] = refl
  find-keep_self p (a ∷ rest) = ground (arith, find-keep_self p rest)

  pub find-keep_ne :
      (p q : A → Bool) (l : List A)
      → ((a : A) → p a ≡ true → q a ≡ false)
      → find p (keep (λ a. not (q a)) l) ≡ find p l
  find-keep_ne p q [] h = refl
  find-keep_ne p q (a ∷ rest) h = ground (arith, find-keep_ne p q rest h, h a)
