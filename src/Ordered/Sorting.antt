-- ===== src/Ordered/Sorting.antt =====
-- Sorting a list with distinct keys puts it in strict order, and keeps what it holds.
use planless.Prelude.{◌≡◌, refl, Bool, true, false, List, [], ◌∷◌, All, Bool-cases, inl, inr, keep}
use planless.Ordered.{Order, insert, sort, upsert}

module _ {ℓ} {A : Type ℓ} (o : Order A) where
  -- No two elements have the same key.
  abbrev pub Distinct : List A → Type 0
  Distinct [] = Unit {0}
  Distinct (a ∷ rest) = All (λ b. o.same a b ≡ false) rest × Distinct rest

  -- Each element's key is below the keys of all later ones.
  abbrev pub IsSorted : List A → Type 0
  IsSorted [] = Unit {0}
  IsSorted (a ∷ rest) = All (λ b. o.less a b ≡ true) rest × IsSorted rest

  module _ {κ} (P : A → Type κ) where
    pub insert-All : (a : A) (bs : List A) → P a → All P bs → All P (insert o.less a bs)
    unfolding insert
    insert-All a [] h u = (h, tt)
    insert-All a (b ∷ bs) h u = elim (Bool-cases (o.less b a)) [
      | inl e ↦ rw e (u.0, insert-All a bs h u.1)
      | inr e ↦ rw e (h, u)
    ]

    pub sort-All : (l : List A) → All P l → All P (sort o.less l)
    unfolding sort
    sort-All [] u = tt
    sort-All (a ∷ rest) u = insert-All a (sort o.less rest) u.0 (sort-All rest u.1)

    pub upsert-All : (l : List A) (v : A) → P v → All P l → All P (upsert l v o.same)
    unfolding upsert
    upsert-All [] v h u = (h, tt)
    upsert-All (a ∷ rest) v h u = elim (Bool-cases (o.same a v)) [
      | inl e ↦ rw e (h, u.1)
      | inr e ↦ rw e (u.0, upsert-All rest v h u.1)
    ]

    pub keep-All : (q : A → Bool) (l : List A) → All P l → All P (keep q l)
    keep-All q [] u = tt
    keep-All q (a ∷ rest) u = elim (Bool-cases (q a)) [
      | inl e ↦ rw e (u.0, keep-All q rest u.1)
      | inr e ↦ rw e (keep-All q rest u.1)
    ]

  All-imp : (P Q : A → Type 0) (l : List A) → ((a : A) → P a → Q a) → All P l → All Q l
  All-imp P Q [] f u = tt
  All-imp P Q (a ∷ rest) f u = (f a u.0, All-imp P Q rest f u.1)

  less_of_ne : (a b : A) → o.less b a ≡ false → o.same a b ≡ false → o.less a b ≡ true
  less_of_ne a b h k = elim (Bool-cases (o.less a b)) [
    | inl e ↦ e
    | inr e ↦ absurd (cc (o.less_total a b e h, k))
  ]

  insert-IsSorted :
      (a : A) (l : List A)
      → All (λ b. o.same a b ≡ false) l
      → IsSorted l
      → IsSorted (insert o.less a l)
  unfolding insert
  insert-IsSorted a [] u s = (tt, tt)
  insert-IsSorted a (b ∷ bs) u s = elim (Bool-cases (o.less b a)) [
    | inl e ↦ rw e (insert-All (λ c. o.less b c ≡ true) a bs e s.0, insert-IsSorted a bs u.1 s.1)
    | inr e ↦
        let l = less_of_ne a b e u.0 in
        rw e (
          (
            l,
            All-imp (λ c. o.less b c ≡ true) (λ c. o.less a c ≡ true) bs
                (λ c h. o.less_trans a b c l h) s.0,
          ),
          s,
        )
  ]

  -- Sorting a list with distinct keys puts it in strict order.
  pub sort-IsSorted : (l : List A) → Distinct l → IsSorted (sort o.less l)
  unfolding sort
  sort-IsSorted [] d = tt
  sort-IsSorted (a ∷ rest) d =
      insert-IsSorted a (sort o.less rest) (sort-All (λ b. o.same a b ≡ false) rest d.0)
        (sort-IsSorted rest d.1)

  pub IsSorted→Distinct : (l : List A) → IsSorted l → Distinct l
  IsSorted→Distinct [] s = tt
  IsSorted→Distinct (a ∷ rest) s = (
    All-imp (λ b. o.less a b ≡ true) (λ b. o.same a b ≡ false) rest (λ b. o.less-ne-same a b) s.0,
    IsSorted→Distinct rest s.1,
  )

  less_asym : (a b : A) → o.less a b ≡ true → o.less b a ≡ false
  less_asym a b h = elim (Bool-cases (o.less b a)) [
    | inr e ↦ e
    | inl e ↦ absurd (cc (o.less-ne-same a a (o.less_trans a b a h e), o.same_refl a))
  ]

  insert_first : (a : A) (l : List A) → All (λ b. o.less a b ≡ true) l → insert o.less a l ≡ a ∷ l
  unfolding insert
  insert_first a [] u = refl
  insert_first a (b ∷ bs) u = rw (less_asym a b u.0)

  -- A sorted list is left as it is.
  pub sort_of_IsSorted : (l : List A) → IsSorted l → sort o.less l ≡ l
  unfolding sort
  sort_of_IsSorted [] s = refl
  sort_of_IsSorted (a ∷ rest) s = rw (sort_of_IsSorted rest s.1) (insert_first a rest s.0)

  ne_of_same : (a b v : A) → o.same b v ≡ true → o.same a b ≡ false → o.same a v ≡ false
  ne_of_same a b v h k = elim (Bool-cases (o.same a v)) [
    | inr e ↦ e
    | inl e ↦ absurd (cc (o.same_trans a v b e (o.same_sym b v h), k))
  ]

  ne_sym : (a b : A) → o.same a b ≡ false → o.same b a ≡ false
  ne_sym a b h = elim (Bool-cases (o.same b a)) [
    | inr e ↦ e
    | inl e ↦ absurd (cc (o.same_sym b a e, h))
  ]

  upsert-ne :
      (a : A) (l : List A) (v : A)
      → All (λ b. o.same a b ≡ false) l
      → o.same a v ≡ false
      → All (λ b. o.same a b ≡ false) (upsert l v o.same)
  upsert-ne a l v u h = upsert-All (λ b. o.same a b ≡ false) l v h u

  -- `upsert` keeps the keys distinct.
  pub upsert-Distinct : (l : List A) (v : A) → Distinct l → Distinct (upsert l v o.same)
  unfolding upsert
  upsert-Distinct [] v d = (tt, tt)
  upsert-Distinct (a ∷ rest) v d = elim (Bool-cases (o.same a v)) [
    | inl e ↦ rw e (
      All-imp (λ b. o.same a b ≡ false) (λ b. o.same v b ≡ false) rest
          (λ b h. ne_sym b v (ne_of_same b a v e (ne_sym a b h))) d.0,
      d.1,
    )
    | inr e ↦ rw e (upsert-ne a rest v d.0 e, upsert-Distinct rest v d.1)
  ]

  pub keep-IsSorted : (q : A → Bool) (l : List A) → IsSorted l → IsSorted (keep q l)
  keep-IsSorted q [] s = tt
  keep-IsSorted q (a ∷ rest) s = elim (Bool-cases (q a)) [
    | inl e ↦ rw e (keep-All (λ b. o.less a b ≡ true) q rest s.0, keep-IsSorted q rest s.1)
    | inr e ↦ rw e (keep-IsSorted q rest s.1)
  ]
