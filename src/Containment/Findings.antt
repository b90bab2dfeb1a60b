-- ===== src/Containment/Findings.antt =====
-- When the loops of internal/containment/compose.go find nothing.
use planless.Prelude.{
  String, ◌≡◌, inl, inr, refl, sym, subst, ◌∙◌, Bool, true, false, not, some, List, [], ◌∷◌, ◌++◌,
  All, any, ◌==◌, text_eq→eq, Bool-cases, Option-cases, Has, here, there, eq→text_eq, map, arith,
}
use planless.Prelude.Text.{text_ltb}
use planless.Ordered.Membership.{any-sort}
use planless.Containment.{Map, lookup, names, sorted_keys, concat, when, is_empty, at_each}

module _ {ℓ} {A : Type ℓ} where
  pub append-nil : (xs ys : List A) → (xs ++ ys) ≡ [] → (xs ≡ []) × (ys ≡ [])
  append-nil [] ys h = (refl, h)
  append-nil (x ∷ xs) ys h = absurd (cc h)

  pub concat-nil→ : (ls : List (List A)) → concat ls ≡ [] → All (λ l. l ≡ []) ls
  concat-nil→ [] h = tt
  concat-nil→ (l ∷ ls) h = let both = append-nil l (concat ls) h in (both.0, concat-nil→ ls both.1)

  pub concat-nil← : (ls : List (List A)) → All (λ l. l ≡ []) ls → concat ls ≡ []
  concat-nil← [] h = refl
  concat-nil← (l ∷ ls) h = rw (h.0) (concat-nil← ls h.1)

  pub when-nil→ : (a : A) (b : Bool) → when b a ≡ [] → b ≡ false
  when-nil→ a true h = absurd (cc h)
  when-nil→ a false h = refl

  pub when-nil← : (a : A) (b : Bool) → b ≡ false → when b a ≡ []
  when-nil← a b h = rw h refl

pub not-false : (b : Bool) → not b ≡ false → b ≡ true
not-false true h = refl
not-false false h = ground (arith, h)

pub is_empty-nil : {A : Type 0} (l : List A) → not (is_empty l) ≡ false → l ≡ []
is_empty-nil [] h = refl
is_empty-nil (x ∷ l) h = ground (arith, h)

module _ {ℓ} {A : Type ℓ} where
  lookup-names :
      (name : String) (a : A) (m : Map A)
      → lookup name m ≡ some a
      → any (λ key. key == name) (names m) ≡ true
  unfolding lookup
  lookup-names name a [] h = absurd (cc h)
  lookup-names name a (e ∷ m) h = elim (Bool-cases (e.0 == name)) [
    | inl q ↦ rw q refl
    | inr q ↦ rw q (lookup-names name a m (rw q at h))
  ]

  names-lookup :
      (name : String) (m : Map A)
      → any (λ key. key == name) (names m) ≡ true
      → (a : A) × (lookup name m ≡ some a)
  unfolding lookup
  names-lookup name [] h = ground (arith, h)
  names-lookup name (e ∷ m) h = elim (Bool-cases (e.0 == name)) [
    | inl q ↦ (e.1, rw q refl)
    | inr q ↦ let later = names-lookup name m (rw q at h) in (later.0, rw q (later.1))
  ]

  -- The sorted keys are keys of the map.
  pub sorted_keys-lookup :
      (name : String) (m : Map A)
      → any (λ key. key == name) (sorted_keys m) ≡ true
      → (a : A) × (lookup name m ≡ some a)
  unfolding sorted_keys
  sorted_keys-lookup name m h =
      names-lookup name m (sym (any-sort (λ key. key == name) text_ltb (names m)) ∙ h)

  -- Every key of a map is among the sorted ones.
  pub lookup-sorted_keys :
      (name : String) (a : A) (m : Map A)
      → lookup name m ≡ some a
      → any (λ key. key == name) (sorted_keys m) ≡ true
  unfolding sorted_keys
  lookup-sorted_keys name a m h =
      any-sort (λ key. key == name) text_ltb (names m) ∙ lookup-names name a m h

  module _ {B : Type 0} (m : Map A) (f : String → A → List B) where
    at_each-nil→ :
        (name : String) (a : A) (l : List String)
        → concat (at_each m f l) ≡ []
        → any (λ key. key == name) l ≡ true
        → lookup name m ≡ some a
        → f name a ≡ []
    at_each-nil→ name a [] h k e = ground (arith, k)
    at_each-nil→ name a (key ∷ l) h k e = elim (Bool-cases (key == name)) [
      | inl q ↦
          let here_is : lookup key m ≡ some a = rw (text_eq→eq q) e in
          let none_here =
            (append-nil (f key a) (concat (at_each m f l)) (rw (here_is, concat) at h)).0 in
          subst (λ k. f k a ≡ []) (text_eq→eq q) none_here
      | inr q ↦ elim (Option-cases (lookup key m)) [
        | inl n ↦ at_each-nil→ name a l (rw (n, concat) at h) (rw q at k) e
        | inr (b, s) ↦
            at_each-nil→ name a l
              ((append-nil (f key b) (concat (at_each m f l)) (rw (s, concat) at h)).1) (rw q at k)
              e
      ]
    ]

    -- A loop over the sorted keys finds nothing at any entry of the map.
    pub each_entry-nil→ :
        concat (at_each m f (sorted_keys m)) ≡ []
        → (name : String) (a : A) → lookup name m ≡ some a
        → f name a ≡ []
    each_entry-nil→ h name a e =
        at_each-nil→ name a (sorted_keys m) h (lookup-sorted_keys name a m e) e

    pub each_entry-nil← :
        ((name : String) (a : A) → lookup name m ≡ some a → f name a ≡ [])
        → (l : List String) → concat (at_each m f l) ≡ []
    each_entry-nil← g [] = refl
    each_entry-nil← g (key ∷ l) = elim (Option-cases (lookup key m)) [
      | inl n ↦ rw (n, concat) (each_entry-nil← g l)
      | inr (a, s) ↦ rw (s, concat) (rw (g key a s) (each_entry-nil← g l))
    ]

module _ {ℓ κ} {A : Type ℓ} {B : Type κ} (f : A → List B) where
  pub each-nil→ : (l : List A) → concat (map f l) ≡ [] → All (λ a. f a ≡ []) l
  each-nil→ [] h = tt
  each-nil→ (a ∷ l) h =
      let both = append-nil (f a) (concat (map f l)) h in (both.0, each-nil→ l both.1)

  pub each-nil← : (l : List A) → All (λ a. f a ≡ []) l → concat (map f l) ≡ []
  each-nil← [] h = refl
  each-nil← (a ∷ l) h = rw (h.0) (each-nil← l h.1)

pub append-nil← {ℓ} : {A : Type ℓ} {xs ys : List A} → xs ≡ [] → ys ≡ [] → (xs ++ ys) ≡ []
append-nil← h k = rw h k

-- The test for a text in a list.
pub Has-text : (t : String) (l : List String) → any (λ s. s == t) l ≡ true → Has (λ s. s ≡ t) l
Has-text t [] h = ground (arith, h)
Has-text t (s ∷ l) h = elim (Bool-cases (s == t)) [
  | inl e ↦ here (text_eq→eq e)
  | inr e ↦ there (Has-text t l (rw e at h))
]

pub text-Has : (t : String) (l : List String) → Has (λ s. s ≡ t) l → any (λ s. s == t) l ≡ true
text-Has t _ (here e) = rw (eq→text_eq e) refl
text-Has t (s ∷ l) (there h) = ground (arith, text-Has t l h)
