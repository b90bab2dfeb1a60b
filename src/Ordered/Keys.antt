-- ===== src/Ordered/Keys.antt =====
-- Orders by a text, by a pair of texts and by a number.
use planless.Prelude.{
  ℕ, ◌≡◌, refl, sym, ap, ◌∙◌, Bool, true, false, not, ◌&&◌, String, if◌then◌else◌, ltb, ◌=?◌, ◌==◌,
  text_eq→eq, eq→text_eq, text_eq_refl, text_ne, ◌⊎◌, arith, Bool-cases, inl, inr,
}
use planless.Prelude.Text.{text_ltb, text_ltb_irrefl, text_ltb_trans, text_ltb_total}
use planless.Ordered.{Order}

module _ {ℓ} {A : Type ℓ} (key : A → String) where
  pub text_less-ne : (a b : A) → text_ltb (key a) (key b) ≡ true → (key a == key b) ≡ false
  text_less-ne a b h = elim (Bool-cases (key a == key b)) [
    | inl e ↦
        let p : key a ≡ key b = text_eq→eq e in
        absurd (cc (h, text_ltb_irrefl (key b), ap (λ (s : String). text_ltb s (key b)) p))
    | inr e ↦ e
  ]

  -- The order of the texts that `key` gives.
  abbrev pub by_text : Order A
  by_text = record {
    less = λ a b. text_ltb (key a) (key b);
    same = λ a b. key a == key b;
    same_refl = λ a. text_eq_refl (key a);
    same_sym = λ a b h. eq→text_eq (sym (text_eq→eq h));
    same_trans = λ a b c h k. eq→text_eq (text_eq→eq h ∙ text_eq→eq k);
    less_trans = λ a b c. text_ltb_trans (key a) (key b) (key c);
    less_total = λ a b h k. eq→text_eq (text_ltb_total (key a) (key b) h k);
    less-ne-same = text_less-ne;
  }

module _ {ℓ} {A : Type ℓ} (first second : A → String) where
  abbrev pair_less : A → A → Bool
  pair_less a b =
      if not (first a == first b)
      then text_ltb (first a) (first b)
      else text_ltb (second a) (second b)

  abbrev pair_same : A → A → Bool
  pair_same a b = first a == first b && second a == second b

  pub pair_same→ : (a b : A) → pair_same a b ≡ true → (first a ≡ first b) × (second a ≡ second b)
  pair_same→ a b h = (text_eq→eq (ground arith), text_eq→eq (ground arith))

  pub pair_same← : (a b : A) → first a ≡ first b → second a ≡ second b → pair_same a b ≡ true
  pair_same← a b p q = ground (arith, eq→text_eq p, eq→text_eq q)

  pair_less→ :
      (a b : A)
      → pair_less a b ≡ true
      → (text_ltb (first a) (first b) ≡ true)
        ⊎ ((first a ≡ first b) × (text_ltb (second a) (second b) ≡ true))
  pair_less→ a b h = elim (Bool-cases (first a == first b)) [
    | inl e ↦ inr (text_eq→eq e, ground (arith, h, e))
    | inr e ↦ inl (ground (arith, h, e))
  ]

  pair_less_first : (a b : A) → text_ltb (first a) (first b) ≡ true → pair_less a b ≡ true
  pair_less_first a b h = ground (arith, text_less-ne first a b h)

  pair_less_second :
      (a b : A) → first a ≡ first b → text_ltb (second a) (second b) ≡ true → pair_less a b ≡ true
  pair_less_second a b p h = ground (arith, eq→text_eq p)

  pub pair_less_trans :
      (a b c : A) → pair_less a b ≡ true → pair_less b c ≡ true → pair_less a c ≡ true
  pair_less_trans a b c h k = elim (pair_less→ a b h) [
    | inl l ↦ elim (pair_less→ b c k) [
      | inl m ↦ pair_less_first a c (text_ltb_trans (first a) (first b) (first c) l m)
      | inr m ↦ pair_less_first a c (cc (l, m.0))
    ]
    | inr l ↦ elim (pair_less→ b c k) [
      | inl m ↦ pair_less_first a c (cc (l.0, m))
      | inr m ↦
          pair_less_second a c (l.0 ∙ m.0) (text_ltb_trans (second a) (second b) (second c) l.1 m.1)
    ]
  ]

  pub pair_less_total :
      (a b : A) → pair_less a b ≡ false → pair_less b a ≡ false → pair_same a b ≡ true
  pair_less_total a b h k = elim (Bool-cases (first a == first b)) [
    | inl e ↦
        let p : first a ≡ first b = text_eq→eq e in
        let f : (first b == first a) ≡ true = eq→text_eq (sym p) in
        pair_same← a b p
          (text_ltb_total (second a) (second b) (ground (arith, h, e)) (ground (arith, k, f)))
    | inr e ↦
        let f : (first b == first a) ≡ false = text_ne (λ q. cc (e, eq→text_eq (sym q))) in
        let p = text_ltb_total (first a) (first b) (ground (arith, h, e)) (ground (arith, k, f)) in
        absurd (cc (e, eq→text_eq p))
  ]

  pub pair_less-ne : (a b : A) → pair_less a b ≡ true → pair_same a b ≡ false
  pair_less-ne a b h = elim (pair_less→ a b h) [
    | inl l ↦ ground (arith, text_less-ne first a b l)
    | inr l ↦ ground (arith, text_less-ne second a b l.1)
  ]

  -- The order of the first texts, and of the second where those are equal.
  abbrev pub by_pair : Order A
  by_pair = record {
    less = pair_less;
    same = pair_same;
    same_refl = λ a. pair_same← a a refl refl;
    same_sym = λ a b h. let e = pair_same→ a b h in pair_same← b a (sym e.0) (sym e.1);
    same_trans = λ a b c h k.
        let e = pair_same→ a b h in
        let f = pair_same→ b c k in pair_same← a c (e.0 ∙ f.0) (e.1 ∙ f.1);
    less_trans = pair_less_trans;
    less_total = pair_less_total;
    less-ne-same = pair_less-ne;
  }

module _ {ℓ} {A : Type ℓ} (key : A → ℕ) where
  abbrev number_less : A → A → Bool
  number_less a b = ltb (key a) (key b)

  abbrev number_same : A → A → Bool
  number_same a b = key a =? key b

  pub number_refl : (a : A) → number_same a a ≡ true
  number_refl a = ground arith

  pub number_sym : (a b : A) → number_same a b ≡ true → number_same b a ≡ true
  number_sym a b h = ground arith

  pub number_trans :
      (a b c : A) → number_same a b ≡ true → number_same b c ≡ true → number_same a c ≡ true
  number_trans a b c h k = ground arith

  pub number_less_trans :
      (a b c : A) → number_less a b ≡ true → number_less b c ≡ true → number_less a c ≡ true
  number_less_trans a b c h k = ground arith

  pub number_less_total :
      (a b : A) → number_less a b ≡ false → number_less b a ≡ false → number_same a b ≡ true
  number_less_total a b h k = ground arith

  pub number_less-ne : (a b : A) → number_less a b ≡ true → number_same a b ≡ false
  number_less-ne a b h = ground arith

  -- The order of the numbers that `key` gives.
  abbrev pub by_number : Order A
  by_number = record {
    less = number_less;
    same = number_same;
    same_refl = number_refl;
    same_sym = number_sym;
    same_trans = number_trans;
    less_trans = number_less_trans;
    less_total = number_less_total;
    less-ne-same = number_less-ne;
  }
