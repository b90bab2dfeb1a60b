-- ===== src/Canon/Orderless.antt =====
-- The order in which an object's fields come does not show in its canonical form.
use mathlib.Core.Quot
use mathlib.Core.Quot.{Quot}
use planless.Prelude.{
  some, ℕ, ◌≡◌, refl, ap, ◌∙◌, String, false, not, List, [], ◌∷◌, ◌++◌, ◌==◌, Bool-cases, inl, inr,
  arith, eq→text_eq,
}
use planless.Prelude.Text.{text_ltb_irrefl, text_ltb_trans, text_ltb_total}
use planless.Ordered.{insert, sort}
use planless.Json.{Json, array, object, Items, nil, cons, Fields, end, field}
use planless.Canon.{
  Written, key_less, join, pairs, write, write_items, write_fields, marshal, digest_of,
}

-- Two trees that differ only in the order of their objects' fields.
mutual
  pub data Same : Json → Json → Type 0 where
    same_leaf : {a b : Json} → a ≡ b → Same a b
    same_array : {xs ys : Items} → SameItems xs ys → Same (array xs) (array ys)
    same_object : {fs gs : Fields} → SameFields fs gs → Same (object fs) (object gs)

  pub data SameItems : Items → Items → Type 0 where
    same_nil : SameItems nil nil
    same_cons :
        {x y : Json} {xs ys : Items}
        → Same x y
        → SameItems xs ys
        → SameItems (cons x xs) (cons y ys)

  pub data SameFields : Fields → Fields → Type 0 where
    same_end : SameFields end end
    same_field :
        {k : String} {v w : Json} {fs gs : Fields}
        → Same v w
        → SameFields fs gs
        → SameFields (field k v fs) (field k w gs)
    swapped :
        {k l : String} {v w : Json} {fs : Fields}
        → (k == l) ≡ false
        → SameFields (field k v (field l w fs)) (field l w (field k v fs))
    chained : {fs gs hs : Fields} → SameFields fs gs → SameFields gs hs → SameFields fs hs

-- Of two different keys one comes first.
flip : (a b : Written) → (a.0 == b.0) ≡ false → key_less a b ≡ not (key_less b a)
flip a b h = elim (Bool-cases (key_less a b)) [
  | inl e ↦ elim (Bool-cases (key_less b a)) [
    | inl f ↦ absurd (cc (text_ltb_trans a.0 b.0 a.0 e f, text_ltb_irrefl a.0))
    | inr f ↦ ground (arith, e, f)
  ]
  | inr e ↦ elim (Bool-cases (key_less b a)) [
    | inl f ↦ ground (arith, e, f)
    | inr f ↦ absurd (cc (eq→text_eq (text_ltb_total a.0 b.0 e f), h))
  ]
]

insert_comm :
    (a b : Written) (l : List Written)
    → (a.0 == b.0) ≡ false
    → insert key_less a (insert key_less b l) ≡ insert key_less b (insert key_less a l)
unfolding insert
insert_comm a b [] h = ground (arith, flip a b h)
insert_comm a b (c ∷ l) h =
    ground (
      arith,
      insert_comm a b l h,
      flip a b h,
      text_ltb_trans c.0 a.0 b.0,
      text_ltb_trans c.0 b.0 a.0,
    )

module _ (quote : String → List ℕ) where
  mutual
    unfolding write sort

    pub write-Same : {a b : Json} → Same a b → write quote a ≡ write quote b
    write-Same (same_leaf e) = ap (write quote) e
    write-Same (same_array {xs} {ys} h) =
        ap (λ (l : List (List ℕ)). b'[' ∷ (join l ++ (b']' ∷ []))) (write_items-Same h)
    write-Same (same_object h) =
        ap (λ (l : List Written). b'{' ∷ (join (pairs quote l) ++ (b'}' ∷ [])))
          (write_fields-Same h)

    write_items-Same :
        {xs ys : Items} → SameItems xs ys → write_items quote xs ≡ write_items quote ys
    write_items-Same same_nil = refl
    write_items-Same (same_cons h k) =
        let p = write-Same h in let q = write_items-Same k in cc (p, q)

    write_fields-Same :
        {fs gs : Fields}
        → SameFields fs gs
        → sort key_less (write_fields quote fs) ≡ sort key_less (write_fields quote gs)
    write_fields-Same same_end = refl
    write_fields-Same (same_field {k} {v} {w} {fs} {gs} h r) =
        let p = write-Same h in
        let q = write_fields-Same r in
        ap (λ (x : List ℕ). insert key_less (k, x) (sort key_less (write_fields quote fs))) p
        ∙ ap (λ (l : List Written). insert key_less (k, write quote w) l) q
    write_fields-Same (swapped {k} {l} {v} {w} {fs} h) =
        insert_comm (k, write quote v) (l, write quote w) (sort key_less (write_fields quote fs)) h
    write_fields-Same (chained h r) = write_fields-Same h ∙ write_fields-Same r

-- A tree up to the order of its fields, which is what a Go value of maps is.
abbrev pub Tree : Type 0
Tree = Quot Same

abbrev pub bytes-IsSet : IsSet (List ℕ)
bytes-IsSet = hlevel

-- The canonical form of a tree up to the order of its fields.
unfoldable pub canonical : (String → List ℕ) → Tree → List ℕ
unfolding write
canonical quote = Quot.lift bytes-IsSet (write quote) (λ a b h. write-Same quote h)

-- Two JSON trees that differ only in the order of their objects' fields have the same canonical
-- bytes and the same digest, so the canonical form is a function of the tree up to that order.
pub digest_of-Same :
    (digest : List ℕ → String) (quote : String → List ℕ) (a b : Json)
    → Same a b
    → (marshal quote some a ≡ marshal quote some b)
      × (digest_of digest quote some a ≡ digest_of digest quote some b)
      × (canonical quote (Quot.mk a) ≡ write quote b)
unfolding digest_of marshal canonical
digest_of-Same digest quote a b h =
    let p = write-Same quote h in
    (ap (λ (x : List ℕ). some x) p, ap (λ (x : List ℕ). some (digest x)) p, p)
