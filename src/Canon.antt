-- ===== src/Canon.antt =====
-- internal/canon/canon.go: canonical JSON and digests over it. The encoding of one text by
-- `encoding/json` and SHA-256 in hexadecimal are parameters.
pub mod Orderless
use planless.Prelude.{ℕ, String, Bool, true, false, Option, none, some, List, [], ◌∷◌, ◌++◌}
use planless.Prelude.Text.{codes, text_ltb}
use planless.Ordered.{sort}
use planless.Json.{
  Json, null, boolean, number, text, array, object, Items, nil, cons, Fields, end, field,
}

-- A key with what its value is written as.
abbrev pub Written : Type 0
Written = String × List ℕ

abbrev pub key_less : Written → Written → Bool
key_less a b = text_ltb a.0 b.0

-- The loops over the elements of an array and over the keys of an object, a comma between two.
abbrev pub join : List (List ℕ) → List ℕ
join [] = []
join (x ∷ []) = x
join (x ∷ y ∷ rest) = x ++ (b',' ∷ join (y ∷ rest))

abbrev pub pairs : (String → List ℕ) → List Written → List (List ℕ)
pairs quote [] = []
pairs quote ((k, v) ∷ rest) = (quote k ++ (b':' ∷ v)) ∷ pairs quote rest

module _ (quote : String → List ℕ) where
  -- `write`.
  unfoldable mutual
    unfolding sort

    pub write : Json → List ℕ
    write null = codes "null"
    write (boolean true) = codes "true"
    write (boolean false) = codes "false"
    write (number literal) = codes literal
    write (text s) = quote s
    write (array xs) = b'[' ∷ (join (write_items xs) ++ (b']' ∷ []))
    write (object fs) = b'{' ∷ (join (pairs quote (sort key_less (write_fields fs))) ++ (b'}' ∷ []))

    pub write_items : Items → List (List ℕ)
    write_items nil = []
    write_items (cons x xs) = write x ∷ write_items xs

    pub write_fields : Fields → List Written
    write_fields end = []
    write_fields (field k v fs) = (k, write v) ∷ write_fields fs

-- `Marshal`, from the tree that the encoder and the decoder make of a value; `none` is their error.
unfoldable pub marshal : {A : Type 0} → (String → List ℕ) → (A → Option Json) → A → Option (List ℕ)
unfolding write
marshal quote tree a = elim (tree a) [ none ↦ none | some t ↦ some (write quote t) ]

-- `DigestOf`.
unfoldable pub digest_of :
    {A : Type 0} → (List ℕ → String) → (String → List ℕ) → (A → Option Json) → A → Option String
unfolding marshal
digest_of digest quote tree a = elim (marshal quote tree a) [
  | none ↦ none
  | some bytes ↦ some (digest bytes)
]
