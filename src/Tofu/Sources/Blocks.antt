-- ===== src/Tofu/Sources/Blocks.antt =====
-- The loop over the blocks comes to its end: `ResourceBlockBodies` of internal/tofu/sources.go.
use Prim.Native.Char.{Char, code}
use planless.Prelude.{
  ℕ, zero, suc, String, ◌≡◌, ◌≤◌, ◌<◌, refl, ap, sym, ◌∙◌, subst, inl, inr, Option, none, some, [],
  ◌∷◌, Bool-cases, Option-cases, arith, ◌=?◌,
}
use planless.Prelude.Text.{cut, has_prefix}
use planless.Tofu.Sources.{
  depth_after, close_block, find_block, begins_word, drop_two, block_body, bodies_from, text_length,
  resource_block_bodies,
}

close_block-shorter :
    (depth : ℕ) (s body rest : String)
    → close_block depth s ≡ some (body, rest)
    → text_length rest < text_length s
unfolding close_block
close_block-shorter depth String.[] body rest h = absurd (cc h)
close_block-shorter depth (String.◌∷◌ c s) body rest h =
    elim (Option-cases (depth_after depth (code c))) [
      | inl n ↦
          let k = rw (n, close_block) at h in
          let same : s ≡ rest = cc k in
          subst (λ t. text_length t < suc (text_length s)) same (omega arith)
      | inr (d, e) ↦ elim (Option-cases (close_block d s)) [
        | inl n ↦ absurd (let k = rw (e, close_block) at h in cc (rw n at k))
        | inr ((b, t), f) ↦
            let k = rw (e, close_block) at h in
            let same : t ≡ rest = cc (rw f at k) in
            let ih = close_block-shorter d s b t f in
            subst (λ u. text_length u < suc (text_length s)) same (omega arith)
      ]
    ]

cut-shorter :
    (c : ℕ) (s front rest : String)
    → cut c s ≡ some (front, rest)
    → text_length rest < text_length s
unfolding cut
cut-shorter c String.[] front rest h = absurd (cc h)
cut-shorter c (String.◌∷◌ d s) front rest h = elim (Bool-cases (code d =? c)) [
  | inl e ↦
      let same : s ≡ rest = cc (rw e at h) in
      subst (λ t. text_length t < suc (text_length s)) same (omega arith)
  | inr e ↦ elim (Option-cases (cut c s)) [
    | inl n ↦ absurd (let k = rw e at h in cc (rw n at k))
    | inr ((b, t), f) ↦
        let k = rw e at h in
        let same : t ≡ rest = cc (rw f at k) in
        let ih = cut-shorter c s b t f in
        subst (λ u. text_length u < suc (text_length s)) same (omega arith)
  ]
]

block_body-shorter :
    (s body rest : String) → block_body s ≡ some (body, rest) → text_length rest < text_length s
unfolding block_body
block_body-shorter s body rest h = elim (Option-cases (cut b'{' s)) [
  | inl n ↦ absurd (cc (rw (n, block_body) at h))
  | inr ((f, t), e) ↦
      let k : close_block 0 t ≡ some (body, rest) = rw (e, block_body) at h in
      let a = cut-shorter b'{' s f t e in let b = close_block-shorter 0 t body rest k in omega arith
]

-- A block is found in a text that is not empty, and it is no longer than the text.
find_block-shorter :
    (before in_front : Option ℕ) (s found : String)
    → find_block before s ≡ some (in_front, found)
    → (text_length (drop_two found) < text_length s) × (text_length found ≤ text_length s)
unfolding find_block
find_block-shorter before in_front String.[] found h = absurd (cc h)
find_block-shorter before in_front (String.◌∷◌ c s) found h =
    elim (Bool-cases (has_prefix (String.◌∷◌ c s) "resource \"")) [
      | inl e ↦
          let same : String.◌∷◌ c s ≡ found = cc (rw e at h) in
          subst
            (λ t.
              (text_length (drop_two t) < suc (text_length s))
              × (text_length t ≤ suc (text_length s)))
            same (drop_two-shorter c s, omega arith)
      | inr e ↦
          let ih = find_block-shorter (some (code c)) in_front s found (rw e at h) in
          let a = ih.0 in let b = ih.1 in (omega arith, omega arith)
    ]
  where
    drop_two-shorter :
        (c : Char) (s : String) → text_length (drop_two (String.◌∷◌ c s)) < suc (text_length s)
    drop_two-shorter c String.[] = omega arith
    drop_two-shorter c (String.◌∷◌ d s) = omega arith

bodies_from-empty : (n : ℕ) (before : Option ℕ) → bodies_from n before "" ≡ []
unfolding bodies_from find_block
bodies_from-empty zero before = refl
bodies_from-empty (suc n) before = refl

-- Two amounts of fuel of at least the length of the text give the same bodies.
bodies_from-stable :
    (n m : ℕ) (before : Option ℕ) (s : String)
    → text_length s ≤ n
    → text_length s ≤ m
    → bodies_from n before s ≡ bodies_from m before s
unfolding bodies_from
bodies_from-stable n m before String.[] h k =
    bodies_from-empty n before ∙ sym (bodies_from-empty m before)
bodies_from-stable zero m before (String.◌∷◌ c s) h k = absurd (omega arith)
bodies_from-stable (suc n) zero before (String.◌∷◌ c s) h k = absurd (omega arith)
bodies_from-stable (suc n) (suc m) before (String.◌∷◌ c s) h k =
    elim (Option-cases (find_block before (String.◌∷◌ c s))) [
      | inl e ↦ rw (e, bodies_from) refl
      | inr ((in_front, found), e) ↦
          let shorter = find_block-shorter before in_front (String.◌∷◌ c s) found e in
          let a = shorter.0 in
          let b = shorter.1 in
          elim (Bool-cases (begins_word in_front)) [
            | inr w ↦
                rw (e, bodies_from)
                  (rw w (
                    bodies_from-stable n m (some b'e') (drop_two found) (omega arith)
                      (omega arith)))
            | inl w ↦ elim (Option-cases (block_body found)) [
              | inl none_left ↦ rw (e, bodies_from) (rw w (rw none_left refl))
              | inr ((body, rest), f) ↦
                  let d = block_body-shorter found body rest f in
                  rw (e, bodies_from)
                    (rw w (
                      rw f (
                        ap (λ l. body ∷ l)
                          (bodies_from-stable n m (some b'}') rest (omega arith) (omega arith)))))
            ]
          ]
    ]

-- More fuel than the length of the text finds no more blocks, so the loop has come to its end.
pub bodies_from-enough :
    (n : ℕ) (src : String)
    → text_length src ≤ n
    → bodies_from n none src ≡ resource_block_bodies src
unfolding resource_block_bodies
bodies_from-enough n src h = bodies_from-stable n (text_length src) none src h (omega arith)
