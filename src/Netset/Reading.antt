-- ===== src/Netset/Reading.antt =====
-- Reading a rendered prefix gives the prefix back, so different prefixes have different texts.
use mathlib.Core.List.{append_assoc, append-nil, reverse, reverse-append, reverse-reverse}
use planless.Prelude.{
  ℕ, suc, ◌+◌, ◌-◌, ◌*◌, ◌/◌, ◌%◌, ◌^◌, ◌≤◌, ◌<◌, ◌≡◌, ◌⊎◌, refl, ap, ◌∙◌, true, false, List, [],
  ◌∷◌, ◌++◌, if◌then◌else◌, ltb, ◌=?◌, arith, inl, inr, Bool-cases, some,
}
use planless.Netset.Ip.{Prefix, parse_fields, parse_addr4, parse_bits, parse_prefix, cut_last}
use planless.Netset.Prefixes.{IsPrefix4}
use planless.Netset.Render.{decimal, render}

digit_step :
    (acc pos val digs d : ℕ) (cs : List ℕ)
    → d ≤ 9
    → val * 10 + d ≤ 255
    → (digs ≡ 0) ⊎ (0 < val)
    → parse_fields acc pos val digs ((b'0' + d) ∷ cs)
      ≡ parse_fields acc pos (val * 10 + d) (suc digs) cs
unfolding parse_fields
digit_step acc pos val digs d cs h k z =
    let e : b'0' + d - b'0' ≡ d = omega arith in ground (arith, e)

dot_step :
    (acc pos val digs : ℕ) (cs : List ℕ)
    → 0 < digs
    → pos < 3
    → parse_fields acc pos val digs (b'.' ∷ cs) ≡ parse_fields (acc * 256 + val) (suc pos) 0 0 cs
unfolding parse_fields
dot_step acc pos val digs cs h k = ground arith

-- How many digits a number below 1000 has.
abbrev digits : ℕ → ℕ
digits n = if ltb n 10 then 1 else if ltb n 100 then 2 else 3

read_as :
    (n digs acc pos : ℕ) (rest : List ℕ) {m : ℕ}
    → m ≡ n
    → parse_fields acc pos m digs rest ≡ parse_fields acc pos n digs rest
read_as n digs acc pos rest e = ap (λ (v : ℕ). parse_fields acc pos v digs rest) e

-- Reading the digits of a field from its start.
fields-decimal :
    (acc pos n : ℕ) (rest : List ℕ)
    → n < 256
    → parse_fields acc pos 0 0 (decimal n ++ rest) ≡ parse_fields acc pos n (digits n) rest
unfolding decimal
fields-decimal acc pos n rest h = elim (Bool-cases (ltb n 10)) [
  | inl e ↦ rw e (
      digit_step acc pos 0 0 n rest (ground arith) (ground arith) (inl refl)
      ∙ read_as n 1 acc pos rest (omega arith))
  | inr e ↦ elim (Bool-cases (ltb n 100)) [
    | inl f ↦
        rw (e, f)
          (digit_step acc pos 0 0 (n / 10) ((b'0' + n % 10) ∷ rest) (ground arith) (ground arith)
              (inl refl)
            ∙ digit_step acc pos (0 * 10 + n / 10) 1 (n % 10) rest (ground arith) (ground arith)
                (inr (ground arith))
            ∙ read_as n 2 acc pos rest (omega arith))
    | inr f ↦
        rw (e, f)
          (digit_step acc pos 0 0 (n / 100) ((b'0' + n / 10 % 10) ∷ (b'0' + n % 10) ∷ rest)
              (ground arith) (ground arith) (inl refl)
            ∙ digit_step acc pos (0 * 10 + n / 100) 1 (n / 10 % 10) ((b'0' + n % 10) ∷ rest)
                (ground arith) (ground arith) (inr (ground arith))
            ∙ digit_step acc pos ((0 * 10 + n / 100) * 10 + n / 10 % 10) 2 (n % 10) rest
                (ground arith) (ground arith) (inr (ground arith))
            ∙ read_as n 3 acc pos rest (omega arith))
  ]
]

bits-decimal : (n : ℕ) → n ≤ 32 → parse_bits (decimal n) ≡ some n
unfolding parse_bits decimal
bits-decimal n h = ground arith

-- The text of an address.
render_addr : ℕ → List ℕ
render_addr a =
    decimal (a / 16777216)
    ++ (b'.'
        ∷ (decimal (a / 65536 % 256)
            ++ (b'.' ∷ (decimal (a / 256 % 256) ++ (b'.' ∷ decimal (a % 256))))))

render-split : (p : Prefix) → render p ≡ render_addr p.addr ++ (b'/' ∷ decimal p.bits)
unfolding render render_addr
render-split p = simp append_assoc

no_slash : (d : ℕ) → ((b'0' + d) =? b'/') ≡ false
no_slash d = ground arith

cut-render :
    (xs : List ℕ) (n : ℕ)
    → n ≤ 32
    → cut_last (reverse (xs ++ (b'/' ∷ decimal n))) [] ≡ some (xs, decimal n)
unfolding cut_last decimal
cut-render xs n h = elim (Bool-cases (ltb n 10)) [
  | inl e ↦ rw (e, reverse-append) (rw (no_slash n) (rw (reverse-reverse xs)))
  | inr e ↦
      let f : ltb n 100 ≡ true = ground arith in
      rw (e, f, reverse-append)
        (rw (no_slash (n % 10)) (rw (no_slash (n / 10)) (rw (reverse-reverse xs))))
]

dot_after :
    (acc pos n : ℕ) (rest : List ℕ)
    → n < 256
    → pos < 3
    → parse_fields acc pos 0 0 (decimal n ++ (b'.' ∷ rest))
      ≡ parse_fields (acc * 256 + n) (suc pos) 0 0 rest
dot_after acc pos n rest h k =
    fields-decimal acc pos n (b'.' ∷ rest) h ∙ dot_step acc pos n (digits n) rest (ground arith) k

last_field : (acc n : ℕ) → n < 256 → parse_fields acc 3 0 0 (decimal n) ≡ some (acc * 256 + n)
unfolding parse_fields
last_field acc n h = let e = fields-decimal acc 3 n [] h in rw append-nil at e ∙ ground arith

parse-render_addr : (a : ℕ) → a < 2 ^ 32 → parse_addr4 (render_addr a) ≡ some a
unfolding parse_addr4 render_addr
parse-render_addr a h =
    dot_after 0 0 (a / 16777216) _ (omega arith) (omega arith)
    ∙ dot_after (0 * 256 + a / 16777216) 1 (a / 65536 % 256) _ (omega arith) (omega arith)
    ∙ dot_after ((0 * 256 + a / 16777216) * 256 + a / 65536 % 256) 2 (a / 256 % 256) _ (omega arith)
        (omega arith)
    ∙ last_field (((0 * 256 + a / 16777216) * 256 + a / 65536 % 256) * 256 + a / 256 % 256)
        (a % 256) (omega arith)
    ∙ ap some (omega arith)

parse_prefix_parts :
    (cs before after : List ℕ) (a b : ℕ)
    → cut_last (reverse cs) [] ≡ some (before, after)
    → parse_addr4 before ≡ some a
    → parse_bits after ≡ some b
    → parse_prefix cs ≡ some (record { addr = a; bits = b })
unfolding parse_prefix
parse_prefix_parts cs before after a b h k l = ground (arith, h, k, l)

-- Reading the text of an IPv4 prefix gives the prefix back.
pub parse-render : (p : Prefix) → IsPrefix4 p → parse_prefix (render p) ≡ some p
parse-render p h =
    ap parse_prefix (render-split p)
    ∙ parse_prefix_parts (render_addr p.addr ++ (b'/' ∷ decimal p.bits)) (render_addr p.addr)
        (decimal p.bits) p.addr p.bits (cut-render (render_addr p.addr) p.bits h.1)
        (parse-render_addr p.addr h.0) (bits-decimal p.bits h.1)
