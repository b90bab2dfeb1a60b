-- ===== src/Netset/Prefixes.antt =====
-- The prefixes that internal/netset/netset.go reads, and the interval of each.
use mathlib.Core.List.{reverse}
use native.Mathlib.Nat.{
  div-add-mod, mod-lt, one-le-pow, pow-zero, pow-suc, div-eq_of_lt-le, div-add-mod',
  pow-le-pow_right,
}
use planless.Prelude.{
  ℕ, zero, suc, ◌+◌, ◌-◌, ◌*◌, ◌/◌, ◌%◌, ◌^◌, ◌≤◌, ◌<◌, ◌≡◌, ◌≢◌, refl, ap, ◌↔◌, true, List, [],
  ◌∷◌, ◌=?◌, arith, inl, inr, Bool-cases, Option, none, some,
}
use planless.Netset.{interval_of}
use planless.Netset.Merge.{IsRange}
use planless.Netset.Ip.{Prefix, parse_fields, parse_addr4, parse_bits, parse_prefix, cut_last}
use planless.Netset.Spans.{within}

-- What a field's place allows for the fields in front of it.
abbrev limit : ℕ → ℕ
limit zero = 1
limit (suc zero) = 256
limit (suc (suc zero)) = 65536
limit (suc (suc (suc zero))) = 16777216
limit _ = 0

limit_step :
    (pos acc val : ℕ) → acc < limit pos → val < 256 → pos ≢ 3 → acc * 256 + val < limit (suc pos)
limit_step zero acc val h k n = omega arith
limit_step (suc zero) acc val h k n = omega arith
limit_step (suc (suc zero)) acc val h k n = omega arith
limit_step (suc (suc (suc zero))) acc val h k n = absurd (n refl)
limit_step (suc (suc (suc (suc p)))) acc val h k n = omega arith

parse_fields_bound :
    (acc pos val digs : ℕ) (cs : List ℕ) (r : ℕ)
    → acc < limit pos
    → val < 256
    → parse_fields acc pos val digs cs ≡ some r
    → r < 2 ^ 32
unfolding parse_fields
parse_fields_bound acc pos val digs [] r h k e = elim (Bool-cases (pos =? 3)) [
  | inl p ↦
      let three : pos ≡ 3 = ground arith in
      let small : acc < 16777216 = rw three at h in ground arith
  | inr p ↦ ground arith
]
parse_fields_bound acc pos val digs (c ∷ cs) r h k e = ground (
  arith,
  parse_fields_bound acc pos (val * 10 + (c - b'0')) (suc digs) cs r h,
  parse_fields_bound (acc * 256 + val) (suc pos) 0 0 cs r,
  limit_step pos acc val h k,
)

-- An address that is read is below `2 ^ 32`.
pub parse_addr4_bound : (cs : List ℕ) (a : ℕ) → parse_addr4 cs ≡ some a → a < 2 ^ 32
unfolding parse_addr4
parse_addr4_bound cs a e = parse_fields_bound 0 0 0 0 cs a (omega arith) (omega arith) e

parse_bits_bound : (cs : List ℕ) (b : ℕ) → parse_bits cs ≡ some b → b ≤ 32
unfolding parse_bits
parse_bits_bound [] b e = cc e
parse_bits_bound (c ∷ []) b e = ground arith
parse_bits_bound (c ∷ d ∷ []) b e = ground arith
parse_bits_bound (c ∷ d ∷ f ∷ cs) b e = cc e

-- A prefix over 32-bit addresses.
abbrev pub IsPrefix4 : Prefix → Type 0
IsPrefix4 p = (p.addr < 2 ^ 32) × (p.bits ≤ 32)

-- The address of a prefix that is read is below 2 ^ 32 and its length is at most 32.
pub parse_prefix-IsPrefix4 : (cs : List ℕ) (p : Prefix) → parse_prefix cs ≡ some p → IsPrefix4 p
unfolding parse_prefix
parse_prefix-IsPrefix4 cs p e = go (cut_last (reverse cs) []) refl
  where
    read :
        (t : List ℕ × List ℕ) (x y : Option ℕ)
        → parse_addr4 t.0 ≡ x
        → parse_bits t.1 ≡ y
        → cut_last (reverse cs) [] ≡ some t
        → IsPrefix4 p
    read t none y hx hy ht = ground (arith, e, hx, ht)
    read t (some a) none hx hy ht = ground (arith, e, hx, hy, ht)
    read t (some a) (some b) hx hy ht =
        ground (arith, e, hx, hy, ht, parse_addr4_bound t.0 a hx, parse_bits_bound t.1 b hy)

    go : (t : Option (List ℕ × List ℕ)) → cut_last (reverse cs) [] ≡ t → IsPrefix4 p
    go none h = ground (arith, e, h)
    go (some t) h = read t (parse_addr4 t.0) (parse_bits t.1) refl refl h

pow_pos : (k : ℕ) → 0 < 2 ^ k
pow_pos k = one-le-pow k 2 (omega arith)

pow_split : (k n : ℕ) → 2 ^ (k + n) ≡ 2 ^ k * 2 ^ n
pow_split zero n = let e : zero + n ≡ n = omega arith in rw (e, pow-zero) (omega arith)
pow_split (suc k) n =
    let e : suc k + n ≡ suc (k + n) = omega arith in
    rw (e, pow-suc 2 (k + n), pow-suc 2 k) (grind (arith, pow_split k n))

-- The block of `m` addresses around `a` ends within a multiple of `m` that is above `a`.
block_end : (a m n : ℕ) → 0 < m → a < n * m → a - a % m + m ≤ n * m
block_end a m n h k = grind (arith, div-add-mod a m, mod-lt)

same_block : (a v m : ℕ) → 0 < m → ((a - a % m ≤ v) × (v < a - a % m + m)) ↔ (v / m ≡ a / m)
same_block a v m h = (
  λ r.
      let e = div-add-mod' a m in
      div-eq_of_lt-le {k = a / m} m (omega (arith, e, r.0)) (grind (arith, e, r.1)),
  λ e.
      let p = div-add-mod' a m in
      let q = div-add-mod' v m in
      let r = mod-lt v h in
      let t : v / m * m ≡ a / m * m = ap (λ (x : ℕ). x * m) e in
      (omega (arith, p, q, t), omega (arith, p, q, r, t)),
)

block_le : (b : ℕ) → b ≤ 32 → 2 ^ (32 - b) ≤ 2 ^ 32
block_le b h = pow-le-pow_right {n = 2} (omega arith) {i = 32 - b} {j = 32} (omega arith)

block_split : (b : ℕ) → b ≤ 32 → 2 ^ 32 ≡ 2 ^ b * 2 ^ (32 - b)
block_split b h = let e : b + (32 - b) ≡ 32 = omega arith in rw (← pow_split, e)

-- The wrap-around in the source's upper end never shows.
hi_lem :
    (lo m : ℕ)
    → 0 < m
    → m ≤ 2 ^ 32
    → lo + m ≤ 2 ^ 32
    → (lo + (m % 2 ^ 32 + 2 ^ 32 - 1) % 2 ^ 32) % 2 ^ 32 ≡ lo + m - 1
hi_lem lo m h k l = omega arith

abbrev pub block : Prefix → ℕ
block p = 2 ^ (32 - p.bits)

-- The interval of a prefix of a 32-bit address with a length of at most 32 begins at the address
-- with the bits behind the length cleared, ends as many addresses later as the prefix has, less
-- one, and lies below 2 ^ 32, so neither the shift nor the sum wraps around into it.
pub interval_of_ends :
    (p : Prefix)
    → IsPrefix4 p
    → ((interval_of p).lo ≡ p.addr - p.addr % block p)
      × ((interval_of p).hi ≡ p.addr - p.addr % block p + block p - 1)
      × (0 < block p)
      × (p.addr - p.addr % block p + block p ≤ 2 ^ 32)
unfolding interval_of
interval_of_ends p h =
    let m = block p in
    let pos : 0 < m = pow_pos (32 - p.bits) in
    let split : 2 ^ 32 ≡ 2 ^ p.bits * m = block_split p.bits h.1 in
    let low : p.addr < 2 ^ p.bits * m = omega (arith, h.0, split) in
    let end = block_end p.addr m (2 ^ p.bits) pos low in
    let top : p.addr - p.addr % m + m ≤ 2 ^ 32 = omega (arith, end, split) in
    (refl, hi_lem (p.addr - p.addr % m) m pos (block_le p.bits h.1) top, pos, top)

pub interval_of-IsRange : (p : Prefix) → IsPrefix4 p → IsRange (interval_of p)
interval_of-IsRange p h = let e = interval_of_ends p h in omega (arith, e.0, e.1, e.2, e.3)

-- A prefix's interval holds the addresses that agree with it before the prefix's end.
pub within-interval_of :
    (p : Prefix) (v : ℕ)
    → IsPrefix4 p
    → (within v (interval_of p) ≡ true) ↔ (v / block p ≡ p.addr / block p)
within-interval_of p v h =
    let e = interval_of_ends p h in
    let (to, from) = same_block p.addr v (block p) e.2 in
    (
      λ w. to (ground (arith, e.0, e.1, e.2), ground (arith, e.0, e.1, e.2)),
      λ q. ground (arith, from q, e.0, e.1, e.2),
    )
