-- ===== src/Platform/Authz/Grants.antt =====
-- `EffectiveGrants` of internal/platform/authz.go, and the scans of its result: which grants let a
-- caller through, by their principals and by the addresses that their ranges hold.
use planless.Prelude.{
  ℕ, ◌≡◌, ◌↔◌, refl, sym, ◌∙◌, String, Bool, true, false, ◌&&◌, Option, none, some, List, [], ◌∷◌,
  any, Has, here, there, Bool-cases, Option-cases, inl, inr, arith,
}
use planless.Netset.{NetSet, parse, contains}
use planless.Netset.Ip.{Addr, v4}
use planless.Netset.Coverage.{InCidr, contains-parse}
use planless.Platform.Model.{Grant}
use planless.Platform.Authz.{Exposure, applies, effective_grants}

-- The grant is for this resource and action, its principals pass the test, and the address lies in
-- one of its source ranges.
pub record Permits (kind name action : String) (named : List String → Bool) (v : ℕ) (g : Grant)
    : Type 0 where
  pub for_resource : applies kind name action g ≡ true
  pub for_principal : named g.principals ≡ true
  pub from_source : Has (InCidr v) g.source_ranges

-- A grant for the resource and action whose source ranges cannot be read.
pub record IsUnreadable (kind name action : String) (g : Grant) : Type 0 where
  pub for_resource : applies kind name action g ≡ true
  pub unread : parse g.source_ranges ≡ none

-- The test of a scan: on the principals of an exposure and on its sources.
abbrev pub admits : (List String → Bool) → Addr → Exposure → Bool
admits named addr e = named e.principals && contains (some e.sources) addr

module _ (kind name action : String) where
  -- How a list of exposures begins, when its first grant applies.
  record Cons (g : Grant) (rest : List Grant) (es : List Exposure) : Type 0 where
    sources : NetSet
    more : List Exposure
    read : parse g.source_ranges ≡ some sources
    later : effective_grants rest kind name action ≡ some more
    parts : es ≡ record { principals = g.principals; sources = sources; rule = g.id } ∷ more

  effective_grants-Cons :
      (g : Grant) (rest : List Grant) (es : List Exposure)
      → applies kind name action g ≡ true
      → effective_grants (g ∷ rest) kind name action ≡ some es
      → Cons g rest es
  unfolding effective_grants
  effective_grants-Cons g rest es a e =
      go (parse g.source_ranges) (effective_grants rest kind name action) refl refl
    where
      go :
          (x : Option NetSet) (y : Option (List Exposure))
          → parse g.source_ranges ≡ x
          → effective_grants rest kind name action ≡ y
          → Cons g rest es
      go none y hx hy = absurd (ground (arith, e, a, hx))
      go (some s) none hx hy = absurd (ground (arith, e, a, hx, hy))
      go (some s) (some more) hx hy = record {
        sources = s;
        more = more;
        read = hx;
        later = hy;
        parts = ground (arith, e, a, hx, hy);
      }

  effective_grants_skip :
      (g : Grant) (rest : List Grant)
      → applies kind name action g ≡ false
      → effective_grants (g ∷ rest) kind name action ≡ effective_grants rest kind name action
  unfolding effective_grants
  effective_grants_skip g rest a = rw a

  module _ (named : List String → Bool) (v : ℕ) where
    abbrev pub Goal : List Grant → List Exposure → Type 0
    Goal gs es = (any (admits named (v4 v)) es ≡ true) ↔ Has (Permits kind name action named v) gs

    first_admits :
        (g : Grant) (s : NetSet)
        → applies kind name action g ≡ true
        → parse g.source_ranges ≡ some s
        → (admits named (v4 v) (record { principals = g.principals; sources = s; rule = g.id })
            ≡ true)
          ↔ Permits kind name action named v g
    first_admits g s a e =
        let (to, from) = contains-parse g.source_ranges s v e in
        (
          λ h. record {
            for_resource = a;
            for_principal = ground (arith, h);
            from_source = to (ground (arith, h));
          },
          λ p. ground (arith, p.for_principal, from p.from_source),
        )

    scan_step :
        (g : Grant) (rest : List Grant) (es : List Exposure)
        → applies kind name action g ≡ true
        → Cons g rest es
        → ((more : List Exposure)
            → effective_grants rest kind name action ≡ some more
            → Goal rest more)
        → Goal (g ∷ rest) es
    scan_step g rest es a c ih = rw c.parts (to, from)
      where
        e : Exposure
        e = record { principals = g.principals; sources = c.sources; rule = g.id }

        one : (admits named (v4 v) e ≡ true) ↔ Permits kind name action named v g
        one = first_admits g c.sources a c.read

        others :
            (any (admits named (v4 v)) c.more ≡ true) ↔ Has (Permits kind name action named v) rest
        others = ih c.more c.later

        to :
            any (admits named (v4 v)) (e ∷ c.more) ≡ true
            → Has (Permits kind name action named v) (g ∷ rest)
        to h = elim (Bool-cases (admits named (v4 v) e)) [
          | inl t ↦ here (one.0 t)
          | inr f ↦ there (others.0 (ground (arith, h, f)))
        ]

        from :
            Has (Permits kind name action named v) (g ∷ rest)
            → any (admits named (v4 v)) (e ∷ c.more) ≡ true
        from (here p) = ground (arith, one.1 p)
        from (there h) = ground (arith, others.1 h)

    pub scan_lem :
        (gs : List Grant) (es : List Exposure)
        → effective_grants gs kind name action ≡ some es
        → Goal gs es
    unfolding effective_grants
    scan_lem [] es e =
        let p : es ≡ [] = ground (arith, e) in rw p (λ h. absurd (cc h), λ h. elim h [ ])
    scan_lem (g ∷ rest) es e = elim (Bool-cases (applies kind name action g)) [
      | inl a ↦
          scan_step g rest es a (effective_grants-Cons g rest es a e)
            (λ more m. scan_lem rest more m)
      | inr a ↦
          let ih = scan_lem rest es (sym (effective_grants_skip g rest a) ∙ e) in
          (λ h. there (ih.0 h), λ h. skip g rest a ih.1 h)
    ]
      where
        skip :
            (g : Grant) (rest : List Grant)
            → applies kind name action g ≡ false
            → (Has (Permits kind name action named v) rest → any (admits named (v4 v)) es ≡ true)
            → Has (Permits kind name action named v) (g ∷ rest)
            → any (admits named (v4 v)) es ≡ true
        skip g rest a f (here p) = absurd (cc (p.for_resource, a))
        skip g rest a f (there h) = f h

  pub unreadable→ :
      (gs : List Grant)
      → effective_grants gs kind name action ≡ none
      → Has (IsUnreadable kind name action) gs
  unfolding effective_grants
  unreadable→ [] e = absurd (cc e)
  unreadable→ (g ∷ rest) e = elim (Bool-cases (applies kind name action g)) [
    | inr a ↦ there (unreadable→ rest (sym (effective_grants_skip g rest a) ∙ e))
    | inl a ↦ elim (Option-cases (parse g.source_ranges)) [
      | inl n ↦ here (record { for_resource = a; unread = n })
      | inr s ↦ elim (Option-cases (effective_grants rest kind name action)) [
        | inl n ↦ there (unreadable→ rest n)
        | inr es ↦ absurd (ground (arith, a, s.1, es.1, e))
      ]
    ]
  ]

  pub unreadable← :
      {gs : List Grant}
      → Has (IsUnreadable kind name action) gs
      → effective_grants gs kind name action ≡ none
  unfolding effective_grants
  unreadable← (here {x = g} u) = ground (arith, u.for_resource, u.unread)
  unreadable← (there {x = g} h) =
      let ih = unreadable← h in
      elim (Bool-cases (applies kind name action g)) [
        | inr a ↦ rw a ih
        | inl a ↦ elim (Option-cases (parse g.source_ranges)) [
          | inl n ↦ ground (arith, a, n)
          | inr s ↦ ground (arith, a, s.1, ih)
        ]
      ]

  -- Resolving the grants for a resource and an action is an error exactly when one of those grants
  -- has source ranges that cannot be read.
  pub effective_grants-eq-none_iff :
      (gs : List Grant)
      → (effective_grants gs kind name action ≡ none) ↔ Has (IsUnreadable kind name action) gs
  effective_grants-eq-none_iff gs = (unreadable→ gs, unreadable←)
