-- ===== src/Platform/Authz/Connect.antt =====
-- Who may connect to a workload's port, stated by the network rules and the bind address.
use planless.Prelude.{
  ℕ, ◌/◌, ◌^◌, ◌≡◌, ◌↔◌, sym, ap, ◌∙◌, String, true, false, ◌&&◌, some, List, [], ◌∷◌,
  if◌then◌else◌, ◌==◌, ◌=?◌, Has, Bool-cases, Option-cases, inl, inr, arith,
}
use planless.Prelude.Text.{codes}
use planless.Netset.{NetSet, parse, contains, empty, intersect, all_addresses}
use planless.Netset.Ip.{Addr, v4, parse_addr4}
use planless.Netset.Canonical.{IsNormalSet}
use planless.Netset.Coverage.{parse-IsNormalSet}
use planless.Netset.Operations.{contains-intersect}
use planless.Platform.Model.{Segment, Workload, Port, State, Caller}
use planless.Platform.Authz.{
  ingress_from, effective_ingress, segment_reach, bind_reach, connect_decision, bind_unreachable,
  no_rule,
}
use planless.Platform.Authz.Ingress.{Opens, IsUnreadable, ingress_lem, ingress-none→, ingress-none←}

segment_reach-IsNormalSet :
    (segs : List Segment) (addr : Addr) (set : NetSet)
    → segment_reach segs addr ≡ some set
    → IsNormalSet set
unfolding segment_reach
segment_reach-IsNormalSet [] addr set e = let p : empty ≡ set = ground (arith, e) in rw (← p) tt
segment_reach-IsNormalSet (s ∷ rest) addr set e = elim (Option-cases (parse (s.cidr ∷ []))) [
  | inl n ↦ absurd (ground (arith, e, n))
  | inr (t, h) ↦ elim (Bool-cases (contains (some t) addr)) [
    | inl c ↦
        let p : t ≡ set = ground (arith, e, h, c) in rw (← p) (parse-IsNormalSet (s.cidr ∷ []) t h)
    | inr c ↦ segment_reach-IsNormalSet rest addr set (ground (arith, e, h, c))
  ]
]

bind_reach-IsNormalSet :
    (bind : String) (segs : List Segment) (set : NetSet)
    → bind_reach bind segs ≡ some set
    → IsNormalSet set
unfolding bind_reach
bind_reach-IsNormalSet bind segs set e = elim (Option-cases (parse_addr4 (codes bind))) [
  | inl n ↦ absurd (ground (arith, e, n))
  | inr (a, h) ↦ elim (Bool-cases (bind == "")) [
    | inl b ↦ absurd (ground (arith, e, b))
    | inr b ↦ elim (Bool-cases (a / 2 ^ 24 =? 127)) [
      | inl l ↦ let p : empty ≡ set = ground (arith, e, h, b, l) in rw (← p) tt
      | inr l ↦ elim (Bool-cases (a =? 0)) [
        | inl z ↦
            parse-IsNormalSet ("0.0.0.0/0" ∷ []) set
              (unfold all_addresses in ground (arith, e, h, b, l, z))
        | inr z ↦ segment_reach-IsNormalSet segs (v4 a) set (ground (arith, e, h, b, l, z))
      ]
    ]
  ]
]

-- What the platform demands of a connect to the port `p` of `w`: every rule for the port can be
-- read, one of them holds the address, and the bind address serves it.
pub record MayConnect (st : State) (v : ℕ) (w : Workload) (p : Port) : Type 0 where
  pub readable : ¬ Has (IsUnreadable w p) st.network_rules
  pub opened : Has (Opens w p v) st.network_rules
  pub reach : NetSet
  pub bound : bind_reach p.bind st.segments ≡ some reach
  pub served : contains (some reach) (v4 v) ≡ true

module _ (st : State) (c : Caller) (v : ℕ) (w : Workload) (p : Port) (from_v : c.addr ≡ v4 v) where
  -- The decision, once the loop over the rules and the bind address have given their sets.
  decided :
      (permitted reach : NetSet) (rule : String)
      → ingress_from empty "" st.network_rules w p ≡ some (permitted, rule)
      → bind_reach p.bind st.segments ≡ some reach
      → (connect_decision st c w p).allowed
        ≡ contains (some (intersect (some permitted) (some reach))) (v4 v)
  unfolding connect_decision effective_ingress
  decided permitted reach rule i b =
      let at : (connect_decision st c w p).allowed
          ≡ contains (some (intersect (some permitted) (some reach))) c.addr =
        ground (arith, i, b) in
      at ∙ ap (λ (a : Addr). contains (some (intersect (some permitted) (some reach))) a) from_v

  connect→ : (connect_decision st c w p).allowed ≡ true → MayConnect st v w p
  unfolding connect_decision effective_ingress
  connect→ h = elim (Option-cases (ingress_from empty "" st.network_rules w p)) [
    | inl n ↦ absurd (ground (arith, h, n))
    | inr ((permitted, rule), i) ↦ elim (Option-cases (bind_reach p.bind st.segments)) [
      | inl n ↦ absurd (ground (arith, h, i, n))
      | inr (reach, b) ↦
          let d = ingress_lem w p v empty "" st.network_rules permitted rule tt i in
          let both =
            contains-intersect permitted reach d.normal
              (bind_reach-IsNormalSet p.bind st.segments reach b) v in
          let all : (contains (some permitted) (v4 v) && contains (some reach) (v4 v)) ≡ true =
            sym both ∙ sym (decided permitted reach rule i b) ∙ h in
          record {
            readable = λ u. cc (ingress-none← w p empty "" u, i);
            opened = elim (d.to (ground (arith, all))) [
              | inl before ↦ absurd (unfold contains in cc before)
              | inr opens ↦ opens
            ];
            reach = reach;
            bound = b;
            served = ground (arith, all);
          }
    ]
  ]

  connect← : MayConnect st v w p → (connect_decision st c w p).allowed ≡ true
  connect← m = elim (Option-cases (ingress_from empty "" st.network_rules w p)) [
    | inl n ↦ absurd (m.readable (ingress-none→ w p empty "" st.network_rules n))
    | inr ((permitted, rule), i) ↦
        let d = ingress_lem w p v empty "" st.network_rules permitted rule tt i in
        let both =
          contains-intersect permitted m.reach d.normal
            (bind_reach-IsNormalSet p.bind st.segments m.reach m.bound) v in
        decided permitted m.reach rule i m.bound
        ∙ both
        ∙ ground (arith, d.from_rule m.opened, m.served)
  ]

  -- A connect from an IPv4 address to a port is allowed exactly when every rule for the port can
  -- be read, one of them holds the address in a source range, and the bind address serves the
  -- address.
  pub connect_decision_iff : ((connect_decision st c w p).allowed ≡ true) ↔ MayConnect st v w p
  connect_decision_iff = (connect→, connect←)

  -- When a connect from an IPv4 address is refused, every rule for the port can be read and the
  -- bind address has a reach, the reason is that no rule matches if the reach contains the
  -- address, and that the bind address is unreachable if not.
  pub connect_refused :
      (reach : NetSet)
      → (connect_decision st c w p).allowed ≡ false
      → ¬ Has (IsUnreadable w p) st.network_rules
      → bind_reach p.bind st.segments ≡ some reach
      → (connect_decision st c w p).reason
        ≡ (if contains (some reach) (v4 v) then no_rule else bind_unreachable)
  unfolding connect_decision effective_ingress
  connect_refused reach h r b = elim (Option-cases (ingress_from empty "" st.network_rules w p)) [
    | inl n ↦ absurd (r (ingress-none→ w p empty "" st.network_rules n))
    | inr ((permitted, rule), i) ↦
        let at : (connect_decision st c w p).reason
            ≡ (if contains (some reach) c.addr then no_rule else bind_unreachable) =
          ground (arith, h, i, b) in
        at ∙ ap (λ (a : Addr). if contains (some reach) a then no_rule else bind_unreachable) from_v
  ]

-- A listener on an IPv4 loopback address serves no IPv4 address, whatever the rules say.
pub loopback_unreachable :
    (st : State) (c : Caller) (v a : ℕ) (w : Workload) (p : Port)
    → c.addr ≡ v4 v
    → parse_addr4 (codes p.bind) ≡ some a
    → a / 2 ^ 24 ≡ 127
    → (connect_decision st c w p).allowed ≡ false
loopback_unreachable st c v a w p from_v read loop =
    elim (Bool-cases (connect_decision st c w p).allowed) [
      | inr f ↦ f
      | inl t ↦
          let m = connect→ st c v w p from_v t in absurd (none_served m.reach m.bound m.served)
    ]
  where
    none_served :
        (reach : NetSet)
        → bind_reach p.bind st.segments ≡ some reach
        → contains (some reach) (v4 v) ≡ true
        → ⊥
    none_served reach b s =
        let e : empty ≡ reach = (unfold bind_reach in ground (arith, b, read, loop)) in
        (unfold contains in cc (rw (← e) at s))
