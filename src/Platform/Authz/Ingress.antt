-- ===== src/Platform/Authz/Ingress.antt =====
-- The loop of `EffectiveIngress` in internal/platform/authz.go, by the rules and their ranges.
use planless.Prelude.{
  ℕ, ◌≡◌, ◌↔◌, ◌⊎◌, sym, ◌∙◌, String, true, false, ◌||◌, none, some, List, [], ◌∷◌, Has, here,
  there, Bool-cases, Option-cases, inl, inr, arith,
}
use planless.Netset.{NetSet, parse, contains, union}
use planless.Netset.Ip.{v4}
use planless.Netset.Canonical.{IsNormalSet}
use planless.Netset.Coverage.{InCidr, contains-parse, parse-IsNormalSet}
use planless.Netset.Operations.{contains-union, union-IsNormalSet}
use planless.Platform.Model.{NetworkRule, Workload, Port}
use planless.Platform.Authz.{concerns, join_rule, ingress_from}

-- The rule is for this port, and the address lies in one of its source ranges.
pub record Opens (w : Workload) (p : Port) (v : ℕ) (r : NetworkRule) : Type 0 where
  pub for_port : concerns w p r ≡ true
  pub from_source : Has (InCidr v) r.source_ranges

-- A rule for this port whose source ranges cannot be read.
pub record IsUnreadable (w : Workload) (p : Port) (r : NetworkRule) : Type 0 where
  pub for_port : concerns w p r ≡ true
  pub unread : parse r.source_ranges ≡ none

module _ (w : Workload) (p : Port) where
  ingress_skip :
      (permitted : NetSet) (rule : String) (r : NetworkRule) (rest : List NetworkRule)
      → concerns w p r ≡ false
      → ingress_from permitted rule (r ∷ rest) w p ≡ ingress_from permitted rule rest w p
  unfolding ingress_from
  ingress_skip permitted rule r rest e = rw e

  ingress_take :
      (permitted : NetSet) (rule : String) (r : NetworkRule) (rest : List NetworkRule)
      (set : NetSet)
      → concerns w p r ≡ true
      → parse r.source_ranges ≡ some set
      → ingress_from permitted rule (r ∷ rest) w p
        ≡ ingress_from (union (some permitted) (some set)) (join_rule rule r.id) rest w p
  unfolding ingress_from
  ingress_take permitted rule r rest set e h = rw e (rw h)

  ingress_stop :
      (permitted : NetSet) (rule : String) (r : NetworkRule) (rest : List NetworkRule)
      → concerns w p r ≡ true
      → parse r.source_ranges ≡ none
      → ingress_from permitted rule (r ∷ rest) w p ≡ none
  unfolding ingress_from
  ingress_stop permitted rule r rest e h = rw e (rw h)

  module _ (v : ℕ) where
    -- What the loop over the rules gives, from a set that was permitted before.
    pub record Permitted (before : NetSet) (rules : List NetworkRule) (set : NetSet) : Type 0 where
      pub normal : IsNormalSet set
      pub to :
          contains (some set) (v4 v) ≡ true
          → (contains (some before) (v4 v) ≡ true) ⊎ Has (Opens w p v) rules
      pub from_before : contains (some before) (v4 v) ≡ true → contains (some set) (v4 v) ≡ true
      pub from_rule : Has (Opens w p v) rules → contains (some set) (v4 v) ≡ true

    take_step :
        (before next set : NetSet) (r : NetworkRule) (rest : List NetworkRule)
        → concerns w p r ≡ true
        → parse r.source_ranges ≡ some next
        → IsNormalSet before
        → Permitted (union (some before) (some next)) rest set
        → Permitted before (r ∷ rest) set
    take_step before next set r rest a e n d = record {
      normal = d.normal;
      to = λ h. elim (d.to h) [
        | inr later ↦ inr (there later)
        | inl u ↦ elim (Bool-cases (contains (some before) (v4 v))) [
          | inl b ↦ inl b
          | inr b ↦
              inr (
                here
                  (record { for_port = a; from_source = meaning.0 (ground (arith, both, u, b)) }))
        ]
      ];
      from_before = λ h. d.from_before (ground (arith, both, h));
      from_rule = from_rule;
    }
      where
        meaning : (contains (some next) (v4 v) ≡ true) ↔ Has (InCidr v) r.source_ranges
        meaning = contains-parse r.source_ranges next v e

        both :
            contains (some (union (some before) (some next))) (v4 v)
            ≡ (contains (some before) (v4 v) || contains (some next) (v4 v))
        both = contains-union before next n (parse-IsNormalSet r.source_ranges next e) v

        from_rule : Has (Opens w p v) (r ∷ rest) → contains (some set) (v4 v) ≡ true
        from_rule (here o) = d.from_before (ground (arith, both, meaning.1 o.from_source))
        from_rule (there h) = d.from_rule h

    skip_step :
        (before set : NetSet) (r : NetworkRule) (rest : List NetworkRule)
        → concerns w p r ≡ false
        → Permitted before rest set
        → Permitted before (r ∷ rest) set
    skip_step before set r rest a d = record {
      normal = d.normal;
      to = λ h. elim (d.to h) [ inl b ↦ inl b | inr later ↦ inr (there later) ];
      from_before = d.from_before;
      from_rule = from_rule;
    }
      where
        from_rule : Has (Opens w p v) (r ∷ rest) → contains (some set) (v4 v) ≡ true
        from_rule (here o) = absurd (cc (o.for_port, a))
        from_rule (there h) = d.from_rule h

    pub ingress_lem :
        (before : NetSet) (rule : String) (rules : List NetworkRule) (set : NetSet) (used : String)
        → IsNormalSet before
        → ingress_from before rule rules w p ≡ some (set, used)
        → Permitted before rules set
    unfolding ingress_from
    ingress_lem before rule [] set used n e =
        let same : before ≡ set = ground (arith, e) in
        rw (← same) (record {
          normal = n;
          to = λ h. inl h;
          from_before = λ h. h;
          from_rule = λ h. elim h [ ];
        })
    ingress_lem before rule (r ∷ rest) set used n e = elim (Bool-cases (concerns w p r)) [
      | inr a ↦
          skip_step before set r rest a
            (ingress_lem before rule rest set used n (sym (ingress_skip before rule r rest a) ∙ e))
      | inl a ↦ elim (Option-cases (parse r.source_ranges)) [
        | inl h ↦ absurd (cc (ingress_stop before rule r rest a h, e))
        | inr (next, h) ↦ take_step before next set r rest a h n (
            ingress_lem (union (some before) (some next)) (join_rule rule r.id) rest set used
              (union-IsNormalSet before next n (parse-IsNormalSet r.source_ranges next h))
              (sym (ingress_take before rule r rest next a h) ∙ e))
      ]
    ]

  pub ingress-none→ :
      (before : NetSet) (rule : String) (rules : List NetworkRule)
      → ingress_from before rule rules w p ≡ none
      → Has (IsUnreadable w p) rules
  unfolding ingress_from
  ingress-none→ before rule [] e = absurd (cc e)
  ingress-none→ before rule (r ∷ rest) e = elim (Bool-cases (concerns w p r)) [
    | inr a ↦ there (ingress-none→ before rule rest (sym (ingress_skip before rule r rest a) ∙ e))
    | inl a ↦ elim (Option-cases (parse r.source_ranges)) [
      | inl h ↦ here (record { for_port = a; unread = h })
      | inr (next, h) ↦ there (
          ingress-none→ (union (some before) (some next)) (join_rule rule r.id) rest
            (sym (ingress_take before rule r rest next a h) ∙ e))
    ]
  ]

  pub ingress-none← :
      (before : NetSet) (rule : String) {rules : List NetworkRule}
      → Has (IsUnreadable w p) rules
      → ingress_from before rule rules w p ≡ none
  ingress-none← before rule (here {x = r} {xs = rest} u) =
      ingress_stop before rule r rest u.for_port u.unread
  ingress-none← before rule (there {x = r} {xs = rest} h) = elim (Bool-cases (concerns w p r)) [
    | inr a ↦ ingress_skip before rule r rest a ∙ ingress-none← before rule h
    | inl a ↦ elim (Option-cases (parse r.source_ranges)) [
      | inl n ↦ ingress_stop before rule r rest a n
      | inr (next, e) ↦
          ingress_take before rule r rest next a e
          ∙ ingress-none← (union (some before) (some next)) (join_rule rule r.id) h
    ]
  ]
