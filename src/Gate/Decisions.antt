-- ===== src/Gate/Decisions.antt =====
-- The gate fails closed: what `Evaluate` of internal/gate/gate.go admits.
use planless.Prelude.{
  ℕ, ◌≡◌, ◌≢◌, ◌↔◌, ◌⊎◌, refl, sym, ◌∙◌, true, false, some, List, ◌==◌, Bool-cases, Option-cases,
  inl, inr, text_eq→eq, eq→text_eq,
}
use planless.Gate.{
  Decision, Process, done, failed, not_started, timed_out, Env, EvalOutput, first_value,
  has_violations, or_empty, checked, parse, evaluate, query, result_admit, result_deny,
}

-- Every step to an admission: a valid input, an allowlist, an engine that ends well, and a first
-- answer that is a decision to admit and lists no violation.
pub record Admitted (env : Env) (graph : List ℕ) : Type 0 where
  pub valid : env.is_valid graph ≡ true
  pub allowlist : env.has_allowlist ≡ true
  pub raw : List ℕ
  pub ran : env.engine graph query ≡ done raw
  pub out : EvalOutput
  pub read : env.read_output raw ≡ some out
  pub value : List ℕ
  pub answer : first_value out ≡ some value
  pub decision : Decision
  pub decoded : env.read_decision value ≡ some decision
  pub admits : decision.result ≡ "admit"
  pub clean : has_violations decision ≡ false

deny-ne-admit : result_deny ≢ "admit"
deny-ne-admit p = let differ : (result_deny == "admit") ≡ false = refl in cc (eq→text_eq p, differ)

-- What `parse` makes of a decoded decision: a denial, or the same decision with its result known.
pub data Checked (d r : Decision) : Type 0 where
  denied : r.result ≡ result_deny → Checked d r
  admitted :
      d.result ≡ "admit"
      → has_violations d ≡ false
      → r.result ≡ "admit"
      → r.violations ≡ or_empty d.violations
      → Checked d r

checked-Checked : (d : Decision) → Checked d (checked d)
unfolding checked
checked-Checked d = elim (Bool-cases (d.result == result_admit)) [
  | inl a ↦ elim (Bool-cases (has_violations d)) [
    | inl v ↦ denied (rw a (rw v refl))
    | inr v ↦
        let is : d.result ≡ "admit" = text_eq→eq a in
        admitted is v (rw a (rw v is)) (rw a (rw v refl))
  ]
  | inr a ↦ elim (Bool-cases (d.result == result_deny)) [
    | inl e ↦ denied (rw a (rw e (text_eq→eq e)))
    | inr e ↦ denied (rw a (rw e refl))
  ]
]

Process-cases : (p : Process) → ((raw : List ℕ) × (p ≡ done raw)) ⊎ ((raw : List ℕ) → p ≢ done raw)
Process-cases (done raw) = inl (raw, refl)
Process-cases (failed raw) = inr (λ r e. cc e)
Process-cases not_started = inr (λ r e. cc e)
Process-cases timed_out = inr (λ r e. cc e)

-- How `Evaluate` ends.
pub data Evaluated (env : Env) (graph : List ℕ) : Type 0 where
  denied : (evaluate env graph).result ≡ result_deny → Evaluated env graph
  admitted : Admitted env graph → (evaluate env graph).result ≡ "admit" → Evaluated env graph

module _ (env : Env) (graph : List ℕ) where
  ran_denied :
      (p : Process)
      → env.is_valid graph ≡ true
      → env.has_allowlist ≡ true
      → ((raw : List ℕ) → p ≢ done raw)
      → env.engine graph query ≡ p
      → (evaluate env graph).result ≡ result_deny
  unfolding evaluate
  ran_denied (done raw) v a n e = absurd (n raw refl)
  ran_denied (failed raw) v a n e = rw v (rw a (rw e refl))
  ran_denied not_started v a n e = rw v (rw a (rw e refl))
  ran_denied timed_out v a n e = rw v (rw a (rw e refl))

  parsed :
      (raw : List ℕ)
      → env.is_valid graph ≡ true
      → env.has_allowlist ≡ true
      → env.engine graph query ≡ done raw
      → evaluate env graph ≡ parse env raw
  unfolding evaluate
  parsed raw v a e = rw v (rw a (rw e refl))

  parse-Evaluated :
      (raw : List ℕ)
      → env.is_valid graph ≡ true
      → env.has_allowlist ≡ true
      → env.engine graph query ≡ done raw
      → Evaluated env graph
  unfolding parse
  parse-Evaluated raw v a e =
      let is = parsed raw v a e in
      elim (Option-cases (env.read_output raw)) [
        | inl n ↦ denied (rw is (rw (n, parse) refl))
        | inr (out, o) ↦ elim (Option-cases (first_value out)) [
          | inl n ↦ denied (rw is (rw (o, parse) (rw n refl)))
          | inr (value, f) ↦ elim (Option-cases (env.read_decision value)) [
            | inl n ↦ denied (rw is (rw (o, parse) (rw f (rw n refl))))
            | inr (d, r) ↦
                let same : evaluate env graph ≡ checked d =
                  rw is (rw (o, parse) (rw f (rw r refl))) in
                elim (checked-Checked d) [
                  | Checked.denied c ↦ denied (rw same c)
                  | Checked.admitted is_admit clean c l ↦
                      admitted
                        (record {
                          valid = v;
                          allowlist = a;
                          raw = raw;
                          ran = e;
                          out = out;
                          read = o;
                          value = value;
                          answer = f;
                          decision = d;
                          decoded = r;
                          admits = is_admit;
                          clean = clean;
                        })
                        (rw same c)
                ]
          ]
        ]
      ]

  -- `Evaluate` denies, or every step to an admission was taken and it admits.
  pub evaluate-Evaluated : Evaluated env graph
  evaluate-Evaluated = elim (Bool-cases (env.is_valid graph)) [
    | inr v ↦ denied (unfold evaluate in rw v refl)
    | inl v ↦ elim (Bool-cases env.has_allowlist) [
      | inr a ↦ denied (unfold evaluate in rw v (rw a refl))
      | inl a ↦ elim (Process-cases (env.engine graph query)) [
        | inl (raw, e) ↦ parse-Evaluated raw v a e
        | inr n ↦ denied (ran_denied (env.engine graph query) v a n refl)
      ]
    ]
  ]

  admitted→ : (evaluate env graph).result ≡ "admit" → Admitted env graph
  admitted→ h = elim evaluate-Evaluated [
    | Evaluated.denied d ↦ absurd (deny-ne-admit (sym d ∙ h))
    | Evaluated.admitted a e ↦ a
  ]

  admitted← : Admitted env graph → (evaluate env graph).result ≡ "admit"
  unfolding parse checked
  admitted← a =
      let is = parsed a.raw a.valid a.allowlist a.ran in
      let same : evaluate env graph ≡ checked a.decision =
        is ∙ rw (a.read, parse) (rw a.answer (rw a.decoded refl)) in
      let named : (a.decision.result == result_admit) ≡ true = eq→text_eq a.admits in
      rw same (rw named (rw a.clean a.admits))

  -- The gate admits exactly when the input is valid, the allowlist is there, the engine ended
  -- well, and the first value of its output is a decision to admit that lists no violation.
  pub evaluate_admits_iff : ((evaluate env graph).result ≡ "admit") ↔ Admitted env graph
  evaluate_admits_iff = (admitted→, admitted←)
