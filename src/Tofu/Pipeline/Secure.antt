-- ===== src/Tofu/Pipeline/Secure.antt =====
-- The scenarios of internal/tofu/scenario.go that need no opt-in apply nothing that the gate did not admit.
use planless.Prelude.{
  ◌≡◌, refl, String, Bool, true, false, not, ◌&&◌, ◌||◌, ◌⊎◌, inl, inr, Option, none, some, List,
  ◌==◌, all, arith, Has, here, there, Bool-cases, subst,
}
use planless.Tofu.Scenarios.{Scenario, is_available, surface_vulnerable, acknowledged}
use planless.Tofu.Scenarios.Table.{scenarios}
use planless.Tofu.Pipeline.{Run, Env}
use planless.Tofu.Pipeline.Outcome.{has_stage}
use planless.Tofu.Pipeline.Harness.{finish}
use planless.Tofu.Pipeline.Manifest.{run}
use planless.Tofu.Pipeline.Keeps.{Ends}
use planless.Tofu.Pipeline.Frames.{On, run-Ends}
use planless.Tofu.Pipeline.Applies.{IsApproved, run-IsAccounted}
use planless.Tofu.Pipeline.Unapplied.{Unapplied, run_available-Unapplied}

-- The scenario needs an opt-in, or the gate stands on its only path to the apply, or it applies nothing.
abbrev is_guarded : Scenario → Bool
is_guarded s =
    s.is_vulnerable
    || (not s.scan
        && (not s.denylist
            && (not s.out_of_band && (not s.is_advisory && (s.is_gated || s.skip_apply)))))

scenarios_guarded : all is_guarded scenarios ≡ true
scenarios_guarded = refl

-- What a test says of a list it holds of an element says of the element.
all-Has :
    {A : Type 0} (p : A → Bool) {a : A} {l : List A}
    → all p l ≡ true
    → Has (λ b. b ≡ a) l
    → p a ≡ true
all-Has p h (here e) = subst (λ x. p x ≡ true) e (ground (arith, h))
all-Has p h (there t) = all-Has p (ground (arith, h)) t

-- The cases of a scenario that was started without the opt-ins.
guarded-cases :
    (s : Scenario)
    → is_guarded s ≡ true
    → s.is_vulnerable ≡ false
    → (s.scan ≡ false)
      × (s.denylist ≡ false)
      × (s.out_of_band ≡ false)
      × (s.is_advisory ≡ false)
      × ((s.is_gated ≡ true) ⊎ ((s.is_gated ≡ false) × (s.skip_apply ≡ true)))
guarded-cases s h v = (
  ground (arith, h, v),
  ground (arith, h, v),
  ground (arith, h, v),
  ground (arith, h, v),
  elim (Bool-cases s.is_gated) [ inl e ↦ inl e | inr e ↦ inr (e, ground (arith, h, v, e)) ],
)

started-unvulnerable :
    {W : Type 0} (env : Env W) (surface acknowledgement : String) (s : Scenario) (world : W)
    (result : Run W × Option (Unit {0}))
    → (surface == surface_vulnerable && acknowledgement == acknowledged) ≡ false
    → run env surface acknowledgement s world ≡ some result
    → s.is_vulnerable ≡ false
unfolding run is_available
started-unvulnerable env surface acknowledgement s world result not_opted ran =
    elim (Bool-cases s.is_vulnerable) [
      | inr e ↦ e
      | inl e ↦ absurd (cc (rw (e, is_available) at (rw (not_opted) at ran)))
    ]

-- Without both opt-ins, if a run of an infrastructure scenario of the table has applied anything,
-- then it had the end of a run that had applied nothing before, whose approval verified on the
-- files in the work directory, and on whose record is the gate's decision on the plan, which
-- admits it; the plan is the canonical form of what the toolchain showed of the plan artifact, and
-- the record has the digests of both.
pub run-IsApproved :
    {W : Type 0} (env : Env W) (surface acknowledgement : String) (s : Scenario) (world : W)
    (r : Run W) (answer : Option (Unit {0}))
    → Has (λ x. x ≡ s) scenarios
    → s.manifest ≡ ""
    → (surface == surface_vulnerable && acknowledgement == acknowledged) ≡ false
    → run env surface acknowledgement s world ≡ some (r, answer)
    → has_stage "apply" r.transcript ≡ true
    → (before : Run W) × IsApproved env s before × (r ≡ (finish env s before).0)
run-IsApproved env surface acknowledgement s world r answer listed infrastructure not_opted ran
      applied =
    let g =
      guarded-cases s (all-Has is_guarded scenarios_guarded listed)
        (started-unvulnerable env surface acknowledgement s world (r, answer) not_opted ran) in
    elim g.4 [
      | inl gated ↦
          run-IsAccounted env surface acknowledgement s world r answer infrastructure gated g.3 g.0
            g.1 g.2 ran applied
      | inr (ungated, planned) ↦
          let unapplied = by_answer answer (
            run-Ends env surface acknowledgement s world (r, answer) (On Unapplied) _ _ ran
              (run_available-Unapplied env s g.2 (inl planned) infrastructure g.0 g.1) refl) in
          absurd (cc (applied, unapplied))
    ]
  where
    by_answer :
        (o : Option (Unit {0})) → Ends (λ _. On Unapplied) (On Unapplied) (r, o) → On Unapplied r
    by_answer none h = h
    by_answer (some _) h = h
