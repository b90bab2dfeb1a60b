-- ===== src/Tofu/Pipeline/Endings.antt =====
-- What `finish` of internal/tofu/harness.go makes of a run that was refused, and of one that was not.
use planless.Prelude.{
  ◌∙◌, ap, ℕ, ◌+◌, ◌≡◌, refl, sym, subst, String, Bool, true, false, ◌&&◌, ◌⊎◌, inl, inr, List, [],
  ◌∷◌, ◌++◌, ◌==◌, any, any-append, length, arith,
}
use planless.Tofu.Approval.{Files}
use planless.Tofu.Transcript.{Stage, result_refused}
use planless.Tofu.Scenarios.{Scenario}
use planless.Tofu.Pipeline.{Run, Env, ◌>>◌, note, call, run_tool}
use planless.Tofu.Pipeline.Outcome.{refuse}
use planless.Tofu.Pipeline.Harness.{is_refused, enforce, observe, rehearse_drift, conclude, finish}
use planless.Tofu.Pipeline.Keeps.{
  Holds, Keeps, Holds-weaken, Holds-note, Holds-gets, Holds-if, Holds-pre, Holds-absurd,
  Holds-either, Keeps-bind, Keeps-done, Keeps-gets, keeps_rules,
}
use planless.Tofu.Pipeline.Frames.{
  Claim, On, call-Keeps, IsToolProof, observe-Keeps, conclude-Keeps, run_tool-Keeps,
}

pub length-snoc : {A : Type 0} (l : List A) (a : A) → length (l ++ (a ∷ [])) ≡ length l + 1
length-snoc [] a = refl
length-snoc (b ∷ l) a = ground (arith, length-snoc l a)

-- `n` refusals are on the record.
abbrev pub Audited : {W : Type 0} → ℕ → Claim W
Audited n stages enforcement audit decision world = length audit ≡ n

-- `n` refusals are on the record, nothing was applied, and the platform is as `V` says.
abbrev pub Quiet : {W : Type 0} → (W → Type 0) → ℕ → Claim W
Quiet V n stages enforcement audit decision world =
    (any (λ (stage : Stage). stage.name == "apply") stages ≡ false)
    × (enforcement.applied ≡ false)
    × (enforcement.operator_result ≡ result_refused)
    × (length audit ≡ n)
    × V world

-- There was no refusal, or there was one and nothing was applied.
abbrev pub Outcome : {W : Type 0} → (W → Type 0) → Run W → Type 0
Outcome V r = On (Audited 0) r ⊎ On (Quiet V 1) r

-- Before the end of a run: nothing was applied yet, with one refusal on the record or none.
abbrev pub Open : {W : Type 0} → (W → Type 0) → Run W → Type 0
Open V r = On (Quiet V 0) r ⊎ On (Quiet V 1) r

pub Audited-call : {W : Type 0} (env : Env W) (f : W → W × Bool) → Keeps (On (Audited 0)) (call f)
Audited-call env = call-Keeps env (Audited 0) λ a b c d w w' h. h

module _ {W : Type 0} (env : Env W) where
  apply-Audited : (args : List String) → Keeps (On (Audited 0)) (run_tool env "apply" args)
  apply-Audited = run_tool-Keeps env (Audited 0) "apply" λ args files stage stages e a d w p h. h

  enforce-Audited : (s : Scenario) (refused : Bool) → Keeps (On (Audited 0)) (enforce env s refused)
  unfolding enforce
  enforce-Audited s refused = search (keeps_rules, apply-Audited) depth 20

  rehearse_drift-Audited : (s : Scenario) → Keeps (On (Audited 0)) (rehearse_drift env s)
  unfolding rehearse_drift
  rehearse_drift-Audited s = search (keeps_rules, Audited-call env) depth 20

  -- What follows a refusal or its absence neither adds a refusal nor takes one back.
  pub finish-Audited : (s : Scenario) → Keeps (On (Audited 0)) (finish env s)
  unfolding finish
  finish-Audited s = Keeps-bind (Keeps-gets _) λ refused.
      Keeps-bind (enforce-Audited s refused) λ _.
        Keeps-bind (observe-Keeps env (Audited 0) s)
          λ _. Keeps-bind (rehearse_drift-Audited s) λ _. conclude-Keeps env (Audited 0) s

  module _ (V : W → Type 0) where
    -- A refused run without a second path does not apply.
    enforce-Quiet :
        (s : Scenario) → s.out_of_band ≡ false → Keeps (On (Quiet V 1)) (enforce env s true)
    unfolding enforce
    enforce-Quiet s one_path = rw one_path Keeps-done

    rehearse_drift-Quiet : (s : Scenario) → Keeps (On (Quiet V 1)) (rehearse_drift env s)
    unfolding rehearse_drift
    rehearse_drift-Quiet s = Holds-gets _ λ applied.
        Holds-if (s.drift_mutation && applied)
          (λ e. Holds-absurd λ r h. ground (arith, e, h.0, h.1.1))
          (λ _. Holds-pre (λ r h. h.1) Keeps-done)

    pub finish-Quiet :
        (s : Scenario) → s.out_of_band ≡ false → Keeps (On (Quiet V 1)) (finish env s)
    unfolding finish
    finish-Quiet s one_path = Holds-gets _ by_refused
      where
        by_refused :
            (refused : Bool)
            → Holds
                (λ r. (is_refused r.transcript ≡ refused) × On (Quiet V 1) r)
                (enforce env s refused
                  >> (observe env s >> (rehearse_drift env s >> conclude env s)))
                (λ _. On (Quiet V 1))
                (On (Quiet V 1))
        by_refused false = Holds-absurd λ r h. ground (arith, h.0, h.1.3)
        by_refused true =
            Holds-pre (λ r h. h.1)
              (Keeps-bind (enforce-Quiet s one_path) λ _.
                Keeps-bind (observe-Keeps env (Quiet V 1) s)
                  λ _. Keeps-bind (rehearse_drift-Quiet s) λ _. conclude-Keeps env (Quiet V 1) s)

    -- The end of a run that refused at most once before it.
    pub finish-Outcome :
        (s : Scenario)
        → s.out_of_band ≡ false
        → Holds (Open V) (finish env s) (λ _. Outcome V) (Outcome V)
    finish-Outcome s one_path =
        Holds-either
          (Holds-pre (λ r h. h.3) (Holds-weaken (finish-Audited s) (λ _ r h. inl h) (λ r h. inl h)))
          (Holds-weaken (finish-Quiet s one_path) (λ _ r h. inr h) (λ r h. inr h))

-- A refusal is recorded, and the operator is told.
pub Quiet-refuse :
    {W : Type 0} (V : W → Type 0) {E : Run W → Type 0} (stage class rule : String)
    → Holds (On (Quiet V 0)) (note {W = W} (refuse stage class rule)) (λ _. On (Quiet V 1)) E
unfolding refuse
Quiet-refuse V stage class rule =
    Holds-note _ λ r h. (h.0, refl, refl, length-snoc _ _ ∙ ap (λ n. n + 1) h.3, h.4)

-- A process of the toolchain other than the apply is no apply.
pub Quiet-tool :
    {W : Type 0} (env : Env W) (V : W → Type 0)
    → ((name : String) (args : List String) (files : Files) (world : W)
        → (name == "apply") ≡ false
        → V world
        → V (env.exec (name ∷ args) files world).world)
    → (name : String) → (name == "apply") ≡ false
    → IsToolProof env (Quiet V 0) name
Quiet-tool env V keeps name ne args files stage stages enforcement audit decision world p h =
    let other : (stage.name == "apply") ≡ false = subst (λ n. (n == "apply") ≡ false) (sym p) ne in
    (
      ground (arith, any-append (λ (x : Stage). x.name == "apply") stages (stage ∷ []), h.0, other),
      h.1,
      h.2,
      h.3,
      keeps name args files world ne h.4,
    )
