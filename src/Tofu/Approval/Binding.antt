-- ===== src/Tofu/Approval/Binding.antt =====
-- Which artifacts `VerifyApproval` of internal/tofu/approval.go lets through.
use planless.Prelude.{
  ℕ, ◌≡◌, ◌≢◌, ◌↔◌, refl, sym, ◌∙◌, String, false, some, List, ◌==◌, Bool-cases, Option-cases, inl,
  inr, text_eq→eq, eq→text_eq, text_ne, text_eq_refl,
}
use planless.Tofu.Approval.{
  Approval, Codec, Files, write_file, run_id, write, Read, approval, no_approval, unusable_approval,
  read_approval, verified, compare_approval, verify_approval,
}

-- The approval on file is for exactly this artifact, in exactly this run.
pub record Bound (codec : Codec) (approval_path plan_path scenario : String) (files : Files)
    : Type 0 where
  pub plan : List ℕ
  pub planned : files plan_path ≡ some plan
  pub a : Approval
  pub read : read_approval codec approval_path files ≡ approval a
  pub same_artifact : a.plan_artifact_digest ≡ codec.digest plan
  pub same_run : a.run_id ≡ run_id codec scenario (codec.digest plan)

module _ (codec : Codec) (approval_path plan_path scenario : String) (files : Files) where
  compared :
      (digest : String) (a : Approval)
      → compare_approval codec scenario digest a ≡ verified
      → (a.plan_artifact_digest ≡ digest) × (a.run_id ≡ run_id codec scenario digest)
  unfolding compare_approval
  compared digest a h = elim (Bool-cases (a.plan_artifact_digest == digest)) [
    | inr n ↦ absurd (cc (rw (n, compare_approval) at h))
    | inl e ↦ elim (Bool-cases (a.run_id == run_id codec scenario digest)) [
      | inr n ↦ absurd (cc (rw n at (rw (e, compare_approval) at h)))
      | inl r ↦ (text_eq→eq e, text_eq→eq r)
    ]
  ]

  with_read :
      (plan : List ℕ) (x : Read)
      → files plan_path ≡ some plan
      → read_approval codec approval_path files ≡ x
      → verify_approval codec approval_path plan_path scenario files ≡ verified
      → Bound codec approval_path plan_path scenario files
  unfolding verify_approval
  with_read plan no_approval p r h = absurd (cc (rw r at (rw (p, verify_approval) at h)))
  with_read plan unusable_approval p r h = absurd (cc (rw r at (rw (p, verify_approval) at h)))
  with_read plan (approval a) p r h =
      let (artifact, run) =
        compared (codec.digest plan) a (rw r at (rw (p, verify_approval) at h)) in
      record { plan = plan; planned = p; a = a; read = r; same_artifact = artifact; same_run = run }

  verify→ :
      verify_approval codec approval_path plan_path scenario files ≡ verified
      → Bound codec approval_path plan_path scenario files
  unfolding verify_approval
  verify→ h = elim (Option-cases (files plan_path)) [
    | inl n ↦ absurd (cc (rw (n, verify_approval) at h))
    | inr (plan, p) ↦ with_read plan (read_approval codec approval_path files) p refl h
  ]

  verify← :
      Bound codec approval_path plan_path scenario files
      → verify_approval codec approval_path plan_path scenario files ≡ verified
  unfolding verify_approval compare_approval
  verify← b =
      rw (b.planned, verify_approval)
        (rw b.read (rw (eq→text_eq b.same_artifact) (rw (eq→text_eq b.same_run) refl)))

  -- An artifact is verified exactly when it can be read and a readable approval carries its digest
  -- and the run that the scenario and the digest make.
  pub verify_approval_iff :
      (verify_approval codec approval_path plan_path scenario files ≡ verified)
      ↔ Bound codec approval_path plan_path scenario files
  verify_approval_iff = (verify→, verify←)

module _ (codec : Codec) (approval_path plan_path scenario : String) (files : Files) where
  -- An approval that is written for an artifact and its run is verified with that artifact, where
  -- decoding undoes encoding, the two paths differ, and no digest is the empty text.
  pub verify_approval-write :
      (plan : List ℕ) (a : Approval) (after : Files)
      → ((b : Approval) (content : List ℕ)
          → codec.encode b ≡ some content
          → codec.decode content ≡ some b)
      → (plan_path == approval_path) ≡ false
      → ((content : List ℕ) → codec.digest content ≢ "")
      → files plan_path ≡ some plan
      → a.plan_artifact_digest ≡ codec.digest plan
      → a.run_id ≡ run_id codec scenario (codec.digest plan)
      → write codec a approval_path files ≡ some after
      → verify_approval codec approval_path plan_path scenario after ≡ verified
  unfolding write read_approval run_id
  verify_approval-write plan a after undo apart full planned artifact run written =
      elim (Option-cases (codec.encode a)) [
        | inl n ↦ absurd (cc (rw (n, write) at written))
        | inr (content, e) ↦
            let stored : write_file approval_path content files ≡ after =
              cc (rw (e, write) at written) in
            let back : write_file approval_path content files approval_path ≡ some content =
              rw (text_eq_refl approval_path) refl in
            let no_run : (a.run_id == "") ≡ false = text_ne (λ p. full _ (sym run ∙ p)) in
            let no_digest : (a.plan_artifact_digest == "") ≡ false =
              text_ne (λ p. full plan (sym artifact ∙ p)) in
            rw (← stored) (
              verify← codec approval_path plan_path scenario
                (write_file approval_path content files)
                (record {
                  plan = plan;
                  planned = rw apart planned;
                  a = a;
                  read =
                      rw (back, read_approval)
                        (rw (undo a content e) (rw no_run (rw no_digest refl)));
                  same_artifact = artifact;
                  same_run = run;
                }))
      ]
