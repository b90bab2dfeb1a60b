-- ===== src/Gate/Reports.antt =====
-- A report counts only when its control ran: `ScanWith` and `Denylist` of internal/gate/gate.go.
use planless.Prelude.{
  ℕ, ◌≡◌, ◌≢◌, refl, ap, String, some, List, [], ◌=?◌, length, Bool-cases, Option-cases, inl, inr,
}
use planless.Gate.{
  ScanReport, Process, done, failed, not_started, timed_out, Env, EvalOutput, Result, ok,
  first_value, or_empty, scan_with, checked_scan,
}

-- What stands behind a report of a scan.
pub record Ran (env : Env) (bundle : List ℕ) (q : String) (report : ScanReport) : Type 0 where
  pub raw : List ℕ
  pub ran : env.engine bundle q ≡ done raw
  pub out : EvalOutput
  pub read : env.read_output raw ≡ some out
  pub value : List ℕ
  pub answer : first_value out ≡ some value
  pub decoded : ScanReport
  pub decodes : env.read_scan value ≡ some decoded
  pub scanned : decoded.scanned_files ≢ []
  pub same : report ≡ record decoded { findings = or_empty decoded.findings }

checked_scan-ok :
    (d r : ScanReport)
    → checked_scan d ≡ ok r
    → (d.scanned_files ≢ []) × (r ≡ record d { findings = or_empty d.findings })
checked_scan-ok d r h = elim (Bool-cases (length d.scanned_files =? 0)) [
  | inl z ↦ absurd (cc (rw z at h))
  | inr z ↦
      let same : Result.ok (record d { findings = or_empty d.findings }) ≡ ok r = rw z at h in
      (λ e. cc (ap (λ (l : List String). length l =? 0) e, z), cc same)
]

module _ (env : Env) (bundle : List ℕ) (q : String) (report : ScanReport) where
  scan_read :
      (raw : List ℕ)
      → env.engine bundle q ≡ done raw
      → scan_with env bundle q ≡ ok report
      → Ran env bundle q report
  unfolding scan_with
  scan_read raw e h = elim (Option-cases (env.read_output raw)) [
    | inl n ↦ absurd (cc (rw n at (rw (e, scan_with) at h)))
    | inr (out, o) ↦ elim (Option-cases (first_value out)) [
      | inl n ↦ absurd (cc (rw n at (rw o at (rw (e, scan_with) at h))))
      | inr (value, f) ↦ elim (Option-cases (env.read_scan value)) [
        | inl n ↦ absurd (cc (rw n at (rw f at (rw o at (rw (e, scan_with) at h)))))
        | inr (d, r) ↦
            let (scanned, same) =
              checked_scan-ok d report (rw r at (rw f at (rw o at (rw (e, scan_with) at h)))) in
            record {
              raw = raw;
              ran = e;
              out = out;
              read = o;
              value = value;
              answer = f;
              decoded = d;
              decodes = r;
              scanned = scanned;
              same = same;
            }
      ]
    ]
  ]

  scan_by_process :
      (p : Process)
      → env.engine bundle q ≡ p
      → scan_with env bundle q ≡ ok report
      → Ran env bundle q report
  unfolding scan_with
  scan_by_process (done raw) e h = scan_read raw e h
  scan_by_process (failed raw) e h = absurd (cc (rw (e, scan_with) at h))
  scan_by_process not_started e h = absurd (cc (rw (e, scan_with) at h))
  scan_by_process timed_out e h = absurd (cc (rw (e, scan_with) at h))

  -- A scan gives a report only when the engine ended well, the first value of its output is that
  -- report, with an empty list for absent findings, and the report names a file that was read.
  pub scan_with-Ran : scan_with env bundle q ≡ ok report → Ran env bundle q report
  scan_with-Ran h = scan_by_process (env.engine bundle q) refl h
