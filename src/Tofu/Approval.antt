-- ===== src/Tofu/Approval.antt =====
-- internal/tofu/approval.go: the check, before an apply, that the artifact is the one that was
-- approved in this run.
pub mod Binding
use Prim.Native.String
use planless.Prelude.{
  ℕ, String, Bool, true, false, not, ◌&&◌, ◌||◌, Option, none, some, List, [], ◌∷◌, if◌then◌else◌,
  ◌==◌,
}

pub record Approval : Type 0 where
  pub run_id : String
  pub scenario : String
  pub plan_artifact_digest : String
  pub resolved_digest : String
  pub allowlist : String

-- `canon.Digest`, the bytes of a text, and `encoding/json` on an approval.
pub record Codec : Type 0 where
  pub digest : List ℕ → String
  pub bytes : String → List ℕ
  pub encode : Approval → Option (List ℕ)
  pub decode : List ℕ → Option Approval

-- A directory of files, each with its content.
abbrev pub Files : Type 0
Files = String → Option (List ℕ)

-- `os.WriteFile` on a path that can be written.
abbrev pub write_file : String → List ℕ → Files → Files
write_file path content files p = if p == path then some content else files p

unfoldable pub run_id : Codec → String → String → String
run_id codec scenario plan_digest =
    codec.digest (codec.bytes (String.◌++◌ scenario (String.◌++◌ "\n" plan_digest)))

-- `Write`; `none` is the error of `json.Marshal`.
unfoldable pub write : Codec → Approval → String → Files → Option Files
write codec a path files = elim (codec.encode a) [
  | none ↦ none
  | some content ↦ some (write_file path content files)
]

-- What `ReadApproval` returns: an approval, `errNoApproval` or `errUnusableApproval`.
pub data Read : Type 0 where
  approval : Approval → Read
  no_approval unusable_approval : Read

unfoldable pub read_approval : Codec → String → Files → Read
read_approval codec path files = elim (files path) [
  | none ↦ no_approval
  | some content ↦ elim (codec.decode content) [
    | none ↦ unusable_approval
    | some a ↦
        if a.run_id == "" || a.plan_artifact_digest == "" then unusable_approval else approval a
  ]
]

-- The classes of a refusal, and `verified` for the empty text.
pub data Class : Type 0 where
  verified no_approval changed_after_approval issued_for_another_run unreadable : Class

-- The comparisons of `VerifyApproval`.
unfoldable pub compare_approval : Codec → String → String → Approval → Class
unfolding run_id
compare_approval codec scenario digest a =
    if not (a.plan_artifact_digest == digest)
    then changed_after_approval
    else if not (a.run_id == run_id codec scenario digest)
    then issued_for_another_run
    else verified

-- `VerifyApproval`.
unfoldable pub verify_approval : Codec → String → String → String → Files → Class
unfolding read_approval compare_approval
verify_approval codec approval_path plan_path scenario files = elim (files plan_path) [
  | none ↦ Class.no_approval
  | some plan ↦ elim (read_approval codec approval_path files) [
    | no_approval ↦ Class.no_approval
    | unusable_approval ↦ unreadable
    | approval a ↦ compare_approval codec scenario (codec.digest plan) a
  ]
]
