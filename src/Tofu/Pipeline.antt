-- ===== src/Tofu/Pipeline.antt =====
-- The state of one run of internal/tofu/harness.go, what a run reads of its surroundings, and the
-- toolchain of internal/tofu/toolchain.go. A step ends with a value or with an error, and what it
-- wrote into the transcript, the work directory and the platform stays written either way.
pub mod Outcome
pub mod Harness
pub mod Manifest
pub mod Keeps
pub mod Frames
pub mod Endings
pub mod Unapplied
pub mod Planned
pub mod Applies
pub mod ManifestRefusals
pub mod Refusals
pub mod Met
pub mod Secure
use Prim.Native.String
use Prim.Native.Char.{code}
use planless.Prelude.{
  ℕ, ℤ, String, Bool, true, false, not, ◌&&◌, ◌||◌, Option, none, some, List, [], ◌∷◌, ◌++◌,
  if◌then◌else◌, ◌=?◌, ◌==◌, leb, pos,
}
use planless.Prelude.Words.{trim_space, split_text, join_texts}
use planless.Json.{Json}
use planless.Graph.{Segment, Graph}
use planless.Graph.Plan.{Reader}
use planless.Graph.Live.{State}
use planless.Tofu.Approval.{Codec, Files}
use planless.Tofu.Transcript.{Transcript, Stage, Finding}
use planless.Gate

pub record Run (W : Type 0) : Type 0 where
  pub transcript : Transcript
  pub files : Files
  pub world : W

-- What a process of the toolchain leaves: its output, and how it failed: with an exit code and a text.
pub record Exec (W : Type 0) : Type 0 where
  pub output : List ℕ
  pub failure : Option (ℤ × String)
  pub files : Files
  pub world : W

-- The surroundings: the toolchain's process, the directories of `newRun` and `prepare`, the checks of
-- the source files, the decoders, the policy engine, and the control plane, whose state is a `W`.
-- `none` is an error.
pub record Env (W : Type 0) : Type 0 where
  pub tofu : String
  pub work_dir : String
  pub opa : String
  pub allowlist_dir : String
  pub segments : List Segment
  pub text : List ℕ → String
  pub exec : List String → Files → W → Exec W
  pub new_run : Option (Unit {0})
  pub work_tree : Option Files
  pub digest_tree : Files → Option String
  pub check_sources : Files → Option (List Finding)
  pub source_bundle : Files → Option (List ℕ)
  pub quote : String → List ℕ
  pub read_json : List ℕ → Option Json
  pub values_missing : List ℕ → List String
  pub artifact : String → Option (List ℕ)
  pub codec : Codec
  pub reader : Reader
  pub plan_error : List ℕ → String
  pub graph_bytes : Graph → Option (List ℕ)
  pub gate : (opa allowlist : String) → Gate.Env
  pub state_digest : W → Option String
  pub application_build : W → Option String
  pub add_console_grant : W → W × Bool
  pub read_state : W → Option State
  pub render_manifests : String → Option (List ℕ)
  pub from_manifests : (rendered base : List ℕ) → Option Graph
  pub manifest_bundle : Option (List ℕ)
  pub apply_graph : Graph → W → W × Bool

abbrev pub Step : Type 0 → Type 0 → Type 0
Step W A = Run W → Run W × Option A

module _ {W : Type 0} where
  abbrev pub continue : {A B : Type 0} → (A → Step W B) → Run W × Option A → Run W × Option B
  continue f (s, none) = (s, none)
  continue f (s, some a) = f a s

  infixl 5 ◌>>=◌ ◌>>◌
  unfoldable pub ◌>>=◌ : {A B : Type 0} → Step W A → (A → Step W B) → Step W B
  ◌>>=◌ m f s = continue f (m s)

  abbrev pub ◌>>◌ : {B : Type 0} → Step W (Unit {0}) → Step W B → Step W B
  m >> k = m >>= λ _. k

  unfoldable pub done : Step W (Unit {0})
  done s = (s, some tt)

  unfoldable pub raise : {A : Type 0} → Step W A
  raise s = (s, none)

  unfoldable pub lift : {A : Type 0} → Option A → Step W A
  lift o s = (s, o)

  unfoldable pub gets : {A : Type 0} → (Run W → A) → Step W A
  gets f s = (s, some (f s))

  -- `os.ReadFile` in the work directory.
  unfoldable pub read_file : String → Step W (List ℕ)
  read_file path s = (s, s.files path)

  -- A change of the transcript.
  unfoldable pub note : (Transcript → Transcript) → Step W (Unit {0})
  note f s = (record s { transcript = f s.transcript }, some tt)

  unfoldable pub set_files : Files → Step W (Unit {0})
  set_files files s = (record s { files = files }, some tt)

  -- A call of the control plane that may change it, and may fail.
  unfoldable pub call : (W → W × Bool) → Step W (Unit {0})
  call f s =
      let answer = f s.world in (record s { world = answer.0 }, if answer.1 then some tt else none)

-- The loop of `summarize`, from the last line up.
abbrev pub last_line : List String → String
last_line [] = ""
last_line (l ∷ ls) = let below = last_line ls in if below == "" then trim_space l else below

-- `summarize`.
unfoldable pub summarize : String → String
summarize out = last_line (split_text 10 (trim_space out))

module _ {W : Type 0} (env : Env W) where
  -- `command`; `tofu` is already the base name of the path.
  abbrev pub command : List String → String
  command args = String.◌++◌ env.tofu (String.◌++◌ " " (join_texts " " args))

  -- A stage is appended, and on a failure the error too.
  abbrev pub stage_noted :
      String
      → List String
      → List ℕ
      → (List ℕ → String)
      → Option (ℤ × String)
      → Transcript
      → Transcript
  stage_noted name args output shown none t = record t {
    stages =
        t.stages
        ++ (record {
          name = name;
          command = command (name ∷ args);
          exit_code = pos 0;
          output = shown output;
        }
            ∷ []);
  }
  stage_noted name args output shown (some (exit, why)) t = record t {
    error = String.◌++◌ name (String.◌++◌ ": " why);
    stages =
        t.stages
        ++ (record {
          name = name;
          command = command (name ∷ args);
          exit_code = exit;
          output = env.text output;
        }
            ∷ []);
  }

  abbrev pub value_of : List ℕ → Option (ℤ × String) → Option (List ℕ)
  value_of output none = some output
  value_of output (some _) = none

  -- What `run` and `capture` do with the process that `exec` started.
  unfoldable pub executed : String → List String → (List ℕ → String) → Step W (List ℕ)
  executed name args shown s =
      let e = env.exec (name ∷ args) s.files s.world in
      (
        record {
          transcript = stage_noted name args e.output shown e.failure s.transcript;
          files = e.files;
          world = e.world;
        },
        value_of e.output e.failure,
      )

  -- `run`.
  unfoldable pub run_tool : String → List String → Step W (Unit {0})
  unfolding summarize
  run_tool name args = do _ ← executed name args (λ out. summarize (env.text out)); done

  -- `capture`.
  unfoldable pub capture : String → List String → Step W (List ℕ)
  capture name args = executed name args (λ _. "")
