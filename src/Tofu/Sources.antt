-- ===== src/Tofu/Sources.antt =====
-- internal/tofu/sources.go: what may stand in the configuration files. A file is its path under the
-- directory with what reading it gives, in the order of the walk; `none` is a file that cannot be read.
pub mod Blocks
use Prim.Native.Char.{Char, code}
use Prim.Native.String
use mathlib.Core.Option
use planless.Prelude.{
  ℕ, zero, suc, ◌+◌, String, Bool, true, false, not, ◌&&◌, ◌||◌, Option, none, some, List, [], ◌∷◌,
  ◌++◌, map, keep, if◌then◌else◌, ◌=?◌, ◌==◌, any,
}
use planless.Prelude.Text.{has_prefix, cut}
use planless.Prelude.Words.{trim_space, split_text, join_texts, contains_text, is_space, add_char}
use planless.Ordered.{sort}
use planless.Tofu.Transcript.{Finding}

-- `SecurityRelevantValues`.
abbrev pub security_relevant_values : List String
security_relevant_values =
    "\"finance-reporting\"" ∷ "\"10.20.0.0/16\"" ∷ "\"0.0.0.0/0\"" ∷ "\"10.20.7.0/24\""
    ∷ "\"10.20.1.20\"" ∷ "\"*\"" ∷ []

-- `ExecutionKeywords`.
abbrev pub execution_keywords : List String
execution_keywords =
    "provisioner" ∷ "local-exec" ∷ "remote-exec" ∷ "connection" ∷ "external" ∷ "http" ∷ []

-- `isBoundary`, of the code of a character.
abbrev pub is_boundary : ℕ → Bool
is_boundary c = c =? 10 || c =? 13 || c =? 32 || c =? 9

abbrev pub with_char : Char → Option (String × String) → Option (String × String)
with_char c found = Option.map (λ (p : String × String). (String.◌∷◌ c p.0, p.1)) found

-- The braces that are open behind a character, besides the one of the block; `none` where it closes.
abbrev pub depth_after : ℕ → ℕ → Option ℕ
depth_after depth c =
    if c =? b'{'
    then some (suc depth)
    else if c =? b'}'
    then elim depth [ zero ↦ none | suc d ↦ some d ]
    else some depth

-- The loop of `ResourceBlockBodies` that looks for the brace which closes a block: the body before it
-- and the text behind it; `none` is a block that is not closed.
unfoldable pub close_block : (depth : ℕ) → String → Option (String × String)
close_block depth String.[] = none
close_block depth (String.◌∷◌ c s) = elim (depth_after depth (code c)) [
  | none ↦ some ("", s)
  | some d ↦ with_char c (close_block d s)
]

-- The first `resource "`, by the character in front of it and the text from it on; `before` is the
-- character in front of the text.
unfoldable pub find_block : (before : Option ℕ) → String → Option (Option ℕ × String)
unfolding has_prefix
find_block before String.[] = none
find_block before (String.◌∷◌ c s) =
    let later = find_block (some (code c)) s in
    if has_prefix (String.◌∷◌ c s) "resource \"" then some (before, String.◌∷◌ c s) else later

abbrev pub begins_word : Option ℕ → Bool
begins_word none = true
begins_word (some c) = is_boundary c

-- The text behind its first two characters.
abbrev pub drop_two : String → String
drop_two (String.◌∷◌ c (String.◌∷◌ d s)) = s
drop_two (String.◌∷◌ c String.[]) = ""
drop_two String.[] = ""

-- The body of the block that begins with the text, and the text behind it.
unfoldable pub block_body : String → Option (String × String)
unfolding cut close_block
block_body s = elim (cut b'{' s) [ none ↦ none | some parts ↦ close_block 0 parts.1 ]

-- The loop of `ResourceBlockBodies`. Every round takes a character at least, so fuel of the length of
-- the text is enough.
unfoldable pub bodies_from : (fuel : ℕ) → (before : Option ℕ) → String → List String
unfolding find_block block_body
bodies_from zero before s = []
bodies_from (suc fuel) before s = elim (find_block before s) [
  | none ↦ []
  | some (in_front, found) ↦ elim (begins_word in_front) [
    | false ↦ bodies_from fuel (some b'e') (drop_two found)
    | true ↦ elim (block_body found) [
      | none ↦ []
      | some (body, rest) ↦ body ∷ bodies_from fuel (some b'}') rest
    ]
  ]
]

abbrev pub text_length : String → ℕ
text_length String.[] = 0
text_length (String.◌∷◌ c s) = suc (text_length s)

-- `ResourceBlockBodies`.
unfoldable pub resource_block_bodies : String → List String
unfolding bodies_from
resource_block_bodies src = bodies_from (text_length src) none src

-- A file of the walk.
pub record WalkedFile : Type 0 where
  pub path : String
  pub extension : String
  pub body : Option String

abbrev pub flat_map : {A B : Type 0} → (A → List B) → List A → List B
flat_map f [] = []
flat_map f (a ∷ rest) = f a ++ flat_map f rest

-- A line that begins a block of the keyword, or names it as a text.
unfoldable pub executes : String → String → Bool
unfolding has_prefix contains_text
executes keyword line =
    let trimmed = trim_space line in
    not (has_prefix trimmed "#")
    && (has_prefix trimmed (String.◌++◌ keyword " ")
        || has_prefix trimmed (String.◌++◌ keyword "{")
        || contains_text trimmed (String.◌++◌ "\"" (String.◌++◌ keyword "\"")))

-- What `CheckSources` finds in one file.
unfoldable pub check_file : (path extension src : String) → List Finding
unfolding executes resource_block_bodies contains_text
check_file path extension src =
    flat_map
      (λ (keyword : String).
        map (λ (line : String). record { file = path; rule = "no_execution_path"; detail = line })
          (keep (executes keyword) (split_text 10 src)))
      execution_keywords
    ++ (if extension == ".tf"
        then flat_map
            (λ (block : String).
              map
                (λ (value : String). record {
                  file = path;
                  rule = "security_relevant_value_in_resource_block";
                  detail = value;
                })
                (keep (contains_text block) security_relevant_values))
            (resource_block_bodies src)
        else [])

abbrev pub is_configuration : WalkedFile → Bool
is_configuration f = f.extension == ".tf" || f.extension == ".tfvars"

-- The walk of `CheckSources`, with the number of files seen; `none` is an error.
unfoldable pub check_walk : List WalkedFile → List Finding → ℕ → Option (List Finding × ℕ)
unfolding check_file
check_walk [] findings seen = some (findings, seen)
check_walk (f ∷ rest) findings seen = elim (is_configuration f) [
  | false ↦ check_walk rest findings seen
  | true ↦ elim f.body [
    | none ↦ none
    | some src ↦ check_walk rest (findings ++ check_file f.path f.extension src) (suc seen)
  ]
]

-- `CheckSources`; `none` is an error.
unfoldable pub check_sources : List WalkedFile → Option (List Finding)
unfolding check_walk
check_sources files = elim (check_walk files [] 0) [
  | none ↦ none
  | some (findings, seen) ↦ if seen =? 0 then none else some findings
]

-- `ValuesMissingFromPlan`.
unfoldable pub values_missing_from_plan : String → List String
unfolding contains_text
values_missing_from_plan plan =
    keep (λ (value : String). not (contains_text plan value)) security_relevant_values
