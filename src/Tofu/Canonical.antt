-- ===== src/Tofu/Canonical.antt =====
-- `CanonicalPlan` of internal/tofu/toolchain.go: the plan without the moment it was made.
use planless.Prelude.{ℕ, String, ◌≡◌, Option, none, some, List, if◌then◌else◌, ◌==◌}
use planless.Json.{Json, null, object, Fields, end, field}
use planless.Canon.{marshal}
use planless.Canon.Orderless.{SameFields, same_object, digest_of-Same}

-- `delete(tree, k)`.
abbrev pub without : String → Fields → Fields
without k end = end
without k (field l v rest) = let more = without k rest in if l == k then more else field l v more

-- What the artifact may decode to: a map, or null, which is the nil map.
abbrev pub plan_tree : Json → Option Json
plan_tree (object fs) = some (object (without "timestamp" fs))
plan_tree null = some null
plan_tree _ = none

-- `CanonicalPlan`; `read` decodes the artifact, with numbers as `encoding/json` writes them again.
unfoldable pub canonical_plan :
    (String → List ℕ) → (List ℕ → Option Json) → List ℕ → Option (List ℕ)
unfolding marshal
canonical_plan quote read raw = elim (read raw) [
  | none ↦ none
  | some tree ↦ marshal quote plan_tree tree
]

-- Two plans that differ only in their timestamps and in the order of their fields have one canonical form.
pub canonical_plan-Same :
    (quote : String → List ℕ) (read : List ℕ → Option Json) (raw raw' : List ℕ) (fs gs : Fields)
    → read raw ≡ some (object fs)
    → read raw' ≡ some (object gs)
    → SameFields (without "timestamp" fs) (without "timestamp" gs)
    → canonical_plan quote read raw ≡ canonical_plan quote read raw'
unfolding canonical_plan marshal
canonical_plan-Same quote read raw raw' fs gs p q same =
    rw (p, canonical_plan)
      (rw (q, canonical_plan)
        ((digest_of-Same (λ _. "") quote (object (without "timestamp" fs))
          (object (without "timestamp" gs)) (same_object same)).0))
