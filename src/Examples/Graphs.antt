-- ===== src/Examples/Graphs.antt =====
-- Instances of the theorems on the resource graph, the canonical form and the cleanup.
use planless.Prelude.{
  ℕ, suc, pos, String, Bool, true, ◌==◌, ◌≡◌, ◌≢◌, ◌⊎◌, refl, some, none, List, [], ◌∷◌, All, Has,
  any, keep,
}
use planless.Prelude.Text.{has_prefix, strip_prefix}
use planless.Json.{Json, null, boolean, text, object, end, field}
use planless.Canon.{marshal, digest_of, write}
use planless.Canon.Orderless.{canonical, swapped, same_object, digest_of-Same}
use mathlib.Core.Quot
use planless.Graph.{Graph}
use planless.Graph.Origins.{
  Decode, ConfigIndex, Expression, ModuleCall, visibility, contributors_of, contribution_of,
  origin_of,
}
use planless.Graph.Origins.Visible.{IsBelow, Names, origin_of-Names}
use planless.Graph.Plan.{PlanDocument, plan_module, none_left, Reader, from_plan}
use planless.Graph.Plan.Complete.{IsCarried, IsReported, from_plan-IsCarried, from_plan-IsReported}
use planless.Graph.Live.{State, LiveGrant, from_platform_state, IsLive, from_platform_state-IsLive}
use planless.Tofu.Drift.{undeclared_grants, delete_all, remove_each, remove_each-delete_all}

abbrev idx : ConfigIndex
idx = record { root = record { resources = []; variables = [] }; modules = []; resolved = [] }

-- Of the two variables the module's caller passes neither.
abbrev expression : Expression
expression = record {
  constant_value = none;
  references = "var.ranges" ∷ "local.a" ∷ "var.key" ∷ [];
}

abbrev decode : Decode
decode = record {
  expression = λ _. some expression;
  blocks = λ _. none;
  text_of = λ _. none;
  marshal = λ _. none;
}

abbrev module_call : ModuleCall
module_call = record { expressions = []; body = record { resources = []; variables = [] } }

some_variables : contributors_of decode idx (some module_call) expression.references ≢ []
unfolding contributors_of contribution_of has_prefix strip_prefix
some_variables e = cc e

origin_of-Names_example :
    All
      (IsBelow (visibility (origin_of decode idx (some null) (some module_call)).origin))
      (contributors_of decode idx (some module_call) expression.references)
    × Has
        (Names (origin_of decode idx (some null) (some module_call)))
        (contributors_of decode idx (some module_call) expression.references)
origin_of-Names_example =
    origin_of-Names decode idx (some module_call) null expression refl refl some_variables

abbrev document : PlanDocument
document = record {
  format_version = "1.2";
  root_module =
      plan_module ""
        (record {
          address = "g.a";
          type = "democloud_grant";
          name = "a";
          values = ("id", text "a") ∷ ("extra", null) ∷ [];
        }
          ∷ record { address = "x.b"; type = "other"; name = "b"; values = [] }
          ∷ [])
        none_left;
  index = idx;
}

abbrev reader : Reader
reader = record { plan = λ _. some document; decode = decode; int_of = λ _. pos 0 }

versioned : document.format_version ≢ ""
versioned e = cc e

from_plan-IsCarried_example :
    (g : Graph) × (from_plan reader [] [] ≡ some g) × IsCarried reader document g
from_plan-IsCarried_example = from_plan-IsCarried reader [] document [] refl versioned

from_plan-IsReported_example :
    (g : Graph) × (from_plan reader [] [] ≡ some g) × IsReported document g
from_plan-IsReported_example = from_plan-IsReported reader [] document [] refl versioned

abbrev live_grants : List LiveGrant
live_grants =
    record {
      id = "grant-fare-exports-console-read";
      resource_kind = "bucket";
      resource_name = "fare-exports";
      principals = "*" ∷ [];
      actions = "read" ∷ [];
      source_ranges = "0.0.0.0/0" ∷ [];
    }
    ∷ []

abbrev live : State
live = record {
  segments = [];
  buckets = "fare-exports" ∷ [];
  objects = [];
  grants = live_grants;
  workloads = [];
  network_rules = [];
}

from_platform_state-IsLive_example :
    ((live.buckets ≡ []) × (live.workloads ≡ []) × (from_platform_state live [] ≡ none))
    ⊎ ((g : Graph) × (from_platform_state live [] ≡ some g) × IsLive live [] g)
from_platform_state-IsLive_example = from_platform_state-IsLive live []

abbrev left_first : Json
left_first = object (field "a" null (field "b" (boolean true) end))

abbrev right_first : Json
right_first = object (field "b" (boolean true) (field "a" null end))

digest_of-Same_example :
    (marshal (λ _. []) some left_first ≡ marshal (λ _. []) some right_first)
    × (digest_of (λ _. "d") (λ _. []) some left_first
        ≡ digest_of (λ _. "d") (λ _. []) some right_first)
    × (canonical (λ _. []) (Quot.mk left_first) ≡ write (λ _. []) right_first)
digest_of-Same_example =
    digest_of-Same (λ _. "d") (λ _. []) left_first right_first (same_object (swapped refl))

-- The platform counts what was deleted from it.
abbrev count_deletes : String → ℕ → ℕ × Bool
count_deletes id n = (suc n, true)

remove_each-delete_all_example :
    remove_each count_deletes live_grants undeclared_grants 0
    ≡ delete_all count_deletes
        (keep (λ id. any (λ (g : LiveGrant). g.id == id) live_grants) undeclared_grants)
        0
remove_each-delete_all_example =
    remove_each-delete_all count_deletes live_grants undeclared_grants 0
