-- ===== src/Tofu/Origins.antt =====
-- `valueOrigins` of internal/tofu/harness.go: where the security-relevant values of a plan came from.
use Prim.Native.String
use planless.Prelude.{
  ℕ, String, Bool, not, Option, none, some, List, [], ◌∷◌, ◌++◌, if◌then◌else◌, ◌==◌,
}
use planless.Prelude.Text.{text_ltb}
use planless.Ordered.{sort}
use planless.Graph.{
  Origin, literal, variable_file, module_default, root_default, unknown, live_state, base_manifest,
  overlay, Contribution, Provenance, Map, at, Port, Resource, Grant, NetworkRule, Segment, Graph,
}
use planless.Graph.Origins.{bind_field}
use planless.Graph.Plan.{Reader, from_plan}
use planless.Tofu.Transcript.{ValueOrigin}

abbrev pub origin_text : Origin → String
origin_text literal = "literal"
origin_text variable_file = "variable-file"
origin_text module_default = "module-default"
origin_text root_default = "root-default"
origin_text unknown = "unknown"
origin_text live_state = "live-state"
origin_text base_manifest = "base-manifest"
origin_text overlay = "overlay"

-- The loop over the contributors of one value.
abbrev pub contributors_text : List Contribution → String
contributors_text [] = ""
contributors_text (c ∷ []) = String.◌++◌ c.reference (String.◌++◌ "=" (origin_text c.origin))
contributors_text (c ∷ d ∷ rest) = String.◌++◌ c.reference (
    String.◌++◌ "="
      (String.◌++◌ (origin_text c.origin) (String.◌++◌ ", " (contributors_text (d ∷ rest)))))

-- `record`; a nil map has no keys.
abbrev pub recorded : String → Map Provenance → List String → List ValueOrigin
recorded resource prov [] = []
recorded resource prov (field ∷ rest) =
    let more = recorded resource prov rest in
    elim (at field prov) [
      | none ↦ more
      | some p ↦
          record {
            resource = resource;
            field = field;
            origin = origin_text p.origin;
            reference = p.reference;
            contributors = contributors_text p.contributors;
          }
          ∷ more
    ]

abbrev pub entries_of : Option (Map Provenance) → Map Provenance
entries_of none = []
entries_of (some m) = m

abbrev pub grant_origins : List Grant → List ValueOrigin
grant_origins [] = []
grant_origins (g ∷ rest) =
    recorded (String.◌++◌ "grant/" g.id) (entries_of g.provenance)
      ("principals" ∷ "source_ranges" ∷ [])
    ++ grant_origins rest

abbrev pub rule_origins : List NetworkRule → List ValueOrigin
rule_origins [] = []
rule_origins (r ∷ rest) =
    recorded (String.◌++◌ "network_rule/" r.id) (entries_of r.provenance) ("source_ranges" ∷ [])
    ++ rule_origins rest

abbrev pub port_origins : Resource → List Port → List ValueOrigin
port_origins r [] = []
port_origins r (p ∷ rest) =
    recorded (String.◌++◌ "workload/" r.name) (entries_of r.provenance) (bind_field p.name ∷ [])
    ++ port_origins r rest

abbrev pub workload_origins : List Resource → List ValueOrigin
workload_origins [] = []
workload_origins (r ∷ rest) =
    let more = workload_origins rest in
    if not (r.kind == "workload") then more else port_origins r r.ports ++ more

abbrev pub origin_before : ValueOrigin → ValueOrigin → Bool
unfolding text_ltb
origin_before a b =
    if not (a.resource == b.resource)
    then text_ltb a.resource b.resource
    else text_ltb a.field b.field

-- The three loops, before the sort; the manifest surface records them in this order.
abbrev pub graph_origins : Graph → List ValueOrigin
graph_origins g =
    grant_origins g.grants ++ (rule_origins g.network_rules ++ workload_origins g.resources)

-- `valueOrigins`; `none` is the error of `FromPlan`.
unfoldable pub value_origins : Reader → List Segment → List ℕ → Option (List ValueOrigin)
unfolding sort
value_origins reader segments resolved = elim (from_plan reader resolved segments) [
  | none ↦ none
  | some g ↦ some (sort origin_before (graph_origins g))
]
