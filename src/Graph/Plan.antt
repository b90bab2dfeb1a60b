-- ===== src/Graph/Plan.antt =====
-- internal/graph/normalize.go: a plan becomes the input of the policy. The decoding of the plan's
-- text, and Go's conversion of a JSON number to an int64, are parameters.
pub mod Planned
pub mod Visits
pub mod Complete
use Prim.Native.String
use planless.Prelude.{
  ℕ, ℤ, String, Bool, true, false, not, Option, none, some, List, [], ◌∷◌, ◌++◌, map, if◌then◌else◌,
  ◌==◌, any, pos,
}
use planless.Prelude.Text.{text_ltb, trim_prefix}
use planless.Json.{Json, text, array, object, number, Items, nil, cons, get}
use planless.Ordered.{sort}
use planless.Graph.{
  contract_version, Map, at, Provenance, Port, Resource, Grant, NetworkRule, Segment, Graph,
}
use planless.Graph.Sorted.{sort_all}
use planless.Graph.Origins.{Decode, ConfigIndex, PlanResource, provenance_for}

-- The keys of `knownAttributes`, which are also the cases of `add`.
pub data KnownType : Type 0 where
  bucket bucket_object grant workload network_rule : KnownType

abbrev pub known_type : String → Option KnownType
known_type t =
    if t == "democloud_bucket"
    then some bucket
    else if t == "democloud_object"
    then some bucket_object
    else if t == "democloud_grant"
    then some grant
    else if t == "democloud_workload"
    then some workload
    else if t == "democloud_network_rule"
    then some network_rule
    else none

-- `knownAttributes`.
abbrev pub known_attributes : KnownType → List String
known_attributes bucket = "name" ∷ "encrypted" ∷ "log_retention_days" ∷ "id" ∷ []
known_attributes bucket_object = "bucket" ∷ "key" ∷ "content_type" ∷ "content_base64" ∷ "id" ∷ []
known_attributes grant =
    "id" ∷ "resource_kind" ∷ "resource_name" ∷ "principals" ∷ "actions" ∷ "source_ranges" ∷ []
known_attributes workload = "name" ∷ "address" ∷ "ports" ∷ "id" ∷ []
known_attributes network_rule = "id" ∷ "workload" ∷ "port" ∷ "source_ranges" ∷ []

-- `planModule` and its child modules.
mutual
  pub data PlanModule : Type 0 where
    plan_module : (address : String) → List PlanResource → ChildModules → PlanModule

  pub data ChildModules : Type 0 where
    none_left : ChildModules
    child : PlanModule → ChildModules → ChildModules

-- `planDocument`, with the index that `newConfigIndex` makes of its configuration and variables.
pub record PlanDocument : Type 0 where
  pub format_version : String
  pub root_module : PlanModule
  pub index : ConfigIndex

-- `stringOf`; a value that is not a text is the empty text.
abbrev pub string_of : Option Json → String
string_of (some (text s)) = s
string_of _ = ""

abbrev pub texts_of : Items → List String
texts_of nil = []
texts_of (cons v rest) = string_of (some v) ∷ texts_of rest

-- `stringsOf`; a value that is not an array is the empty list.
abbrev pub strings_of : Option Json → List String
strings_of (some (array vs)) = texts_of vs
strings_of _ = []

-- `attributesOf`; `none` is the nil map.
abbrev pub without_content : Map Json → Map Json
without_content [] = []
without_content ((k, v) ∷ rest) =
    let more = without_content rest in if k == "content_base64" then more else (k, v) ∷ more

abbrev pub attributes_of : Map Json → Option (Map Json)
attributes_of [] = none
attributes_of (entry ∷ rest) = some (without_content (entry ∷ rest))

-- The keys of a set, each once: `set[k] = true`.
unfoldable pub include : String → List String → List String
include k set = if any (λ l. l == k) set then set else k ∷ set

-- The loop of `walk` over the attributes of one resource.
unfoldable pub unrecognized_in : List String → String → Map Json → List String → List String
unfolding include
unrecognized_in known address [] found = found
unrecognized_in known address ((attr, _) ∷ rest) found = unrecognized_in known address rest (
    if any (λ k. k == attr) known
    then found
    else include (String.◌++◌ address (String.◌++◌ "." attr)) found)

-- What `walk` changes.
pub record Walk : Type 0 where
  pub graph : Graph
  pub unknown_types : List String
  pub unrecognized : List String

abbrev pub module_name : String → String
module_name address = trim_prefix address "module."

abbrev pub resource_of :
    String
    → String
    → PlanResource
    → List Port
    → Option (Map Json)
    → Option (Map Provenance)
    → Resource
resource_of kind name r ports attributes prov = record {
  kind = kind;
  name = name;
  address = r.address;
  ports = ports;
  attributes = attributes;
  provenance = prov;
}

abbrev pub bucket_of : PlanResource → Option (Map Provenance) → Resource
bucket_of r prov =
    resource_of "bucket" (string_of (at "name" r.values)) r [] (attributes_of r.values) prov

abbrev pub object_of : PlanResource → Option (Map Provenance) → Resource
object_of r prov =
    resource_of "object"
      (String.◌++◌ (string_of (at "bucket" r.values))
        (String.◌++◌ "/" (string_of (at "key" r.values))))
      r [] none prov

abbrev pub grant_of : PlanResource → Option (Map Provenance) → Grant
grant_of r prov = record {
  id = string_of (at "id" r.values);
  resource_kind = string_of (at "resource_kind" r.values);
  resource_name = string_of (at "resource_name" r.values);
  principals = strings_of (at "principals" r.values);
  actions = strings_of (at "actions" r.values);
  source_ranges = strings_of (at "source_ranges" r.values);
  address = r.address;
  provenance = prov;
}

abbrev pub network_rule_of : PlanResource → Option (Map Provenance) → NetworkRule
network_rule_of r prov = record {
  id = string_of (at "id" r.values);
  workload = string_of (at "workload" r.values);
  port = string_of (at "port" r.values);
  source_ranges = strings_of (at "source_ranges" r.values);
  address = r.address;
  provenance = prov;
}

module _ (int_of : String → ℤ) where
  -- The number of a port; a value that is not a number is 0.
  abbrev pub number_of : Option Json → ℤ
  number_of (some (number n)) = int_of n
  number_of _ = pos 0

  -- `portsOf`; a value that is not an object is skipped.
  abbrev pub ports_in : Items → List Port
  ports_in nil = []
  ports_in (cons (object m) rest) =
      record {
        name = string_of (get "name" m);
        number = number_of (get "number" m);
        bind = string_of (get "bind" m);
      }
      ∷ ports_in rest
  ports_in (cons _ rest) = ports_in rest

  abbrev pub ports_of : Option Json → List Port
  ports_of (some (array vs)) = ports_in vs
  ports_of _ = []

  abbrev pub workload_of : PlanResource → Option (Map Provenance) → Resource
  workload_of r prov =
      resource_of "workload" (string_of (at "name" r.values)) r (ports_of (at "ports" r.values))
        none prov

  -- `add`.
  unfoldable pub add : KnownType → PlanResource → Option (Map Provenance) → Graph → Graph
  add bucket r prov g = record g { resources = g.resources ++ (bucket_of r prov ∷ []) }
  add bucket_object r prov g = record g { resources = g.resources ++ (object_of r prov ∷ []) }
  add grant r prov g = record g { grants = g.grants ++ (grant_of r prov ∷ []) }
  add workload r prov g = record g { resources = g.resources ++ (workload_of r prov ∷ []) }
  add network_rule r prov g = record g {
    network_rules = g.network_rules ++ (network_rule_of r prov ∷ []);
  }

  module _ (decode : Decode) (idx : ConfigIndex) where
    -- One turn of the loop of `walk` over the resources of a module.
    unfoldable pub visit : String → PlanResource → Walk → Walk
    unfolding add include unrecognized_in provenance_for
    visit path r w = elim (known_type r.type) [
      | none ↦ record w { unknown_types = include r.type w.unknown_types }
      | some t ↦ record w {
        graph = add t r (provenance_for decode idx path r) w.graph;
        unrecognized = unrecognized_in (known_attributes t) r.address r.values w.unrecognized;
      }
    ]

    unfoldable pub visit_all : String → List PlanResource → Walk → Walk
    unfolding visit
    visit_all path [] w = w
    visit_all path (r ∷ rest) w = visit_all path rest (visit path r w)

    -- `walk`.
    unfoldable mutual
      unfolding visit_all trim_prefix

      pub walk : String → PlanModule → Walk → Walk
      walk path (plan_module _ resources children) w =
          walk_children children (visit_all path resources w)

      pub walk_children : ChildModules → Walk → Walk
      walk_children none_left w = w
      walk_children (child (plan_module address resources children) rest) w =
          walk_children rest (walk (module_name address) (plan_module address resources children) w)

-- The graph that `FromPlan` and `FromPlatformState` start from.

abbrev pub empty_graph : String → List Segment → Graph
empty_graph surface segments = record {
  contract_version = contract_version;
  surface = surface;
  segments = segments;
  resources = [];
  grants = [];
  network_rules = [];
  unknown_resource_types = [];
  unrecognized_fields = [];
}

-- What `FromPlan` makes of the result of the walk.
abbrev pub reported : Walk → Graph
unfolding sort text_ltb sort_all
reported w = sort_all (record w.graph {
  unknown_resource_types = sort text_ltb w.unknown_types;
  unrecognized_fields = sort text_ltb w.unrecognized;
})

abbrev pub walked : (String → ℤ) → Decode → List Segment → PlanDocument → Walk
walked int_of decode segments doc =
    walk int_of decode doc.index "" doc.root_module
      (record { graph = empty_graph "iac-plan" segments; unknown_types = []; unrecognized = [] })

-- What the decoders of a plan are: fields of one parameter.
pub record Reader : Type 0 where
  pub plan : List ℕ → Option PlanDocument
  pub decode : Decode
  pub int_of : String → ℤ

-- `FromPlan`; `none` is an error.
unfoldable pub from_plan : Reader → List ℕ → List Segment → Option Graph
unfolding walk
from_plan reader raw segments = elim (reader.plan raw) [
  | none ↦ none
  | some doc ↦
      if doc.format_version == ""
      then none
      else some (reported (walked reader.int_of reader.decode segments doc))
]
