-- ===== src/Graph.antt =====
-- internal/graph/graph.go: the normalized resource graph that the policy reads. A Go map with text keys
-- is the list of its entries, each key once.
pub mod Sorted
pub mod Origins
pub mod Plan
pub mod Live
pub mod Documents
pub mod Manifests
use planless.Prelude.{ℤ, String, Bool, Option, none, some, List, [], ◌∷◌, if◌then◌else◌, ◌==◌}
use planless.Json.{Json}

abbrev pub contract_version : String
contract_version = "1"

pub data Origin : Type 0 where
  literal variable_file module_default root_default unknown live_state base_manifest overlay :
      Origin

pub record Contribution : Type 0 where
  pub origin : Origin
  pub reference : String

pub record Provenance : Type 0 where
  pub origin : Origin
  pub reference : String
  pub contributors : List Contribution

abbrev pub Map : Type 0 → Type 0
Map V = List (String × V)

-- `m[k] = v`.
abbrev pub assign : {V : Type 0} → String → V → Map V → Map V
assign k v [] = (k, v) ∷ []
assign k v ((l, w) ∷ rest) =
    let more = assign k v rest in if l == k then (k, v) ∷ rest else (l, w) ∷ more

-- `m[k]`; `none` is a missing key.
abbrev pub at : {V : Type 0} → String → Map V → Option V
at k [] = none
at k ((l, v) ∷ rest) = let more = at k rest in if l == k then some v else more

pub record Port : Type 0 where
  pub name : String
  pub number : ℤ
  pub bind : String

-- `attributes` is `none` for a nil map, and `provenance` too.
pub record Resource : Type 0 where
  pub kind : String
  pub name : String
  pub address : String
  pub ports : List Port
  pub attributes : Option (Map Json)
  pub provenance : Option (Map Provenance)

pub record Grant : Type 0 where
  pub id : String
  pub resource_kind : String
  pub resource_name : String
  pub principals : List String
  pub actions : List String
  pub source_ranges : List String
  pub address : String
  pub provenance : Option (Map Provenance)

pub record NetworkRule : Type 0 where
  pub id : String
  pub workload : String
  pub port : String
  pub source_ranges : List String
  pub address : String
  pub provenance : Option (Map Provenance)

pub record Segment : Type 0 where
  pub name : String
  pub cidr : String

pub record Graph : Type 0 where
  pub contract_version : String
  pub surface : String
  pub segments : List Segment
  pub resources : List Resource
  pub grants : List Grant
  pub network_rules : List NetworkRule
  pub unknown_resource_types : List String
  pub unrecognized_fields : List String
