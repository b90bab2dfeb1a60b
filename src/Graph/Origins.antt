-- ===== src/Graph/Origins.antt =====
-- internal/graph/provenance.go: where the value of an attribute came from. What `encoding/json` makes of
-- one raw message is a parameter: fields of `Decode`.
pub mod Visible
use Prim.Native.String
use planless.Prelude.{
  ℕ, String, Bool, true, false, not, ◌&&◌, ◌||◌, Option, none, some, List, [], ◌∷◌, ◌++◌,
  if◌then◌else◌, ltb, ◌=?◌, ◌==◌, find,
}
use planless.Prelude.Text.{strip_prefix, has_prefix, trim_prefix}
use planless.Json.{Json, null}
use planless.Graph.{
  Origin, literal, variable_file, module_default, root_default, unknown, live_state, base_manifest,
  overlay, Contribution, Provenance, Map, assign, at,
}

-- `expression`; the constant value is `none` where it is absent.
pub record Expression : Type 0 where
  pub constant_value : Option Json
  pub references : List String

pub record Decode : Type 0 where
  pub expression : Json → Option Expression
  pub blocks : Json → Option (List (Map Json))
  pub text_of : Json → Option String
  pub marshal : Json → Option String

-- `configVar`, where a default that is absent is null.
pub record ConfigVar : Type 0 where
  pub default : Json
  pub required : Bool

pub record ConfigResource : Type 0 where
  pub address : String
  pub type : String
  pub expressions : Map Json

-- A `configModule` as far as it is read: its resources and variables. The module calls are read of the
-- root alone.
pub record ConfigModule : Type 0 where
  pub resources : List ConfigResource
  pub variables : Map ConfigVar

pub record ModuleCall : Type 0 where
  pub expressions : Map Json
  pub body : ConfigModule

-- `configIndex`. A resolved variable without a value is `none`.
pub record ConfigIndex : Type 0 where
  pub root : ConfigModule
  pub modules : Map ModuleCall
  pub resolved : Map (Option Json)

pub record PlanResource : Type 0 where
  pub address : String
  pub type : String
  pub name : String
  pub values : Map Json

-- `visibility`; an origin that the map does not list counts as 0.
abbrev pub visibility : Origin → ℕ
visibility module_default = 0
visibility variable_file = 1
visibility root_default = 2
visibility literal = 3
visibility unknown = 4
visibility live_state = 0
visibility base_manifest = 0
visibility overlay = 0

-- `securityRelevant`.
abbrev pub security_relevant : String → Option (List String)
security_relevant t =
    if t == "democloud_grant"
    then some ("principals" ∷ "actions" ∷ "source_ranges" ∷ "resource_name" ∷ [])
    else if t == "democloud_network_rule"
    then some ("source_ranges" ∷ "workload" ∷ "port" ∷ [])
    else if t == "democloud_workload"
    then some ("address" ∷ [])
    else if t == "democloud_bucket"
    then some ("encrypted" ∷ [])
    else none

abbrev pub bare : Origin → Provenance
bare o = record { origin = o; reference = ""; contributors = [] }

abbrev pub is_null : Json → Bool
is_null null = true
is_null _ = false

-- The loop of `contributionOf` over what the caller passes: its first variable.
abbrev pub first_variable : List String → Option String
first_variable refs = find (λ ref. has_prefix ref "var.") refs

abbrev pub contribution : Origin → String → Contribution
contribution o reference = record { origin = o; reference = reference }

-- The test of the loop of `originOf` over the contributors.
unfoldable pub closer : Contribution → Contribution → Contribution
closer primary c = if ltb (visibility c.origin) (visibility primary.origin) then c else primary

-- The loop of `originOf` over the contributors: the first of the least visible.
unfoldable pub least_visible : Contribution → List Contribution → Contribution
unfolding closer
least_visible primary [] = primary
least_visible primary (c ∷ rest) = least_visible (closer primary c) rest

abbrev pub decided_by : List String → List Contribution → Provenance
decided_by [] [] = bare unknown
decided_by (ref ∷ _) [] = record { origin = literal; reference = ref; contributors = [] }
decided_by refs (c ∷ []) = record { origin = c.origin; reference = c.reference; contributors = [] }
decided_by refs (c ∷ d ∷ rest) =
    let primary = least_visible c (d ∷ rest) in
    record { origin = primary.origin; reference = primary.reference; contributors = c ∷ d ∷ rest }

abbrev pub bind_field : String → String
bind_field name = String.◌++◌ "ports." (String.◌++◌ name ".bind")

abbrev pub resource_in :
    ConfigModule → Option ModuleCall → PlanResource → Option (ConfigResource × Option ModuleCall)
resource_in body call r =
    elim (find (λ cr. cr.address == String.◌++◌ r.type (String.◌++◌ "." r.name)) body.resources) [
      | none ↦ none
      | some cr ↦ some (cr, call)
    ]

-- `resource`, with the call of the module that it was found in.
unfoldable pub config_resource :
    ConfigIndex → String → PlanResource → Option (ConfigResource × Option ModuleCall)
config_resource idx path r =
    if path == ""
    then resource_in idx.root none r
    else elim (at path idx.modules) [ none ↦ none | some c ↦ resource_in c.body (some c) r ]

module _ (decode : Decode) where
  -- `equalJSON`, where a raw message that is empty is no JSON.
  abbrev pub equal_json : Json → Option Json → Bool
  equal_json a none = false
  equal_json a (some b) = elim (decode.marshal a) [
    | none ↦ false
    | some x ↦ elim (decode.marshal b) [ none ↦ false | some y ↦ x == y ]
  ]

  -- `rootOrigin`.
  unfoldable pub root_origin : ConfigIndex → String → Origin
  root_origin idx name = elim (at name idx.root.variables) [
    | none ↦ unknown
    | some v ↦
        if v.required || is_null v.default then variable_file else elim (at name idx.resolved) [
          | none ↦ root_default
          | some resolved ↦ elim (decode.marshal v.default) [
            | none ↦ root_default
            | some _ ↦ if equal_json v.default resolved then root_default else variable_file
          ]
        ]
  ]

  -- `contributionOf`, for an expression that the caller passes.
  abbrev pub passed_contribution : ConfigIndex → String → Expression → Contribution
  passed_contribution idx reference outer = elim outer.constant_value [
    | some _ ↦ contribution literal reference
    | none ↦ elim (first_variable outer.references) [
      | some ref ↦ contribution (root_origin idx (trim_prefix ref "var.")) ref
      | none ↦ elim outer.references [
        | [] ↦ contribution literal reference
        | ref ∷ _ ↦ contribution literal ref
      ]
    ]
  ]

  -- `contributionOf`. The call is `none` exactly in the root module.
  unfoldable pub contribution_of : ConfigIndex → String → Option ModuleCall → Contribution
  unfolding root_origin has_prefix trim_prefix
  contribution_of idx variable call =
      let reference = String.◌++◌ "var." variable in
      elim call [
        | none ↦ contribution (root_origin idx variable) reference
        | some c ↦ elim (at variable c.expressions) [
          | none ↦ contribution module_default reference
          | some passed ↦ elim (decode.expression passed) [
            | none ↦ contribution unknown reference
            | some outer ↦ passed_contribution idx reference outer
          ]
        ]
      ]

  -- The loop of `originOf` over the references.
  unfoldable pub contributors_of : ConfigIndex → Option ModuleCall → List String → List Contribution
  unfolding contribution_of has_prefix trim_prefix
  contributors_of idx call [] = []
  contributors_of idx call (ref ∷ rest) =
      let more = contributors_of idx call rest in
      if not (has_prefix ref "var.")
      then more
      else contribution_of idx (trim_prefix ref "var.") call ∷ more

  -- `originOf`; `none` is an expression that is absent.
  unfoldable pub origin_of : ConfigIndex → Option Json → Option ModuleCall → Provenance
  unfolding contributors_of least_visible
  origin_of idx none call = bare unknown
  origin_of idx (some raw) call = elim (decode.expression raw) [
    | none ↦ bare unknown
    | some expr ↦ elim expr.constant_value [
      | some _ ↦ bare literal
      | none ↦ decided_by expr.references (contributors_of idx call expr.references)
    ]
  ]

  -- `constantString`.
  abbrev pub constant_string : Option Json → String
  constant_string none = ""
  constant_string (some raw) = elim (decode.expression raw) [
    | none ↦ ""
    | some expr ↦ elim expr.constant_value [
      | none ↦ ""
      | some v ↦ elim (decode.text_of v) [ none ↦ "" | some s ↦ s ]
    ]
  ]

  -- The loop of `portProvenance`, with the entries put into `out` at once, as `provenanceFor` does.
  unfoldable pub ports_from :
      ConfigIndex → Option ModuleCall → List (Map Json) → Map Provenance → Map Provenance
  unfolding origin_of
  ports_from idx call [] out = out
  ports_from idx call (block ∷ rest) out =
      let name = constant_string (at "name" block) in
      ports_from idx call rest (
        if name == ""
        then out
        else assign (bind_field name) (origin_of idx (at "bind" block) call) out)

  -- `portProvenance`.
  unfoldable pub port_provenance :
      ConfigIndex → ConfigResource → Option ModuleCall → Map Provenance → Map Provenance
  unfolding ports_from
  port_provenance idx cfg call out = elim (at "ports" cfg.expressions) [
    | none ↦ out
    | some raw ↦ elim (decode.blocks raw) [
      | none ↦ out
      | some blocks ↦ ports_from idx call blocks out
    ]
  ]

  -- The loop of `provenanceFor` over the attributes.
  unfoldable pub origins_from :
      ConfigIndex → Option (ConfigResource × Option ModuleCall) → List String → Map Provenance
  unfolding origin_of
  origins_from idx found [] = []
  origins_from idx found (attr ∷ rest) = elim found [
    | none ↦ (attr, bare unknown) ∷ origins_from idx found rest
    | some (cfg, call) ↦
        (attr, origin_of idx (at attr cfg.expressions) call) ∷ origins_from idx found rest
  ]

  -- `provenanceFor`; `none` is the nil map.
  unfoldable pub provenance_for : ConfigIndex → String → PlanResource → Option (Map Provenance)
  unfolding config_resource origins_from port_provenance
  provenance_for idx path r = elim (security_relevant r.type) [
    | none ↦ none
    | some attrs ↦
        let found = config_resource idx path r in
        let out = origins_from idx found attrs in
        elim found [
          | none ↦ some out
          | some (cfg, call) ↦
              some
                (if r.type == "democloud_workload" then port_provenance idx cfg call out else out)
        ]
  ]
