-- ===== src/Containment.antt =====
-- internal/containment/compose.go: which rules of isolation a resolved Compose configuration breaks.
-- The decoders of `encoding/json` are parameters, and a Go map is given by its entries in some order;
-- where the code ranges over a map it wrote itself, the order is that of the source.
mod Findings
pub mod Hardened
pub mod Segmented
pub mod Contained
use planless.Prelude.{
  ℕ, ◌+◌, String, Bool, true, false, not, ◌&&◌, ◌||◌, Option, none, some, List, [], ◌∷◌, ◌++◌, map,
  if◌then◌else◌, ◌==◌, any, ℤ,
}
use planless.Prelude.Text.{text_ltb, has_prefix}
use planless.Prelude.Words.{join_texts, contains_text, trim_space, equal_fold}
use planless.Ordered.{sort}
use planless.Json.{Json}
use Prim.Native.String

abbrev pub corp_network : String
corp_network = "corp"

abbrev pub internet_network : String
internet_network = "internet"

abbrev pub public_edge : String
public_edge = "controlplane"

pub record Finding : Type 0 where
  pub service : String
  pub rule : String
  pub detail : String

-- A Go map with texts as keys.
abbrev pub Map {ℓ} : Type ℓ → Type ℓ
Map A = List (String × A)

pub record Volume : Type 0 where
  pub kind : String
  pub source : String
  pub target : String

pub record Port : Type 0 where
  pub host_ip : String
  pub published : String
  pub target : ℤ

-- `subnets` are those of `ipam.config`.
pub record Network : Type 0 where
  pub internal : Bool
  pub external : Bool
  pub subnets : List String

pub record Service : Type 0 where
  pub privileged : Bool
  pub user : String
  pub read_only : Bool
  pub cap_add : List String
  pub cap_drop : List String
  pub security_opt : List String
  pub network_mode : String
  pub pid : String
  pub ipc : String
  pub userns_mode : String
  pub cgroup_parent : String
  pub devices : List Json
  pub device_cgroup_rules : List String
  pub volumes : List Volume
  pub tmpfs : Json
  pub ports : List Port
  pub networks : Map Json

pub record Config : Type 0 where
  pub services : Map Service
  pub networks : Map Network

-- What the code calls of `encoding/json`: the decoder into a `Config`, the one into a tree, and the
-- encoder of a tree. `none` is an error.
pub record Env : Type 0 where
  pub read_config : String → Option Config
  pub read_tree : String → Option Json
  pub write_tree : Json → Option String

module _ {ℓ} {A : Type ℓ} where
  -- `m[key]`; `none` is a missing key.
  unfoldable pub lookup : String → Map A → Option A
  lookup key [] = none
  lookup key (e ∷ rest) = if e.0 == key then some e.1 else lookup key rest

  abbrev pub names : Map A → List String
  names [] = []
  names (e ∷ rest) = e.0 ∷ names rest

  -- `sortedKeys`.
  unfoldable pub sorted_keys : Map A → List String
  unfolding sort text_ltb
  sorted_keys m = sort text_ltb (names m)

  abbrev pub is_some : Option A → Bool
  is_some none = false
  is_some (some a) = true

  abbrev pub is_empty : List A → Bool
  is_empty [] = true
  is_empty (a ∷ rest) = false

  -- The findings of one piece of the code after those of another.
  abbrev pub concat : List (List A) → List A
  concat [] = []
  concat (l ∷ rest) = l ++ concat rest

  abbrev pub when : Bool → A → List A
  when b a = if b then a ∷ [] else []

-- A loop that looks its key up and appends what it finds there; its keys are the map's own.
abbrev pub at_each {ℓ κ} :
    {A : Type ℓ} {B : Type κ} → Map A → (String → A → List B) → List String → List (List B)
at_each m f [] = []
at_each m f (key ∷ rest) =
    let later = at_each m f rest in elim (lookup key m) [ none ↦ later | some a ↦ f key a ∷ later ]

abbrev pub found : String → String → Finding
found rule detail = record { service = ""; rule = rule; detail = detail }

abbrev pub has_key {ℓ} : {A : Type ℓ} → String → Map A → Bool
has_key key m = is_some (lookup key m)

abbrev pub expected_subnet : String → Option String
expected_subnet name =
    if name == corp_network
    then some "10.20.0.0/16"
    else if name == internet_network
    then some "198.51.100.0/24"
    else none

-- The loop over the networks that there are.
abbrev pub unexpected : String → List Finding
unexpected name =
    when (not (is_some (expected_subnet name)))
      (found "only_declared_segments_exist" (String.◌++◌ "unexpected network " name))

-- One round of the loop over the networks that there should be.
unfoldable pub check_segment : Map Network → String → String → List Finding
check_segment networks name subnet = elim (lookup name networks) [
  | none ↦ found "only_declared_segments_exist" (String.◌++◌ "missing network " name) ∷ []
  | some n ↦
      when (not n.internal || n.external)
        (found "segments_have_no_egress" (String.◌++◌ name " is not an internal network"))
      ++ when (not (any (λ (s : String). s == subnet) n.subnets)) (
          found "segments_use_declared_subnets"
            (String.◌++◌ name (String.◌++◌ " does not declare " subnet)))
]

-- One round of the loop over the services.
unfoldable pub check_attachment : String → Service → List Finding
check_attachment name s =
    when
      (has_key corp_network s.networks
        && has_key internet_network s.networks
        && not (name == public_edge))
      (record {
        service = name;
        rule = "only_the_public_edge_spans_both_segments";
        detail = "attached to both segments";
      })
    ++ when (is_empty s.networks && not (s.network_mode == "none")) (record {
      service = name;
      rule = "service_is_on_a_declared_segment";
      detail = "no segment attachment";
    })

abbrev pub check_on : Service → String → List Finding
check_on s segment = when (not (has_key segment s.networks)) (record {
  service = public_edge;
  rule = "public_edge_spans_both_segments";
  detail = String.◌++◌ "not attached to " segment;
})

unfoldable pub check_edge : Map Service → List Finding
check_edge services = elim (lookup public_edge services) [
  | none ↦ found "public_edge_exists" "no controlplane service" ∷ []
  | some s ↦ check_on s corp_network ++ check_on s internet_network
]

-- What each loop and test of `checkNetworks` adds, in turn.
unfoldable pub network_findings : Config → List (List Finding)
unfolding sorted_keys check_segment check_attachment check_edge
network_findings cfg =
    concat (map unexpected (sorted_keys cfg.networks))
    ∷ check_segment cfg.networks corp_network "10.20.0.0/16"
    ∷ check_segment cfg.networks internet_network "198.51.100.0/24"
    ∷ concat (at_each cfg.services check_attachment (sorted_keys cfg.services))
    ∷ check_edge cfg.services
    ∷ []

-- `checkNetworks`.
unfoldable pub check_networks : Config → List Finding
unfolding network_findings
check_networks cfg = concat (network_findings cfg)

-- `containsFold`.
unfoldable pub contains_fold : List String → String → Bool
contains_fold list want = any (λ (v : String). equal_fold (trim_space v) want) list

-- `quote`.
abbrev pub quote : String → String
quote v = if v == "" then "(unset)" else v

abbrev pub runs_as_root : String → Bool
runs_as_root user = user == "" || has_prefix user "0:" || user == "0" || user == "root"

-- What the loop over the namespaces does not skip.
abbrev pub is_shared : String → Bool
is_shared value =
    not (value == "")
    && (has_prefix value "host" || has_prefix value "container:" || has_prefix value "service:")

module _ (name : String) where
  abbrev pub add : String → String → Finding
  add rule detail = record { service = name; rule = rule; detail = detail }

  abbrev pub check_namespace : String → String → List Finding
  check_namespace field value =
      when (is_shared value)
        (add "no_shared_host_namespace" (String.◌++◌ field (String.◌++◌ ": " value)))

  abbrev pub check_volume : Volume → List Finding
  check_volume v = when (not (v.kind == "tmpfs")) (
      add "only_tmpfs_mounts"
        (join_texts "" (v.kind ∷ " mount " ∷ v.source ∷ " -> " ∷ v.target ∷ [])))

  abbrev pub check_port : Port → List Finding
  check_port p = when (not (p.host_ip == "127.0.0.1") && not (p.host_ip == "::1")) (
      add "published_ports_are_loopback_only"
        (join_texts "" ("published " ∷ p.published ∷ " on " ∷ quote p.host_ip ∷ [])))

  -- What each test of `checkService` adds, in turn.
  unfoldable pub broken_rules : Service → List (List Finding)
  unfolding contains_fold has_prefix
  broken_rules s =
      when s.privileged (add "not_privileged" "privileged: true")
      ∷ when (runs_as_root s.user) (add "runs_as_non_root" (String.◌++◌ "user: " (quote s.user)))
      ∷ when (not s.read_only) (add "read_only_root_filesystem" "read_only is not true")
      ∷ when (not (contains_fold s.cap_drop "ALL"))
          (add "drops_all_capabilities" "cap_drop does not contain ALL")
      ∷ when (not (is_empty s.cap_add))
          (add "adds_no_capabilities" (String.◌++◌ "cap_add: " (join_texts "," s.cap_add)))
      ∷ when (not (contains_fold s.security_opt "no-new-privileges:true"))
          (add "no_new_privileges" "security_opt does not contain no-new-privileges:true")
      ∷ check_namespace "network_mode" s.network_mode
      ∷ check_namespace "pid" s.pid
      ∷ check_namespace "ipc" s.ipc
      ∷ check_namespace "userns_mode" s.userns_mode
      ∷ when (not (s.cgroup_parent == ""))
          (add "no_cgroup_parent" (String.◌++◌ "cgroup_parent: " s.cgroup_parent))
      ∷ when (not (is_empty s.devices) || not (is_empty s.device_cgroup_rules))
          (add "no_device_access" "devices or device_cgroup_rules are declared")
      ∷ concat (map check_volume s.volumes)
      ∷ concat (map check_port s.ports)
      ∷ []

  -- `checkService`.
  unfoldable pub check_service : Service → List Finding
  unfolding broken_rules
  check_service s = concat (broken_rules s)

-- `compactJSON`.
unfoldable pub compact_json : Env → String → String
compact_json env raw = elim (env.read_tree raw) [
  | none ↦ raw
  | some tree ↦ elim (env.write_tree tree) [ none ↦ raw | some out ↦ out ]
]

abbrev pub forbidden_substrings : List String
forbidden_substrings =
    "docker.sock" ∷ "containerd.sock" ∷ "/var/run/docker" ∷ "\"network_mode\":\"host\""
    ∷ "\"network_mode\": \"host\"" ∷ []

abbrev pub forbidden : String → String → List Finding
forbidden compact needle =
    when (contains_text compact needle)
      (found "no_host_or_runtime_access" (String.◌++◌ "configuration contains " needle))

-- What each part of `Check` adds, in turn.
unfoldable pub all_findings : Env → String → Config → List (List Finding)
unfolding sorted_keys check_networks check_service compact_json contains_text
all_findings env raw cfg =
    concat (map (forbidden (compact_json env raw)) forbidden_substrings)
    ∷ check_networks cfg
    ∷ concat (at_each cfg.services check_service (sorted_keys cfg.services))
    ∷ []

-- `Check`; `none` is an error.
unfoldable pub check : Env → String → Option (List Finding)
unfolding all_findings
check env raw = elim (env.read_config raw) [
  | none ↦ none
  | some cfg ↦ if is_empty cfg.services then none else some (concat (all_findings env raw cfg))
]
