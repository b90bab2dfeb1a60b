-- ===== src/Api/Targets.antt =====
-- Which resource's scope a write needs: `targetOf`, `targetOfExisting` and `authorizeWrite` of
-- internal/api/server.go.
pub mod Scope
use Prim.Native.String
use planless.Prelude.{
  String, Bool, true, false, ◌&&◌, ◌||◌, not, Option, none, some, List, [], ◌∷◌, if◌then◌else◌,
  ◌==◌, find, any,
}
use planless.Prelude.Text.{cut}
use planless.Netset.{contains}
use planless.Netset.Ip.{Addr}
use planless.Platform.Model.{
  kind_bucket, kind_workload, action_write, Bucket, Grant, Workload, NetworkRule, State, Caller,
  principal_of,
}
use planless.Platform.Authz.{Exposure, effective_grants, member}
use planless.Api.Http.{Payload, ObjectPayload}

-- `target`.
pub record Target : Type 0 where
  pub kind : String
  pub name : String
  pub identity : String

abbrev pub slash : String → String → String
slash a b = String.◌++◌ a (String.◌++◌ "/" b)

abbrev bucket_target : Option Bucket → Option Target
bucket_target none = none
bucket_target (some b) =
    if b.name == ""
    then none
    else some (record { kind = kind_bucket; name = b.name; identity = b.name })

abbrev object_target : Option ObjectPayload → Option Target
object_target none = none
object_target (some o) =
    if o.bucket == "" || o.key == ""
    then none
    else some (record { kind = kind_bucket; name = o.bucket; identity = slash o.bucket o.key })

abbrev grant_target : Option Grant → Option Target
grant_target none = none
grant_target (some g) =
    if g.id == "" || g.resource_name == ""
    then none
    else some (record { kind = g.resource_kind; name = g.resource_name; identity = g.id })

abbrev workload_target : Option Workload → Option Target
workload_target none = none
workload_target (some w) =
    if w.name == ""
    then none
    else some (record { kind = kind_workload; name = w.name; identity = w.name })

abbrev rule_target : Option NetworkRule → Option Target
rule_target none = none
rule_target (some r) =
    if r.id == "" || r.workload == ""
    then none
    else some (record { kind = kind_workload; name = r.workload; identity = r.id })

-- `targetOf`.
unfoldable pub target_of : String → Payload → Option Target
target_of kind p =
    if kind == "bucket"
    then bucket_target p.bucket
    else if kind == "object"
    then object_target p.object
    else if kind == "grant"
    then grant_target p.grant
    else if kind == "workload"
    then workload_target p.workload
    else if kind == "network_rule"
    then rule_target p.network_rule
    else none

-- `targetOfExisting`.
unfoldable pub target_of_existing : State → String → String → Option Target
unfolding cut
target_of_existing st kind id =
    if kind == "bucket"
    then some (record { kind = kind_bucket; name = id; identity = id })
    else if kind == "workload"
    then some (record { kind = kind_workload; name = id; identity = id })
    else if kind == "object"
    then elim (cut b'/' id) [
      | none ↦ none
      | some (bucket, _) ↦ some (record { kind = kind_bucket; name = bucket; identity = id })
    ]
    else if kind == "grant"
    then elim (find (λ g. g.id == id) st.grants) [
      | none ↦ none
      | some g ↦ some (record { kind = g.resource_kind; name = g.resource_name; identity = id })
    ]
    else if kind == "network_rule"
    then elim (find (λ r. r.id == id) st.network_rules) [
      | none ↦ none
      | some r ↦ some (record { kind = kind_workload; name = r.workload; identity = id })
    ]
    else none

-- The loop of `authorizeWrite`. Unlike a read, a write is open to the caller's own principal only.
unfoldable pub write_scan : List Exposure → String → Addr → Bool
unfolding contains
write_scan [] principal addr = false
write_scan (e ∷ rest) principal addr =
    let more = write_scan rest principal addr in
    if not (member e.principals principal)
    then more
    else if contains (some e.sources) addr
    then true
    else more

-- `authorizeWrite`.
unfoldable pub authorize_write : State → Caller → String → String → Bool
unfolding effective_grants write_scan
authorize_write st c kind name = elim (effective_grants st.grants kind name action_write) [
  | none ↦ false
  | some exposures ↦ write_scan exposures (principal_of c) c.addr
]
