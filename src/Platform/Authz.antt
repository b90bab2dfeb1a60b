-- ===== src/Platform/Authz.antt =====
-- internal/platform/authz.go: authorization decisions from effective permissions. An error is
-- `none`: every caller denies on it with one reason, whatever the message.
pub mod Grants
pub mod Read
pub mod Ingress
pub mod Connect
use Prim.Native.String
use planless.Prelude.{
  ℕ, ℤ, pos, ◌/◌, ◌^◌, String, Bool, true, false, not, ◌&&◌, ◌||◌, Option, none, some, List, [],
  ◌∷◌, if◌then◌else◌, ◌=?◌, ◌==◌, any,
}
use planless.Prelude.Text.{codes}
use planless.Netset.{NetSet, parse, empty, all_addresses, contains, union, intersect}
use planless.Netset.Ip.{Addr, v4, parse_addr4}
use planless.Platform.Model.{
  Segment, Grant, Port, Workload, NetworkRule, State, Caller, anonymous, kind_bucket, action_read,
  principal_of,
}
use planless.Platform.Store.{is_object}

-- `slices.Contains` on strings.
abbrev pub member : List String → String → Bool
member l v = any (λ e. e == v) l

pub data Reason : Type 0 where
  allowed no_grant no_rule bind_unreachable unknown_segment not_found unparsable : Reason

pub record Decision : Type 0 where
  pub allowed : Bool
  pub reason : Reason
  pub rule : String

abbrev pub deny : Reason → Decision
deny reason = record { allowed = false; reason = reason; rule = "" }

abbrev pub allow : String → Decision
allow rule = record { allowed = true; reason = Reason.allowed; rule = rule }

pub record Exposure : Type 0 where
  pub principals : List String
  pub sources : NetSet
  pub rule : String

-- The tests by which `EffectiveGrants` passes a grant over.
abbrev pub applies : String → String → String → Grant → Bool
applies kind name action g =
    g.resource_kind == kind && g.resource_name == name && member g.actions action

-- `EffectiveGrants`.
unfoldable pub effective_grants : List Grant → String → String → String → Option (List Exposure)
unfolding parse
effective_grants [] kind name action = some []
effective_grants (g ∷ rest) kind name action =
    let more = effective_grants rest kind name action in
    if applies kind name action g
    then elim (parse g.source_ranges) [
      | none ↦ none
      | some set ↦ elim more [
        | none ↦ none
        | some es ↦ some (record { principals = g.principals; sources = set; rule = g.id } ∷ es)
      ]
    ]
    else more

-- The loop of `BindReach` over the segments.
unfoldable pub segment_reach : List Segment → Addr → Option NetSet
unfolding parse contains
segment_reach [] addr = some empty
segment_reach (s ∷ rest) addr =
    let more = segment_reach rest addr in
    elim (parse (s.cidr ∷ [])) [
      | none ↦ none
      | some set ↦ if contains (some set) addr then some set else more
    ]

-- `BindReach`.
unfoldable pub bind_reach : String → List Segment → Option NetSet
unfolding segment_reach all_addresses parse_addr4
bind_reach bind segments = if bind == "" then none else elim (parse_addr4 (codes bind)) [
  | none ↦ none
  | some v ↦
      if v / 2 ^ 24 =? 127
      then some empty
      else if v =? 0
      then all_addresses
      else segment_reach segments (v4 v)
]

abbrev pub concerns : Workload → Port → NetworkRule → Bool
concerns w p r = r.workload == w.name && r.port == p.name

abbrev pub join_rule : String → String → String
join_rule rule id = if rule == "" then id else String.◌++◌ rule (String.◌++◌ "+" id)

-- The loop of `EffectiveIngress`.
unfoldable pub ingress_from :
    NetSet → String → List NetworkRule → Workload → Port → Option (NetSet × String)
unfolding parse union
ingress_from permitted rule [] w p = some (permitted, rule)
ingress_from permitted rule (r ∷ rest) w p =
    let skip = ingress_from permitted rule rest w p in
    if concerns w p r
    then elim (parse r.source_ranges) [
      | none ↦ none
      | some set ↦ ingress_from (union (some permitted) (some set)) (join_rule rule r.id) rest w p
    ]
    else skip

-- `EffectiveIngress`.
unfoldable pub effective_ingress :
    List NetworkRule → Workload → Port → List Segment → Option (NetSet × String)
unfolding ingress_from bind_reach intersect
effective_ingress rules w p segments = elim (ingress_from empty "" rules w p) [
  | none ↦ none
  | some (permitted, rule) ↦ elim (bind_reach p.bind segments) [
    | none ↦ none
    | some reach ↦ some (intersect (some permitted) (some reach), rule)
  ]
]

-- The last loop of `AuthorizeObjectRead`.
unfoldable pub grant_scan : List Exposure → String → Addr → Decision
unfolding contains
grant_scan [] principal addr = deny no_grant
grant_scan (e ∷ rest) principal addr =
    let more = grant_scan rest principal addr in
    if not (member e.principals principal) && not (member e.principals anonymous)
    then more
    else if contains (some e.sources) addr
    then allow e.rule
    else more

-- `AuthorizeObjectRead`.
unfoldable pub authorize_object_read : State → Caller → String → String → Decision
unfolding effective_grants grant_scan
authorize_object_read st c bucket key =
    if c.segment == ""
    then deny unknown_segment
    else if not (any (is_object bucket key) st.objects)
    then deny not_found
    else elim (effective_grants st.grants kind_bucket bucket action_read) [
      | none ↦ deny unparsable
      | some exposures ↦ grant_scan exposures (principal_of c) c.addr
    ]

-- Go's zero values.
abbrev pub no_workload : Workload
no_workload = record { name = ""; address = ""; ports = [] }

abbrev pub no_port : Port
no_port = record { name = ""; number = pos 0; bind = "" }

-- The inner loop: the last port of the name is kept.
unfoldable pub port_scan : List Port → String → Option Port → Option Port
port_scan [] port found = found
port_scan (cp ∷ rest) port found = port_scan rest port (if cp.name == port then some cp else found)

-- The outer loop: the last workload of the name, and the last matching port of any such workload.
unfoldable pub workload_scan :
    List Workload → String → String → Option Workload → Option Port → Option Workload × Option Port
unfolding port_scan
workload_scan [] workload port w p = (w, p)
workload_scan (cand ∷ rest) workload port w p =
    workload_scan rest workload port (if cand.name == workload then some cand else w)
      (if cand.name == workload then port_scan cand.ports port p else p)

-- The decision of `AuthorizeConnect` on a workload and a port that were found.
unfoldable pub connect_decision : State → Caller → Workload → Port → Decision
unfolding effective_ingress bind_reach contains
connect_decision st c w p = elim (effective_ingress st.network_rules w p st.segments) [
  | none ↦ deny unparsable
  | some (permitted, rule) ↦
      if contains (some permitted) c.addr
      then allow rule
      else elim (bind_reach p.bind st.segments) [
        | none ↦ deny unparsable
        | some reach ↦
            if not (contains (some reach) c.addr) then deny bind_unreachable else deny no_rule
      ]
]

abbrev connect_found : State → Caller → Option Workload → Option Port → Decision × Workload × Port
connect_found st c (some w) (some p) = (connect_decision st c w p, w, p)
connect_found st c _ _ = (deny not_found, no_workload, no_port)

-- `AuthorizeConnect`.
unfoldable pub authorize_connect : State → Caller → String → String → Decision × Workload × Port
unfolding workload_scan connect_decision
authorize_connect st c workload port =
    if c.segment == ""
    then (deny unknown_segment, no_workload, no_port)
    else (let (w, p) = workload_scan st.workloads workload port none none in connect_found st c w p)
