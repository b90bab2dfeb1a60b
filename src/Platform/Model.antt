-- ===== src/Platform/Model.antt =====
-- internal/platform/model.go: the resources of the control plane and its state.
use planless.Netset.Ip.{Addr}
use planless.Prelude.{◌==◌, if◌then◌else◌, ℕ, ℤ, String, List, Bool}

abbrev pub kind_bucket : String
kind_bucket = "bucket"

abbrev pub kind_workload : String
kind_workload = "workload"

abbrev pub action_read : String
action_read = "read"

abbrev pub action_write : String
action_write = "write"

-- The principal of a caller that asserted no identity.
abbrev pub anonymous : String
anonymous = "*"

pub record Segment : Type 0 where
  pub name : String
  pub cidr : String

pub record Bucket : Type 0 where
  pub name : String
  pub encrypted : Bool
  pub log_retention_days : ℤ

-- `body` is the list of the stored bytes.
pub record Object : Type 0 where
  pub bucket : String
  pub key : String
  pub content_type : String
  pub size : ℕ
  pub content_digest : String
  pub body : List ℕ

pub record Grant : Type 0 where
  pub id : String
  pub resource_kind : String
  pub resource_name : String
  pub principals : List String
  pub actions : List String
  pub source_ranges : List String

pub record Port : Type 0 where
  pub name : String
  pub number : ℤ
  pub bind : String

pub record Workload : Type 0 where
  pub name : String
  pub address : String
  pub ports : List Port

pub record NetworkRule : Type 0 where
  pub id : String
  pub workload : String
  pub port : String
  pub source_ranges : List String

pub record Principal : Type 0 where
  pub name : String
  pub description : String

pub record LedgerEntry : Type 0 where
  pub seq : ℕ
  pub action : String
  pub resource : String
  pub principal : String
  pub segment : String
  pub detail : String

pub record State : Type 0 where
  pub segments : List Segment
  pub principals : List Principal
  pub buckets : List Bucket
  pub objects : List Object
  pub grants : List Grant
  pub workloads : List Workload
  pub network_rules : List NetworkRule
  pub ledger : List LedgerEntry

-- Who asked, and from where: `Caller` of authz.go.
pub record Caller : Type 0 where
  pub principal : String
  pub segment : String
  pub addr : Addr

abbrev pub principal_of : Caller → String
principal_of c = if c.principal == "" then anonymous else c.principal
