-- ===== src/Examples.antt =====
-- A small estate, and the requests that the instances of the theorems are about.
mod Addresses
mod Stores
mod Decisions
mod Requests
mod Scopes
mod Pipelines
mod Graphs
mod Runs
mod Containers
mod Manifests
mod Tables
mod Layouts
use planless.Prelude.{ℤ, String, List, [], ◌∷◌, some, none, ℕ, true, false}
use planless.Platform.Model.{
  Segment, Principal, Bucket, Object, Grant, Port, Workload, NetworkRule, State, Caller,
}
use planless.Platform.Store.{Store}
use planless.Netset.Ip.{v4}

abbrev pub corp_ranges : List String
corp_ranges = "10.10.0.0/17" ∷ "10.10.128.0/17" ∷ []

abbrev pub desk : ℕ
desk = 168427527

abbrev pub segments : List Segment
segments =
    record { name = "corp"; cidr = "10.10.0.0/16" }
    ∷ record { name = "partner"; cidr = "10.20.0.0/16" }
    ∷ []

abbrev pub report : Object
report = record {
  bucket = "reports";
  key = "q1";
  content_type = "text/plain";
  size = 2;
  content_digest = "d";
  body = 104 ∷ 105 ∷ [];
}

abbrev pub read_grant : Grant
read_grant = record {
  id = "g1";
  resource_kind = "bucket";
  resource_name = "reports";
  principals = "analyst" ∷ [];
  actions = "read" ∷ "write" ∷ [];
  source_ranges = corp_ranges;
}

abbrev pub http : Port
http = record { name = "http"; number = ℤ.pos 8080; bind = "0.0.0.0" }

abbrev pub admin : Port
admin = record { name = "admin"; number = ℤ.pos 9000; bind = "127.0.0.1" }

abbrev pub billing : Workload
billing = record { name = "billing"; address = "10.10.0.5"; ports = http ∷ admin ∷ [] }

abbrev pub http_rule : NetworkRule
http_rule = record { id = "n1"; workload = "billing"; port = "http"; source_ranges = corp_ranges }

abbrev pub reports : Bucket
reports = record { name = "reports"; encrypted = true; log_retention_days = ℤ.pos 30 }

abbrev pub archive : Bucket
archive = record { name = "archive"; encrypted = true; log_retention_days = ℤ.pos 7 }

abbrev pub estate : State
estate = record {
  segments = segments;
  principals = record { name = "analyst"; description = "" } ∷ [];
  buckets = reports ∷ [];
  objects = report ∷ [];
  grants = read_grant ∷ [];
  workloads = billing ∷ [];
  network_rules = http_rule ∷ [];
  ledger = [];
}

abbrev pub stored_estate : Store
stored_estate = record { state = estate; seq = 0 }

abbrev pub analyst : Caller
analyst = record { principal = "analyst"; segment = "corp"; addr = v4 desk }

abbrev pub digest : List ℕ → String
digest _ = "d"
