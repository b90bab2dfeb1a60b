-- ===== src/Platform/Store/Orders.antt =====
-- The orders in which internal/platform/store.go keeps its collections.
use planless.Ordered.{Order}
use planless.Ordered.Keys.{by_text, by_pair, by_number}
use planless.Platform.Model.{
  Segment, Bucket, Object, Grant, Workload, NetworkRule, Principal, LedgerEntry,
}

abbrev pub segment_order : Order Segment
segment_order = by_text (λ a. a.name)

abbrev pub principal_order : Order Principal
principal_order = by_text (λ a. a.name)

abbrev pub bucket_order : Order Bucket
bucket_order = by_text (λ a. a.name)

abbrev pub object_order : Order Object
object_order = by_pair (λ a. a.bucket) (λ a. a.key)

abbrev pub grant_order : Order Grant
grant_order = by_text (λ a. a.id)

abbrev pub workload_order : Order Workload
workload_order = by_text (λ a. a.name)

abbrev pub rule_order : Order NetworkRule
rule_order = by_text (λ a. a.id)

abbrev pub ledger_order : Order LedgerEntry
ledger_order = by_number (λ a. a.seq)
