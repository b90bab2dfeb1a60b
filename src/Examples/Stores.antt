-- ===== src/Examples/Stores.antt =====
-- Instances of the theorems on the store.
use planless.Prelude.{◌≡◌, refl, []}
use planless.Prelude.Text.{text_ltb}
use planless.Platform.Store.{new, load, delete, object, put_object}
use planless.Platform.Store.WellFormed.{
  IsWellFormed, HasDistinctKeys, new-IsWellFormed, load-IsWellFormed,
}
use planless.Platform.Store.Writes.{Write, apply, apply-IsWellFormed}
use planless.Platform.Store.Deletion.{Deletes, delete-Deletes}
use planless.Platform.Store.Laws.{object-put_object}
use planless.Examples.{segments, estate, stored_estate, digest, archive, report}

estate-HasDistinctKeys : HasDistinctKeys estate
estate-HasDistinctKeys = record {
  segments = ((refl, tt), (tt, tt));
  principals = (tt, tt);
  buckets = (tt, tt);
  objects = (tt, tt);
  grants = (tt, tt);
  workloads = (tt, tt);
  network_rules = (tt, tt);
  ledger = tt;
}

pub stored_estate-IsWellFormed : IsWellFormed stored_estate
unfolding text_ltb
stored_estate-IsWellFormed = record {
  ordered = record {
    segments = ((refl, tt), (tt, tt));
    principals = (tt, tt);
    buckets = (tt, tt);
    objects = (tt, tt);
    grants = (tt, tt);
    workloads = (tt, tt);
    network_rules = (tt, tt);
    ledger = tt;
  };
  bounded = tt;
}

new-IsWellFormed_example : IsWellFormed (new segments)
new-IsWellFormed_example = new-IsWellFormed segments ((refl, tt), (tt, tt))

load-IsWellFormed_example : IsWellFormed (load estate)
load-IsWellFormed_example = load-IsWellFormed estate estate-HasDistinctKeys

apply-IsWellFormed_example : IsWellFormed (apply digest (Write.bucket archive) stored_estate)
apply-IsWellFormed_example =
    apply-IsWellFormed digest (Write.bucket archive) stored_estate stored_estate-IsWellFormed

delete-Deletes_example :
    Deletes "bucket" "reports" stored_estate (delete "bucket" "reports" stored_estate)
delete-Deletes_example = delete-Deletes "bucket" "reports" stored_estate stored_estate-IsWellFormed

object-put_object_example :
    object (put_object digest report [] stored_estate) "reports" "q2"
    ≡ object stored_estate "reports" "q2"
object-put_object_example =
    object-put_object digest report [] stored_estate "reports" "q2" stored_estate-IsWellFormed
