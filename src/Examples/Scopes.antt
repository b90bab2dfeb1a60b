-- ===== src/Examples/Scopes.antt =====
-- An instance with two scopes: a grant for one bucket is replaced by the writer of another.
use planless.Prelude.{◌≡◌, refl, ◌==◌, some, none, [], ◌∷◌, find}
use planless.Prelude.Text.{text_ltb}
use planless.Netset.Ip.{v4}
use planless.Platform.Model.{Grant, State}
use planless.Platform.Store.WellFormed.{IsWellFormed}
use planless.Api.Http.{Request, Server, other, put, Env}
use planless.Api.Targets.{authorize_write}
use planless.Api.Resources.{put_resource}
use planless.Api.Server.Replacing.{put_resource-grant}
use planless.Examples.{estate, read_grant, analyst, corp_ranges, digest, desk}

abbrev archive_grant : Grant
archive_grant = record {
  id = "g2";
  resource_kind = "bucket";
  resource_name = "archive";
  principals = "analyst" ∷ [];
  actions = "write" ∷ [];
  source_ranges = corp_ranges;
}

-- The identity of the grant for the other bucket, in the scope of this one.
abbrev taken : Grant
taken = record archive_grant { id = "g1" }

abbrev only_archive : State
only_archive = record estate {
  grants = record read_grant { actions = "read" ∷ [] } ∷ archive_grant ∷ [];
}

abbrev scopes : Server
scopes = record { store = record { state = only_archive; seq = 0 }; seq = 0; log = [] }

abbrev take_over : Request
take_over = record {
  remote = some (v4 desk);
  asserted_principal = "analyst";
  method = other;
  path = "/v1/resources/grant";
  route = put "grant";
  content_type = "application/json";
  payload = some (record {
    bucket = none;
    object = none;
    grant = some taken;
    workload = none;
    network_rule = none;
  });
  body = none;
}

abbrev quiet : Env
quiet = record {
  digest = digest;
  state_digest = λ _. none;
  ledger_digest = λ _. none;
  decode_base64 = λ _. none;
  workload = λ _. none;
}

scopes-IsWellFormed : IsWellFormed scopes.store
unfolding text_ltb
scopes-IsWellFormed = record {
  ordered = record {
    segments = ((refl, tt), (tt, tt));
    principals = (tt, tt);
    buckets = (tt, tt);
    objects = (tt, tt);
    grants = ((refl, tt), (tt, tt));
    workloads = (tt, tt);
    network_rules = (tt, tt);
    ledger = tt;
  };
  bounded = tt;
}

put_resource-grant_example :
    find
      (λ x. x.id == "g1")
      (put_resource quiet take_over analyst "grant" scopes).1.store.state.grants
    ≡ some taken
unfolding authorize_write
put_resource-grant_example =
    put_resource-grant quiet take_over analyst
      (record {
        bucket = none;
        object = none;
        grant = some taken;
        workload = none;
        network_rule = none;
      })
      taken scopes scopes-IsWellFormed refl refl (λ p. cc p) (λ p. cc p) refl
