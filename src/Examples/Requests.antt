-- ===== src/Examples/Requests.antt =====
-- Instances of the theorems on the two listeners.
use planless.Prelude.{true, false, if◌then◌else◌, ◌==◌, ◌≡◌, refl, Option, some, none, [], ◌∷◌}
use planless.Netset.Ip.{v4}
use planless.Api.Http.{
  Payload, Request, Outgoing, Reply, Env, Server, Route, other, storage, net, put,
}
use planless.Api.Targets.{target_of}
use planless.Api.Server.{connect, corp_handler, edge_handler}
use planless.Api.Server.Writing.{Switched, put_switch-cases}
use planless.Api.Server.Handlers.{Handled, corp_handler-Outcome, edge_handler-Outcome}
use planless.Api.Server.Safety.{view, edge_handler_keeps}
use planless.Api.Server.Guards.{Guarded, corp_handler-Guarded}
use planless.Api.Server.Reads.{Seen, get_object_lem, connect_local}
use planless.Examples.{stored_estate, analyst, desk, digest, archive}
use planless.Examples.Stores.{stored_estate-IsWellFormed}

abbrev server : Server
server = record { store = stored_estate; seq = 0; log = [] }

abbrev payload : Payload
payload = record {
  bucket = some archive;
  object = none;
  grant = none;
  workload = none;
  network_rule = none;
}

abbrev request : Route → Request
request route = record {
  remote = some (v4 desk);
  asserted_principal = "analyst";
  method = other;
  path = "/v1";
  route = route;
  content_type = "application/json";
  payload = some payload;
  body = some (104 ∷ []);
}

-- An environment with this workload behind the network.
abbrev env_with : (Outgoing → Option Reply) → Env
env_with workload = record {
  digest = digest;
  state_digest = λ _. some "s";
  ledger_digest = λ _. some "l";
  decode_base64 = λ _. some [];
  workload = workload;
}

abbrev env : Env
env = env_with (λ _. some (record {
  status = 200;
  content_type = "text/plain";
  change = "charged";
  body = some (111 ∷ 107 ∷ []);
}))

corp_handler-Outcome_example :
    Handled true (request (put "bucket")) server (corp_handler env (request (put "bucket")) server)
corp_handler-Outcome_example =
    corp_handler-Outcome env (request (put "bucket")) server stored_estate-IsWellFormed

edge_handler-Outcome_example :
    Handled false
      (request (net "billing" "http" "/"))
      server
      (edge_handler env (request (net "billing" "http" "/")) server)
edge_handler-Outcome_example =
    edge_handler-Outcome env (request (net "billing" "http" "/")) server stored_estate-IsWellFormed

put_switch-cases_example :
    Switched env "bucket" payload
      (record { kind = "bucket"; name = "archive"; identity = "archive" })
      stored_estate
unfolding target_of
put_switch-cases_example =
    put_switch-cases env "bucket" payload stored_estate
      (record { kind = "bucket"; name = "archive"; identity = "archive" }) refl

edge_handler_keeps_example :
    view (edge_handler env (request (net "billing" "http" "/")) server).1 ≡ view server
edge_handler_keeps_example = edge_handler_keeps env (request (net "billing" "http" "/")) server

corp_handler-Guarded_example :
    Guarded env
      (request (put "bucket"))
      server
      (view (corp_handler env (request (put "bucket")) server).1)
corp_handler-Guarded_example =
    corp_handler-Guarded env (request (put "bucket")) server stored_estate-IsWellFormed

get_object_lem_example : Seen (request (storage "reports" "q1")) analyst desk "reports" "q1" server
get_object_lem_example =
    get_object_lem (request (storage "reports" "q1")) analyst desk "reports" "q1" server refl

-- A workload that answers on one path only.
abbrev on_path : Env
on_path = env_with (λ out. if out.path == "/" then env.workload out else none)

connect_local_example :
    connect env (request (net "billing" "http" "/")) analyst "billing" "http" "/" server
    ≡ connect on_path (request (net "billing" "http" "/")) analyst "billing" "http" "/" server
connect_local_example =
    connect_local env on_path (request (net "billing" "http" "/")) analyst "billing" "http" "/"
      server (λ body b a. refl)
