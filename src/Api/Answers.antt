-- ===== src/Api/Answers.antt =====
-- How the handlers of internal/api/server.go answer, refuse, and record a change.
use planless.Prelude.{ℕ, ◌+◌, ◌%◌, ◌^◌, String, [], ◌∷◌, ◌++◌}
use planless.Platform.Model.{Caller, principal_of}
use planless.Platform.Store.{record_entry}
use planless.Api.Http.{Request, Body, Response, Class, access_refused, change, Server}

abbrev pub respond : ℕ → Body → Response
respond status body = record { status = status; body = body }

-- `refuse`: one event, and the same response whatever the class.
unfoldable pub refuse : Request → Caller → Class → String → Server → Response × Server
refuse r c class resource s =
    let seq = (s.seq + 1) % 2 ^ 64 in
    (
      respond 403 (Body.result "ACCESS_REFUSED"),
      record s {
        seq = seq;
        log = s.log ++ access_refused seq class resource (principal_of c) c.segment r.path ∷ [];
      },
    )

-- A change that was recorded is logged too.
abbrev pub recorded : String → String → Caller → String → Server → Server
recorded action resource c detail s =
    let (store, entry) = record_entry action resource c detail s.store in
    record s { store = store; log = s.log ++ change entry ∷ [] }
