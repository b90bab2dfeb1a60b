-- ===== src/Examples/Decisions.antt =====
-- Instances of the theorems on authorization.
use planless.Prelude.{◌≡◌, ◌↔◌, refl, true, [], ◌∷◌, Has, here, there}
use planless.Netset.{parse, NetSet}
use planless.Netset.Ip.{v4}
use planless.Platform.Model.{Caller}
use planless.Platform.Authz.{authorize_object_read, connect_decision}
use planless.Platform.Authz.Read.{MayRead, authorize_object_read_iff}
use planless.Platform.Authz.Ingress
use planless.Platform.Authz.Connect.{MayConnect, connect_decision_iff}
use planless.Api.Targets.{authorize_write}
use planless.Api.Targets.Scope.{MayWrite, authorize_write_iff}
use planless.Examples.{estate, analyst, desk, billing, http}

authorize_object_read_iff_example :
    ((authorize_object_read estate analyst "reports" "q1").allowed ≡ true)
    ↔ MayRead estate analyst desk "reports" "q1"
authorize_object_read_iff_example =
    authorize_object_read_iff estate analyst desk "reports" "q1" refl

authorize_write_iff_example :
    (authorize_write estate analyst "bucket" "reports" ≡ true)
    ↔ MayWrite estate analyst desk "bucket" "reports"
authorize_write_iff_example = authorize_write_iff estate analyst desk "bucket" "reports" refl

connect_decision_iff_example :
    ((connect_decision estate analyst billing http).allowed ≡ true)
    ↔ MayConnect estate desk billing http
connect_decision_iff_example = connect_decision_iff estate analyst desk billing http refl

-- A caller of the other segment.
abbrev visitor : Caller
visitor = record { principal = ""; segment = "partner"; addr = v4 169082887 }

rules_readable : ¬ Has (Ingress.IsUnreadable billing http) estate.network_rules
unfolding parse
rules_readable (here u) = cc u.unread
rules_readable (there h) = elim h [ ]

abbrev everywhere : NetSet
everywhere = record { intervals = record { lo = 0; hi = 4294967295 } ∷ [] }
