-- ===== src/Api/Unhandled.antt =====
-- src/flagship_lab/fastapi_app.py, `add_control_event`: a time that is no ISO time.
use flagship_lab.Api.Requests.{post_control_event}
use flagship_lab.Result.{ok, err, value_error}
use flagship_lab.Result.{ok}
use flagship_lab.Authorization.{authorize_resource}
use flagship_lab.Auth.{dependency, granted}
use flagship_lab.Tx.{World, Env}
use flagship_lab.Json.{Fields}
use flagship_lab.Decimal.{Decimal}
use flagship_lab.Api.{Context, App, can_analyze, claim}
use flagship_lab.ControlPulse.{ingest_and_evaluate, evaluate, ControlEvent, ControlPulseService}
use flagship_lab.Api.Domain.{add_control_event}
use flagship_lab.Api.Routes.{serve, handle, failed}
use flagship_lab.Prelude.{String, Option, none, ℕ, Bool, ◌≡◌, refl}

ingest_and_evaluate_bad_time :
    (env : Env) (service : ControlPulseService) (e : ControlEvent) (w : World)
    → env.iso_hour e.occurred_at ≡ none
    → ingest_and_evaluate env service e w ≡ (err (value_error "Invalid isoformat string"), w)
unfolding ingest_and_evaluate evaluate
ingest_and_evaluate_bad_time env service e w bad = rw (bad, evaluate) refl

-- An event with a time that cannot be read, sent by a caller who may write it, is answered with
-- 500, and nothing changes.
pub serve_bad_time :
    (ctx : Context) (app : App) (fits : ℕ → ℕ → Decimal → Bool) (bearer : Option String)
    (e : ControlEvent) (claims : Fields) (tenant : String) (w : World)
    → dependency app.verify can_analyze bearer ≡ granted claims
    → authorize_resource claims "control_event" e.event_id "write" ≡ granted claims
    → claim "tenant_id" claims ≡ ok tenant
    → ctx.env.iso_hour e.occurred_at ≡ none
    → serve ctx app fits bearer (post_control_event e) w ≡ (failed 500 "Internal Server Error", w)
unfolding serve handle add_control_event
serve_bad_time ctx app fits bearer e claims tenant w passed allowed_it named bad =
    let raised = ingest_and_evaluate_bad_time ctx.env (record { tenant_id = tenant }) e w bad in
    rw passed (rw allowed_it (rw named (rw raised refl)))
