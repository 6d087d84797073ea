-- ===== src/Examples/Scrapes.antt =====
-- The theorem on the counters of the application, at three requests.
use flagship_lab.Metrics.Counts.{total, observe_all-counts}
use flagship_lab.Prelude.Text.{str_nat}
use flagship_lab.Prelude.{
  List, String, Bool, ℕ, ◌≡◌, ◌==◌, ◌+◌, ◌∷◌, refl, length, [], ◌||◌, select,
}
use flagship_lab.Metrics.{
  normalize, RouteKey, RequestKey, Floats, render, same_request, observe_all, Observation,
  new_metrics, request_key, same_route, route_key,
}
use flagship_lab.Metrics.Counter.{look}

abbrev digits : String → Bool
digits s = s == "12" || s == "34"

abbrev millis : Floats ℕ
millis = record { zero = 0; add = λ a b. a + b; six_places = str_nat }

abbrev request_to : String → ℕ → ℕ → Observation ℕ
request_to path status time = record {
  method = "GET";
  path = path;
  status_code = status;
  duration_seconds = time;
}

abbrev requests : List (Observation ℕ)
requests =
    request_to "/runs/12/" 200 3 ∷ request_to "/runs" 200 5 ∷ request_to "//runs/34" 200 4 ∷ []

abbrev of_run : RequestKey
of_run = record { method = "GET"; route = "/runs/{id}"; status = 200 }

abbrev at_run : RouteKey
at_run = record { method = "GET"; route = "/runs/{id}" }

normalized : normalize digits "/runs/12/" ≡ "/runs/{id}"
unfolding normalize flagship_lab.Prelude.Text.join_with
normalized = refl

counted : look same_request of_run 0 (observe_all digits millis new_metrics requests).requests ≡ 2
unfolding look observe_all flagship_lab.Metrics.Counter.bump normalize
    flagship_lab.Prelude.Text.join_with
counted = refl

rendered :
    render digits millis (observe_all digits millis new_metrics (request_to "/runs/12" 200 3 ∷ []))
    ≡ "# HELP flagship_http_requests_total HTTP requests.\n# TYPE flagship_http_requests_total counter\nflagship_http_requests_total{method=\"GET\",route=\"/runs/{id}\",status=\"200\"} 1\n# HELP flagship_http_request_duration_seconds_sum Cumulative request duration.\n# TYPE flagship_http_request_duration_seconds_sum counter\nflagship_http_request_duration_seconds_sum{method=\"GET\",route=\"/runs/{id}\"} 3\n"
unfolding render observe_all flagship_lab.Metrics.Counter.bump normalize
    flagship_lab.Prelude.Text.join_with flagship_lab.Prelude.Text.str_nat
    flagship_lab.Metrics.Counter.sorted_items
rendered = refl

observe_all-counts_example :
    (look same_request of_run 0 (observe_all digits millis new_metrics requests).requests
      ≡ length (select (λ o. same_request (request_key digits millis o) of_run) requests))
    × (look same_route at_run 0 (observe_all digits millis new_metrics requests).durations
        ≡ total millis 0 (select (λ o. same_route (route_key digits millis o) at_run) requests))
observe_all-counts_example = observe_all-counts digits millis requests of_run at_run
