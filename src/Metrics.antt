-- ===== src/Metrics.antt =====
-- src/flagship_lab/observability.py: the class Metrics. Durations are a type of the section, whose
use Prim.Native.Char.{code}
use flagship_lab.Prelude.Text.{◌<>◌, join_with, str_nat, str_leb, count}
use flagship_lab.Metrics.Counter.{bump, sorted_items}
use flagship_lab.Prelude.{
  String, [], Bool, List, if◌then◌else◌, ◌==◌, ◌∷◌, ℕ, map, suc, leb, ◌&&◌, eqb, ◌||◌, ◌++◌,
}
-- operations are those of Python's floats; `str.isdigit` is a parameter.
pub mod Counter
pub mod Counts

-- `s.lstrip("/")`
abbrev lstrip : String → String
lstrip String.[] = String.[]
lstrip (String.◌∷◌ c s) = let rest = lstrip s in if eqb (code c) b'/' then rest else String.◌∷◌ c s

abbrev before : String → String → String
before c String.[] = if c == "/" then "" else c
before c (String.◌∷◌ d s) = c <> String.◌∷◌ d s

-- `s.rstrip("/")`
abbrev rstrip : String → String
rstrip String.[] = String.[]
rstrip (String.◌∷◌ c s) = before (String.◌∷◌ c String.[]) (rstrip s)

abbrev onto_first : String → List String → List String
onto_first c [] = c ∷ []
onto_first c (s ∷ ss) = (c <> s) ∷ ss

-- `s.split("/")`
abbrev split : String → List String
split String.[] = "" ∷ []
split (String.◌∷◌ c s) =
    let rest = split s in
    if eqb (code c) b'/' then "" ∷ rest else onto_first (String.◌∷◌ c String.[]) rest

abbrev shown : (String → Bool) → String → String
shown isdigit segment = if isdigit segment || eqb (count segment) 36 then "{id}" else segment

-- `Metrics._normalize`
unfoldable pub normalize : (String → Bool) → String → String
normalize isdigit path = "/" <> join_with "/" (map (shown isdigit) (split (rstrip (lstrip path))))

-- `(method, route, status_code)` and `(method, route)`
pub record RequestKey : Type 0 where
  pub method : String
  pub route : String
  pub status : ℕ

pub record RouteKey : Type 0 where
  pub method : String
  pub route : String

abbrev pub same_request : RequestKey → RequestKey → Bool
same_request j k = j.method == k.method && j.route == k.route && eqb j.status k.status

abbrev pub same_route : RouteKey → RouteKey → Bool
same_route j k = j.method == k.method && j.route == k.route

-- The order of tuples.
abbrev leb_route : RouteKey → RouteKey → Bool
leb_route j k = if j.method == k.method then str_leb j.route k.route else str_leb j.method k.method

abbrev leb_request : RequestKey → RequestKey → Bool
leb_request j k =
    if j.method == k.method
    then (if j.route == k.route then leb j.status k.status else str_leb j.route k.route)
    else str_leb j.method k.method

-- The arithmetic of floats and their formatting with six places.
pub record Floats (D : Type 0) : Type 0 where
  pub zero : D
  pub add : D → D → D
  pub six_places : D → String

pub record Metrics (D : Type 0) : Type 0 where
  pub requests : List (RequestKey × ℕ)
  pub durations : List (RouteKey × D)

-- The arguments of a call of `observe_request`.
pub record Observation (D : Type 0) : Type 0 where
  pub method : String
  pub path : String
  pub status_code : ℕ
  pub duration_seconds : D

-- `Metrics()`
abbrev pub new_metrics : {D : Type 0} → Metrics D
new_metrics = record { requests = []; durations = [] }

module _ {D : Type 0} (isdigit : String → Bool) (floats : Floats D) where
  abbrev pub request_key : Observation D → RequestKey
  request_key o = record {
    method = o.method;
    route = normalize isdigit o.path;
    status = o.status_code;
  }

  abbrev pub route_key : Observation D → RouteKey
  route_key o = record { method = o.method; route = normalize isdigit o.path }

  unfoldable pub observe_request : Metrics D → Observation D → Metrics D
  observe_request m o = record {
    requests = bump same_request (request_key o) suc 0 m.requests;
    durations =
        bump same_route (route_key o) (λ d. floats.add d o.duration_seconds) floats.zero
          m.durations;
  }

  -- The calls of `observe_request` in their order.
  unfoldable pub observe_all : Metrics D → List (Observation D) → Metrics D
  unfolding observe_request
  observe_all m [] = m
  observe_all m (o ∷ os) = observe_all (observe_request m o) os

  request_line : RequestKey × ℕ → String
  request_line (k, n) =
      "flagship_http_requests_total{method=\""
      <> k.method
      <> "\",route=\""
      <> k.route
      <> "\",status=\""
      <> str_nat k.status
      <> "\"} "
      <> str_nat n

  duration_line : RouteKey × D → String
  duration_line (k, d) =
      "flagship_http_request_duration_seconds_sum{method=\""
      <> k.method
      <> "\",route=\""
      <> k.route
      <> "\"} "
      <> floats.six_places d

  abbrev requests_head : List String
  requests_head =
      "# HELP flagship_http_requests_total HTTP requests."
      ∷ "# TYPE flagship_http_requests_total counter" ∷ []

  abbrev durations_head : List String
  durations_head =
      "# HELP flagship_http_request_duration_seconds_sum Cumulative request duration."
      ∷ "# TYPE flagship_http_request_duration_seconds_sum counter" ∷ []

  unfoldable pub render : Metrics D → String
  unfolding request_line duration_line
  render m =
      let counted = map request_line (sorted_items leb_request m.requests) in
      let summed = map duration_line (sorted_items leb_route m.durations) in
      join_with "\n" (requests_head ++ (counted ++ (durations_head ++ summed))) <> "\n"
