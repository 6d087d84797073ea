-- ===== src/Metrics/Counts.antt =====
-- src/flagship_lab/observability.py: what the counters hold after a sequence of requests.
use flagship_lab.Metrics.Counter.{look, look-bump}
use flagship_lab.Prelude.{
  String, Bool, List, ◌≡◌, true, arith, length, select, eq_iff, ◌∷◌, ◌+◌, [], Bool-cases, suc, inl,
  inr, refl,
}
use flagship_lab.Metrics.{
  Floats, RouteKey, RequestKey, same_route, same_request, Observation, observe_all, new_metrics,
  observe_request, request_key, Metrics, route_key,
}

same_request_correct : (j k : RequestKey) → same_request j k ≡ true → j ≡ k
same_request_correct j k h =
    let m : j.method ≡ k.method = ground (arith, eq_iff j.method k.method) in
    let r : j.route ≡ k.route = ground (arith, eq_iff j.route k.route) in
    let s : j.status ≡ k.status = ground arith in cc (m, r, s)

same_request_refl : (k : RequestKey) → same_request k k ≡ true
same_request_refl k = ground (arith, eq_iff k.method k.method, eq_iff k.route k.route)

same_route_correct : (j k : RouteKey) → same_route j k ≡ true → j ≡ k
same_route_correct j k h =
    let m : j.method ≡ k.method = ground (arith, eq_iff j.method k.method) in
    let r : j.route ≡ k.route = ground (arith, eq_iff j.route k.route) in cc (m, r)

same_route_refl : (k : RouteKey) → same_route k k ≡ true
same_route_refl k = ground (arith, eq_iff k.method k.method, eq_iff k.route k.route)

module _ {D : Type 0} where
  -- The durations of the observations, added to `d` in their order.
  pub total : Floats D → D → List (Observation D) → D
  total floats d [] = d
  total floats d (o ∷ os) = total floats (floats.add d o.duration_seconds) os

  module _ (isdigit : String → Bool) (floats : Floats D) where
    requests-observe_all :
        (m : Metrics D) (os : List (Observation D)) (k : RequestKey)
        → look same_request k 0 (observe_all isdigit floats m os).requests
          ≡ look same_request k 0 m.requests
            + length (select (λ o. same_request (request_key isdigit floats o) k) os)
    unfolding observe_all observe_request select
    requests-observe_all m [] k = omega arith
    requests-observe_all m (o ∷ os) k =
        let ih = requests-observe_all (observe_request isdigit floats m o) os k in
        let step =
          look-bump same_request same_request_correct same_request_refl
            (request_key isdigit floats o) k suc 0 m.requests in
        elim (Bool-cases (same_request (request_key isdigit floats o) k)) [
          | inl here ↦ ground (arith, ih, rw here at step)
          | inr other ↦ ground (arith, ih, rw other at step)
        ]

    durations-observe_all :
        (m : Metrics D) (os : List (Observation D)) (k : RouteKey)
        → look same_route k floats.zero (observe_all isdigit floats m os).durations
          ≡ total floats
              (look same_route k floats.zero m.durations)
              (select (λ o. same_route (route_key isdigit floats o) k) os)
    unfolding observe_all observe_request select total
    durations-observe_all m [] k = refl
    durations-observe_all m (o ∷ os) k =
        let ih = durations-observe_all (observe_request isdigit floats m o) os k in
        let step =
          look-bump same_route same_route_correct same_route_refl (route_key isdigit floats o) k
            (λ d. floats.add d o.duration_seconds) floats.zero m.durations in
        elim (Bool-cases (same_route (route_key isdigit floats o) k)) [
          | inl here ↦ rw (ih, step, here)
          | inr other ↦ rw (ih, step, other)
        ]

    -- After any sequence of requests, the counter of a method, a route and a status is the number of
    -- the requests with that method and status whose normalized path is the route, and the sum of a
    -- method and a route is the sum, in their order, of the durations of the requests with them.
    pub observe_all-counts :
        (os : List (Observation D)) (k : RequestKey) (r : RouteKey)
        → (look same_request k 0 (observe_all isdigit floats new_metrics os).requests
            ≡ length (select (λ o. same_request (request_key isdigit floats o) k) os))
          × (look same_route r floats.zero (observe_all isdigit floats new_metrics os).durations
              ≡ total floats floats.zero
                  (select (λ o. same_route (route_key isdigit floats o) r) os))
    unfolding look
    observe_all-counts os k r = (
      ground (arith, requests-observe_all new_metrics os k),
      durations-observe_all new_metrics os r,
    )
