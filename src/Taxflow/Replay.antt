-- ===== src/Taxflow/Replay.antt =====
-- src/flagship_lab/taxflow.py: a request that is sent twice with one idempotency key.
pub mod Ingest
use mathlib.Core.Path.{subst}
use flagship_lab.Prelude.Text.{is_blank, count}
use flagship_lab.Result.{ok, err, value_error}
use flagship_lab.Schema.{Store, IdempotencyRecord}
use flagship_lab.Core.{loads, utc_now}
use flagship_lab.Json.{canonical_json, Json, obj, field, end}
use flagship_lab.Tx.{Env, World}
use flagship_lab.Prelude.{
  ℕ, String, ◌≡◌, Option, some, [], ◌∷◌, ◌==◌, true, none, Bool-cases, inl, Option-cases, arith,
  inr, select, refl, ◌||◌, ltb, list_cases, select-append, eq_refl, false, ◌∙◌, ap, eq_iff, sym,
}
use flagship_lab.Taxflow.{
  idempotent_response, store_idempotent_response, stored_response, records_of, new_record,
  count_json,
}

abbrev pub ingested_json : ℕ → Json
ingested_json n = obj (field "ingested" (count_json n) end)

-- `json.loads` gives back the answer of `ingest` for `n` rows as it was printed.
abbrev pub ReadsIngested : Env → ℕ → Type 0
ReadsIngested env n = env.json_loads (canonical_json (ingested_json n)) ≡ some (ingested_json n)

module _ (env : Env) (tenant operation key : String) where
  -- What the records of a key say of a request: none yet, or one with the same hash and an answer.
  abbrev pub Known : String → Store → Option Json → Type 0
  Known hash s none = records_of tenant operation key s ≡ []
  Known hash s (some q) =
      (r : IdempotencyRecord) × (records_of tenant operation key s ≡ r ∷ [])
      × ((r.request_hash == hash) ≡ true)
      × (env.json_loads r.response_json ≡ some q)

  matched :
      (hash : String) (w : World) (r : IdempotencyRecord) (replay : Option Json)
      → (stored_response env hash (some r) w).0 ≡ ok replay
      → ((r.request_hash == hash) ≡ true)
        × ((q : Json) × (env.json_loads r.response_json ≡ some q) × (replay ≡ some q))
        × ((stored_response env hash (some r) w).1 ≡ w)
  unfolding loads
  matched hash w r replay h = elim (Bool-cases (r.request_hash == hash)) [
    | inl same ↦ elim (Option-cases (env.json_loads r.response_json)) [
      | inl unreadable ↦ absurd (ground (arith, rw (same, loads, unreadable) at h))
      | inr (q, readable) ↦ (
        same,
        (q, readable, ground (arith, rw (same, loads, readable) at h)),
        rw (same, loads, readable) refl,
      )
    ]
    | inr other ↦ absurd (ground (arith, rw other at h))
  ]

  pub idempotent_response-ok :
      (hash : String) (w : World) (replay : Option Json)
      → (idempotent_response env tenant operation (some key) hash w).0 ≡ ok replay
      → ((is_blank key || ltb 100 (count key)) ≡ false)
        × ((idempotent_response env tenant operation (some key) hash w).1 ≡ w)
        × Known hash w.store replay
  unfolding idempotent_response
  idempotent_response-ok hash w replay h = elim (Bool-cases (is_blank key || ltb 100 (count key))) [
    | inl bad ↦ absurd (ground (arith, rw bad at h))
    | inr good ↦ elim (list_cases (records_of tenant operation key w.store)) [
      | inl fresh ↦ (good, rw (good, fresh) refl, known_none replay fresh (rw (good, fresh) at h))
      | inr (r, more, there) ↦ elim (list_cases more) [
        | inl single ↦
            let one_record = there ∙ ap (λ l. r ∷ l) single in
            let (same, (q, readable, answer), kept) =
              matched hash w r replay (rw (good, one_record) at h) in
            (
              good,
              rw (good, one_record) kept,
              subst (Known hash w.store) (sym answer) (r, one_record, same, readable),
            )
        | inr (r', rest, several) ↦
            absurd (ground (arith, rw (good, there ∙ ap (λ l. r ∷ l) several) at h))
      ]
    ]
  ]
    where
      known_none :
          (o : Option Json)
          → records_of tenant operation key w.store ≡ []
          → ok none ≡ ok o
          → Known hash w.store o
      known_none none fresh e = fresh
      known_none (some q) fresh e = absurd (ground arith)

  -- A request with a known answer gets it again.
  pub idempotent_response-Known :
      (hash : String) (w : World) (q : Json)
      → (is_blank key || ltb 100 (count key)) ≡ false
      → Known hash w.store (some q)
      → idempotent_response env tenant operation (some key) hash w ≡ (ok (some q), w)
  unfolding idempotent_response loads
  idempotent_response-Known hash w q good (r, single, same, readable) =
      rw (good, single, same, loads, readable) refl

  -- A request with another hash is refused.
  pub idempotent_response-other :
      (hash hash' : String) (w : World) (q : Json)
      → (is_blank key || ltb 100 (count key)) ≡ false
      → Known hash w.store (some q)
      → (hash == hash') ≡ false
      → idempotent_response env tenant operation (some key) hash' w
        ≡ (err (value_error "idempotency key was already used with a different request"), w)
  unfolding idempotent_response
  idempotent_response-other hash hash' w q good (r, single, same, readable) other =
      let differs : (r.request_hash == hash') ≡ false = ground (
        arith,
        eq_iff r.request_hash hash,
        eq_iff r.request_hash hash',
        eq_iff hash hash',
        same,
        other,
      ) in
      rw (good, single, differs) refl

  -- A stored answer is the only one of its key.
  pub store_idempotent_response-ok :
      (hash : String) (response : Json) (w : World) {u : Unit {0}}
      → (store_idempotent_response env tenant operation (some key) hash response w).0 ≡ ok u
      → records_of tenant operation key
          (store_idempotent_response env tenant operation (some key) hash response w).1.store
        ≡ new_record tenant operation key hash response (env.clock w.ticks) ∷ []
  unfolding store_idempotent_response records_of select utc_now
  store_idempotent_response-ok hash response w h =
      elim (list_cases (records_of tenant operation key w.store)) [
        | inl fresh ↦
            rw fresh
              (rw (select-append, fresh) (rw (eq_refl tenant, eq_refl operation, eq_refl key) refl))
        | inr (r, more, there) ↦ absurd (ground (arith, rw there at h))
      ]
