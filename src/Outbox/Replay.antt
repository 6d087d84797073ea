-- ===== src/Outbox/Replay.antt =====
-- src/flagship_lab/outbox.py, `replay_dead_letter`: the message of a replayed dead letter.
use flagship_lab.Core.Connect.{connect-eq-ok, connect-err}
use flagship_lab.Result.{ok, err, value_error}
use flagship_lab.Schema.{DeadLetterEvent, OutboxEvent}
use flagship_lab.Core.{utc_now}
use flagship_lab.Outbox.{replay_dead_letter, eligible, open_dead_letter, reopen, requeue, is_none}
use flagship_lab.Tx.{Env, World, and_then, lift, one_or_none}
use flagship_lab.Prelude.{
  select, update, ℕ, List, String, Bool, ◌≤◌, eqb, ◌≡◌, some, [], All, ◌∷◌, Bool-cases, arith, ◌&&◌,
  inl, not, refl, inr, none,
}

module _ (env : Env) (id : ℕ) where
  found_one :
      (xs : List DeadLetterEvent) (w : World)
      → (and_then (lift (one_or_none xs) w) (requeue env id)).0 ≡ ok tt
      → (d : DeadLetterEvent) × (xs ≡ d ∷ [])
        × (and_then (lift (one_or_none xs) w) (requeue env id) ≡ requeue env id (some d) w)
  found_one [] w h = absurd (ground arith)
  found_one (d ∷ []) w h = (d, refl, refl)
  found_one (d ∷ e ∷ rest) w h = absurd (ground arith)

  -- A dead letter that was marked is not open.
  select_marked :
      (now : String) (ds : List DeadLetterEvent)
      → select
          (open_dead_letter id)
          (update (λ r. eqb r.id id) (λ r. record r { replayed_at = some now }) ds)
        ≡ []
  unfolding select update
  select_marked now [] = refl
  select_marked now (d ∷ ds) = elim (Bool-cases (eqb d.id id)) [
    | inl here ↦ rw (here, here) (ground (arith, select_marked now ds))
    | inr other ↦ rw (other, other) (select_marked now ds)
  ]

  reopen_closed :
      (w : World)
      → select (open_dead_letter id) w.store.dead_letter_events.rows ≡ []
      → (reopen env id w).0 ≡ err (value_error "unknown or already replayed dead letter")
  reopen_closed w h = rw h refl

-- The rows that were reset are eligible but for what a replay does not change.
eligible_reset :
    (env : Env) (locked : ℕ → Bool) (max_attempts outbox_id : ℕ)
    → 1 ≤ max_attempts
    → (rs : List OutboxEvent)
    → All
        (λ r.
          eligible env locked max_attempts r
          ≡ (is_none r.published_at && not (env.postgresql && locked r.id)))
        (select
          (λ r. eqb r.id outbox_id)
          (update
            (λ r. eqb r.id outbox_id)
            (λ r. record r { attempts = 0; last_error = none; dead_lettered_at = none })
            rs))
unfolding select update eligible
eligible_reset env locked m o low [] = tt
eligible_reset env locked m o low (r ∷ rs) = elim (Bool-cases (eqb r.id o)) [
  | inl here ↦ rw (here, here) (ground arith, eligible_reset env locked m o low rs)
  | inr other ↦ rw (other, other) (eligible_reset env locked m o low rs)
]

-- A replay that succeeds has found one dead letter with the id that was not replayed; afterwards
-- every message with its outbox id is taken up by a publisher with any number of attempts, unless it
-- is published or locked by another worker; and a second replay is refused.
pub replay_dead_letter-once :
    (env : Env) (id : ℕ) (w : World) (locked : ℕ → Bool) (max_attempts : ℕ)
    → 1 ≤ max_attempts
    → (replay_dead_letter env id w).0 ≡ ok tt
    → (d : DeadLetterEvent) × (select (open_dead_letter id) w.store.dead_letter_events.rows
        ≡ d ∷ [])
      × All
          (λ r.
            eligible env locked max_attempts r
            ≡ (is_none r.published_at && not (env.postgresql && locked r.id)))
          (select
            (λ r. eqb r.id d.outbox_id)
            (replay_dead_letter env id w).1.store.outbox_events.rows)
      × ((replay_dead_letter env id (replay_dead_letter env id w).1).0
          ≡ err (value_error "unknown or already replayed dead letter"))
unfolding replay_dead_letter utc_now
replay_dead_letter-once env id w locked m low h =
    let (same, ran) = connect-eq-ok env none (reopen env id) w h in
    let (d, one, run) =
      found_one env id (select (open_dead_letter id) w.store.dead_letter_events.rows) w ran in
    let after : World = (requeue env id (some d) w).1 in
    let moved : (replay_dead_letter env id w).1 ≡ after = cc (same, run) in
    let refused : (reopen env id after).0
        ≡ err (value_error "unknown or already replayed dead letter") =
      reopen_closed env id after (select_marked env id _ w.store.dead_letter_events.rows) in
    let again = connect-err env (reopen env id) after refused in
    (
      d,
      one,
      rw moved (eligible_reset env locked m d.outbox_id low w.store.outbox_events.rows),
      rw (moved, again) refl,
    )
