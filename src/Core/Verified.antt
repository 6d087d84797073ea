-- ===== src/Core/Verified.antt =====
-- src/flagship_lab/core.py: what `verify_audit_chain` says of a database after an append.
use flagship_lab.Core.Chain.{IsIntact, sound, verify_from_complete, verify_from-sound}
use flagship_lab.Core.{verify_audit_chain, Json, tenant_events, ok, append_audit_event, hash_taken}
use flagship_lab.Core.Append.{
  HasDigests, logged, RoundTrips, append_audit_event-eq, next_hash, logged-IsIntact,
}
use flagship_lab.Tx.{Env, World}
use flagship_lab.Prelude.{
  String, select, length, ℕ, ◌≡◌, suc, select-append, length-append, ◌+◌, Bool-cases, eq_refl,
  arith, inl, inr,
}

module _ (env : Env) (digests : HasDigests env) where
  -- Where digests are not empty and the payload is read back: whether an append succeeds or is
  -- refused, the chain of every tenant stays intact.
  pub append_audit_event-IsIntact :
      (module_name event_type entity : String) (payload : Json) (tenant : String) (w : World)
      (u : String)
      → RoundTrips env payload
      → IsIntact env u w.store
      → IsIntact env u
          (append_audit_event env module_name event_type entity payload tenant w).1.store
  append_audit_event-IsIntact module_name event_type entity payload tenant w u readable intact =
      rw (append_audit_event-eq env module_name event_type entity payload tenant w)
        (elim (Bool-cases (
          hash_taken tenant (next_hash env module_name event_type entity payload tenant w)
            w.store.audit_events.rows)) [
              | inl taken ↦ rw taken intact
              | inr free ↦ rw free (
                  logged-IsIntact env module_name event_type entity payload tenant w digests
                    readable u intact)
            ])

  length-logged :
      (module_name event_type entity : String) (payload : Json) (tenant : String) (w : World)
      → length
          (tenant_events tenant (logged env module_name event_type entity payload tenant w).store)
        ≡ suc (length (tenant_events tenant w.store))
  unfolding logged tenant_events select
  length-logged module_name event_type entity payload tenant w =
      rw (select-append, length-append, eq_refl) (omega arith)

  -- Where digests are not empty and the payload is read back: if a tenant's chain verifies with `n`
  -- events, then after a successful append it verifies with `n + 1`.
  pub verify-append_audit_event :
      (module_name event_type entity : String) (payload : Json) (tenant : String) (w : World)
      (n : ℕ) (hash : String)
      → RoundTrips env payload
      → verify_audit_chain env tenant w.store ≡ ok (sound n)
      → (append_audit_event env module_name event_type entity payload tenant w).0 ≡ ok hash
      → verify_audit_chain env tenant
          (append_audit_event env module_name event_type entity payload tenant w).1.store
        ≡ ok (sound (n + 1))
  unfolding verify_audit_chain
  verify-append_audit_event module_name event_type entity payload tenant w n hash readable before
        appended =
      let chained =
        verify_from_complete env tenant "GENESIS" 0 n (tenant_events tenant w.store) before in
      let counted : n ≡ length (tenant_events tenant w.store) = ground (
        arith,
        before,
        verify_from-sound env tenant "GENESIS" 0 (tenant_events tenant w.store) chained,
      ) in
      elim (Bool-cases (
        hash_taken tenant (next_hash env module_name event_type entity payload tenant w)
          w.store.audit_events.rows)) [
            | inl taken ↦ absurd (
                ground (
                  arith,
                  rw
                      (
                        append_audit_event-eq env module_name event_type entity payload tenant w,
                        taken,
                      )
                      at appended,
                ))
            | inr free ↦
                rw (append_audit_event-eq env module_name event_type entity payload tenant w, free)
                  (rw
                    (verify_from-sound env tenant "GENESIS" 0 _ (
                      logged-IsIntact env module_name event_type entity payload tenant w digests
                        readable tenant chained))
                    (rw (length-logged module_name event_type entity payload tenant w)
                      (ground arith)))
          ]
