-- ===== src/Evidence/Service.antt =====
-- src/flagship_lab/evidence_service.py: packages that are preserved in a store of objects.
use flagship_lab.TaxRules.{item}
use flagship_lab.Prelude.Int.{pos}
use flagship_lab.Prelude.Text.{◌<>◌}
use flagship_lab.Core.{connect, append_audit_event}
use flagship_lab.Result.{Result, reject_if, value_error, ◌>=>◌, ok}
use flagship_lab.Json.{Json, obj, field, text, int, end}
use flagship_lab.Signing.{EvidenceSigner, Library}
use flagship_lab.Tx.{Env, Tx, ◌>>=◌, lift, ◌>>◌, pure}
use flagship_lab.ObjectStore.Adapters.{ObjectStore}
use flagship_lab.Evidence.{build_tax_run_package}
use flagship_lab.Objects.{StoredObject}
use flagship_lab.Prelude.{String, some, ℕ, ltb}

pub record EvidenceService : Type 0 where
  pub store : ObjectStore
  pub signer : EvidenceSigner
  pub retention_days : ℕ

unfoldable pub new_evidence_service : ObjectStore → EvidenceSigner → ℕ → Result EvidenceService
new_evidence_service store signer retention_days =
    reject_if (ltb retention_days 1) (value_error "retention_days must be positive") >=> λ _.
    ok (record { store = store; signer = signer; retention_days = retention_days })

-- `asdict(stored)`
abbrev pub stored_dict : StoredObject → Json
stored_dict s = obj (
    field "key" (text s.key) (
      field "version_id" (text s.version_id) (
        field "sha256" (text s.sha256)
          (field "size" (int (pos s.size)) (field "retain_until" (text s.retain_until) end)))))

unfoldable pub preserve_tax_run :
    Env → Library → EvidenceService → String → String → Tx StoredObject
unfolding build_tax_run_package
preserve_tax_run env lib service tenant run_id = connect env (some tenant) (do
  built ← build_tax_run_package env lib run_id tenant service.signer
  stored ←
      service.store.put (tenant <> "/tax/" <> run_id <> ".zip") built.0 "application/zip"
        service.retention_days
  manifest_hash ← lift (item "manifest_hash" built.1)
  append_audit_event env "evidence" "EVIDENCE_PRESERVED" run_id
      (obj (field "object" (stored_dict stored) (field "manifest_hash" manifest_hash end))) tenant
  pure stored)

unfoldable pub read_evidence : EvidenceService → StoredObject → Tx String
read_evidence service stored = service.store.get stored.key (some stored.version_id)
