-- ===== src/Core/Health.antt =====
-- src/flagship_lab/core.py, `database_health`: a query on the audit events, and the dialect.
use flagship_lab.Core.{connect}
use flagship_lab.Tx.{Env, Tx, ◌>>◌, gets, pure}
use flagship_lab.Prelude.{String, none, length, if◌then◌else◌}

unfoldable pub database_health : Env → Tx String
database_health env = do
  connect env none (gets (λ s. length s.audit_events.rows))
  pure (if env.postgresql then "postgresql" else "sqlite")
