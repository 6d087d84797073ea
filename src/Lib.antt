-- ===== src/Lib.antt =====
-- Flagship Lab: audit, tax rules, controls and risk graph over one relational database.
--
-- The program keeps its state in SQL tables (sql_models.py) and changes it in transactions
-- (core.py, Database.connect). Every service writes its own tables and, in the same transaction, an
-- event of the tenant's audit chain, which also puts a message into the outbox. All paths are under
-- src/flagship_lab/.
--
--   Prelude      Boolean tests, lists and texts over the native numbers
--   Json         the values that are stored as text, `canonical_json`, `dict.get`
--   Decimal      Python's Decimal as far as money is rounded, multiplied and compared
--   Schema       sql_models.py: a record for each table's rows, and the database
--   Result, Tx   failures as values; a statement is a function of the world
--   Core         core.py: connect, append_outbox_event, append_audit_event, verify_audit_chain
--   Outbox       outbox.py: publish_batch, replay_dead_letter; Outbox.Consumer: process;
--                Outbox.Worker: KafkaPublisher and worker.py, run_outbox_worker
--   ControlPulse controlpulse.py: ingest_and_evaluate, and transition_case in Transition
--   TaxRules     tax_rules.py: evaluate_rule, and validate_rule_pack in Validate
--   Taxflow      taxflow.py: ingest; run_rules in Runs; request_review and review_run in Review
--   RiskGraph    riskgraph.py: add_entities, add_edges; investigate in Investigate
--   EventStream  event_stream.py: append, verify, process_available, replay
--   Auth         auth.py: issue_token, the checks on claims, the dependency of a route
--   Authorization authorization.py: authorize_resource
--   RegIntel     regintel.py: tokenize, add_document, snippets, answers over a ranking
--   Objects, ObjectStore  object_store.py: safe_key, put_immutable and get of the local store; the
--                protocol of a store and the adapter of S3 in Adapters
--   Signing      signing.py: the signers of evidence
--   Evidence     evidence.py: the packages of a run; their verification in Verify;
--                evidence_service.py in Service
--   Preflight    preflight.py: run_preflight
--   Admission    admission.py: verify_admission
--   Governance   scripts/verify_github_governance.py: main
--   Metrics      observability.py: the class Metrics; collections.Counter in Counter
--   Api          fastapi_app.py: create_app; the bodies of requests in Requests, the handlers in Tax
--                and Domain, the routes in Routes
--   Examples     the theorems at concrete databases
--
-- A transaction takes the database to a result and a new database; where it raises, the database
-- is the one before it (`connect`). Clock readings, ids, the messages that a publisher has been
-- handed and the objects that were stored are not undone. Tables are lists in the order of their
-- ids. Unique constraints are the guards that raise an integrity error. Two transactions at once
-- are two sequences of statements: a theorem on a race takes the row that both have read.
--
-- Parameters (`Env`, and the arguments named in each file): SHA-256, json.loads, the clock,
-- uuid4, str.upper, str.isalnum, the hour of an ISO time, str and the driver's binding of a value
-- of a rule pack, the engine's dialect, the broker of a publisher, the handler of a consumer, the
-- encoding and decoding of tokens, the keys, HMAC and archives of evidence (`Library`), the
-- client of S3, the catalog of a server, the answers of GitHub, how pydantic counts digits, the
-- arithmetic of floats, str.isdigit, and the paths, addresses and times of an admission.
-- Theorems say what they need of them: digests are not empty, and a text that was printed is read
-- back. Every loop is recursion over a list, but for the parser of patterns, which is given the
-- length of the pattern as fuel: each step takes one character or more.
--
-- A stored answer of an idempotent request is read as the program writes it: no answer is null, and
-- the number of an ingestion is a whole number. Ids in the path of a request are natural numbers. The
-- value of an HMAC signature is compared as ASCII text.
--
-- Not modelled: column lengths, indexes and advisory locks; the transport of HTTP, the middleware of
-- the application, the command line and telemetry, which are I/O; the learned risk model; the scores
-- of a search; backups, operations and log lines; random test transactions; migrations.
pub mod Prelude
pub mod Json
pub mod Result
pub mod Decimal
pub mod Schema
pub mod Objects
pub mod Tx
pub mod Core
pub mod Outbox
pub mod ControlPulse
pub mod TaxRules
pub mod Taxflow
pub mod RiskGraph
pub mod EventStream
pub mod Auth
pub mod Authorization
pub mod RegIntel
pub mod ObjectStore
pub mod Signing
pub mod Evidence
pub mod Api
pub mod Admission
pub mod Governance
pub mod Metrics
pub mod Preflight
pub mod Examples
