-- ===== src/Lib.antt =====
-- The core of the egreen-quanta-tes backend: the hash-chained audit log, accounts, logins, refresh
-- tokens, API keys, request guards and rate limits, the verification of signatures, documents and
-- certificates with the trust store, the detection of threats with its alerts and incidents, the
-- registry of anomaly models, the broker of live messages and the optimisation services: the QUBO
-- models with their solvers, the clustering of events, the quantum exposure score, the migration
-- planner and the tuning of rule weights.
--
-- The service keeps its state in tables (accounts, refresh tokens, login attempts, API keys, audit
-- rows). A request passes the rate limiter and a guard, calls one service, and the service changes the
-- tables and appends to the audit log. Each table is a list of rows here, each service function a
-- function from the tables before to a result and the tables after. A row is written back by its
-- primary key. The session does not flush by itself, so a query reads the table as it was when the call
-- began. What a call commits before it raises (a login attempt, the revocation of a family) stays; of
-- the rest nothing does, since the session is rolled back.
--
-- Which file models which part (paths from the repository's root):
--   Base             Boolean tests on native numbers, lists, texts. No code of the repository.
--   Audit/Value      JSON values, as the column `meta` holds them
--   Audit/Sanitise   _sanitise of backend/app/services/audit/chain.py
--   Audit/Chain      the rest of that file: compute_row_hash, record (`append`), verify_chain,
--                    create_anchor, export_range; the row is AuditLog of backend/app/models/audit.py
--   Identity/Models  User, RefreshToken, LoginAttempt of backend/app/models, the roles of
--                    backend/app/models/enums.py, the error codes of backend/app/core/exceptions.py
--   Identity/Auth    authenticate and _record_attempt of backend/app/services/auth.py
--   Identity/Tokens  issue_token_pair, rotate_refresh, revoke_refresh, _revoke_family and
--                    revoke_all_user_tokens of the same file
--   Identity/Users   backend/app/services/users.py
--   Identity/ApiKeys backend/app/services/api_keys.py, backend/app/models/api_key.py, and the key's
--                    text of backend/app/core/security.py
--   Identity/RateLimit  backend/app/core/rate_limit.py
--   Identity/Access  backend/app/api/deps.py
--   Crypto/Types     backend/app/services/crypto/types.py
--   Crypto/Path      build_and_validate of backend/app/services/crypto/x509_chain.py, cert_info of
--                    backend/app/services/crypto/x509_utils.py
--   Crypto/Verdict   _decide and the verdict of validate_certificate of
--                    backend/app/services/crypto/engine.py
--   Crypto/Revocation  backend/app/services/crypto/revocation.py
--   Crypto/Observed  _persist_certificate of backend/app/services/crypto/engine.py
--   Crypto/Engine    validate_certificate, _chain_and_revocation, the CA allow-list of the same file,
--                    and what verify_raw_signature makes of the outcome of a check
--   Crypto/Material  load_certificates and load_public_key of
--                    backend/app/services/crypto/x509_utils.py
--   Crypto/RawSignature  _b64 and verify_raw_signature of engine.py
--   Crypto/Result    VerificationResult of types.py and _summarize of engine.py
--   Crypto/Raw       backend/app/services/crypto/rsa_ecc.py, cryptography_hash of hashes.py
--   Crypto/Cms       backend/app/services/crypto/cms_pkcs7.py
--   Crypto/Jws       backend/app/services/crypto/jws.py
--   Crypto/Pdf       backend/app/services/crypto/pdf_pades.py
--   Crypto/Signed    _verify_jws, _verify_cms and _verify_pdf of engine.py
--   Crypto/Document  verify_document, _looks_like_image and _verify_image of engine.py
--   Crypto/TrustStore  backend/app/services/crypto/trust_store.py, backend/app/models/trust_anchor.py
--   Crypto/Errors    backend/app/services/crypto/errors.py
--   Crypto/WeakAlgo  backend/app/services/crypto/weak_algo.py, and the registry of digests of
--                    backend/app/services/crypto/hashes.py
--   Detection/Catalog, Score, History, Correlate  catalog.py, scoring.py, history_rules.py and
--                    correlation.py of backend/app/services/detection
--   Detection/Engine engine.py of the same directory: run_detection, and sync_rules in Engine/Rules
--   Detection/Models the tables of backend/app/models/verification_event.py, alert.py,
--                    detection_rule.py
--   Detection/Triage patch_alert and patch_incident of backend/app/api/v1/threats.py
--   Realtime         backend/app/services/realtime/broker.py
--   Ml/Registry      backend/app/services/ml/registry.py
--   Quantum/Numeric  what the directory backend/app/services/quantum takes from numpy
--   Quantum/Qubo     qubo.py of that directory
--   Quantum/Annealer, Annealer/Replicas, Annealer/Solve  simulated_annealing,
--                    simulated_quantum_annealing and solve of annealer.py
--   Quantum/Groups   _greedy_groups of correlation_qubo.py
--   Quantum/Correlation  the rest of that file
--   Quantum/Exposure score_qes of pq_risk.py
--   Quantum/Planner  plan_migration and _greedy_baseline of the same file
--   Quantum/Tuning   tuning.py
--
-- A verification runs through Crypto/Document, Crypto/RawSignature or Crypto/Engine, its result goes into
-- Detection/Engine, which records the event, opens an alert and links it to an incident by
-- Detection/Correlate, and publishes the alert through Realtime.
--
-- What is given. The digest, json.dumps, isoformat and the signing key are the record `Platform` of
-- Audit/Chain; password hashing, TOTP, SHA-256 and the settings are the record `Security` of
-- Identity/Auth; certificates are opaque, with the readings of the cryptography package in the record
-- `X509` of Crypto/Types; sockets, HTTP and the parsing of answers are the record `Network` of
-- Crypto/Revocation; what PyJWT makes of a token is an argument of Identity/Access; the checks of a
-- signature under a key, the structure that asn1crypto reads, the answers of PyJWT and pyHanko are the
-- records `Keys`, `CmsTools`, `JwsTools` and `PdfTools`, gathered in `Toolkit` of Crypto/Signed; the
-- floats of the score are the record `Numbers` of Detection/Number, with the order laws that rounding
-- keeps; numpy's products and series and its random generator are the record `Numpy` of
-- Quantum/Numeric; the anomaly model's answer and the artifacts on disk are arguments. Random tokens
-- and new ids are arguments of the calls that draw them. What is
-- assumed of these stands with the theorems that need it: Audit/Chain/Tamper assumes, in
-- `IsDelimited`, that a dumped JSON dictionary ends where its text says, and nothing of the digest. The instant of a call is an argument too: microseconds
-- since the epoch, a natural number; in Detection, whole seconds. Bytes are lists of numbers. Case mapping and trimming of texts are those of ASCII.
--
-- Bounds and fuel. The search for a path has the twelve rounds of the source (_MAX_DEPTH) as its
-- fuel, and what it does without an answer then is the source's own: the status "error". The exact
-- solver counts its masks, 2 ^ n of them as in the source; `find` of the union-find has one round
-- more than there are pairs of indices, and each union makes a path longer by at most one step. All other loops run over a list. Numbers are unbounded, as in Python.
--
-- Not modelled: the quantum service, which reads tables and stores the runs; the training of anomaly
-- models, which computes with numpy; the deletion of old events by the scheduler; the notification of alerts, which is best effort;
-- the other routers, the schemas, the middleware and the migrations, which read requests, call a service
-- or call a library; and the web client.
pub mod Audit
pub mod Base
pub mod Crypto
pub mod Detection
pub mod Identity
pub mod Ml
pub mod Quantum
pub mod Realtime
