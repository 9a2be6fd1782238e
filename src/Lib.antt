-- ===== src/Lib.antt =====
-- Verification library of tax-return-ai, a web service in which one user keeps the documents and
-- items of Australian tax returns, unlocks them by a master password, and exports review packs.
--
-- The parts and how they interact. The routes under app/routers resolve the token of a request to a
-- session and a user (app/services/auth/service.py), and the guard of the sensitive routes
-- (app/db/auth_deps.py) asks besides for an unlock capability, a row that slides with use
-- (app/services/security/unlock_capability.py), and for the data key, which is held only in the
-- memory of the process (app/services/security/key_cache.py). A password or a recovery key opens
-- the data key. The routes then check that the session, document or item is in a workspace of the
-- user (app/db/workspace_scope.py). Long work is a row of the job table, which workers claim
-- (app/repositories/job_repo.py, app/services/job); a job that needs a key finds it by the hash of
-- the token that started it. An upload (app/routers/documents.py) starts such a job, whose
-- ingestion (app/services/ingestion) extracts the text. A classification
-- (app/services/classification) stores the items of a document, which the routes of
-- app/routers/workspaces.py and app/routers/items.py let the user review; once the review summary
-- says that all are settled, the route of the review pack makes an encrypted file of them
-- (app/services/export).
--
-- The files:
--   Base          Boolean tests, exceptions as values, actions on a state and their contracts, tables
--                 as lists of rows with the queries and updates of SQLAlchemy, dicts, integers
--   Models        the tables of app/models, and World: the database as the open session sees it, as
--                 it was last committed, and the memory of the process; Leads is about calls that
--                 keep a predicate of the world
--   Config        the timeouts of app/config.py
--   Audit         app/services/audit/writer.py
--   Text          texts as lists of ASCII codes, for the methods of str that the code calls
--   Security      key_cache.py (KeyCache, with View, its abstract view, and Laws),
--                 unlock_capability.py (Capability, with Laws and Revocation) and
--                 field_encryption.py (FieldEncryption)
--   Auth          app/services/auth/service.py: Password, Crypto (the interface to hashlib, argon2
--                 and cryptography), Sessions (create_session to lock_session, with Resolve,
--                 Live, Expiry and Closing), Account (setup_user, verify_unlock, recovery_reset_password, with
--                 Closed and Recovery); Guards is app/db/auth_deps.py and Routes is
--                 app/routers/auth.py, each with its Laws
--   Scope         app/db/workspace_scope.py
--   Jobs          app/repositories/job_repo.py; Runner is app/services/job/__init__.py and Worker is
--                 app/services/job/worker.py; Claim, Lifecycle and Keys hold the theorems
--   Review        the reports: Compliance is app/services/compliance_review/__init__.py and Export is
--                 app/services/export/__init__.py, with the theorems in Readiness and Totals;
--                 EncryptedPack is encrypted_pack.py and Cleanup is cleanup.py of
--                 app/services/export, with Archive and Laws
--   Workspaces    app/routers/workspaces.py: Summary (with Laws), Items, Entry (the workspaces
--                 themselves, with Years and Steps), Listing (their documents), Pages (those of a
--                 document, with Order, Exposed, Answers and Readback), Status, Events (the audit
--                 log, with Laws), Manual (the manual review of documents) and Pack (review packs,
--                 with Laws and Retired); Blocked is about a status that cannot be changed for want
--                 of a key
--   Items         app/routers/items.py (Routes) and app/utils/sanitize.py (Sanitize); Consistency and
--                 Reviews are about the two columns that say that an item waits for a review
--   Classification  app/services/classification/__init__.py (Classify) and app/ai/factory.py, with the
--                 theorems in Rules
--   Providers     app/ai/providers: Parse and Build (shared.py), Hosted (openai.py, anthropic.py) and Mock
--                 (mock.py), with Blocks, Trusted, Rules and Contract
--   Ingestion     app/services/ingestion/pipeline.py: Steps and Classifying, with Stable and Kept
--                 (what every write keeps), Finished (the job), Pages (the texts) and Copies
--                 (duplicates); Ocr is app/ocr/dispatch.py, and Background is the task that
--                 app/routers/documents.py starts
--   Documents     app/routers/documents.py: the uploads, with Upload; Routes, the others, with Listing,
--                 Paging, Isolation
--   RateLimit     app/middleware/rate_limit.py
--   Tests         concrete worlds, and each theorem applied to one
--
-- How the code is read. A service is a function from the world to a result and a world: an
-- exception is the result err, and what was written before it stays written until a rollback. A row
-- is an object of the session, so writing its fields is an update of the rows with its key. A query
-- by scalar_one_or_none is an exception where two rows match. Identifiers, hashes, tokens and keys
-- are only compared and handed on, so they are natural numbers, and 0 is the empty text; each draw
-- of uuid4 is a new number, and random texts are arguments. Times are microseconds. A service reads
-- the clock where it has an argument for it: consecutive reads inside one service are one. Amounts
-- are cents, confidences ten-thousandths, progress hundredths, all exact. Dicts and tables keep
-- insertion order. Loops are recursion on lists, so that nothing needs fuel.
--
-- Not modelled: the column updated_at, cookies and response bodies, the routes of
-- sessions and jobs, the time limit of an ingestion, the percentages of the security status, which
-- are rounded floats, and the web client. The clients of the vendors and the providers of OCR are
-- arguments. The cryptographic functions are the parameter Crypto, with the hypotheses IsSound:
-- digests do not collide and are not empty, and what was sealed is opened by the same key and
-- nonce. The text encoding, and what json.loads makes of a text that begins like an envelope, are
-- the parameter TextCodec. The formats of Python's f-strings are the parameter Format, and the bytes
-- of an archive the parameter PackFormat.
pub mod Base
pub mod Models
pub mod Config
pub mod Audit
pub mod Text
pub mod Security
pub mod Auth
pub mod Scope
pub mod Jobs
pub mod Review
pub mod Workspaces
pub mod Items
pub mod Classification
pub mod Providers
pub mod Ingestion
pub mod Documents
pub mod RateLimit
pub mod Tests
