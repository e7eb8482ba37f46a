-- ===== src/Lib.antt =====
-- CoreSwift CRM, a multi-tenant customer-relations server written in Rust (axum, sqlx, PostgreSQL,
-- Redis). This library models the parts of src/ that decide who may do what, and the engines that
-- compute on a tenant's data, and proves what they keep.
--
-- A request passes the rate limits (RateLimiter: src/rate_limiter.rs), then the credential boundary
-- (Auth/Boundary: src/auth/boundary.rs, with the lists of Auth/RoutePolicy: src/auth/route_policy.rs),
-- then, on a protected router, the session check (Auth/Session: src/auth/middleware.rs) and the
-- feature gate (Features: src/features.rs, over the plan tables of Entitlements:
-- src/module_registry/mod.rs). A handler answers with a value or with an error (Errors:
-- src/errors.rs). A function of the source keeps its name here.
--
-- The engines are Scoring (src/scoring/engine.rs), Lists (src/lists/evaluator.rs), Automation
-- (src/automation/engine.rs), CsvImport (src/csv_handler.rs), AccountMatch
-- (src/account_match/engine.rs) and Telnyx (src/telnyx/verify.rs). Security holds the checks of
-- addresses and tag names (src/security/). SecretBox models the credentials that are sealed at rest,
-- with their backfills and their audit (src/secret_box.rs, over src/private_email/encryption.rs),
-- RoundRobin the assignment of leads to the members of a team (src/round_robin/), Notifications the
-- queue that the worker delivers (src/worker.rs, src/notifications/title.rs), Credits the ledger of
-- consumed credits (src/billing/credits.rs), and Checklists what a trigger starts
-- (src/checklists/engine.rs). Prelude, Text and Http are the shared part: numbers of a
-- fixed width, results, tables, the texts of the standard library, and the types of a request.
--
-- State and effects: a table is a list of rows, a statement is a function on it, and a handler takes
-- and returns the tables that it reads and writes. An id is a natural number. Unless a file says
-- otherwise a statement succeeds. An `i32` or `i64` is an integer with its wrap-around written out
-- where the code computes with it. No definition needs fuel: every loop follows a list.
--
-- Outside code is a parameter: the decoding of a session token, the check of a signature, base64,
-- SHA-256 and AES-GCM with the random nonce, the answer of a provider of mails or messages, which
-- updates of the worker's queue take effect,
-- the parser of a UUID, the Unicode tables of `to_lowercase` past ASCII, the order in which a hash
-- map is walked, the reader of a spreadsheet, the limiters of the governor crate, the floor of an
-- `f64`, and the printing of a number.
--
-- Not modelled: network calls (mail, messages, webhooks, calendars, language models), the handlers
-- that are single statements, the actions of an automation, plans and payments, bookings, the other
-- loops of the worker, and the start of the server.
pub mod Prelude
pub mod Text
pub mod Errors
pub mod Http
pub mod Security
pub mod Auth
pub mod Notifications
pub mod RateLimiter
pub mod RoundRobin
pub mod Scoring
pub mod SecretBox
pub mod Lists
pub mod Entitlements
pub mod Features
pub mod Checklists
pub mod Credits
pub mod CsvImport
pub mod Telnyx
pub mod Automation
pub mod AccountMatch
