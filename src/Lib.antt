-- ===== src/Lib.antt =====
-- A verification library for Keylo, an identity and authorization server in Rust.
--
-- The program answers HTTP requests. A login passes the throttling checks, then the session policy,
-- and then creates a refresh session and signs an access token. A refresh token is good for one
-- rotation; a second use of it ends its session. Every protected request passes the middleware,
-- which reads the signed claims and asks the database whether they still hold. Errors become HTTP
-- responses in one place.
--
-- Which file models what:
--   Base       names, list, map, text and result operations that the parts share
--   Errors     src/errors.rs: AuthError and its response
--   Throttle   src/state.rs: store_oauth_state, consume_oauth_state, is_login_locked,
--              record_login_failure, clear_login_failures, allow_auth_request,
--              allow_auth_request_pair, with Redis and in memory; src/handlers/auth.rs:
--              enforce_password_login_limits, record_password_login_failure (Throttle/Login)
--   Session    src/db/refresh_session.rs over the rows of migrations/ (Session/Tables):
--              lock_active_organization_session_context (Session/Context), create_refresh_session
--              and consume_and_rotate_refresh_session (Session/Lifecycle), the revocations
--              (Session/Revocation), any sequence of these (Session/Runs); src/handlers/auth.rs:
--              enforce_refresh_session_policy (Session/Policy)
--   Keys       src/models/jwt.rs: KeyPair (Keys/Pair), Keys with rotation, rollback and retirement
--              (Keys/Ring), signing and the choice of the verifying key (Keys/Tokens)
--   Mfa        src/db/mfa.rs: the statements on TOTP credentials and recent verifications (Mfa/Totp)
--              and on recovery codes (Mfa/Recovery); src/models/mfa.rs: the form of a recovery code
--              (Mfa/Codes)
--   Access     src/middleware/auth.rs: the checks of claims (Access/Checks), the middleware for people
--              and clients (Access/Middleware) and for services (Access/Middleware/Services); the
--              claims of src/models/jwt.rs and src/models/service.rs (Access/Claims)
--   Accounts   src/db/password_reset.rs (Accounts/Reset) and src/db/email_verification.rs
--              (Accounts/Verification): the proofs that are mailed to a user; any sequence of their
--              transactions (Runs)
--   Organizations  src/db/organization.rs: set_organization_status (Organizations/Status), the locks
--              of a manager (Organizations/Managers), upsert_organization_membership, the same as a
--              manager, and join_organization_membership (Organizations/Membership)
--   Machine    src/db/machine.rs: parse_raw_api_key (Machine/ApiKey), the scope of a machine
--              (Machine/Scope), creation, rotation and revocation of a key (Machine/Credentials), and
--              verify_machine_credential (Machine/Verification)
--   Resources  src/db/resource.rs: build_tree (Resources/Tree)
--   Oidc       src/models/oidc.rs: validate_authorization_request and PKCE (Oidc/Requests);
--              src/db/oidc.rs: create_authorization_code, consume_authorization_code and
--              consume_authorization_code_for_client (Oidc/Codes)
--
-- State is a record that each operation takes and returns. A transaction takes the tables to its
-- result and the tables after it, and an error leaves them as they were. The clock is an argument,
-- in seconds since 1970; a handler that reads it several times takes several times. Fresh
-- identifiers and random texts are arguments. The Redis server (Throttle/State), the JWT and RSA
-- crates (Keys/Jose), the digests of tokens and codes (Session/Lifecycle, Accounts, Oidc) and bcrypt
-- (Machine, Mfa) are parameters; what bcrypt makes of a new password or secret is an argument. The
-- database lookups of the middleware are an interface (Access/Directory), whose queries are not
-- modelled.
--
-- build_level (Resources/Tree) runs on fuel, one more than the number of groups of children, since
-- each call takes a group out of the map; this is always enough. Every other function is structural.
--
-- Not modelled: failures of the database connection itself, poisoned locks, logging, the queries
-- that only list rows, the HTTP server and its handlers, mail, configuration, the clients and
-- browser sessions of OpenID Connect, devices and service clients as rows that are edited, roles,
-- the editing of resources, the creation of organizations and the grants of customer support.
pub mod Base
pub mod Errors
pub mod Throttle
pub mod Session
pub mod Keys
pub mod Mfa
pub mod Access
pub mod Accounts
pub mod Organizations
pub mod Machine
pub mod Resources
pub mod Oidc
