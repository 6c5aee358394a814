-- ===== src/Accounts/Verification/OneTime.antt =====
-- A proof is accepted once for each time that it was issued, in any interleaving.
use keylo.Base.{ℕ, ◌+◌, ◌≤◌, String, Bool, false, ◌&&◌, List, [], ◌∷◌, arith, ◌==◌, count}
use keylo.Accounts.Tables.{Db}
use keylo.Accounts.Proofs.{can_spend, flag}
use keylo.Accounts.Verification.Proofs.{pending, consume-Pays, issue-adds, revoke-pending}
use keylo.Accounts.Verification.Runs.{Op, issue, consume, revoke, others, perform}

module _ (token_hash : String → String) (h : String) where
  abbrev pub consumes : Op → Bool
  consumes (consume now token audit_id) = token_hash token == h
  consumes _ = false

  abbrev pub issues : Op → Bool
  issues (issue now user_id lifetime id token) = token_hash token == h
  issues _ = false

  -- How many consumptions of the proof with the digest `h` a run accepts.
  unfoldable pub accepted : List Op → Db → ℕ
  accepted [] db = 0
  accepted (op ∷ ops) db =
      let (answer, db') = perform token_hash op db in
      flag (answer && consumes op) + accepted ops db'

  perform-pays :
      (op : Op) (db : Db)
      → let (answer, db') = perform token_hash op db in
        flag (answer && consumes op) + pending h db' ≤ pending h db + flag (issues op)
  unfolding perform
  perform-pays (issue now user_id lifetime id token) db =
      omega (arith, issue-adds h token_hash now user_id lifetime id token db)
  perform-pays (consume now token audit_id) db =
      omega (arith, consume-Pays h token_hash now token audit_id db)
  perform-pays (revoke now id) db = omega (arith, revoke-pending h now id db)
  perform-pays (others new) db = omega arith

  -- In any run of the transactions, from any tables, an address-verification proof is accepted at most as
  -- often as the run issues it, plus the pending rows with its digest at the start.
  pub verifications-le-issued :
      (ops : List Op) (db : Db)
      → accepted ops db ≤ count issues ops + count (can_spend h) db.email_verification_tokens
  unfolding accepted
  verifications-le-issued [] db = omega arith
  verifications-le-issued (op ∷ ops) db =
      omega (arith, perform-pays op db, verifications-le-issued ops (perform token_hash op db).1)
