-- ===== src/Accounts/Verification/Runs.antt =====
-- Any sequence of the transactions on address verification, with changes by the rest of the program to
-- the other tables.
use keylo.Base.{ℕ, String, Bool, true, false, List, [], ◌∷◌}
use keylo.Base.Results.{Result, ok, err, ℤ}
use keylo.Accounts.Tables.{Db, AccountError}
use keylo.Accounts.Proofs.{issued_of}
use keylo.Accounts.Verification.{
  ConsumeEmailVerificationTokenResult, verified, issue_email_verification_token,
  consume_email_verification_token, revoke_email_verification_token,
}

pub data Op : Type 0 where
  issue : ℕ → String → ℤ → String → String → Op
  consume : ℕ → String → String → Op
  revoke : ℕ → String → Op
  -- Other writers: every table but the proofs becomes that of the argument.
  others : Db → Op

-- Whether a proof was accepted, and the tables after it.
abbrev pub verified_of :
    Db → Result (ConsumeEmailVerificationTokenResult × Db) AccountError → Bool × Db
verified_of db (ok (verified user_id, db')) = (true, db')
verified_of db (ok (_, db')) = (false, db')
verified_of db (err e) = (false, db)

module _ (token_hash : String → String) where
  unfoldable pub perform : Op → Db → Bool × Db
  perform (issue now user_id lifetime id token) db = (
    false,
    issued_of db (issue_email_verification_token token_hash now user_id lifetime id token db),
  )
  perform (consume now token audit_id) db =
      verified_of db (consume_email_verification_token token_hash now token audit_id db)
  perform (revoke now id) db = (false, (revoke_email_verification_token now id db).1)
  perform (others new) db =
      (false, record new { email_verification_tokens = db.email_verification_tokens })

  -- The tables after a run.
  unfoldable pub run : List Op → Db → Db
  run [] db = db
  run (op ∷ ops) db = run ops (perform op db).1
