-- ===== src/Accounts/Reset/Runs.antt =====
-- Any sequence of the transactions on password resets, with changes by the rest of the program to
-- the other tables.
use keylo.Base.{ℕ, String, Bool, true, false, Option, List, [], ◌∷◌}
use keylo.Base.Results.{Result, ok, err, ℤ}
use keylo.Accounts.Tables.{Db, AccountError}
use keylo.Accounts.Proofs.{issued_of}
use keylo.Accounts.Reset.{
  ConsumePasswordResetTokenResult, reset, issue_password_reset_token, consume_password_reset_token,
  revoke_password_reset_token,
}

pub data Op : Type 0 where
  issue : ℕ → String → ℤ → String → String → Op
  consume : ℕ → String → Option String → String → Op
  revoke : ℕ → String → Op
  -- Other writers: every table but the proofs becomes that of the argument.
  others : Db → Op

-- Whether a proof was accepted, and the tables after it.
abbrev pub reset_of : Db → Result (ConsumePasswordResetTokenResult × Db) AccountError → Bool × Db
reset_of db (ok (reset user_id sessions browsers, db')) = (true, db')
reset_of db (ok (_, db')) = (false, db')
reset_of db (err e) = (false, db)

module _ (token_hash : String → String) where
  unfoldable pub perform : Op → Db → Bool × Db
  perform (issue now identifier lifetime id token) db = (
    false,
    issued_of db (issue_password_reset_token token_hash now identifier lifetime id token db),
  )
  perform (consume now token hashed audit_id) db =
      reset_of db (consume_password_reset_token token_hash now token hashed audit_id db)
  perform (revoke now id) db = (false, (revoke_password_reset_token now id db).1)
  perform (others new) db = (false, record new { password_reset_tokens = db.password_reset_tokens })

  -- The tables after a run.
  unfoldable pub run : List Op → Db → Db
  run [] db = db
  run (op ∷ ops) db = run ops (perform op db).1
