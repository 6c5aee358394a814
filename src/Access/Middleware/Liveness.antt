-- ===== src/Access/Middleware/Liveness.antt =====
-- When a token and its owner are live.
use keylo.Base.{String, Bool, true, false, Option, none, some, ◌≡◌, ◌↔◌, ◌⊎◌, inl, inr, refl, arith}
use keylo.Base.Results.{ok, bind-eq-ok}
use keylo.Access.Claims.{Claims}
use keylo.Access.Checks.{is_text}
use keylo.Access.Directory.{PrincipalRow, UserRow, Directory}
use keylo.Access.Middleware.{
  ask, active_principal, active_user, user_part, principal_part, ensure_claim_principal_active,
  not_blacklisted, live_token,
}
use keylo.Base.Results.{map_err-eq-ok}
use mathlib.Core.Path.{subst}

-- The person that a token without a principal id names, if it names one, is active.
abbrev pub IsUserActive : Directory → Bool → Option String → Type 0
IsUserActive db is_user uid =
    (is_user ≡ false)
    ⊎ ((uid ≡ none)
        ⊎ ((id : String) × (row : UserRow) × (uid ≡ some id)
            × (db.get_user_by_id id ≡ ok (some row))
            × (row.active ≡ true)))

-- The principal that a token names, or else its person, is active.
abbrev pub IsOwnerActive : Directory → Claims → Option String → Type 0
IsOwnerActive db claims principal_id =
    ((id : String) × (row : PrincipalRow) × (principal_id ≡ some id)
      × (db.get_principal_by_id id ≡ ok (some row))
      × (row.active ≡ true))
    ⊎ ((principal_id ≡ none) × IsUserActive db (is_text "user" claims.principal_type) claims.uid)

active_user-row :
    (found : Option UserRow)
    → active_user found ≡ ok tt
    → (row : UserRow) × (found ≡ some row) × (row.active ≡ true)
active_user-row none h = cc
active_user-row (some row) h = (row, refl, ground (arith, h))

active_principal-row :
    (found : Option PrincipalRow)
    → active_principal found ≡ ok tt
    → (row : PrincipalRow) × (found ≡ some row) × (row.active ≡ true)
active_principal-row none h = cc
active_principal-row (some row) h = (row, refl, ground (arith, h))

module _ (db : Directory) where
  user_part-IsUserActive :
      (is_user : Bool) (uid : Option String)
      → user_part db is_user uid ≡ ok tt
      → IsUserActive db is_user uid
  user_part-IsUserActive false uid h = inl refl
  user_part-IsUserActive true none h = inr (inl refl)
  user_part-IsUserActive true (some id) h =
      let (found, answer, active) =
        bind-eq-ok (ask "Failed to resolve token user" (db.get_user_by_id id)) _ h in
      let (row, same, is_active) = active_user-row found active in
      inr (
        inr (
          id,
          row,
          refl,
          subst (λ f. db.get_user_by_id id ≡ ok f) same (map_err-eq-ok _ _ answer),
          is_active,
        ))

  principal_part-IsOwnerActive :
      (claims : Claims) (principal_id : Option String)
      → principal_part db claims principal_id ≡ ok tt
      → IsOwnerActive db claims principal_id
  principal_part-IsOwnerActive claims none h =
      inr (refl, user_part-IsUserActive (is_text "user" claims.principal_type) claims.uid h)
  principal_part-IsOwnerActive claims (some id) h =
      let (found, answer, active) =
        bind-eq-ok (ask "Failed to resolve token principal" (db.get_principal_by_id id)) _ h in
      let (row, same, is_active) = active_principal-row found active in
      inl (
        id,
        row,
        refl,
        subst (λ f. db.get_principal_by_id id ≡ ok f) same (map_err-eq-ok _ _ answer),
        is_active,
      )

  IsUserActive-user_part :
      (is_user : Bool) (uid : Option String)
      → IsUserActive db is_user uid
      → user_part db is_user uid ≡ ok tt
  IsUserActive-user_part is_user none h = refl
  IsUserActive-user_part is_user (some id) (inl other) = rw other refl
  IsUserActive-user_part is_user (some id) (inr (inl missing)) = cc
  IsUserActive-user_part false (some id) (inr (inr known)) = refl
  IsUserActive-user_part true (some id) (inr (inr known)) =
      let (x, row, same, answer, active) = known in
      let found : db.get_user_by_id id ≡ ok (some row) = ground (arith, same, answer) in
      rw (found, active) refl

  IsOwnerActive-principal_part :
      (claims : Claims) (principal_id : Option String)
      → IsOwnerActive db claims principal_id
      → principal_part db claims principal_id ≡ ok tt
  IsOwnerActive-principal_part claims none (inl known) = let (_, _, same, _, _) = known in cc
  IsOwnerActive-principal_part claims (some id) (inl known) =
      let (x, row, same, answer, active) = known in
      let found : db.get_principal_by_id id ≡ ok (some row) = ground (arith, same, answer) in
      rw (found, active) refl
  IsOwnerActive-principal_part claims none (inr (_, user)) =
      IsUserActive-user_part (is_text "user" claims.principal_type) claims.uid user
  IsOwnerActive-principal_part claims (some id) (inr (missing, user)) = cc

  not_blacklisted-answer :
      (message token : String)
      → not_blacklisted message db token ≡ ok tt
      → db.is_token_blacklisted token ≡ ok false
  not_blacklisted-answer message token h =
      let (listed, answer, passed) = bind-eq-ok (ask message (db.is_token_blacklisted token)) _ h in
      let unlisted : listed ≡ false = ground (arith, passed) in
      subst (λ b. db.is_token_blacklisted token ≡ ok b) unlisted (map_err-eq-ok _ _ answer)

  -- With a database, a token is live exactly when the database answers that it is not blacklisted
  -- and knows its principal as active, or, for a token without a principal id, its person, if it
  -- names one.
  pub live_token_iff :
      (token : String) (claims : Claims)
      → (live_token (some db) token claims ≡ ok tt)
        ↔ (db.is_token_blacklisted token ≡ ok false) × IsOwnerActive db claims claims.principal_id
  unfolding live_token ensure_claim_principal_active
  live_token_iff token claims = (
    λ h.
        let (_, unlisted, owner) =
          bind-eq-ok (not_blacklisted "Database error during token validation" db token) _ h in
        (
          not_blacklisted-answer _ token unlisted,
          principal_part-IsOwnerActive claims claims.principal_id owner,
        ),
    λ (unlisted, owner).
        rw unlisted (IsOwnerActive-principal_part claims claims.principal_id owner),
  )
