-- ===== src/Accounts/Proofs.antt =====
-- How the statements on a table of proofs move its pending rows.
use keylo.Base.{
  ℕ, ◌+◌, ◌≤◌, ◌<◌, String, Bool, true, ◌&&◌, Option, none, some, List, [], ◌∷◌, ◌≡◌, refl, arith,
  ◌==◌, eq_iff, eq_refl, any, find, count, count-append, if◌then◌else◌, update_where, Bool-cases,
  inl, inr,
}
use keylo.Base.Results.{Result, ok, err}
use keylo.Accounts.Tables.{
  User, OneTimeToken, Db, AccountError, is_pending, revoke_proof, spend_proof, insert_proof,
  with_account, select_proof,
}

-- A pending row with the digest `h`.
abbrev pub can_spend : String → OneTimeToken → Bool
can_spend h t = t.token_hash == h && is_pending t

abbrev pub flag : Bool → ℕ
flag b = if b then 1 else 0

-- The tables after a transaction that may fail.
abbrev pub issued_of : {A : Type 0} → Db → Result (A × Db) AccountError → Db
issued_of db (ok (a, db')) = db'
issued_of db (err e) = db

-- An UPDATE under which no row that fails `test` comes to pass it.
pub count-update_le :
    (test where_ : OneTimeToken → Bool) (change : OneTimeToken → OneTimeToken)
    → ((t : OneTimeToken) → flag (test (change t)) ≤ flag (test t))
    → (ts : List OneTimeToken) → count test (update_where where_ change ts) ≤ count test ts
count-update_le test where_ change h [] = omega arith
count-update_le test where_ change h (t ∷ ts) =
    ground (arith, h t, count-update_le test where_ change h ts)

pub revoke_proof-flag :
    (h : String) (now : ℕ) (t : OneTimeToken)
    → flag (can_spend h (revoke_proof now t)) ≤ flag (can_spend h t)
revoke_proof-flag h now t = ground arith

pub spend_proof-flag :
    (h : String) (now : ℕ) (t : OneTimeToken)
    → flag (can_spend h (spend_proof now t)) ≤ flag (can_spend h t)
spend_proof-flag h now t = ground arith

-- A pending row is there and its identifier is spent: the count falls.
pub spend-lt :
    (h id : String) (now : ℕ) (ts : List OneTimeToken)
    → any (λ t. t.id == id && can_spend h t) ts ≡ true
    → count (can_spend h) (update_where (λ t. t.id == id) (spend_proof now) ts)
      < count (can_spend h) ts
spend-lt h id now [] there = cc
spend-lt h id now (t ∷ ts) there = ground (
  arith,
  spend-lt h id now ts,
  count-update_le (can_spend h) (λ t. t.id == id) (spend_proof now) (spend_proof-flag h now) ts,
)

-- The row that the join selects has the digest, is in the table, and has its account in `users`.
abbrev pub IsSelected :
    String → List User → List OneTimeToken → Option (OneTimeToken × User) → Type 0
IsSelected h users ts none = Unit
IsSelected h users ts (some (t, u)) =
    (t.token_hash == h ≡ true)
    × (find (λ a. a.id == t.user_id) users ≡ some u)
    × ((test : OneTimeToken → Bool) → test t ≡ true → any test ts ≡ true)

later-IsSelected :
    (h : String) (users : List User) (r : OneTimeToken) (ts : List OneTimeToken)
    (row : Option (OneTimeToken × User))
    → IsSelected h users ts row
    → IsSelected h users (r ∷ ts) row
later-IsSelected h users r ts none i = tt
later-IsSelected h users r ts (some (t, u)) (same, account, there) =
    (same, account, λ test passes. ground (arith, there test passes))

here-IsSelected :
    (h : String) (users : List User) (r : OneTimeToken) (ts : List OneTimeToken)
    (rest : Option (OneTimeToken × User)) (account : Option User)
    → (r.token_hash == h ≡ true)
    → find (λ a. a.id == r.user_id) users ≡ account
    → IsSelected h users ts rest
    → IsSelected h users (r ∷ ts) (with_account r account rest)
here-IsSelected h users r ts rest none same found i = later-IsSelected h users r ts rest i
here-IsSelected h users r ts rest (some u) same found i =
    (same, found, λ test passes. ground (arith, passes))

pub select_proof-IsSelected :
    (h : String) (users : List User) (ts : List OneTimeToken)
    → IsSelected h users ts (select_proof h users ts)
select_proof-IsSelected h users [] = tt
select_proof-IsSelected h users (r ∷ ts) =
    let i = select_proof-IsSelected h users ts in
    elim (Bool-cases (r.token_hash == h)) [
      | inl same ↦ rw same (here-IsSelected h users r ts _ _ same refl i)
      | inr other ↦ rw other (later-IsSelected h users r ts _ i)
    ]

pub pending-insert_proof :
    (h : String) (t : OneTimeToken) (users : List User) (ts ts' : List OneTimeToken)
    → insert_proof t users ts ≡ ok ts'
    → count (can_spend h) ts' ≤ count (can_spend h) ts + flag (t.token_hash == h)
unfolding insert_proof
pending-insert_proof h t users ts ts' e = ground (arith, count-append (can_spend h) ts (t ∷ []))

-- Spending the row that was selected takes one from the pending rows of its digest.
pub spend-selected :
    (h x : String) (now : ℕ) (users : List User) (ts : List OneTimeToken) (t : OneTimeToken)
    (u : User)
    → IsSelected x users ts (some (t, u))
    → is_pending t ≡ true
    → flag (x == h) + count (can_spend h) (update_where (λ r. r.id == t.id) (spend_proof now) ts)
      ≤ count (can_spend h) ts
spend-selected h x now users ts t u (same, account, there) fresh = elim (Bool-cases (x == h)) [
  | inr other ↦ ground (
    arith,
    other,
    count-update_le (can_spend h) (λ r. r.id == t.id) (spend_proof now) (spend_proof-flag h now) ts,
  )
  | inl mine ↦
      let present =
        there (λ r. r.id == t.id && can_spend h r)
          (ground (arith, eq_refl t.id, same, mine, fresh, eq_iff x h)) in
      ground (arith, mine, spend-lt h t.id now ts present)
]
