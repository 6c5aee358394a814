-- ===== src/Keys/Ring/Rotation.antt =====
-- A rotation can be taken back: rollback restores the old signer.
use mathlib.Core.Path.{subst}
use keylo.Base.{ℕ, ◌<◌, String, false, none, some, [], ◌∷◌, ◌≡◌, refl, sym, arith, eq_refl, ap}
use keylo.Base.Results.{ok, ℤ, is_nonpositive, add_seconds}
use keylo.Keys.Jose.{Jose}
use keylo.Keys.Pair.{KeyPair}
use keylo.Keys.Ring.{Keys, rotate, promote, candidate, rollback}
use keylo.Keys.Ring.Invariant.{IsValid, rotate-IsTurn}

module _ (j : Jose) where
  -- The ring with the pairs of a rotation taken back: the old signer signs again, and the pair that
  -- had taken its turn verifies until the second overlap ends.
  abbrev pub taken_back : ℕ → ℤ → Keys j → Keys j → Keys j
  taken_back later overlap keys keys' = record keys {
    active = keys.active;
    passive = record keys'.active { expires_at = some (add_seconds later overlap) } ∷ [];
  }

  candidate-turned :
      (keys : Keys j) (next : KeyPair j) (at later : ℕ)
      → later < at
      → candidate j later keys.active.key_id (record keys {
        active = next;
        passive = record keys.active { expires_at = some at } ∷ [];
      })
        ≡ some (record keys.active { expires_at = some at })
  candidate-turned keys next at later live = ground (arith, eq_refl keys.active.key_id)

  unexpiring : (k : KeyPair j) → k.expires_at ≡ none → record k { expires_at = none } ≡ k
  unexpiring k h = ap (λ e. record k { expires_at = e }) (sym h)

  promote-turned :
      (keys keys' : Keys j) (at later : ℕ) (overlap' : ℤ)
      → IsValid j keys
      → keys'.issuer ≡ keys.issuer
      → keys'.audiences ≡ keys.audiences
      → promote j later overlap' keys' (some (record keys.active { expires_at = some at }))
        ≡ ok (taken_back later overlap' keys keys')
  unfolding promote
  promote-turned keys keys' at later overlap' v same_issuer same_audiences =
      ground (arith, v.active_signs, unexpiring keys.active v.active_stays)

  -- After a rotation and before its overlap ends, a rollback to the old key succeeds, and the old
  -- pair, which signs and does not expire, is the signer exactly as it was.
  pub rollback-rotate :
      (keys keys' : Keys j) (now later : ℕ) (key_id private_key public_key : String)
      (overlap overlap' : ℤ)
      → IsValid j keys
      → rotate j now key_id private_key public_key overlap keys ≡ ok keys'
      → later < add_seconds now overlap
      → is_nonpositive overlap' ≡ false
      → rollback j later keys.active.key_id overlap' keys'
        ≡ ok (taken_back later overlap' keys keys')
  unfolding rollback promote
  rollback-rotate keys keys' now later key_id private_key public_key overlap overlap' v h live
        positive =
      let turn = rotate-IsTurn j keys now key_id private_key public_key overlap keys' h in
      let found = candidate-turned keys turn.next (add_seconds now overlap) later live in
      subst
        (λ r.
          rollback j later keys.active.key_id overlap' r ≡ ok (taken_back later overlap' keys r))
        (sym turn.turned)
        (rw (positive, found)
          (promote-turned keys
            (record keys {
              active = turn.next;
              passive = record keys.active { expires_at = some (add_seconds now overlap) } ∷ [];
            })
            (add_seconds now overlap) later overlap' v refl refl))
