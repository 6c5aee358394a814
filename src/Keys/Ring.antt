-- ===== src/Keys/Ring.antt =====
-- `Keys`: the active signer and the passive verifiers, with their rotation. The locks make each
-- operation atomic; a lock that a panic has poisoned is not modelled.
pub mod Rotation
pub mod Invariant
use keylo.Base.{
  ℕ, String, Bool, not, ◌&&◌, Option, none, some, List, [], ◌∷◌, map, ◌==◌, eqb, length, retain,
  find, if◌then◌else◌, is_some,
}
use keylo.Base.Results.{Result, ok, err, ◌>>=◌, ok_or, ℤ, is_nonpositive, add_seconds}
use keylo.Base.Text.{is_blank}
use keylo.Keys.Jose.{Jose}
use keylo.Keys.Pair.{Jwk, KeyPair, from_pem, is_live}

-- The fields of `Config` that the keys read.
pub record KeyConfig : Type 0 where
  pub jwt_key_id : String
  pub jwt_private_key_pem : String
  pub jwt_public_key_pem : String
  pub jwt_passive_key_id : Option String
  pub jwt_passive_public_key_pem : Option String
  pub jwt_passive_private_key_pem : Option String
  pub jwt_key_overlap_seconds : ℤ
  pub jwt_issuer : String
  pub jwt_audiences : List String

module _ (j : Jose) where
  pub record Keys : Type 0 where
    pub active : KeyPair j
    pub passive : List (KeyPair j)
    pub issuer : String
    pub audiences : List String

  passive_from : ℕ → KeyConfig → Option String → Option String → Result (List (KeyPair j)) String
  passive_from now config (some key_id) (some public_key_pem) = do
    key ←
        from_pem j key_id config.jwt_passive_private_key_pem public_key_pem
          (some (add_seconds now config.jwt_key_overlap_seconds))
    ok (key ∷ [])
  passive_from now config none none = ok []
  passive_from now config _ _ =
      err "JWT_PASSIVE_KEY_ID and JWT_PASSIVE_PUBLIC_KEY_PEM/PATH must be configured together"

  unfoldable pub from_config : ℕ → KeyConfig → Result Keys String
  unfolding passive_from
  from_config now config = do
    active ←
        from_pem j config.jwt_key_id (some config.jwt_private_key_pem) config.jwt_public_key_pem
          none
    passive ← passive_from now config config.jwt_passive_key_id config.jwt_passive_public_key_pem
    ok (record {
      active = active;
      passive = passive;
      issuer = config.jwt_issuer;
      audiences = config.jwt_audiences;
    })

  unfoldable pub jwks : ℕ → Keys → List Jwk
  jwks now keys = keys.active.jwk ∷ map (λ k. k.jwk) (retain (is_live j now) keys.passive)

  unfoldable pub passive_key_ids : ℕ → Keys → List String
  passive_key_ids now keys = map (λ k. k.key_id) (retain (is_live j now) keys.passive)

  -- The two `?` of the closure and its pair.
  material : Option (KeyPair j) → Option (String × String)
  material none = none
  material (some k) = elim k.private_key_pem [
    | none ↦ none
    | some pem ↦ some (pem, k.public_key_pem)
  ]

  unfoldable pub passive_key_material : ℕ → String → Keys → Option (String × String)
  unfolding material
  passive_key_material now key_id keys =
      material (find (λ k. k.key_id == key_id && is_live j now k) keys.passive)

  -- From the new pair's PEM texts on.
  take_turns : ℕ → String → String → String → ℤ → Keys → Result Keys String
  take_turns now key_id private_key_pem public_key_pem overlap_seconds keys = do
    next ← from_pem j key_id (some private_key_pem) public_key_pem none
    ok (record keys {
      active = next;
      passive = record keys.active { expires_at = some (add_seconds now overlap_seconds) } ∷ [];
    })

  unfoldable pub rotate : ℕ → String → String → String → ℤ → Keys → Result Keys String
  unfolding take_turns
  rotate now key_id private_key_pem public_key_pem overlap_seconds keys =
      if is_blank key_id
      then err "JWT key id must not be empty"
      else if is_nonpositive overlap_seconds
      then err "JWT key overlap must be positive"
      else if keys.active.key_id == key_id
      then err "JWT key id must differ from the active key"
      else take_turns now key_id private_key_pem public_key_pem overlap_seconds keys

  unfoldable pub retire_passive : String → Keys → Bool × Keys
  retire_passive key_id keys =
      let passive = retain (λ k. not (k.key_id == key_id)) keys.passive in
      (not (eqb (length passive) (length keys.passive)), record keys { passive = passive })

  -- The key at the position found, if any.
  promote : ℕ → ℤ → Keys → Option (KeyPair j) → Result Keys String
  promote now overlap_seconds keys none = err "JWT passive key not found or expired"
  promote now overlap_seconds keys (some k) =
      if not (is_some k.encoding)
      then err "JWT passive key has no private key for rollback"
      else ok (record keys {
        active = record k { expires_at = none };
        passive = record keys.active { expires_at = some (add_seconds now overlap_seconds) } ∷ [];
      })

  -- The live passive pair with this id.
  abbrev pub candidate : ℕ → String → Keys → Option (KeyPair j)
  candidate now key_id keys = find (λ k. k.key_id == key_id && is_live j now k) keys.passive

  unfoldable pub rollback : ℕ → String → ℤ → Keys → Result Keys String
  unfolding promote
  rollback now key_id overlap_seconds keys =
      if is_nonpositive overlap_seconds
      then err "JWT key overlap must be positive"
      else promote now overlap_seconds keys (candidate now key_id keys)
