-- ===== src/Keys/Tokens/Overlap.antt =====
-- Tokens across a rotation.
use keylo.Base.{
  ℕ, String, false, not, ◌&&◌, none, some, List, [], ◌∷◌, ◌≡◌, refl, ◌∙◌, ap, arith, ◌==◌, eq_iff,
  eq_refl, is_some, ltb, find, any, map, retain, if◌then◌else◌, Option-cases, inl, inr,
}
use keylo.Base.Results.{ok, err, ℤ, add_seconds}
use keylo.Errors.{invalid_token}
use keylo.Keys.Jose.{Jose, IsSound}
use keylo.Keys.Pair.{KeyPair, is_live}
use keylo.Keys.Ring.{Keys, rotate, jwks}
use keylo.Keys.Ring.Invariant.{is_passive, Reachable, reachable-IsValid, rotate-IsTurn}
use keylo.Keys.Tokens.{sign_token, verifier, decode_with_key, access_validation, decode_token}

==_comm : (a b : String) → (a == b) ≡ (b == a)
==_comm a b = ground (arith, eq_iff a b, eq_iff b a)

module _ (j : Jose) where
  find_published :
      (now : ℕ) (kid : String) (ks : List (KeyPair j))
      → any (λ k. not (is_passive j k)) ks ≡ false
      → any (λ w. w.kid == kid) (map (λ k. k.jwk) (retain (is_live j now) ks))
        ≡ is_some (find (λ k. kid == k.key_id && is_live j now k) ks)
  find_published now kid [] h = refl
  find_published now kid (k ∷ ks) h =
      ground (arith, find_published now kid ks, eq_iff k.jwk.kid k.key_id, ==_comm k.key_id kid)

  -- In every state that a ring can reach, at every time: the key set that is published has a key
  -- with an id exactly when a token with that `kid` finds a key to verify it.
  pub published_iff_verifies :
      (now : ℕ) (kid : String) (keys : Keys j)
      → Reachable j keys
      → any (λ w. w.kid == kid) (jwks j now keys) ≡ is_some (verifier j now (some kid) keys)
  unfolding jwks verifier
  published_iff_verifies now kid keys r =
      let v = reachable-IsValid j keys r in
      rw (v.active_published, find_published now kid keys.passive v.passive_valid)
        (ground (arith, ==_comm kid keys.active.key_id))

  verifier-turned :
      (keys : Keys j) (next : KeyPair j) (at later : ℕ)
      → (keys.active.key_id == next.key_id) ≡ false
      → verifier j later (some keys.active.key_id) (record keys {
        active = next;
        passive = record keys.active { expires_at = some at } ∷ [];
      })
        ≡ (if ltb later at then some keys.active.decoding else none)
  unfolding verifier
  verifier-turned keys next at later other = ground (arith, other, eq_refl keys.active.key_id)

  -- A token with the old key's `kid` is read after a rotation as it was read before, until the
  -- overlap ends; from then on it is refused as invalid.
  pub decode-rotate :
      (keys keys' : Keys j) (now later checked : ℕ) (key_id private_key public_key : String)
      (overlap : ℤ) (token : String)
      → rotate j now key_id private_key public_key overlap keys ≡ ok keys'
      → j.decode_header token ≡ ok (some keys.active.key_id)
      → decode_token j later checked token keys' ≡ (
          if ltb later (add_seconds now overlap)
          then decode_token j later checked token keys
          else err invalid_token)
  unfolding decode_token decode_with_key verifier
  decode-rotate keys keys' now later checked key_id private_key public_key overlap token h header =
      let turn = rotate-IsTurn j keys now key_id private_key public_key overlap keys' h in
      let other : (keys.active.key_id == turn.next.key_id) ≡ false =
        rw (turn.loaded.named) turn.other in
      rw (turn.turned, header, verifier-turned keys turn.next (add_seconds now overlap) later other)
        (ground (arith, eq_refl keys.active.key_id))

  sign_token-encode :
      (keys : Keys j) (e : j.EncodingKey) (claims : j.Payload) (token : String)
      → keys.active.encoding ≡ some e
      → sign_token j keys claims ≡ ok token
      → j.encode (some keys.active.key_id) claims e ≡ some token
  unfolding sign_token
  sign_token-encode keys e claims token signs h =
      elim (Option-cases (j.encode (some keys.active.key_id) claims e)) [
        | inl failed ↦ ground (arith, signs, failed)
        | inr (made, encoded) ↦ ground (arith, signs, encoded)
      ]

  decode-sign_token :
      (sound : IsSound j) (keys : Keys j) (e : j.EncodingKey) (now checked : ℕ) (claims : j.Payload)
      (token : String)
      → keys.active.encoding ≡ some e
      → sound.IsPair e keys.active.decoding
      → sound.Accepts checked (access_validation j keys) claims
      → sign_token j keys claims ≡ ok token
      → (j.decode_header token ≡ ok (some keys.active.key_id))
        × (decode_token j now checked token keys ≡ ok claims)
  unfolding decode_token decode_with_key verifier
  decode-sign_token sound keys e now checked claims token signs pair accepts h =
      let encoded = sign_token-encode keys e claims token signs h in
      let header = sound.header_of_encoded _ claims e token encoded in
      let decoded =
        sound.decode_encoded _ claims e keys.active.decoding _ token checked encoded pair accepts in
      (header, rw (header, eq_refl keys.active.key_id, decoded) refl)

  -- A token that the ring signed is read back as the claims it was signed for, at any time at which
  -- the claims pass the checks of issuer, audience and expiry; after a rotation it still is, at any
  -- such time until the overlap ends, and from then on it is refused: given that the signing key
  -- matches the verifying key.
  pub decode-sign_rotated :
      (sound : IsSound j) (keys keys' : Keys j) (e : j.EncodingKey)
      (now checked turned_at later later_checked : ℕ) (key_id private_key public_key : String)
      (overlap : ℤ) (claims : j.Payload) (token : String)
      → keys.active.encoding ≡ some e
      → sound.IsPair e keys.active.decoding
      → sound.Accepts checked (access_validation j keys) claims
      → sound.Accepts later_checked (access_validation j keys) claims
      → sign_token j keys claims ≡ ok token
      → rotate j turned_at key_id private_key public_key overlap keys ≡ ok keys'
      → (decode_token j now checked token keys ≡ ok claims)
        × (decode_token j later later_checked token keys'
            ≡ (if ltb later (add_seconds turned_at overlap) then ok claims else err invalid_token))
  decode-sign_rotated sound keys keys' e now checked turned_at later later_checked key_id
        private_key public_key overlap claims token signs pair accepts accepts_later signed turned =
      let (header, read) =
        decode-sign_token sound keys e now checked claims token signs pair accepts signed in
      let (_, read_later) =
        decode-sign_token sound keys e later later_checked claims token signs pair accepts_later
          signed in
      (
        read,
        decode-rotate keys keys' turned_at later later_checked key_id private_key public_key overlap
              token turned header
            ∙ ap (λ r. if ltb later (add_seconds turned_at overlap) then r else err invalid_token)
                read_later,
      )
