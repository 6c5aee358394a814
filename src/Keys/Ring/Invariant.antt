-- ===== src/Keys/Ring/Invariant.antt =====
-- What holds of a key ring in every state that it can reach.
use mathlib.Core.Path.{subst}
use keylo.Base.{
  ℕ, ◌≤◌, String, Bool, true, false, not, ◌&&◌, Option, none, some, List, [], ◌∷◌, ◌≡◌, refl, sym,
  ◌∙◌, arith, ◌==◌, eq_iff, length, retain, find, any, is_some,
}
use keylo.Base.Results.{ok, bind-eq-ok, ℤ, is_nonpositive, add_seconds}
use keylo.Keys.Jose.{Jose}
use keylo.Keys.Pair.{KeyPair, from_pem}
use keylo.Keys.Loaded.{IsLoaded, from_pem-IsLoaded}
use keylo.Keys.Ring.{
  KeyConfig, Keys, passive_from, from_config, rotate, take_turns, retire_passive, promote,
  candidate, rollback,
}

module _ (j : Jose) where
  -- A passive key: it is published under its own id, and expires.
  abbrev pub is_passive : KeyPair j → Bool
  is_passive k = k.jwk.kid == k.key_id && is_some k.expires_at

  pub record IsValid (keys : Keys j) : Type 0 where
    pub active_published : keys.active.jwk.kid ≡ keys.active.key_id
    pub active_signs : is_some keys.active.encoding ≡ true
    pub active_stays : keys.active.expires_at ≡ none
    pub passive_valid : any (λ k. not (is_passive k)) keys.passive ≡ false
    pub at_most_one : length keys.passive ≤ 1

  -- The states that the operations lead to from a start.
  pub data Reachable : Keys j → Type 0 where
    start :
        (now : ℕ) (config : KeyConfig) (keys : Keys j)
        → from_config j now config ≡ ok keys
        → Reachable keys
    rotated :
        (keys : Keys j) (now : ℕ) (key_id private_key public_key : String) (overlap : ℤ)
        (keys' : Keys j)
        → Reachable keys
        → rotate j now key_id private_key public_key overlap keys ≡ ok keys'
        → Reachable keys'
    retired :
        (keys : Keys j) (key_id : String)
        → Reachable keys
        → Reachable (retire_passive j key_id keys).1
    rolled_back :
        (keys : Keys j) (now : ℕ) (key_id : String) (overlap : ℤ) (keys' : Keys j)
        → Reachable keys
        → rollback j now key_id overlap keys ≡ ok keys'
        → Reachable keys'

  passive_from-valid :
      (now : ℕ) (config : KeyConfig) (id pem : Option String) (ks : List (KeyPair j))
      → passive_from j now config id pem ≡ ok ks
      → (any (λ k. not (is_passive k)) ks ≡ false) × (length ks ≤ 1)
  unfolding passive_from
  passive_from-valid now config none none ks h = (ground arith, ground arith)
  passive_from-valid now config none (some pem) ks h = cc
  passive_from-valid now config (some id) none ks h = cc
  passive_from-valid now config (some id) (some pem) ks h =
      let (k, made, same) = bind-eq-ok _ _ h in
      let loaded = from_pem-IsLoaded j _ _ _ _ k made in
      let self : k.jwk.kid ≡ k.key_id = loaded.published ∙ sym loaded.named in
      (ground (arith, loaded.expiry, eq_iff k.jwk.kid k.key_id, same), ground (arith, same))

  from_config-IsValid :
      (now : ℕ) (config : KeyConfig) (keys : Keys j)
      → from_config j now config ≡ ok keys
      → IsValid keys
  unfolding from_config
  from_config-IsValid now config keys h =
      let (active, made, h₁) =
        bind-eq-ok
          (from_pem j config.jwt_key_id (some config.jwt_private_key_pem) config.jwt_public_key_pem
            none)
          _ h in
      let (passive, listed, h₂) =
        bind-eq-ok
          (passive_from j now config config.jwt_passive_key_id config.jwt_passive_public_key_pem) _
          h₁ in
      let loaded = from_pem-IsLoaded j _ _ _ _ active made in
      let (valid, one) = passive_from-valid now config _ _ passive listed in
      record {
        active_published = ground (arith, h₂, loaded.published, loaded.named);
        active_signs = ground (arith, h₂, loaded.signs);
        active_stays = ground (arith, h₂, loaded.expiry);
        passive_valid = ground (arith, h₂, valid);
        at_most_one = ground (arith, h₂, one);
      }

  -- A successful rotation: the new pair, and the old one until the overlap ends.
  pub record IsTurn (now : ℕ) (key_id : String) (overlap : ℤ) (keys keys' : Keys j) : Type 0 where
    pub next : KeyPair j
    pub loaded : IsLoaded j key_id true none next
    pub other : (keys.active.key_id == key_id) ≡ false
    pub positive : is_nonpositive overlap ≡ false
    pub turned : keys' ≡ record keys {
      active = next;
      passive = record keys.active { expires_at = some (add_seconds now overlap) } ∷ [];
    }

  pub rotate-IsTurn :
      (keys : Keys j) (now : ℕ) (key_id private_key public_key : String) (overlap : ℤ)
      (keys' : Keys j)
      → rotate j now key_id private_key public_key overlap keys ≡ ok keys'
      → IsTurn now key_id overlap keys keys'
  unfolding rotate take_turns
  rotate-IsTurn keys now key_id private_key public_key overlap keys' h =
      let turn : take_turns j now key_id private_key public_key overlap keys ≡ ok keys' =
        ground (arith, h) in
      let (next, made, same) =
        bind-eq-ok (from_pem j key_id (some private_key) public_key none) _ turn in
      record {
        next = next;
        loaded = from_pem-IsLoaded j _ _ _ _ next made;
        other = ground (arith, h);
        positive = ground (arith, h);
        turned = ground (arith, same);
      }

  passive_self :
      (k : KeyPair j) (at : ℕ)
      → k.jwk.kid ≡ k.key_id
      → any (λ k. not (is_passive k)) (record k { expires_at = some at } ∷ []) ≡ false
  passive_self k at h = ground (arith, eq_iff k.jwk.kid k.key_id)

  rotate-IsValid :
      (keys : Keys j) (now : ℕ) (key_id private_key public_key : String) (overlap : ℤ)
      (keys' : Keys j)
      → IsValid keys
      → rotate j now key_id private_key public_key overlap keys ≡ ok keys'
      → IsValid keys'
  rotate-IsValid keys now key_id private_key public_key overlap keys' v h =
      let turn = rotate-IsTurn keys now key_id private_key public_key overlap keys' h in
      subst IsValid (sym turn.turned) (record {
        active_published = turn.loaded.published ∙ sym turn.loaded.named;
        active_signs = turn.loaded.signs;
        active_stays = turn.loaded.expiry;
        passive_valid = passive_self keys.active (add_seconds now overlap) v.active_published;
        at_most_one = omega arith;
      })

  retain-valid :
      (test : KeyPair j → Bool) (ks : List (KeyPair j))
      → any (λ k. not (is_passive k)) ks ≡ false
      → any (λ k. not (is_passive k)) (retain test ks) ≡ false
  retain-valid test [] h = refl
  retain-valid test (k ∷ ks) h = ground (arith, retain-valid test ks)

  length-retain :
      (test : KeyPair j → Bool) (ks : List (KeyPair j)) → length (retain test ks) ≤ length ks
  length-retain test [] = omega arith
  length-retain test (k ∷ ks) = ground (arith, length-retain test ks)

  retire-IsValid :
      (keys : Keys j) (key_id : String) → IsValid keys → IsValid (retire_passive j key_id keys).1
  unfolding retire_passive
  retire-IsValid keys key_id v = record {
    active_published = v.active_published;
    active_signs = v.active_signs;
    active_stays = v.active_stays;
    passive_valid = retain-valid _ keys.passive v.passive_valid;
    at_most_one =
        omega (arith, length-retain (λ k. not (k.key_id == key_id)) keys.passive, v.at_most_one);
  }

  find-passive :
      (test : KeyPair j → Bool) (ks : List (KeyPair j)) (k : KeyPair j)
      → any (λ k. not (is_passive k)) ks ≡ false
      → find test ks ≡ some k
      → k.jwk.kid ≡ k.key_id
  find-passive test [] k valid h = cc
  find-passive test (x ∷ ks) k valid h =
      ground (arith, find-passive test ks k, eq_iff x.jwk.kid x.key_id)

  promote-IsValid :
      (keys : Keys j) (now : ℕ) (overlap : ℤ) (found : Option (KeyPair j)) (keys' : Keys j)
      → IsValid keys
      → ((k : KeyPair j) → found ≡ some k → k.jwk.kid ≡ k.key_id)
      → promote j now overlap keys found ≡ ok keys'
      → IsValid keys'
  unfolding promote
  promote-IsValid keys now overlap none keys' v published h = cc
  promote-IsValid keys now overlap (some k) keys' v published h = record {
    active_published = ground (arith, published k refl);
    active_signs = ground (arith, h);
    active_stays = ground (arith, h);
    passive_valid =
        ground (arith, h, passive_self keys.active (add_seconds now overlap) v.active_published);
    at_most_one = ground (arith, h);
  }

  rollback-IsValid :
      (keys : Keys j) (now : ℕ) (key_id : String) (overlap : ℤ) (keys' : Keys j)
      → IsValid keys
      → rollback j now key_id overlap keys ≡ ok keys'
      → IsValid keys'
  unfolding rollback
  rollback-IsValid keys now key_id overlap keys' v h =
      promote-IsValid keys now overlap (candidate j now key_id keys) keys' v
        (λ k found. find-passive _ keys.passive k v.passive_valid found) (ground (arith, h))

  -- Every state that the operations reach from a start has an active pair that signs and does not
  -- expire, and at most one passive pair, which does; each is published under its own id.
  pub reachable-IsValid : (keys : Keys j) → Reachable keys → IsValid keys
  reachable-IsValid _ (start now config keys h) = from_config-IsValid now config keys h
  reachable-IsValid _ (rotated keys now id private_key public_key overlap keys' r h) =
      rotate-IsValid keys now id private_key public_key overlap keys' (reachable-IsValid keys r) h
  reachable-IsValid _ (retired keys key_id r) =
      retire-IsValid keys key_id (reachable-IsValid keys r)
  reachable-IsValid _ (rolled_back keys now id overlap keys' r h) =
      rollback-IsValid keys now id overlap keys' (reachable-IsValid keys r) h
