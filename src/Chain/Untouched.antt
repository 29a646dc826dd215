-- ===== src/Chain/Untouched.antt =====
-- Loading the validator's identity (internal/mesh/validator_identity.go) changes its two keys and their file alone.
use blackchain_node.Prelude.{String, ◌≡◌, refl, arith, not, ◌&&◌, [], ◌∷◌, Bool-cases, inl, inr, ap}
use blackchain_node.Types.{Result, ok, err, Result-cases}
use blackchain_node.Platform.{Platform}
use blackchain_node.Signing.{is_empty}
use blackchain_node.Chain.{Chain, KeyFile, absent, unreadable, content}
use blackchain_node.Chain.Identity.{
  check_key_pair, parse_validator_key_file, create_identity, read_identity,
  ensure_validator_identity, validator_id, validator_priv_hex, load_identity, cached_identity,
  err_no_validator,
}

-- A chain that differs from `c` in the validator's keys and their file alone.
abbrev pub HasKeysOnly : Chain → Chain → Type 0
HasKeysOnly c c' = c' ≡ record c {
  validator_pub_hex = c'.validator_pub_hex;
  validator_priv_hex = c'.validator_priv_hex;
  key_file = c'.key_file;
}

module _ ⦃p : Platform⦄ where
  create_identity-HasKeysOnly : (c : Chain) → HasKeysOnly c (create_identity c).1
  unfolding create_identity
  create_identity-HasKeysOnly c = ground arith

  load-HasKeysOnly :
      (r : Result (String × String)) (c : Chain) → HasKeysOnly c (load_identity r c).1
  load-HasKeysOnly (ok k) c = refl
  load-HasKeysOnly (err e) c = refl

  read_identity-HasKeysOnly : (f : KeyFile) (c : Chain) → HasKeysOnly c (read_identity f c).1
  unfolding read_identity
  read_identity-HasKeysOnly absent c = create_identity-HasKeysOnly c
  read_identity-HasKeysOnly unreadable c = refl
  read_identity-HasKeysOnly (content []) c = create_identity-HasKeysOnly c
  read_identity-HasKeysOnly (content (b ∷ raw)) c =
      load-HasKeysOnly (parse_validator_key_file (b ∷ raw)) c

  cached-HasKeysOnly : (r : Result (Unit {0})) (c : Chain) → HasKeysOnly c (cached_identity r c).1
  cached-HasKeysOnly (ok u) c = refl
  cached-HasKeysOnly (err e) c = refl

  -- `EnsureValidatorIdentityLocked`
  pub ensure-HasKeysOnly : (c : Chain) → HasKeysOnly c (ensure_validator_identity c).1
  unfolding ensure_validator_identity
  ensure-HasKeysOnly c =
      elim (Bool-cases
        (not (is_empty c.validator_pub_hex) && not (is_empty c.validator_priv_hex))) [
          | inl set ↦
              rw (ensure_validator_identity, set)
                (cached-HasKeysOnly (check_key_pair c.validator_pub_hex c.validator_priv_hex) c)
          | inr unset ↦
              rw (ensure_validator_identity, unset) (read_identity-HasKeysOnly c.key_file c)
        ]

  -- `ValidatorIDLocked`
  pub validator_id-HasKeysOnly : (c : Chain) → HasKeysOnly c (validator_id c).1
  unfolding validator_id
  validator_id-HasKeysOnly c =
      let rest = ensure-HasKeysOnly c in
      elim (Result-cases (ensure_validator_identity c).0) [
        | inl (id, good) ↦ rw (validator_id, good) rest
        | inr (e, bad) ↦
            rw (validator_id, bad)
              (ap
                (λ (d : Chain). record d {
                  validator_pub_hex = err_no_validator;
                  validator_priv_hex = "";
                })
                rest)
      ]

  -- `ValidatorPrivHexLocked`
  pub validator_priv_hex-HasKeysOnly : (c : Chain) → HasKeysOnly c (validator_priv_hex c).1
  unfolding validator_priv_hex
  validator_priv_hex-HasKeysOnly c =
      let rest = ensure-HasKeysOnly c in
      elim (Result-cases (ensure_validator_identity c).0) [
        | inl (id, good) ↦ rw (validator_priv_hex, good) rest
        | inr (e, bad) ↦ rw (validator_priv_hex, bad) rest
      ]
