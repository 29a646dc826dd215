-- ===== src/Chain/Identity.antt =====
-- The validator's key pair (internal/mesh/validator_identity.go): cached, read from its file, or
-- generated and written.
use blackchain_node.Prelude.{
  String, Bool, true, false, not, ◌&&◌, ◌||◌, ◌++◌, Option, none, some, [], ◌∷◌, ◌==◌, length,
  if◌then◌else◌,
}
use blackchain_node.Types.{Result, ok, err, ◌>>=◌, ◌>>◌, reject_if, no_validator, decode_failed}
use blackchain_node.Platform.{Platform, Bytes}
use blackchain_node.Signing.{is_empty, public_key_size, private_key_size}
use blackchain_node.Chain.{Chain, KeyFile, absent, unreadable, content}

abbrev same_bytes : Bytes → Bytes → Bool
same_bytes [] [] = true
same_bytes (a ∷ x) (b ∷ y) = (a == b) && same_bytes x y
same_bytes _ _ = false

abbrev decoded : Option Bytes → Result Bytes
decoded none = err no_validator
decoded (some b) = ok b

module _ ⦃p : Platform⦄ where
  -- The checks of a key pair, in `EnsureValidatorIdentityLocked` and `parseValidatorKeyFile`.
  unfoldable pub check_key_pair : String → String → Result (Unit {0})
  check_key_pair pub_hex priv_hex = do
    pub_raw ← decoded (p.hex_decode pub_hex)
    reject_if (not (length pub_raw == public_key_size)) no_validator
    priv_raw ← decoded (p.hex_decode priv_hex)
    reject_if (not (length priv_raw == private_key_size)) no_validator
    reject_if (not (same_bytes pub_raw (p.public_of priv_raw))) no_validator

  abbrev decoded_key : Option (String × String) → Result (String × String)
  decoded_key none = err decode_failed
  decoded_key (some k) = ok k

  -- `parseValidatorKeyFile`
  unfoldable pub parse_validator_key_file : Bytes → Result (String × String)
  unfolding check_key_pair
  parse_validator_key_file raw = do
    reject_if (length raw == 0) no_validator
    k ← decoded_key (p.json_decode_key raw)
    reject_if (is_empty k.0 || is_empty k.1) no_validator
    check_key_pair k.0 k.1
    ok k

  abbrev store_keys : String × String → Chain → Result String × Chain
  store_keys k c = (ok k.0, record c { validator_pub_hex = k.0; validator_priv_hex = k.1 })

  -- The text of the key file, which ends a line.
  abbrev key_text : String × String → Bytes
  key_text k = p.json_key k ++ 10 ∷ []

  -- The last part of `EnsureValidatorIdentityLocked`: a new pair, written before it is used.
  unfoldable pub create_identity : Chain → Result String × Chain
  create_identity c = elim c.next_key [
    | none ↦ (err no_validator, c)
    | some k ↦
        if c.key_write_fault
        then (err no_validator, c)
        else (let pair : String × String = (p.hex_encode k.0, p.hex_encode k.1) in
            store_keys pair (record c { key_file = content (key_text pair) }))
  ]

  abbrev pub load_identity : Result (String × String) → Chain → Result String × Chain
  load_identity (err e) c = (err e, c)
  load_identity (ok k) c = store_keys k c

  abbrev pub cached_identity : Result (Unit {0}) → Chain → Result String × Chain
  cached_identity (err e) c = (err e, c)
  cached_identity (ok u) c = (ok c.validator_pub_hex, c)

  -- An empty file is treated like a missing one.
  unfoldable pub read_identity : KeyFile → Chain → Result String × Chain
  unfolding create_identity parse_validator_key_file
  read_identity absent c = create_identity c
  read_identity unreadable c = (err no_validator, c)
  read_identity (content []) c = create_identity c
  read_identity (content (b ∷ raw)) c = load_identity (parse_validator_key_file (b ∷ raw)) c

  -- `EnsureValidatorIdentityLocked`
  unfoldable pub ensure_validator_identity : Chain → Result String × Chain
  unfolding check_key_pair read_identity
  ensure_validator_identity c =
      if not (is_empty c.validator_pub_hex) && not (is_empty c.validator_priv_hex)
      then cached_identity (check_key_pair c.validator_pub_hex c.validator_priv_hex) c
      else read_identity c.key_file c

  abbrev pub err_no_validator : String
  err_no_validator = "ERR_NO_VALIDATOR"

  -- `ValidatorIDLocked`
  unfoldable pub validator_id : Chain → String × Chain
  unfolding ensure_validator_identity
  validator_id c =
      let (r, c') = ensure_validator_identity c in
      elim r [
        | ok id ↦ (id, c')
        | err e ↦ (
          err_no_validator,
          record c' { validator_pub_hex = err_no_validator; validator_priv_hex = "" },
        )
      ]

  -- `ValidatorPrivHexLocked`
  unfoldable pub validator_priv_hex : Chain → Result String × Chain
  unfolding ensure_validator_identity
  validator_priv_hex c =
      let (r, c') = ensure_validator_identity c in
      elim r [ ok id ↦ (ok c'.validator_priv_hex, c') | err e ↦ (err e, c') ]
