-- ===== src/Sign.antt =====
-- swimprotocol/sign.py: `Signatures`. The digest of a key and a message, and the constant-time
-- comparison, are `hmac.digest` and `hmac.compare_digest`: parameters with what their
-- documentation says. The salt comes from `secrets.token_bytes(16)` and is an argument.
mod Tests
pub mod Samples
use swim_protocol.Prelude.{
  ℕ, ◌≡◌, ◌≢◌, ◌∙◌, ◌↔◌, refl, sym, ap, Bool, true, false, Text, Bytes, List, [], ◌∷◌, ◌++◌, length,
  arith, Bool-cases, inl, inr, if◌then◌else◌,
}

pub record Hmac : Type 0 where
  pub digest : Bytes → Bytes → Bytes
  pub compare_digest : Bytes → Bytes → Bool
  pub digest_size : ℕ
  -- `compare_digest` returns `a == b`.
  pub compare_digest_iff : (a b : Bytes) → (compare_digest a b ≡ true) ↔ (a ≡ b)
  -- A digest has the size that the hash states.
  pub length-digest : (key message : Bytes) → length (digest key message) ≡ digest_size

pub record Signature : Type 0 where
  pub salt : Bytes
  pub digest : Bytes

-- `Signatures(secret, …)`: `version` is empty if versions are not checked.
pub record Signatures : Type 0 where
  pub secret : Bytes
  pub version : Bytes

-- The secret given to the constructor: none, a `str` or `bytes`.
pub data Secret : Type 0 where
  missing : Secret
  from_str : Text → Secret
  from_bytes : Bytes → Secret

-- `Signatures(secret, check_version=…)`; the node's number in hexadecimal, the UTF-8 encoding and
-- the version of the package are given.
unfoldable pub init : Bytes → (Text → Bytes) → Bytes → Secret → Bool → Signatures
init node encode about secret check_version = record {
  secret = elim secret [ missing ↦ node | from_str s ↦ encode s | from_bytes b ↦ b ];
  version = if check_version then about else [];
}

abbrev pub salted_data : Signatures → Bytes → Bytes → Bytes
salted_data s salt message = s.version ++ (salt ++ message)

module _ (h : Hmac) (s : Signatures) where
  -- `sign(data)`, with the new salt.
  unfoldable pub sign : Bytes → Bytes → Signature
  sign salt message = record {
    salt = salt;
    digest = h.digest s.secret (salted_data s salt message);
  }

  -- `verify(data, sig)`
  unfoldable pub verify : Bytes → Signature → Bool
  verify message sig =
      h.compare_digest sig.digest (h.digest s.secret (salted_data s sig.salt message))

  -- `verify` accepts a message under a salt with a digest exactly when the digest is that of version,
  -- salt and message joined.
  pub verify_iff :
      (message : Bytes) (sig : Signature)
      → (verify message sig ≡ true)
        ↔ (sig.digest ≡ h.digest s.secret (salted_data s sig.salt message))
  unfolding verify
  verify_iff message sig = h.compare_digest_iff sig.digest _

  -- What was signed is verified, and so is every other pair of salt and message that is joined to
  -- the same bytes, under the same digest: the signature does not fix where the salt ends.
  pub verify-sign :
      (salt message salt' message' : Bytes)
      → salt' ++ message' ≡ salt ++ message
      → verify message' (record { salt = salt'; digest = (sign salt message).digest }) ≡ true
  unfolding sign
  verify-sign salt message salt' message' e =
      (verify_iff message' (record { salt = salt'; digest = (sign salt message).digest })).1
        (ap (λ d. h.digest s.secret (s.version ++ d)) (sym e))
