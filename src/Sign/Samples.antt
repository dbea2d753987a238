-- ===== src/Sign/Samples.antt =====
-- A small digest for tests of `Signatures`: the sums of the key and of the message.
use swim_protocol.Prelude.{
  ℕ, ◌+◌, ◌≡◌, ◌↔◌, refl, Bool, true, false, ite, text_discrete, Bytes, [], ◌∷◌, arith,
}
use swim_protocol.Sign.{Hmac, Signatures}

abbrev pub sum : Bytes → ℕ
sum [] = 0
sum (x ∷ xs) = x + sum xs

abbrev pub same : Bytes → Bytes → Bool
same a b = ite (text_discrete a b) true false

pub same_iff : (a b : Bytes) → (same a b ≡ true) ↔ (a ≡ b)
same_iff a b = (λ e. ground arith, λ e. ground arith)

abbrev pub small_hash : Hmac
small_hash = record {
  digest = λ key message. sum key ∷ sum message ∷ [];
  compare_digest = same;
  digest_size = 2;
  compare_digest_iff = same_iff;
  length-digest = λ key message. refl;
}

abbrev pub signatures : Signatures
signatures = record { secret = 1 ∷ 2 ∷ []; version = [] }
