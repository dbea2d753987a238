-- ===== src/Sign/Tests.antt =====
-- The theorems of `Signatures` at concrete signatures.
use swim_protocol.Prelude.{◌≡◌, refl, true, [], ◌∷◌}
use swim_protocol.Sign.{sign, verify, verify-sign}
use swim_protocol.Sign.Samples.{small_hash, signatures}

verify-sign_example :
    verify small_hash signatures
      (8 ∷ 5 ∷ [])
      (record { salt = 9 ∷ []; digest = (sign small_hash signatures (9 ∷ 8 ∷ []) (5 ∷ [])).digest })
    ≡ true
verify-sign_example =
    verify-sign small_hash signatures (9 ∷ 8 ∷ []) (5 ∷ []) (9 ∷ []) (8 ∷ 5 ∷ []) refl
