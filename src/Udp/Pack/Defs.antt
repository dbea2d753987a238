-- ===== src/Udp/Pack/Defs.antt =====
-- swimprotocol/udp/pack.py: `UdpPack`. `pickle` is a parameter: `loads` may raise, and may give an
-- object that is no `Packet`, which is `none`.
use swim_protocol.Prelude.{
  ℕ, ◌+◌, ◌*◌, ◌/◌, ◌%◌, ◌^◌, ◌≡◌, not, ◌&&◌, ◌||◌, Bytes, [], ◌∷◌, ◌++◌, Option, none, some,
  length, take, drop, ltb, ◌==◌, if◌then◌else◌, bit_xor,
}
use swim_protocol.Result.{Result, ok, raise, value_error, struct_error, assertion_error, ◌>>=◌}
use swim_protocol.Packet.{Packet}
use swim_protocol.Sign.{Hmac, Signatures, sign, verify}

pub record Pickle : Type 0 where
  pub dumps : Packet → Bytes
  pub loads : Bytes → Result (Option Packet)
  pub loads-dumps : (p : Packet) → loads (dumps p) ≡ ok (some p)

pub record UdpPack : Type 0 where
  pub signatures : Signatures
  pub prefix_xor : Bytes

-- `UdpPack(signatures, prefix_xor=…)`
unfoldable pub init : Signatures → Bytes → Result UdpPack
init signatures prefix_xor =
    if length prefix_xor == 6
    then ok (record { signatures = signatures; prefix_xor = prefix_xor })
    else raise value_error

-- The struct `!BBI`: two bytes, and four bytes with the highest first.
unfoldable pub struct_pack : ℕ → ℕ → ℕ → Result Bytes
struct_pack a b c =
    if ltb a 256 && ltb b 256 && ltb c (2 ^ 32)
    then ok (a ∷ b ∷ (c / 2 ^ 24) ∷ (c / 2 ^ 16 % 256) ∷ (c / 2 ^ 8 % 256) ∷ (c % 256) ∷ [])
    else raise struct_error

unfoldable pub struct_unpack : Bytes → Result (ℕ × ℕ × ℕ)
struct_unpack (a ∷ b ∷ c3 ∷ c2 ∷ c1 ∷ c0 ∷ []) =
    ok (a, b, c3 * 2 ^ 24 + c2 * 2 ^ 16 + c1 * 2 ^ 8 + c0)
struct_unpack _ = raise struct_error

-- `bytes([left ^ right for left, right in zip(prefix, prefix_xor, strict=True)])`
unfoldable pub xor_zip : Bytes → Bytes → Result Bytes
xor_zip [] [] = ok []
xor_zip [] (y ∷ ys) = raise value_error
xor_zip (x ∷ xs) [] = raise value_error
xor_zip (x ∷ xs) (y ∷ ys) = xor_zip xs ys >>= λ rest. ok (bit_xor x y ∷ rest)

module _ (h : Hmac) (pickle : Pickle) (u : UdpPack) where
  abbrev pub xor_prefix : Bytes → Result Bytes
  xor_prefix prefix = xor_zip prefix u.prefix_xor

  -- `pack(packet)`, with the salt that `sign` draws.
  unfoldable pub pack : Bytes → Packet → Result Bytes
  pack salt packet = do
    let pickled = pickle.dumps packet
    let sig = sign h u.signatures salt pickled
    prefix ← struct_pack (length sig.salt) (length sig.digest) (length pickled)
    start ← xor_prefix prefix
    ok (start ++ (sig.salt ++ (sig.digest ++ pickled)))

  -- The end of `unpack`, from the three lengths on.
  unfoldable pub unpack_parts : Bytes → ℕ → ℕ → ℕ → Result (Option Packet)
  unpack_parts message salt_len digest_len data_len =
      let salt = take salt_len (drop 6 message) in
      let digest = take digest_len (drop salt_len (drop 6 message)) in
      let pickled = take data_len (drop digest_len (drop salt_len (drop 6 message))) in
      if not (length digest == h.digest_size) || not (length pickled == data_len)
      then ok none
      else if verify h u.signatures pickled (record { salt = salt; digest = digest })
      then (pickle.loads pickled >>= λ loaded. elim loaded [
        | none ↦ raise assertion_error
        | some packet ↦ ok (some packet)
      ])
      else ok none

  -- The lengths, or None for a `struct.error`.
  abbrev pub if_lengths : Bytes → Result (ℕ × ℕ × ℕ) → Result (Option Packet)
  if_lengths message (raise e) = ok none
  if_lengths message (ok (salt_len, digest_len, data_len)) =
      unpack_parts message salt_len digest_len data_len

  unfoldable pub unpack : Bytes → Result (Option Packet)
  unfolding unpack_parts
  unpack message = do
    prefix ← xor_prefix (take 6 message)
    if_lengths message (struct_unpack prefix)
