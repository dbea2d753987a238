-- ===== src/Udp/Pack/RoundTrip.antt =====
-- `unpack` of swimprotocol/udp/pack.py after `pack`, and what `unpack` accepts at all.
use mathlib.Core.List.{append_assoc}
use swim_protocol.Prelude.{
  ℕ, zero, ◌≤◌, suc, ◌+◌, ◌*◌, ◌/◌, ◌%◌, ◌^◌, ◌<◌, ◌≡◌, ◌≢◌, ◌⊎◌, ◌∙◌, refl, sym, ap, subst, inl,
  inr, true, not, ◌&&◌, ◌||◌, Bytes, [], ◌∷◌, ◌++◌, Option, none, some, arith, length, take, drop,
  take_prefix, drop_prefix, ltb, ◌==◌, bit_xor, xor_twice, Bool-cases, lt→ltb, length-take,
}
use swim_protocol.Result.{
  Result, ok, raise, value_error, struct_error, assertion_error, ◌>>=◌, bind_ok,
}
use swim_protocol.Packet.{Packet}
use swim_protocol.Sign.{Hmac, Signature, sign, verify, verify-sign}
use swim_protocol.Udp.Pack.Defs.{
  Pickle, UdpPack, struct_pack, struct_unpack, xor_zip, xor_prefix, pack, unpack_parts, if_lengths,
  unpack,
}

-- Every element is a byte.
abbrev pub IsBytes : Bytes → Type 0
IsBytes [] = Unit {0}
IsBytes (x ∷ xs) = (x < 256) × IsBytes xs

-- Zipping twice with one key gives the bytes back, and keeps their number.
xor_zip_twice :
    (xs key ys : Bytes)
    → IsBytes xs
    → IsBytes key
    → xor_zip xs key ≡ ok ys
    → (xor_zip ys key ≡ ok xs) × (length ys ≡ length key)
unfolding xor_zip
xor_zip_twice [] [] ys bx bk e = ground arith
xor_zip_twice [] (k ∷ key) ys bx bk e = cc
xor_zip_twice (x ∷ xs) [] ys bx bk e = cc
xor_zip_twice (x ∷ xs) (k ∷ key) ys bx bk e =
    let (rest, zipped, made) = bind_ok (xor_zip xs key) _ e in
    let same : bit_xor x k ∷ rest ≡ ys = cc in
    let (back, long) = xor_zip_twice xs key rest bx.1 bk.1 zipped in
    subst (λ (l : Bytes). (xor_zip l (k ∷ key) ≡ ok (x ∷ xs)) × (length l ≡ suc (length key))) same
      (rw (back, xor_twice x k bx.0 bk.0), ap suc long)

xor_zip_total : (xs key : Bytes) → length xs ≡ length key → (ys : Bytes) × (xor_zip xs key ≡ ok ys)
unfolding xor_zip
xor_zip_total [] [] h = ([], refl)
xor_zip_total [] (k ∷ key) h = absurd (omega arith)
xor_zip_total (x ∷ xs) [] h = absurd (omega arith)
xor_zip_total (x ∷ xs) (k ∷ key) h =
    let (ys, e) = xor_zip_total xs key (omega arith) in (bit_xor x k ∷ ys, rw e)

xor_zip_mismatch : (xs key : Bytes) → length xs ≢ length key → xor_zip xs key ≡ raise value_error
unfolding xor_zip
xor_zip_mismatch [] [] h = absurd (h refl)
xor_zip_mismatch [] (k ∷ key) h = refl
xor_zip_mismatch (x ∷ xs) [] h = refl
xor_zip_mismatch (x ∷ xs) (k ∷ key) h = rw (xor_zip_mismatch xs key (λ e. h (ap suc e)))

-- The six bytes of three lengths.
abbrev six : ℕ → ℕ → ℕ → Bytes
six a b c = a ∷ b ∷ (c / 2 ^ 24) ∷ (c / 2 ^ 16 % 256) ∷ (c / 2 ^ 8 % 256) ∷ (c % 256) ∷ []

abbrev pub Fits : ℕ → ℕ → ℕ → Type 0
Fits a b c = (a < 256) × (b < 256) × (c < 2 ^ 32)

struct_pack-Fits : (a b c : ℕ) → Fits a b c → struct_pack a b c ≡ ok (six a b c)
unfolding struct_pack
struct_pack-Fits a b c f = rw (lt→ltb a 256 f.0, lt→ltb b 256 f.1, lt→ltb c (2 ^ 32) f.2)

struct_pack_unfit : (a b c : ℕ) → ¬ Fits a b c → struct_pack a b c ≡ raise struct_error
unfolding struct_pack
struct_pack_unfit a b c n = elim (Bool-cases (ltb a 256 && ltb b 256 && ltb c (2 ^ 32))) [
  | inl f ↦ absurd (n (ground arith))
  | inr f ↦ rw f
]

struct_unpack-six : (a b c : ℕ) → struct_unpack (six a b c) ≡ ok (a, b, c)
unfolding struct_unpack
struct_unpack-six a b c =
    let whole : c / 2 ^ 24 * 2 ^ 24 + c / 2 ^ 16 % 256 * 2 ^ 16 + c / 2 ^ 8 % 256 * 2 ^ 8 + c % 256
        ≡ c =
      omega arith in
    ap (λ (n : ℕ). ok (a, b, n)) whole

six-IsBytes : (a b c : ℕ) → Fits a b c → IsBytes (six a b c)
six-IsBytes a b c f = omega arith

-- A part has its full size, or nothing is left after it.
full_or_end : (n : ℕ) (xs : Bytes) → (length (take n xs) ≡ n) ⊎ (drop n xs ≡ [])
full_or_end zero xs = inl refl
full_or_end (suc n) [] = inr refl
full_or_end (suc n) (x ∷ xs) = elim (full_or_end n xs) [
  | inl full ↦ inl (ap suc full)
  | inr ended ↦ inr ended
]

end_at : (n : ℕ) (xs rest : Bytes) → rest ≡ drop n xs → (length (take n xs) ≡ n) ⊎ (rest ≡ [])
end_at n xs rest e = elim (full_or_end n xs) [ inl full ↦ inl full | inr ended ↦ inr (e ∙ ended) ]

take-drop : (n : ℕ) (xs : Bytes) → take n xs ++ drop n xs ≡ xs
take-drop zero xs = refl
take-drop (suc n) [] = refl
take-drop (suc n) (x ∷ xs) = ap (x ∷◌) (take-drop n xs)

module _ (h : Hmac) (pickle : Pickle) (u : UdpPack) (key : IsBytes u.prefix_xor)
    (key_size : length u.prefix_xor ≡ 6) where
  -- The parts of a packed message in a longer one.
  unpack_parts_lem :
      (start salt digest pickled extra : Bytes)
      → length start ≡ 6
      → length digest ≡ h.digest_size
      → verify h u.signatures pickled (record { salt = salt; digest = digest }) ≡ true
      → unpack_parts h pickle u
          (start ++ (salt ++ (digest ++ (pickled ++ extra))))
          (length salt)
          (length digest)
          (length pickled)
        ≡ (pickle.loads pickled >>= λ loaded. elim loaded [
          | none ↦ raise assertion_error
          | some packet ↦ ok (some packet)
        ])
  unfolding unpack_parts
  unpack_parts_lem start salt digest pickled extra ls ld signed =
      rw
        (
          drop_prefix 6 start (salt ++ (digest ++ (pickled ++ extra))) ls,
          drop_prefix (length salt) salt (digest ++ (pickled ++ extra)) refl,
          drop_prefix (length digest) digest (pickled ++ extra) refl,
          take_prefix (length salt) salt (digest ++ (pickled ++ extra)) refl,
          take_prefix (length digest) digest (pickled ++ extra) refl,
          take_prefix (length pickled) pickled extra refl,
          signed,
        )
        ground arith

  -- `pack` returns a message whenever the salt and the digest are shorter than 256 bytes and the
  -- pickled packet shorter than 2^32, and `unpack` of that message, with any bytes after it, returns
  -- the packet. The prefix key has six bytes.
  pub unpack-pack :
      (salt extra : Bytes) (packet : Packet)
      → Fits (length salt) h.digest_size (length (pickle.dumps packet))
      → (out : Bytes) × (pack h pickle u salt packet ≡ ok out)
        × (unpack h pickle u (out ++ extra) ≡ ok (some packet))
  unfolding pack unpack sign
  unpack-pack salt extra packet f =
      let pickled = pickle.dumps packet in
      let sig = sign h u.signatures salt pickled in
      let ld : length sig.digest ≡ h.digest_size = h.length-digest u.signatures.secret _ in
      let six_bytes = six (length salt) (length sig.digest) (length pickled) in
      let fits : Fits (length salt) (length sig.digest) (length pickled) = (f.0, rw ld f.1, f.2) in
      let (start, made) = xor_zip_total six_bytes u.prefix_xor (sym key_size) in
      let (back, long) =
        xor_zip_twice six_bytes u.prefix_xor start
          (six-IsBytes (length salt) (length sig.digest) (length pickled) fits) key made in
      let whole : (start ++ (salt ++ (sig.digest ++ pickled))) ++ extra
          ≡ start ++ (salt ++ (sig.digest ++ (pickled ++ extra))) =
        rw (
          append_assoc start (salt ++ (sig.digest ++ pickled)) extra,
          append_assoc salt (sig.digest ++ pickled) extra,
          append_assoc sig.digest pickled extra,
        ) in
      (
        start ++ (salt ++ (sig.digest ++ pickled)),
        rw (struct_pack-Fits (length salt) (length sig.digest) (length pickled) fits, made),
        rw
            (
              whole,
              take_prefix 6 start (salt ++ (sig.digest ++ (pickled ++ extra))) (long ∙ key_size),
              back,
              struct_unpack-six (length salt) (length sig.digest) (length pickled),
            )
            (unpack_parts_lem start salt sig.digest pickled extra (long ∙ key_size) ld
                (verify-sign h u.signatures salt pickled salt pickled refl)
              ∙ rw (pickle.loads-dumps packet)),
      )

  -- With a prefix key of six bytes `unpack` raises a ValueError for every message of fewer than
  -- six bytes.
  unpack_short :
      (message : Bytes) → length message < 6 → unpack h pickle u message ≡ raise value_error
  unfolding unpack
  unpack_short message short = rw (
      xor_zip_mismatch (take 6 message) u.prefix_xor
        (λ e. let lt = length-take 6 message in omega arith))

  -- A message that a packet comes from: after the prefix, whose lengths it has, stand the salt, the
  -- digest and the pickled packet, which `verify` accepts, and perhaps more.
  pub record Verified (message : Bytes) (packet : Packet) : Type 0 where
    pub start : Bytes
    pub salt : Bytes
    pub digest : Bytes
    pub pickled : Bytes
    pub extra : Bytes
    pub whole : message ≡ start ++ (salt ++ (digest ++ (pickled ++ extra)))
    pub prefix : Bytes
    pub salt_size : ℕ
    pub digest_size : ℕ
    pub prefixed : xor_prefix h pickle u start ≡ ok prefix
    pub sized : struct_unpack prefix ≡ ok (salt_size, digest_size, length pickled)
    pub salt_fits : length salt ≤ salt_size
    pub digest_fits : length digest ≤ digest_size
    -- A part is shorter than the prefix tells only where the message ends.
    pub salt_full : (length salt ≡ salt_size) ⊎ (digest ++ (pickled ++ extra) ≡ [])
    pub digest_full : (length digest ≡ digest_size) ⊎ (pickled ++ extra ≡ [])
    pub hash_sized : length digest ≡ h.digest_size
    pub signed : verify h u.signatures pickled (record { salt = salt; digest = digest }) ≡ true
    pub loaded : pickle.loads pickled ≡ ok (some packet)

  loads_some :
      (r : Result (Option Packet)) (packet : Packet)
      → (r >>= λ loaded. elim loaded [ none ↦ raise assertion_error | some p ↦ ok (some p) ])
        ≡ ok (some packet)
      → r ≡ ok (some packet)
  loads_some (raise x) packet e = cc
  loads_some (ok none) packet e = cc
  loads_some (ok (some p)) packet e = e

  unpack_parts-Verified :
      (message prefix : Bytes) (a b c : ℕ) (packet : Packet)
      → xor_prefix h pickle u (take 6 message) ≡ ok prefix
      → struct_unpack prefix ≡ ok (a, b, c)
      → unpack_parts h pickle u message a b c ≡ ok (some packet)
      → Verified message packet
  unfolding unpack_parts
  unpack_parts-Verified message prefix a b c packet made sized e =
      let m1 = drop 6 message in
      let m2 = drop a m1 in
      let m3 = drop b m2 in
      let salt = take a m1 in
      let digest = take b m2 in
      let pickled = take c m3 in
      let sig : Signature = record { salt = salt; digest = digest } in
      elim (Bool-cases (not (length digest == h.digest_size) || not (length pickled == c))) [
        | inl bad ↦ ground arith
        | inr good ↦ elim (Bool-cases (verify h u.signatures pickled sig)) [
          | inl signed ↦
              let exact : length pickled ≡ c = ground arith in
              record {
                start = take 6 message;
                salt = salt;
                digest = digest;
                pickled = pickled;
                extra = drop c m3;
                whole = sym (
                    ap (λ l. take 6 message ++ (salt ++ (digest ++ l))) (take-drop c m3)
                    ∙ ap (λ l. take 6 message ++ (salt ++ l)) (take-drop b m2)
                    ∙ ap (λ l. take 6 message ++ l) (take-drop a m1)
                    ∙ take-drop 6 message);
                prefix = prefix;
                salt_size = a;
                digest_size = b;
                prefixed = made;
                sized = sized ∙ ap (λ k. ok (a, b, k)) (sym exact);
                salt_fits = omega (arith, length-take a m1);
                digest_fits = omega (arith, length-take b m2);
                salt_full = end_at a m1 _ (ap (digest ++◌) (take-drop c m3) ∙ take-drop b m2);
                digest_full = end_at b m2 _ (take-drop c m3);
                hash_sized = ground arith;
                signed = signed;
                loaded = loads_some (pickle.loads pickled) packet (ground arith);
              }
          | inr unsigned ↦ ground arith
        ]
      ]

  if_lengths-Verified :
      (message prefix : Bytes) (lengths : Result (ℕ × ℕ × ℕ)) (packet : Packet)
      → xor_prefix h pickle u (take 6 message) ≡ ok prefix
      → struct_unpack prefix ≡ lengths
      → if_lengths h pickle u message lengths ≡ ok (some packet)
      → Verified message packet
  if_lengths-Verified message prefix (raise x) packet made sized e = cc
  if_lengths-Verified message prefix (ok (a, b, c)) packet made sized e =
      unpack_parts-Verified message prefix a b c packet made sized e

  -- With a prefix key of six bytes, a packet that `unpack` returns comes from the message: the
  -- first bytes tell the lengths of the parts after them, `verify` accepts the pickled packet there
  -- with the salt and the digest there, the digest has the size of the hash, and the packet is
  -- what the pickled bytes load as. The salt or the digest is shorter than told only where the
  -- message ends.
  pub unpack-Verified :
      (message : Bytes) (packet : Packet)
      → unpack h pickle u message ≡ ok (some packet)
      → Verified message packet
  unfolding unpack
  unpack-Verified message packet e =
      let (prefix, made, e1) = bind_ok (xor_prefix h pickle u (take 6 message)) _ e in
      if_lengths-Verified message prefix (struct_unpack prefix) packet made refl e1
