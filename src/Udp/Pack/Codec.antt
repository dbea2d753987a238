-- ===== src/Udp/Pack/Codec.antt =====
-- A `pickle` for the tests of `UdpPack`: packets as lists of numbers, and back.
use swim_protocol.Prelude.{
  ℕ, zero, suc, ◌≡◌, refl, Bool, true, false, Bytes, List, [], ◌∷◌, Option, none, some, length,
}
use swim_protocol.Result.{Result, ok, raise, value_error}
use swim_protocol.Status.{Status, flags}
use swim_protocol.Packet.{Packet, Source, Metadata, ping, ping_req, ack, gossip, gossip_ack}
use swim_protocol.Udp.Pack.Defs.{Pickle}

-- How to write a value before a rest, and how to read both.
pub record Codec (A : Type 0) : Type 0 where
  pub write : A → Bytes → Bytes
  pub read : Bytes → Option (A × Bytes)
  pub read-write : (a : A) (rest : Bytes) → read (write a rest) ≡ some (a, rest)

abbrev and_read : {A B : Type 0} → Option (A × Bytes) → (A → Bytes → Option B) → Option B
and_read none f = none
and_read (some (a, rest)) f = f a rest

abbrev read_number : Bytes → Option (ℕ × Bytes)
read_number [] = none
read_number (n ∷ rest) = some (n, rest)

abbrev number : Codec ℕ
number = record { write = λ n rest. n ∷ rest; read = read_number; read-write = λ n rest. refl }

module _ {A B : Type 0} (c : Codec A) (d : Codec B) where
  abbrev pair : Codec (A × B)
  pair = record {
    write = λ p rest. c.write p.0 (d.write p.1 rest);
    read =
        λ xs. and_read (c.read xs) λ a rest. and_read (d.read rest) λ b left. some ((a, b), left);
    read-write = λ p rest. rw (c.read-write p.0 (d.write p.1 rest), d.read-write p.1 rest) refl;
  }

module _ {A : Type 0} (c : Codec A) where
  abbrev write_all : List A → Bytes → Bytes
  write_all [] rest = rest
  write_all (x ∷ xs) rest = c.write x (write_all xs rest)

  abbrev read_all : ℕ → Bytes → Option (List A × Bytes)
  read_all zero xs = some ([], xs)
  read_all (suc n) xs =
      and_read (c.read xs) λ a rest. and_read (read_all n rest) λ l left. some (a ∷ l, left)

  pub read_all-write_all :
      (l : List A) (rest : Bytes) → read_all (length l) (write_all l rest) ≡ some (l, rest)
  read_all-write_all [] rest = refl
  read_all-write_all (x ∷ xs) rest =
      rw (c.read-write x (write_all xs rest), read_all-write_all xs rest) refl

  abbrev list : Codec (List A)
  list = record {
    write = λ l rest. length l ∷ write_all l rest;
    read = λ xs. and_read (read_number xs) read_all;
    read-write = read_all-write_all;
  }

-- The fields of every kind of packet: its number, the source's name and validity, a name, a clock,
-- a status and metadata, the last two as lists.
abbrev Fields : Type 0
Fields = ℕ × (Bytes × (Bytes × (Bytes × (ℕ × (List ℕ × List Metadata)))))

abbrev fields_codec : Codec Fields
fields_codec = pair number (
    pair (list number) (
      pair (list number) (
        pair (list number)
          (pair number (pair (list number) (list (list (pair (list number) (list number)))))))))

abbrev bit : Bool → ℕ
bit true = 1
bit false = 0

abbrev bits_of : Status → List ℕ
bits_of (flags a b c) = bit a ∷ bit b ∷ bit c ∷ []

abbrev of_bit : ℕ → Bool
of_bit zero = false
of_bit (suc n) = true

abbrev status_of : List ℕ → Status
status_of (a ∷ b ∷ c ∷ []) = flags (of_bit a) (of_bit b) (of_bit c)
status_of _ = flags false false false

of_bit-bit : (b : Bool) → of_bit (bit b) ≡ b
of_bit-bit true = refl
of_bit-bit false = refl

status_of-bits_of : (s : Status) → status_of (bits_of s) ≡ s
status_of-bits_of (flags a b c) = rw (of_bit-bit a, of_bit-bit b, of_bit-bit c) refl

abbrev listed : Option Metadata → List Metadata
listed none = []
listed (some m) = m ∷ []

abbrev unlisted : List Metadata → Option Metadata
unlisted [] = none
unlisted (m ∷ l) = some m

unlisted-listed : (m : Option Metadata) → unlisted (listed m) ≡ m
unlisted-listed none = refl
unlisted-listed (some m) = refl

abbrev fields : Packet → Fields
fields (ping s) = (0, (s.name, (s.validity, ([], (0, ([], []))))))
fields (ping_req s target) = (1, (s.name, (s.validity, (target, (0, ([], []))))))
fields (ack s) = (2, (s.name, (s.validity, ([], (0, ([], []))))))
fields (gossip s name clock status metadata) =
    (3, (s.name, (s.validity, (name, (clock, (bits_of status, listed metadata))))))
fields (gossip_ack s name clock) = (4, (s.name, (s.validity, (name, (clock, ([], []))))))

abbrev packet_of : ℕ → Source → Bytes → ℕ → List ℕ → List Metadata → Option Packet
packet_of zero s name clock status metadata = some (ping s)
packet_of (suc zero) s name clock status metadata = some (ping_req s name)
packet_of (suc (suc zero)) s name clock status metadata = some (ack s)
packet_of (suc (suc (suc zero))) s name clock status metadata =
    some (gossip s name clock (status_of status) (unlisted metadata))
packet_of (suc (suc (suc (suc zero)))) s name clock status metadata = some (gossip_ack s name clock)
packet_of _ s name clock status metadata = none

abbrev packet_from : Fields → Option Packet
packet_from (kind, (source, (validity, (name, (clock, (status, metadata)))))) =
    packet_of kind (record { name = source; validity = validity }) name clock status metadata

pub packet_from-fields : (p : Packet) → packet_from (fields p) ≡ some p
packet_from-fields (ping s) = refl
packet_from-fields (ping_req s target) = refl
packet_from-fields (ack s) = refl
packet_from-fields (gossip s name clock status metadata) =
    rw (status_of-bits_of status, unlisted-listed metadata) refl
packet_from-fields (gossip_ack s name clock) = refl

abbrev loaded : Option (Fields × Bytes) → Result (Option Packet)
loaded none = raise value_error
loaded (some (f, rest)) = ok (packet_from f)

unfoldable pub small_pickle : Pickle
small_pickle = record {
  dumps = λ p. fields_codec.write (fields p) [];
  loads = λ xs. loaded (fields_codec.read xs);
  loads-dumps = λ p. rw (fields_codec.read-write (fields p) [], packet_from-fields p) refl;
}
