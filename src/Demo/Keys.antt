-- ===== src/Demo/Keys.antt =====
-- The keys that swimprotocol/demo/screen.py takes.
use swim_protocol.Prelude.{ℕ, zero, suc, ◌+◌, ◌≡◌, ◌&&◌, ◌||◌, ℕ_discrete, ◌++◌, ltb, leb, arith}
use swim_protocol.Shuffle.{mem}
use swim_protocol.Shuffle.Content.{mem-append}
use swim_protocol.Demo.Defs.{
  pos, range, digits, ascii_letters, punctuation, whitespace, printable, is_printable,
}

mem-range :
    (n first count : ℕ)
    → mem ℕ_discrete n (range first count) ≡ (leb first n && ltb n (first + count))
unfolding mem range
mem-range n first zero = ground arith
mem-range n first (suc count) = ground (arith, mem-range n (suc first) count)

mem-printable :
    (n : ℕ) → mem ℕ_discrete n printable ≡ (leb 32 n && ltb n 127) || (leb 9 n && leb n 13)
unfolding mem
mem-printable n = ground (
  arith,
  mem-append ℕ_discrete n digits (ascii_letters ++ (punctuation ++ whitespace)),
  mem-append ℕ_discrete n ascii_letters (punctuation ++ whitespace),
  mem-append ℕ_discrete n punctuation whitespace,
  mem-append ℕ_discrete n (range 97 26) (range 65 26),
  mem-append ℕ_discrete n (range 33 15) (range 58 7 ++ (range 91 6 ++ range 123 4)),
  mem-append ℕ_discrete n (range 58 7) (range 91 6 ++ range 123 4),
  mem-append ℕ_discrete n (range 91 6) (range 123 4),
  mem-range n 48 10,
  mem-range n 97 26,
  mem-range n 65 26,
  mem-range n 33 15,
  mem-range n 58 7,
  mem-range n 91 6,
  mem-range n 123 4,
)

pub is_printable_byte : (n : ℕ) → is_printable (pos n) ≡ (leb 32 n && ltb n 127)
unfolding is_printable mem
is_printable_byte n = ground (arith, mem-printable n)
