-- ===== src/Demo/Typed.antt =====
-- What is typed into the screen of swimprotocol/demo/screen.py.
use swim_protocol.Prelude.{
  ℕ, zero, suc, ◌+◌, ◌-◌, ◌≤◌, ◌<◌, ◌≡◌, ◌∙◌, refl, sym, ap, true, false, ◌&&◌, Text, Bytes,
  text_discrete, List, [], ◌∷◌, ◌++◌, Option, some, ite, ltb, leb, length, drop, length-append,
  length-drop, if◌then◌else◌, arith, Bool-cases, inl, inr,
}
use mathlib.Core.List.{append_assoc, append-nil}
use swim_protocol.Result.{Result, ok, raise, and_then}
use swim_protocol.Demo.Defs.{
  ℤ, pos, negsuc, Screen, is_printable, bytes_of, last, typed_key, set_typed, pressed, press,
  presses,
}
use swim_protocol.Demo.Items.{IsShown, entry, update_item-IsEntered}
use swim_protocol.Demo.Keys.{is_printable_byte}

-- The bytes among the keys that are printable.
abbrev pub printed : List (ℤ × ℕ) → Bytes
printed [] = []
printed ((negsuc n, now) ∷ keys) = printed keys
printed ((pos n, now) ∷ keys) = if leb 32 n && ltb n 127 then n ∷ printed keys else printed keys

drop-append_left : (k : ℕ) (xs ys : Bytes) → k ≤ length xs → drop k (xs ++ ys) ≡ drop k xs ++ ys
drop-append_left zero xs ys h = refl
drop-append_left (suc k) [] ys h = elim h [ ]
drop-append_left (suc k) (x ∷ xs) ys h = drop-append_left k xs ys (omega arith)

drop_nil : (k : ℕ) → drop {A = ℕ} k [] ≡ []
drop_nil zero = refl
drop_nil (suc k) = refl

drop-drop : (k j : ℕ) (xs : Bytes) → drop j (drop k xs) ≡ drop (k + j) xs
drop-drop zero j xs = let e : j ≡ 0 + j = omega arith in ap (λ i. drop i xs) e
drop-drop (suc k) j [] = drop_nil j ∙ sym (drop_nil (suc k + j))
drop-drop (suc k) j (x ∷ xs) =
    let e : suc (k + j) ≡ suc k + j = omega arith in drop-drop k j xs ∙ ap (λ i. drop i (x ∷ xs)) e

last-append : (n : ℕ) (xs ys : Bytes) → last n (last n xs ++ ys) ≡ last n (xs ++ ys)
last-append n xs ys =
    let k = length xs - n in
    let e : drop k xs ++ ys ≡ drop k (xs ++ ys) = sym (drop-append_left k xs ys (omega arith)) in
    let a : k + (length (drop k xs ++ ys) - n) ≡ length (xs ++ ys) - n =
      omega (arith, length-append (drop k xs) ys, length-drop k xs, length-append xs ys) in
    ap (drop (length (drop k xs ++ ys) - n)) e
    ∙ drop-drop k (length (drop k xs ++ ys) - n) (xs ++ ys)
    ∙ ap (λ i. drop i (xs ++ ys)) a

length-last : (n : ℕ) (xs : Bytes) → length (last n xs) ≤ n
length-last n xs = omega (arith, length-drop (length xs - n) xs)

last_short : (n : ℕ) (xs : Bytes) → length xs ≤ n → last n xs ≡ xs
last_short n xs h = let z : length xs - n ≡ 0 = omega arith in ap (λ i. drop i xs) z

-- The entry "typed" after some bytes, if there were any.
abbrev pub entry_typed : Text → Bytes → Bytes → Option Bytes → Option Bytes
entry_typed k [] typed before = before
entry_typed k (b ∷ bytes) typed before = ite (text_discrete typed_key k) (some typed) before

-- Nothing was raised, and the registry is as it was but for the entry.
pub record IsTyped (bytes : Bytes) (s : Screen) (r : Result (Unit {0}) × Screen) : Type 0 where
  pub fine : r.0 ≡ ok tt
  pub shown : IsShown r.1.members
  pub typed : r.1.typed ≡ last 30 (s.typed ++ bytes)
  pub bound : length r.1.typed ≤ 30
  pub entries : (k : Text) → entry k r.1.members ≡ entry_typed k bytes r.1.typed (entry k s.members)

nothing-IsTyped : (s : Screen) → length s.typed ≤ 30 → IsShown s.members → IsTyped [] s (ok tt, s)
nothing-IsTyped s short v = record {
  fine = refl;
  shown = v;
  typed = sym (last_short 30 s.typed short) ∙ ap (last 30) (sym (append-nil s.typed));
  bound = short;
  entries = λ k. refl;
}

bytes_of_byte : (n : ℕ) → n < 256 → bytes_of (pos n) ≡ ok (n ∷ [])
bytes_of_byte n h = ground arith

pressed-IsTyped :
    (n now : ℕ) (s : Screen) → IsShown s.members → IsTyped (n ∷ []) s (pressed (ok (n ∷ [])) now s)
unfolding set_typed
pressed-IsTyped n now s v =
    let typed = last 30 (s.typed ++ n ∷ []) in
    let (fine, shown, same) = update_item-IsEntered typed_key typed now s.members v in
    record {
      fine = fine;
      shown = shown;
      typed = refl;
      bound = length-last 30 (s.typed ++ n ∷ []);
      entries = same;
    }

-- One byte more before the others.
more-IsTyped :
    (n : ℕ) (bytes : Bytes) (s s1 : Screen) (r : Result (Unit {0}) × Screen)
    → IsTyped (n ∷ []) s (ok tt, s1)
    → IsTyped bytes s1 r
    → IsTyped (n ∷ bytes) s r
more-IsTyped n bytes s s1 r a b = record {
  fine = b.fine;
  shown = b.shown;
  typed =
      b.typed
      ∙ ap (λ t. last 30 (t ++ bytes)) a.typed
      ∙ last-append 30 (s.typed ++ n ∷ []) bytes
      ∙ ap (last 30) (append_assoc s.typed (n ∷ []) bytes);
  bound = b.bound;
  entries =
      λ k. b.entries k ∙ ap (entry_typed k bytes r.1.typed) (a.entries k) ∙ both k bytes b.typed;
}
  where
    both :
        (k : Text) (l : Bytes)
        → r.1.typed ≡ last 30 (s1.typed ++ l)
        → entry_typed k l r.1.typed (entry_typed k (n ∷ []) s1.typed (entry k s.members))
          ≡ entry_typed k (n ∷ l) r.1.typed (entry k s.members)
    both k [] e =
        let same : r.1.typed ≡ s1.typed =
          e ∙ ap (last 30) (append-nil s1.typed) ∙ last_short 30 s1.typed a.bound in
        ap (λ t. entry_typed k (n ∷ []) t (entry k s.members)) (sym same)
    both k (c ∷ l) e = ground arith

press_printed :
    (n now : ℕ) (s : Screen)
    → (leb 32 n && ltb n 127) ≡ true
    → press (pos n) now s ≡ pressed (ok (n ∷ [])) now s
unfolding press
press_printed n now s h = rw (is_printable_byte n ∙ h, bytes_of_byte n (ground arith)) refl

press_other :
    (n now : ℕ) (s : Screen) → (leb 32 n && ltb n 127) ≡ false → press (pos n) now s ≡ (ok tt, s)
unfolding press
press_other n now s h = rw (is_printable_byte n ∙ h) refl

press_negative : (n now : ℕ) (s : Screen) → press (negsuc n) now s ≡ (ok tt, s)
unfolding press is_printable
press_negative n now s = refl

then-IsTyped :
    (n : ℕ) (keys : List (ℤ × ℕ)) (s : Screen) (q : Result (Unit {0}) × Screen)
    → IsTyped (n ∷ []) s q
    → ((s1 : Screen)
        → length s1.typed ≤ 30
        → IsShown s1.members
        → IsTyped (printed keys) s1 (presses keys s1))
    → IsTyped (n ∷ printed keys) s (and_then q λ _ s1. presses keys s1)
then-IsTyped n keys s (raise e, s1) a rest = cc a.fine
then-IsTyped n keys s (ok u, s1) a rest =
    more-IsTyped n (printed keys) s s1 (presses keys s1) a (rest s1 a.bound a.shown)

-- Keys are pressed one after the other, on a registry whose local member has told its metadata, with
-- at most thirty bytes typed before: nothing is raised; what is typed is the last thirty of the bytes
-- before and of those from the space to the tilde among the keys, so at most thirty; and if there was
-- such a key the local member's metadata has them under "typed", and the other entries are as
-- before.
pub presses-IsTyped :
    (keys : List (ℤ × ℕ)) (s : Screen)
    → length s.typed ≤ 30
    → IsShown s.members
    → IsTyped (printed keys) s (presses keys s)
unfolding presses
presses-IsTyped [] s short v = nothing-IsTyped s short v
presses-IsTyped ((negsuc n, now) ∷ keys) s short v =
    rw (press_negative n now s) (presses-IsTyped keys s short v)
presses-IsTyped ((pos n, now) ∷ keys) s short v = elim (Bool-cases (leb 32 n && ltb n 127)) [
  | inr other ↦ rw (press_other n now s other, other) (presses-IsTyped keys s short v)
  | inl there ↦
      rw (press_printed n now s there, there)
        (then-IsTyped n keys s (pressed (ok (n ∷ [])) now s) (pressed-IsTyped n now s v)
          (presses-IsTyped keys))
]
