-- ===== src/Udp/Config/Sets.antt =====
-- What is in the lists of texts that stand for sets in swimprotocol/udp/config.py.
use swim_protocol.Prelude.{
  ◌≡◌, ◌≢◌, ◌↔◌, ◌⊎◌, ◌∙◌, inl, inr, refl, sym, ap, subst, Bool, true, false, Text, text_discrete,
  List, [], ◌∷◌, map, arith, ite, if◌then◌else◌,
}
use swim_protocol.Shuffle.{mem, without}
use swim_protocol.Shuffle.Content.{mem-without}
use swim_protocol.Address.{Integer, str, rpartition}
use swim_protocol.Address.RoundTrip.{rpartition-append}

abbrev pub In : Text → List Text → Type 0
In x xs = mem text_discrete x xs ≡ true

pub mem_here : (x : Text) (xs : List Text) → In x (x ∷ xs)
unfolding mem
mem_here x xs = ground arith

mem_there : (x y : Text) (xs : List Text) → In x xs → In x (y ∷ xs)
unfolding mem
mem_there x y xs h = ground arith

mem_cases : (x y : Text) (xs : List Text) → In x (y ∷ xs) → (x ≡ y) ⊎ In x xs
unfolding mem
mem_cases x y xs h = ground arith

pub mem_nil : (x : Text) → In x [] → ⊥
unfolding mem
mem_nil x h = cc

-- What is in a list of images.
pub mem-map_iff :
    (f : Text → Text) (y : Text) (xs : List Text)
    → In y (map f xs) ↔ ((x : Text) × In x xs × (y ≡ f x))
mem-map_iff f y xs = (to xs, λ (x, h, e). subst (λ t. In t (map f xs)) (sym e) (from x xs h))
  where
    to : (xs : List Text) → In y (map f xs) → (x : Text) × In x xs × (y ≡ f x)
    to [] h = absurd (mem_nil y h)
    to (x ∷ xs) h = elim (mem_cases y (f x) (map f xs) h) [
      | inl e ↦ (x, mem_here x xs, e)
      | inr later ↦ let (x', there, e) = to xs later in (x', mem_there x' x xs there, e)
    ]

    from : (x : Text) (xs : List Text) → In x xs → In (f x) (map f xs)
    from x [] h = absurd (mem_nil x h)
    from x (y ∷ xs) h = elim (mem_cases x y xs h) [
      | inl e ↦ subst (λ t. In (f t) (f y ∷ map f xs)) (sym e) (mem_here (f y) (map f xs))
      | inr later ↦ mem_there (f x) (f y) (map f xs) (from x xs later)
    ]

-- What is left of the resolved addresses without the local one.
pub In-without :
    (ip q : Text) (ips : List Text) → In q (without text_discrete ip ips) ↔ (In q ips × (q ≢ ip))
In-without ip q ips = rw (mem-without text_discrete ip q ips) (by_name (text_discrete ip q))
  where
    by_name :
        (d : Dec (ip ≡ q)) → (ite d false (mem text_discrete q ips) ≡ true) ↔ (In q ips × (q ≢ ip))
    by_name (yes e) = (λ h. cc, λ (h, ne). absurd (ne (sym e)))
    by_name (no ne) = (λ h. (h, λ e. ne (sym e)), λ (h, other). h)

pub either_iff : (a b : Bool) → ((if a then true else b) ≡ true) ↔ ((a ≡ true) ⊎ (b ≡ true))
either_iff true b = (λ h. inl refl, λ h. refl)
either_iff false b = (inr, elim [ inl e ↦ cc | inr e ↦ e ])

-- Addresses with one port are told apart by their names.
pub host_of-str :
    (z : Integer) (port : z.Int) (q ip : Text)
    → str z (record { host = q; port = port }) ≡ str z (record { host = ip; port = port })
    → q ≡ ip
unfolding str
host_of-str z port q ip e =
    let back = λ (t : Text). rpartition-append t (z.str port) (z.has_colon-str port) in
    ap (λ (r : Text × Text × Text). r.0) (sym (back q) ∙ ap rpartition e ∙ back ip)
