-- ===== src/Members/Quiet.antt =====
-- That the acknowledgements of all that `get_gossip` of swimprotocol/members.py offers end its offers.
use swim_protocol.Prelude.{
  ℕ, ◌≡◌, ◌≢◌, ◌∙◌, refl, sym, ap, subst, Bool, true, false, ◌&&◌, Text, text_discrete, List, [],
  ◌∷◌, Option, none, some, ite, arith, if◌then◌else◌,
}
use swim_protocol.Shuffle.{mem}
use swim_protocol.Member.{Member, needs_gossip}
use swim_protocol.Members.Defs.{Members, put, get_gossip, ack_gossip}
use swim_protocol.Members.Valid.{IsValid}
use swim_protocol.Members.Grows.{ack_gossip-IsValid}
use swim_protocol.Members.Dissemination.{
  is_known, told, ack_gossip_lem, mem-get_gossip-needs_gossip, mem-gossip_among,
}

-- What no acknowledgement changes of a member.
abbrev pub facts : Option Member → Option (ℕ × Bool)
facts none = none
facts (some k) = some (k.clock, is_known k)

-- The acknowledgements by one member, each with its clock.
unfoldable pub ack_all : Text → List (Text × ℕ) → Members → Members
ack_all source [] s = s
ack_all source ((n, clock) ∷ acks) s = ack_all source acks (ack_gossip n source clock s).1

-- The last clock that is acknowledged.
abbrev pub last_of : List (Text × ℕ) → Text → Option ℕ → Option ℕ
last_of [] j before = before
last_of ((n, clock) ∷ acks) j before = last_of acks j (ite (text_discrete n j) (some clock) before)

-- The clocks are those of the members.
abbrev pub AllCurrent : List (Text × ℕ) → Members → Type 0
AllCurrent [] s = Unit {0}
AllCurrent ((n, clock) ∷ acks) s =
    ((k : Member) × (s.members n ≡ some k) × (k.clock ≡ clock)) × AllCurrent acks s

pub record Acked (source : Text) (acks : List (Text × ℕ)) (m : Member) (s t : Members)
    : Type 0 where
  pub valid : IsValid t
  pub same : (j : Text) → facts (t.members j) ≡ facts (s.members j)
  pub target : Member
  pub there : t.members source ≡ some target
  pub validity : target.validity ≡ m.validity
  pub known : (j : Text) → target.known_clocks j ≡ last_of acks j (m.known_clocks j)

abbrev clock_or : Option (ℕ × Bool) → ℕ
clock_or none = 0
clock_or (some (c, b)) = c

abbrev known_or : Option (ℕ × Bool) → Bool
known_or none = false
known_or (some (c, b)) = b

some_same : {a b : Member} → some a ≡ some b → a ≡ b
some_same e = cc

pub AllCurrent-same :
    (acks : List (Text × ℕ)) (s t : Members)
    → ((j : Text) → facts (t.members j) ≡ facts (s.members j))
    → AllCurrent acks s
    → AllCurrent acks t
AllCurrent-same [] s t same h = tt
AllCurrent-same ((n, clock) ∷ acks) s t same ((k, found, now), h) =
    (current (t.members n) refl (same n), AllCurrent-same acks s t same h)
  where
    current :
        (o : Option Member)
        → t.members n ≡ o
        → facts (t.members n) ≡ facts (s.members n)
        → (k1 : Member) × (t.members n ≡ some k1) × (k1.clock ≡ clock)
    current none e f = cc
    current (some k1) e f = (k1, e, ap clock_or (sym (ap facts e) ∙ f ∙ ap facts found) ∙ now)

pub ack_all-Acked :
    (source : Text) (acks : List (Text × ℕ)) (m : Member) (s : Members)
    → IsValid s
    → s.members source ≡ some m
    → AllCurrent acks s
    → Acked source acks m s (ack_all source acks s)
unfolding ack_all
ack_all-Acked source [] m s v there h = record {
  valid = v;
  same = λ j. refl;
  target = m;
  there = there;
  validity = refl;
  known = λ j. refl;
}
ack_all-Acked source ((n, clock) ∷ acks) m s v there ((k, found, now), h) =
    let behind = (v.each n k found).behind in
    let m1 = told s n source clock m v there in
    let s1 = record s { members = put source m1 s.members } in
    let e : (ack_gossip n source clock s).1 ≡ s1 =
      ap (λ r. r.1) (ack_gossip_lem s n source clock m v there (omega arith)) in
    let same : (j : Text) → facts (s1.members j) ≡ facts (s.members j) =
      λ j. same_told m1 j (text_discrete source j) refl in
    let a =
      ack_all-Acked source acks m1 s1 (subst IsValid e (ack_gossip-IsValid n source clock s v))
        (ground arith) (AllCurrent-same acks s s1 same h) in
    subst (λ t. Acked source ((n, clock) ∷ acks) m s (ack_all source acks t)) (sym e)
      (record {
        valid = a.valid;
        same = λ j. a.same j ∙ same j;
        target = a.target;
        there = a.there;
        validity = a.validity;
        known = a.known;
      })
  where
    same_told :
        (m1 : Member) (j : Text) (d : Dec (source ≡ j))
        → facts (some m1) ≡ facts (some m)
        → facts (ite d (some m1) (s.members j)) ≡ facts (s.members j)
    same_told m1 j (yes p) e = e ∙ ap facts (sym there) ∙ ap (λ i. facts (s.members i)) p
    same_told m1 j (no ne) e = refl

-- The acknowledgements of all that was offered.
abbrev pub ack_for : Text → Option Member → List (Text × ℕ) → List (Text × ℕ)
ack_for n none acks = acks
ack_for n (some k) acks = (n, k.clock) ∷ acks

abbrev pub acks_for : List Text → Members → List (Text × ℕ)
acks_for [] s = []
acks_for (n ∷ names) s = ack_for n (s.members n) (acks_for names s)

pub acks_for-AllCurrent : (names : List Text) (s : Members) → AllCurrent (acks_for names s) s
acks_for-AllCurrent [] s = tt
acks_for-AllCurrent (n ∷ names) s = first (s.members n) refl (acks_for-AllCurrent names s)
  where
    first :
        (o : Option Member)
        → s.members n ≡ o
        → AllCurrent (acks_for names s) s
        → AllCurrent (ack_for n o (acks_for names s)) s
    first none e rest = rest
    first (some k) e rest = ((k, e, refl), rest)

last_of-acks_for :
    (names : List Text) (s : Members) (j : Text) (k : Member) (before : Option ℕ)
    → s.members j ≡ some k
    → last_of (acks_for names s) j before
      ≡ (if mem text_discrete j names then some k.clock else before)
unfolding mem
last_of-acks_for [] s j k before found = refl
last_of-acks_for (n ∷ names) s j k before found =
    first (s.members n) refl λ b. last_of-acks_for names s j k b found
  where
    first :
        (o : Option Member)
        → s.members n ≡ o
        → ((b : Option ℕ)
            → last_of (acks_for names s) j b
              ≡ (if mem text_discrete j names then some k.clock else b))
        → last_of (ack_for n o (acks_for names s)) j before ≡ (
            if ite (text_discrete n j) true (mem text_discrete j names)
            then some k.clock
            else before)
    first none e rest =
        let other : n ≢ j = λ p. absurd (cc (sym e ∙ ap s.members p ∙ found)) in
        ground (arith, rest before, other)
    first (some k1) e rest =
        let same : n ≡ j → k1.clock ≡ k.clock =
          λ p. ap (λ (x : Member). x.clock) (some_same (sym e ∙ ap s.members p ∙ found)) in
        ground (arith, rest (ite (text_discrete n j) (some k1.clock) before), same)

empty_if : (l : List Text) → ((n : Text) → mem text_discrete n l ≡ false) → l ≡ []
unfolding mem
empty_if [] h = refl
empty_if (x ∷ l) h = absurd (not_empty (text_discrete x x) (h x))
  where
    not_empty : (d : Dec (x ≡ x)) → ite d true (mem text_discrete x l) ≡ false → ⊥
    not_empty (yes p) e = cc
    not_empty (no ne) e = ne refl

mem-get_gossip-none :
    (target : Member) (s : Members) (n : Text)
    → IsValid s
    → s.members n ≡ none
    → mem text_discrete n (get_gossip target s) ≡ false
unfolding get_gossip mem
mem-get_gossip-none target s n v unknown =
    let (l, there) = v.local_there in
    ground (arith, mem-gossip_among target s.members s.non_local n, v.others n, there)

-- What was acknowledged is not offered, and what was not offered is not offered later.
silent :
    (n : Text) (k k0 m target : Member)
    → k.clock ≡ k0.clock
    → is_known k ≡ is_known k0
    → k.name ≡ n
    → k0.name ≡ n
    → target.known_clocks n
      ≡ (if is_known k0 && needs_gossip m k0 then some k0.clock else m.known_clocks n)
    → (is_known k && needs_gossip target k) ≡ false
unfolding needs_gossip
silent n k k0 m target clocks known named named0 told =
    let e : target.known_clocks k.name ≡ target.known_clocks n = ap target.known_clocks named in
    let e0 : m.known_clocks k0.name ≡ m.known_clocks n = ap m.known_clocks named0 in ground arith

module _ (source : Text) (m : Member) (s : Members) (v : IsValid s)
    (there : s.members source ≡ some m) where
  abbrev pub acknowledged : Members
  acknowledged = ack_all source (acks_for (get_gossip m s) s) s

  -- When a member has acknowledged all that it was offered, it is offered nothing more.
  pub get_gossip-ack_all :
      (target : Member) × (acknowledged.members source ≡ some target)
      × (get_gossip target acknowledged ≡ [])
  get_gossip-ack_all =
      let names = get_gossip m s in
      let a = ack_all-Acked source (acks_for names s) m s v there (acks_for-AllCurrent names s) in
      (
        a.target,
        a.there,
        empty_if (get_gossip a.target acknowledged)
            λ n. none_offered n a (acknowledged.members n) refl (s.members n) refl,
      )
    where
      none_offered :
          (n : Text) (a : Acked source (acks_for (get_gossip m s) s) m s acknowledged)
          (o : Option Member)
          → acknowledged.members n ≡ o
          → (o0 : Option Member) → s.members n ≡ o0
          → mem text_discrete n (get_gossip a.target acknowledged) ≡ false
      none_offered n a none e o0 e0 = mem-get_gossip-none a.target acknowledged n a.valid e
      none_offered n a (some k) e none e0 = absurd (cc (sym (ap facts e) ∙ a.same n ∙ ap facts e0))
      none_offered n a (some k) e (some k0) e0 =
          let f : facts (some k) ≡ facts (some k0) = sym (ap facts e) ∙ a.same n ∙ ap facts e0 in
          mem-get_gossip-needs_gossip a.target acknowledged n k a.valid e
          ∙ silent n k k0 m a.target (ap clock_or f) (ap known_or f) (a.valid.each n k e).named
              (v.each n k0 e0).named
              (a.known n
                ∙ last_of-acks_for (get_gossip m s) s n k0 (m.known_clocks n) e0
                ∙ ap (λ b. if b then some k0.clock else m.known_clocks n)
                    (mem-get_gossip-needs_gossip m s n k0 v e0))
