-- ===== src/Members/Dissemination.antt =====
-- What `get_gossip` of swimprotocol/members.py offers to a member, before and after it has
-- acknowledged something by `ack_gossip`.
use swim_protocol.Prelude.{
  ℕ, ◌≤◌, ◌≡◌, ◌∙◌, refl, ap, Bool, true, ◌&&◌, ◌||◌, Text, text_discrete, List, [], ◌∷◌, Option,
  none, some, ite, arith, ltb,
}
use swim_protocol.Result.{ok}
use swim_protocol.Shuffle.{mem}
use swim_protocol.Shuffle.Content.{IsDistinct}
use swim_protocol.Member.{Member, is_some, needs_gossip}
use swim_protocol.Members.Defs.{Members, put, wants, gossip_among, get_gossip, ack_gossip}
use swim_protocol.Members.Valid.{IsValid}
use swim_protocol.Members.Grows.{ack_gossip-IsValid}

-- Whether anything is known of a member that could be told.
abbrev pub is_known : Member → Bool
is_known m = m.local || is_some m.metadata_dict

pub mem-gossip_among :
    (target : Member) (members : Text → Option Member) (names : List Text) (n : Text)
    → mem text_discrete n (gossip_among target members names)
      ≡ mem text_discrete n names && wants target (members n)
unfolding gossip_among mem
mem-gossip_among target members [] n = refl
mem-gossip_among target members (name ∷ names) n =
    ground (arith, mem-gossip_among target members names n)

pub mem-get_gossip-needs_gossip :
    (target : Member) (s : Members) (n : Text) (m : Member)
    → IsValid s
    → s.members n ≡ some m
    → mem text_discrete n (get_gossip target s) ≡ is_known m && needs_gossip target m
unfolding get_gossip mem
mem-get_gossip-needs_gossip target s n m v found =
    let (l, there) = v.local_there in
    let fits = v.each n m found in
    ground
      (arith, mem-gossip_among target s.members s.non_local n, v.others n, fits.is_local, there)

gossip_among-IsDistinct :
    (target : Member) (members : Text → Option Member) (names : List Text)
    → IsDistinct text_discrete names
    → IsDistinct text_discrete (gossip_among target members names)
unfolding gossip_among
gossip_among-IsDistinct target members [] d = tt
gossip_among-IsDistinct target members (name ∷ names) (new, d) =
    let rest = gossip_among-IsDistinct target members names d in
    let not_again = mem-gossip_among target members names name in ground (arith, rest, not_again)

get_gossip-IsDistinct :
    (target : Member) (s : Members) → IsValid s → IsDistinct text_discrete (get_gossip target s)
unfolding get_gossip
get_gossip-IsDistinct target s v =
    let (l, there) = v.local_there in
    let fits = v.each s.local l there in
    let rest = gossip_among-IsDistinct target s.members s.non_local v.distinct in
    ground (
      arith,
      rest,
      mem-gossip_among target s.members s.non_local s.local,
      v.others s.local,
      fits.is_local,
      there,
    )

-- Whether a clock is above the last one that was acknowledged, if any was.
abbrev pub is_ahead : ℕ → Option ℕ → Bool
is_ahead clock none = true
is_ahead clock (some known) = ltb known clock

-- What a target is to be told of the member under a name.
abbrev pub is_due : Member → Text → Member → Bool
is_due target n m = is_known m && is_ahead m.clock (target.known_clocks n)

-- In a valid registry no member is offered twice, and one of its members is offered to a target
-- exactly when something is known of it and the target has acknowledged no clock of it, or has
-- acknowledged last one below its clock.
pub mem-get_gossip :
    (target : Member) (s : Members) (n : Text) (m : Member)
    → IsValid s
    → s.members n ≡ some m
    → IsDistinct text_discrete (get_gossip target s)
      × (mem text_discrete n (get_gossip target s) ≡ is_due target n m)
unfolding needs_gossip
mem-get_gossip target s n m v found =
    let named = (v.each n m found).named in
    (
      get_gossip-IsDistinct target s v,
      mem-get_gossip-needs_gossip target s n m v found
          ∙ ground (arith, ap target.known_clocks named),
    )

-- What an accepted acknowledgement of `n` by `source` leaves under a name.
module _ (s : Members) (n source : Text) (clock : ℕ) (target : Member) (v : IsValid s)
    (there : s.members source ≡ some target) where
  abbrev pub told : Member
  told = record target {
    known_clocks = λ j. ite (text_discrete n j) (some clock) (target.known_clocks j);
  }

  abbrev pub after : Members
  after = (ack_gossip n source clock s).1

  pub ack_gossip_lem :
      clock ≤ s.next_clock
      → ack_gossip n source clock s ≡ (ok tt, record s { members = put source told s.members })
  unfolding ack_gossip
  ack_gossip_lem h = ground arith

  -- In a valid registry the acknowledgement by one of its members of the clock `clock` of `n`,
  -- no later than the next clock of the cluster, is accepted. After it that member is offered
  -- `n` exactly when something is known of `n` and its clock is above `clock`; what it is
  -- offered of any other member depends on what it had acknowledged before.
  pub get_gossip-ack_gossip :
      (j : Text) (k : Member)
      → clock ≤ s.next_clock
      → after.members j ≡ some k
      → ((ack_gossip n source clock s).0 ≡ ok tt)
        × (mem text_discrete j (get_gossip told after)
            ≡ is_known k && ite (text_discrete n j) (ltb clock k.clock) (needs_gossip target k))
  unfolding needs_gossip
  get_gossip-ack_gossip j k h e =
      let w = ack_gossip-IsValid n source clock s v in
      let fits = w.each j k e in
      (
        rw (ack_gossip_lem h),
        mem-get_gossip-needs_gossip told after j k w e ∙ ground (arith, fits.named),
      )
