-- ===== src/Cluster/Reach.antt =====
-- What holds of every node of a cluster of swimprotocol/worker.py after any moves in any order.
use swim_protocol.Prelude.{
  ℕ, ◌≤◌, ◌≡◌, ◌∙◌, refl, sym, subst, true, Text, Bytes, text_discrete, false, List, [], ◌∷◌,
  Option, none, some, ite, arith, Option-cases, inl, inr, get_elem?,
}
use swim_protocol.Packet.{Packet}
use swim_protocol.Shuffle.{mem}
use swim_protocol.Members.{Members, Config}
use swim_protocol.Members
use swim_protocol.Members.Valid
use swim_protocol.Members.History.{init-IsValid}
use swim_protocol.Members.LocalName.{local-init}
use swim_protocol.Members.Runs.{Ran-next_clock, Ran-local}
use swim_protocol.Worker
use swim_protocol.Worker.Schedule.{
  World, Action, receives, handles, wakes, checks, resumes, spreads, changes, start,
}
use swim_protocol.Worker.Schedule
use swim_protocol.Worker.Reach.{IsSound, IsRealAction, step-IsSound, start-IsSound}
use swim_protocol.Worker.Sends.{AllSent}
use swim_protocol.Worker.Steps.{IsOwn, IsTaken, IsHeard, step-Goes}
use swim_protocol.Cluster.Defs.{
  Cluster, Move, joins, acts, delivers, empty, put, join, receive, deliver, step, run,
}
use swim_protocol.Cluster.Packets.{
  IsFine, AllFine, AllFine-grows, AllSent-grows, AllFine-append, AllSent-get_elem?, IsFine-real,
  AllFine-IsHeard, IsValid-Tellable,
}

abbrev pub clock_of : Option World → ℕ
clock_of none = 0
clock_of (some w) = w.worker.members.next_clock

abbrev pub clocks_of : Cluster → Text → ℕ
clocks_of c name = clock_of (c.nodes name)

-- A node is sound, has its name, and runs its handler, and what it has sent or has yet to handle
-- is fine.
pub record IsNode (clocks : Text → ℕ) (name : Text) (w : World) : Type 0 where
  pub sound : IsSound w
  pub named : w.worker.members.local ≡ name
  pub handling : w.is_handling ≡ true
  pub received : AllFine clocks name w.worker.recv_queue
  pub sent : AllSent (IsFine clocks) w.worker.send_queue

abbrev pub AllNodes : Cluster → Type 0
AllNodes c = (name : Text) (w : World) → c.nodes name ≡ some w → IsNode (clocks_of c) name w

-- No node starts under a name that was used before, and what arrives was sent.
abbrev pub AllNew : List Text → List Move → Type 0
AllNew used [] = Unit {0}
AllNew used (joins config random now ∷ moves) =
    (mem text_discrete config.local_name used ≡ false) × AllNew (config.local_name ∷ used) moves
AllNew used (acts name a ∷ moves) = IsOwn a × AllNew used moves
AllNew used (delivers name i ∷ moves) = AllNew used moves

-- A name that is not used has no node.
abbrev AllUsed : List Text → Cluster → Type 0
AllUsed used c = (n : Text) → mem text_discrete n used ≡ false → c.nodes n ≡ none

IsNode-grows :
    (before clocks : Text → ℕ) (name : Text) (w : World)
    → ((n : Text) → before n ≤ clocks n)
    → IsNode before name w
    → IsNode clocks name w
IsNode-grows before clocks name w grows v = record {
  sound = v.sound;
  named = v.named;
  handling = v.handling;
  received = AllFine-grows before clocks grows name w.worker.recv_queue v.received;
  sent = AllSent-grows before clocks grows w.worker.send_queue v.sent;
}

-- One node is new or has changed, and its clock has not moved back.
module _ (c : Cluster) (name : Text) (w : World)
    (later : clocks_of c name ≤ w.worker.members.next_clock) where
  put_grows : (n : Text) → clocks_of c n ≤ clocks_of (put name w c) n
  put_grows n = grown (text_discrete name n)
    where
      grown : (d : Dec (name ≡ n)) → clocks_of c n ≤ clock_of (ite d (some w) (c.nodes n))
      grown (yes p) = subst (λ j. clocks_of c j ≤ w.worker.members.next_clock) p later
      grown (no ne) = omega arith

  put-AllNodes : AllNodes c → IsNode (clocks_of c) name w → AllNodes (put name w c)
  put-AllNodes all v n w1 h =
      IsNode-grows (clocks_of c) (clocks_of (put name w c)) n w1 put_grows
        (either (text_discrete name n) h)
    where
      either :
          (d : Dec (name ≡ n)) → ite d (some w) (c.nodes n) ≡ some w1 → IsNode (clocks_of c) n w1
      either (yes p) e =
          let same : w ≡ w1 = cc in
          subst (λ j. IsNode (clocks_of c) j w1) p (subst (IsNode (clocks_of c) name) same v)
      either (no ne) e = all n w1 e

own-IsRealAction : (a : Action) → IsOwn a → IsRealAction a
own-IsRealAction (receives packet) own = absurd own
own-IsRealAction (handles random now) own = tt
own-IsRealAction (wakes task now) own = tt
own-IsRealAction (checks target) own = tt
own-IsRealAction (resumes number count draws now) own = tt
own-IsRealAction (spreads target) own = tt
own-IsRealAction (changes metadata now) own = tt

join-AllNodes :
    (config : Config) (random : Text → Bytes) (now : ℕ) (c : Cluster)
    → c.nodes config.local_name ≡ none
    → AllNodes c
    → AllNodes (join config random now c)
unfolding join start Worker.init
join-AllNodes config random now c unknown all =
    put-AllNodes c config.local_name (start (Worker.init (Members.init config random now).1))
      (rw unknown (omega arith)) all
      (new _ (init-IsValid config random now).1 (local-init config random now))
  where
    new :
        (s : Members)
        → Valid.IsValid s
        → s.local ≡ config.local_name
        → IsNode (clocks_of c) config.local_name (start (Worker.init s))
    new s v named = record {
      sound = start-IsSound s v;
      named = named;
      handling = refl;
      received = tt;
      sent = tt;
    }

receive-AllNodes :
    (target : Text) (packet : Packet) (c : Cluster)
    → IsFine (clocks_of c) target packet
    → AllNodes c
    → AllNodes (receive target packet c)
unfolding receive Schedule.step
receive-AllNodes target packet c fine all = elim (Option-cases (c.nodes target)) [
  | inl unknown ↦ rw (unknown, receive) all
  | inr (w, there) ↦
      rw (there, receive)
        (put-AllNodes c target (Schedule.step (receives packet) w) (rw there (same w)) all
          (received_by w (all target w there)))
]
  where
    same :
        (w : World)
        → w.worker.members.next_clock
          ≤ (Schedule.step (receives packet) w).worker.members.next_clock
    same w = omega arith

    received_by :
        (w : World)
        → IsNode (clocks_of c) target w
        → IsNode (clocks_of c) target (Schedule.step (receives packet) w)
    received_by w v = record {
      sound =
          step-IsSound (receives packet) w (IsFine-real (clocks_of c) target packet fine) v.sound;
      named = v.named;
      handling = v.handling;
      received = AllFine-append (clocks_of c) target w.worker.recv_queue packet v.received fine;
      sent = v.sent;
    }

deliver-AllNodes : (name : Text) (i : ℕ) (c : Cluster) → AllNodes c → AllNodes (deliver name i c)
unfolding deliver
deliver-AllNodes name i c all = elim (Option-cases (c.nodes name)) [
  | inl unknown ↦ rw (unknown, deliver) all
  | inr (w, there) ↦ (elim (Option-cases (get_elem? w.worker.send_queue i)) [
    | inl beyond ↦ rw (there, beyond, deliver) all
    | inr ((target, packet), at) ↦
        rw (there, at, deliver)
          (receive-AllNodes target packet c
            (AllSent-get_elem? (clocks_of c) w.worker.send_queue i target packet at
              (all name w there).sent)
            all)
  ])
]

taken_from :
    (clocks : Text → ℕ) (name : Text) (before later : List Packet)
    → IsTaken before later
    → AllFine clocks name before
    → AllFine clocks name later
taken_from clocks name before later (inl same) all = subst (AllFine clocks name) (sym same) all
taken_from clocks name before later (inr (packet, first)) all =
    (subst (AllFine clocks name) first all).1

-- What a node does by itself.
act-IsNode :
    (clocks : Text → ℕ) (name : Text) (a : Action) (w : World)
    → IsOwn a
    → w.worker.members.next_clock ≡ clocks name
    → IsNode clocks name w
    → (w.worker.members.next_clock ≤ (Schedule.step a w).worker.members.next_clock)
      × IsNode clocks name (Schedule.step a w)
act-IsNode clocks name a w own reached v =
    let g =
      step-Goes (IsFine clocks) (λ n s. tt) (λ n s j. tt) (λ n s. tt) a w own v.sound
        (subst
          (λ n. IsHeard (IsFine clocks) (λ n s. tt) (λ n s j. tt) (λ n s. tt) n w.worker.recv_queue)
          (sym reached) (AllFine-IsHeard clocks name w.worker.recv_queue v.received))
        (IsValid-Tellable clocks w.worker.members v.sound.valid.registry
          (rw (v.named, reached) (omega arith)))
        v.sent in
    (
      Ran-next_clock g.ran,
      record {
        sound = step-IsSound a w (own-IsRealAction a own) v.sound;
        named = Ran-local g.ran ∙ v.named;
        handling = g.handling ∙ v.handling;
        received = taken_from clocks name w.worker.recv_queue _ g.taken v.received;
        sent = g.sent;
      },
    )

join-AllUsed :
    (used : List Text) (config : Config) (random : Text → Bytes) (now : ℕ) (c : Cluster)
    → AllUsed used c
    → AllUsed (config.local_name ∷ used) (join config random now c)
unfolding join mem
join-AllUsed used config random now c free n h = ground (arith, free n)

put-AllUsed :
    (used : List Text) (name : Text) (w k : World) (c : Cluster)
    → c.nodes name ≡ some k
    → AllUsed used c
    → AllUsed used (put name w c)
put-AllUsed used name w k c there free n h = ground (arith, free n h)

receive-AllUsed :
    (used : List Text) (target : Text) (packet : Packet) (c : Cluster)
    → AllUsed used c
    → AllUsed used (receive target packet c)
unfolding receive
receive-AllUsed used target packet c free = elim (Option-cases (c.nodes target)) [
  | inl unknown ↦ rw (unknown, receive) free
  | inr (w, there) ↦ rw (there, receive) (put-AllUsed used target _ w c there free)
]

deliver-AllUsed :
    (used : List Text) (name : Text) (i : ℕ) (c : Cluster)
    → AllUsed used c
    → AllUsed used (deliver name i c)
unfolding deliver
deliver-AllUsed used name i c free = elim (Option-cases (c.nodes name)) [
  | inl unknown ↦ rw (unknown, deliver) free
  | inr (w, there) ↦ (elim (Option-cases (get_elem? w.worker.send_queue i)) [
    | inl beyond ↦ rw (there, beyond, deliver) free
    | inr ((target, packet), at) ↦
        rw (there, at, deliver) (receive-AllUsed used target packet c free)
  ])
]

act-AllNodes :
    (used : List Text) (name : Text) (a : Action) (c : Cluster)
    → IsOwn a
    → AllNodes c
    → AllUsed used c
    → AllNodes (step (acts name a) c) × AllUsed used (step (acts name a) c)
unfolding step
act-AllNodes used name a c own all free = elim (Option-cases (c.nodes name)) [
  | inl unknown ↦ rw (unknown, step) (all, free)
  | inr (w, there) ↦
      let (later, v) = act-IsNode (clocks_of c) name a w own (rw there refl) (all name w there) in
      rw (there, step)
        (
          put-AllNodes c name (Schedule.step a w) (rw there later) all v,
          put-AllUsed used name (Schedule.step a w) w c there free,
        )
]

run-AllNodes :
    (moves : List Move) (used : List Text) (c : Cluster)
    → AllNew used moves
    → AllUsed used c
    → AllNodes c
    → AllNodes (run moves c)
unfolding run step
run-AllNodes [] used c new free all = all
run-AllNodes (joins config random now ∷ moves) used c (fresh, new) free all =
    run-AllNodes moves (config.local_name ∷ used) (join config random now c) new
      (join-AllUsed used config random now c free)
      (join-AllNodes config random now c (free config.local_name fresh) all)
run-AllNodes (acts name a ∷ moves) used c (own, new) free all =
    let (all1, free1) = act-AllNodes used name a c own all free in
    run-AllNodes moves used (step (acts name a) c) new free1 all1
run-AllNodes (delivers name i ∷ moves) used c new free all =
    run-AllNodes moves used (deliver name i c) new (deliver-AllUsed used name i c free)
      (deliver-AllNodes name i c all)

-- Nodes start, each on a registry of its own and under a name that no node had before; they handle
-- packets, begin checks and go on with them, wake tasks, spread gossip and change their metadata; and
-- what a node has sent arrives at its target, late, more than once, out of order or never. After any
-- such moves every node is sound and has the name it started with, and its `_run_handler` has met no
-- exception: each gossip that was sent has a real status and a clock that its source has reached, and
-- each acknowledgement a clock that its target has reached.
pub run-empty-AllNodes : (moves : List Move) → AllNew [] moves → AllNodes (run moves empty)
run-empty-AllNodes moves new = run-AllNodes moves [] empty new (λ n h. refl) (λ name w h. cc)
