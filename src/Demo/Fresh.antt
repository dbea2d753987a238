-- ===== src/Demo/Fresh.antt =====
-- The local member's metadata in a new registry of swimprotocol/members.py.
use swim_protocol.Prelude.{
  ℕ, ◌<◌, ◌≡◌, ◌⊎◌, ◌∙◌, refl, sym, ap, subst, Bool, true, Text, Bytes, List, [], ◌∷◌, none, some,
  arith, Option-cases, inl, inr,
}
use swim_protocol.Result.{Result, ok}
use swim_protocol.Status.{online, transition}
use swim_protocol.Packet.{Metadata}
use swim_protocol.Member.{Member, set_clock, set_status, set_metadata, save, new}
use swim_protocol.Member
use swim_protocol.Member.Update.{IsSettled}
use swim_protocol.Member.Items.{IsKeyed}
use swim_protocol.Members.{Members, Config, put, finish, get_all}
use swim_protocol.Members
use swim_protocol.Members.History.{
  alone, init-IsValid, local-get_all, get_all-IsValid, alone-IsValid,
}
use swim_protocol.Members.LocalName.{local-finish}
use swim_protocol.Members.Local.{found_local, to_online}
use swim_protocol.Demo.Items.{IsShown}

-- A member whose metadata are not known takes those that this process gives it.
module _ (clock next_clock now : ℕ) (d : Metadata) (m : Member) (settled : IsSettled m)
    (unknown : m.metadata_dict ≡ none) (newer : m.clock < clock)
    (moved : transition m.status online ≡ ok online) where
  abbrev outcome : Member
  outcome = (Member.update none clock (some online) (some d) next_clock now m).1

  told_first : (outcome.metadata_dict ≡ some d) × (outcome.metadata ≡ d)
  unfolding Member.update set_clock set_status set_metadata save
  told_first = ground arith

put_keeps :
    (name n : Text) (k m : Member) (s : Members)
    → ((s.members name ≡ some k) ⊎ (s.members name ≡ none))
    → s.members n ≡ some m
    → put name k s.members n ≡ some m
put_keeps name n k m s old h = ground arith

get_keeps :
    (name : Text) (random : Bytes) (now : ℕ) (n : Text) (m : Member) (s : Members)
    → s.members n ≡ some m
    → (Members.get name none random now s).members n ≡ some m
unfolding Members.get
get_keeps name random now n m s h = elim (Option-cases (s.members name)) [
  | inl unknown ↦ rw (unknown, Members.get) (put_keeps name n _ m s (inr unknown) h)
  | inr (k, found) ↦ rw (found, Members.get) (put_keeps name n k m s (inl found) h)
]

get_all_keeps :
    (peers : List Text) (random : Text → Bytes) (now : ℕ) (n : Text) (m : Member) (s : Members)
    → s.members n ≡ some m
    → (get_all peers random now s).members n ≡ some m
unfolding get_all
get_all_keeps [] random now n m s h = h
get_all_keeps (peer ∷ peers) random now n m s h =
    get_all_keeps peers random now n m (Members.get peer none (random peer) now s)
      (get_keeps peer (random peer) now n m s h)

module _ (config : Config) (random : Text → Bytes) (now : ℕ) where
  abbrev first : Member
  first = new config.local_name true (random config.local_name) now

  abbrev with_peers : Members
  with_peers = get_all config.peers random now (alone config random now)

  first_there : with_peers.members config.local_name ≡ some first
  first_there =
      get_all_keeps config.peers random now config.local_name first (alone config random now)
        (ground arith)

  abbrev first_update : Result Bool × Member
  first_update =
      Member.update none with_peers.next_clock (some online) (some config.local_metadata)
        with_peers.next_clock now first

  init_there :
      (Members.init config random now).1.members (Members.init config random now).1.local
      ≡ some first_update.1
  unfolding Members.init Members.update Members.update_from
  init_there =
      let l = local-get_all config random now config.peers (alone config random now) in
      let (kept, e) = local-finish config.local_name first_update with_peers in
      rw (first_there, Members.update_from)
        (found_local (finish config.local_name first_update with_peers).1 with_peers
          config.local_name first_update.1 (some first_update.1) kept e (ground (arith, l)))

  first_told :
      (first_update.1.metadata_dict ≡ some config.local_metadata)
      × (first_update.1.metadata ≡ config.local_metadata)
  unfolding new
  first_told =
      let v =
        get_all-IsValid config random now config.peers (alone config random now)
          (alone-IsValid config random now) in
      let old = v.each config.local_name first first_there in
      told_first with_peers.next_clock with_peers.next_clock now config.local_metadata first
        old.settled refl old.behind (to_online first.status)

  -- A new registry has told the metadata of its configuration, in which no key stands twice.
  pub init-IsShown :
      IsKeyed config.local_metadata
      → (v : IsShown (Members.init config random now).1) × (v.local.metadata
          ≡ config.local_metadata)
  init-IsShown keyed =
      let (told, same) = first_told in
      (
        record {
          valid = (init-IsValid config random now).1;
          local = first_update.1;
          there = init_there;
          told = record {
            told = told ∙ ap some (sym same);
            keyed = subst IsKeyed (sym same) keyed;
          };
        },
        same,
      )
