-- ===== src/Demo/Items.antt =====
-- What an entry that swimprotocol/demo/ gives to the local member changes in the registry.
use swim_protocol.Prelude.{
  ℕ, ◌≡◌, ◌∙◌, sym, ap, subst, Text, Bytes, text_discrete, Option, none, some, ite, arith,
}
use swim_protocol.Result.{Result, ok}
use swim_protocol.Packet.{Metadata}
use swim_protocol.Member.{Member, metadata_of}
use swim_protocol.Member
use swim_protocol.Member.Items.{
  get_item, set_item, get_item-set_item, set_item-IsKeyed, IsTold, update-IsTold, metadata_of_told,
}
use swim_protocol.Members.{Members, put}
use swim_protocol.Members
use swim_protocol.Members.Valid.{IsValid}
use swim_protocol.Members.Keeps.{update_from-IsValid}
use swim_protocol.Members.LocalName.{local-finish}
use swim_protocol.Members.Local.{found_local}
use swim_protocol.Demo.Defs.{update_item}

-- A valid registry whose local member has told its metadata.
pub record IsShown (s : Members) : Type 0 where
  pub valid : IsValid s
  pub local : Member
  pub there : s.members s.local ≡ some local
  pub told : IsTold local

abbrev entry_of : Text → Option Member → Option Bytes
entry_of k none = none
entry_of k (some m) = get_item k (metadata_of m)

-- An entry of the local member's metadata.
abbrev pub entry : Text → Members → Option Bytes
entry k s = entry_of k (s.members s.local)

entry_there :
    (k : Text) (s : Members) (m : Member)
    → s.members s.local ≡ some m
    → IsTold m
    → entry k s ≡ get_item k m.metadata
entry_there k s m found t = ap (entry_of k) found ∙ ap (get_item k) (metadata_of_told m t)

abbrev pub IsEntered : Text → Bytes → Members → Result (Unit {0}) × Members → Type 0
IsEntered key value s r =
    (r.0 ≡ ok tt)
    × IsShown r.1
    × ((k : Text) → entry k r.1 ≡ ite (text_discrete key k) (some value) (entry k s))

updated_there :
    (d : Metadata) (now : ℕ) (s : Members) (m : Member)
    → s.members s.local ≡ some m
    → (Members.update_from s.local none s.next_clock none (some d) now s).1.members
        (Members.update_from s.local none s.next_clock none (some d) now s).1.local
      ≡ some (Member.update none s.next_clock none (some d) s.next_clock now m).1
unfolding Members.update_from
updated_there d now s m found =
    let r = Member.update none s.next_clock none (some d) s.next_clock now m in
    let (l, e) = local-finish s.local r s in
    rw (found, Members.update_from)
      (found_local (Members.finish s.local r s).1 s s.local r.1 (some r.1) l e (ground arith))

given :
    (key : Text) (value : Bytes) (now : ℕ) (s : Members) (v : IsShown s)
    → IsEntered key value s (
        Members.update_from s.local none s.next_clock none
          (some (set_item key value v.local.metadata))
          now
          s)
given key value now s v =
    let d = set_item key value v.local.metadata in
    let old = v.valid.each s.local v.local v.there in
    let (fine, valid) =
      update_from-IsValid s.local none s.next_clock none (some d) now s v.valid tt v.local
        v.there in
    let (told, same) =
      update-IsTold s.next_clock s.next_clock now d v.local old.settled v.told old.behind
        (set_item-IsKeyed key value v.local.metadata v.told.keyed) in
    let there = updated_there d now s v.local v.there in
    (
      fine,
      record { valid = valid; local = _; there = there; told = told },
      λ k.
          entry_there k (Members.update_from s.local none s.next_clock none (some d) now s).1 _
            there told
          ∙ same k
          ∙ get_item-set_item k key value v.local.metadata
          ∙ ap (ite (text_discrete key k) (some value))
              (sym (entry_there k s v.local v.there v.told)),
    )

-- The entry is set, and the others are as they were.
pub update_item-IsEntered :
    (key : Text) (value : Bytes) (now : ℕ) (s : Members)
    → IsShown s
    → IsEntered key value s (update_item key value now s)
unfolding update_item Members.update
update_item-IsEntered key value now s v =
    let d = v.local.metadata in
    let same : update_item key value now s
        ≡ Members.update_from s.local none s.next_clock none (some (set_item key value d)) now s =
      rw (v.there, update_item)
        (ap
          (λ d.
            Members.update_from s.local none s.next_clock none (some (set_item key value d)) now s)
          (metadata_of_told v.local v.told)) in
    subst (IsEntered key value s) (sym same) (given key value now s v)
