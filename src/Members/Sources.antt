-- ===== src/Members/Sources.antt =====
-- What the calls on the registry of swimprotocol/members.py do to the source of a member: its name
-- and the random bytes that came with it.
use swim_protocol.Prelude.{
  ℕ, ◌≡◌, ◌≢◌, ◌∙◌, refl, ap, Text, Bytes, text_discrete, Option, none, some, ite, arith,
  Option-cases, inl, inr,
}
use swim_protocol.Status.{Status}
use swim_protocol.Packet.{Metadata, Source}
use swim_protocol.Member.{Member, new}
use swim_protocol.Member
use swim_protocol.Member.Update.{update_keeps}
use swim_protocol.Members.Defs.{Members, get, update_from}
use swim_protocol.Members.Valid.{IsValid}
use swim_protocol.Members.LocalName.{local-finish}

abbrev pub source_of : Option Member → Option Source
source_of none = none
source_of (some m) = some (Member.source m)

-- The source of the member under a name.
abbrev pub source_at : Members → Text → Option Source
source_at s n = source_of (s.members n)

pub source_at-update_from :
    (name : Text) (source : Option Text) (clock : ℕ) (status : Option Status)
    (metadata : Option Metadata) (now : ℕ) (s : Members) (n : Text)
    → source_at (update_from name source clock status metadata now s).1 n ≡ source_at s n
unfolding update_from Member.source
source_at-update_from name source clock status metadata now s n =
    elim (Option-cases (s.members name)) [
      | inl unknown ↦ rw (unknown, update_from)
      | inr (k, found) ↦
          rw (found, update_from)
            (ap (λ (f : Text → Option Member). source_of (f n)) (local-finish name _ s).1
              ∙ stored k found (text_discrete name n))
    ]
  where
    stored :
        (k : Member)
        → s.members name ≡ some k
        → (d : Dec (name ≡ n))
        → source_of (
            ite d
              (some (Member.update source clock status metadata s.next_clock now k).1)
              (s.members n))
          ≡ source_at s n
    stored k found (no ne) = refl
    stored k found (yes e) =
        let (named, _, valid, _) = update_keeps source clock status metadata s.next_clock now k in
        ground (arith, ap s.members e, found)

-- `get` of another member, or of the local one, changes no source.
pub source_at-get :
    (name : Text) (validity : Option Bytes) (random : Bytes) (now : ℕ) (s : Members)
    → IsValid s
    → source_at (get name validity random now s) s.local ≡ source_at s s.local
unfolding get Member.source
source_at-get name validity random now s v =
    let (l, there) = v.local_there in
    let fits = v.each s.local l there in
    elim (Option-cases (s.members name)) [
      | inl unknown ↦ rw (unknown, get) (ground (arith, there, ap s.members))
      | inr (m, found) ↦ rw (found, get) (ground (arith, fits.is_local, fits.named, there, found))
    ]

pub source_at-get_new :
    (name : Text) (validity : Bytes) (random : Bytes) (now : ℕ) (s : Members)
    → IsValid s
    → name ≢ s.local
    → source_at (get name (some validity) random now s) name
      ≡ some (record { name = name; validity = validity })
unfolding get new Member.source
source_at-get_new name validity random now s v ne = elim (Option-cases (s.members name)) [
  | inl unknown ↦ rw (unknown, get) (ground arith)
  | inr (m, found) ↦
      let fits = v.each name m found in rw (found, get) (ground (arith, fits.is_local, fits.named))
]
