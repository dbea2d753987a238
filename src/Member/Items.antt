-- ===== src/Member/Items.antt =====
-- The metadata of swimprotocol/members.py as a dictionary, and what an update makes of it.
use swim_protocol.Prelude.{
  ℕ, ◌<◌, ◌≡◌, ◌⊎◌, refl, sym, ap, subst, ◌∙◌, true, Text, Bytes, text_discrete, [], ◌∷◌, Option,
  none, some, ite, inl, inr, arith,
}
use swim_protocol.Packet.{Metadata}
use swim_protocol.Member.Defs.{
  Member, metadata_of, item_in, all_in, same_items, set_clock, set_status, set_metadata, save,
  update,
}
use swim_protocol.Member.Update.{IsSettled}

-- `metadata.get(key)`
abbrev pub get_item : Text → Metadata → Option Bytes
get_item key [] = none
get_item key ((k, v) ∷ d) = ite (text_discrete k key) (some v) (get_item key d)

-- `metadata | {key: value}`
abbrev pub set_item : Text → Bytes → Metadata → Metadata
set_item key value [] = (key, value) ∷ []
set_item key value ((k, v) ∷ d) =
    ite (text_discrete k key) ((k, value) ∷ d) ((k, v) ∷ set_item key value d)

-- No key stands twice.
abbrev pub IsKeyed : Metadata → Type 0
IsKeyed [] = Unit {0}
IsKeyed ((k, v) ∷ d) = (get_item k d ≡ none) × IsKeyed d

pub get_item-set_item :
    (n key : Text) (value : Bytes) (d : Metadata)
    → get_item n (set_item key value d) ≡ ite (text_discrete key n) (some value) (get_item n d)
get_item-set_item n key value [] = refl
get_item-set_item n key value ((k, v) ∷ d) = ground (arith, get_item-set_item n key value d)

pub set_item-IsKeyed :
    (key : Text) (value : Bytes) (d : Metadata) → IsKeyed d → IsKeyed (set_item key value d)
set_item-IsKeyed key value [] h = (refl, tt)
set_item-IsKeyed key value ((k, v) ∷ d) (h, hs) =
    ground (arith, get_item-set_item k key value d, set_item-IsKeyed key value d hs)

item_in_get :
    (k : Text) (v : Bytes) (d : Metadata)
    → IsKeyed d
    → item_in (k, v) d ≡ true
    → get_item k d ≡ some v
unfolding item_in
item_in_get k v [] h e = cc
item_in_get k v ((j, w) ∷ d) (h, hs) e = ground (arith, item_in_get k v d hs)

all_in_get :
    (a b : Metadata) (k : Text) (v : Bytes)
    → IsKeyed b
    → all_in a b ≡ true
    → get_item k a ≡ some v
    → get_item k b ≡ some v
unfolding all_in
all_in_get [] b k v hb e g = cc
all_in_get ((j, w) ∷ a) b k v hb e g = ground (arith, all_in_get a b k v hb, item_in_get j w b hb)

same_items_get :
    (a b : Metadata) (k : Text)
    → IsKeyed a
    → IsKeyed b
    → same_items a b ≡ true
    → get_item k a ≡ get_item k b
unfolding same_items
same_items_get a b k ha hb e = from (get_item k a) refl (get_item k b) refl
  where
    from :
        (x : Option Bytes)
        → get_item k a ≡ x
        → (y : Option Bytes) → get_item k b ≡ y
        → get_item k a ≡ get_item k b
    from none p none q = cc
    from (some v) p y q = ground (arith, all_in_get a b k v hb)
    from none p (some v) q = ground (arith, all_in_get b a k v ha)

-- What the registry has of a member that has told its metadata.
pub record IsTold (m : Member) : Type 0 where
  pub told : m.metadata_dict ≡ some m.metadata
  pub keyed : IsKeyed m.metadata

pub metadata_of_told : (m : Member) → IsTold m → metadata_of m ≡ m.metadata
metadata_of_told m t = ap known t.told
  where
    known : Option Metadata → Metadata
    known none = []
    known (some d) = d

module _ (clock next_clock now : ℕ) (d : Metadata) (m : Member) (settled : IsSettled m) where
  abbrev outcome : Member
  outcome = (update none clock none (some d) next_clock now m).1

  -- This process gives a member metadata: they are stored, unless they are the same.
  update_metadata :
      m.metadata_dict ≡ some m.metadata
      → m.clock < clock
      → (outcome.metadata_dict ≡ some outcome.metadata)
        × ((outcome.metadata ≡ d)
            ⊎ ((outcome.metadata ≡ m.metadata) × (same_items d m.metadata ≡ true)))
  unfolding update set_clock set_status set_metadata save
  update_metadata told newer = ground arith

  pub update-IsTold :
      IsTold m
      → m.clock < clock
      → IsKeyed d
      → IsTold outcome × ((k : Text) → get_item k outcome.metadata ≡ get_item k d)
  update-IsTold t newer keyed =
      let (told, either) = update_metadata t.told newer in
      elim either [
        | inl new ↦ (
          record { told = told; keyed = subst IsKeyed (sym new) keyed },
          λ k. ap (get_item k) new,
        )
        | inr (old, same) ↦ (
          record { told = told; keyed = subst IsKeyed (sym old) t.keyed },
          λ k. ap (get_item k) old ∙ sym (same_items_get d m.metadata k keyed t.keyed same),
        )
      ]
