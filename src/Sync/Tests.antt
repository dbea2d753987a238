-- ===== src/Sync/Tests.antt =====
-- A file system of links only, and a directory of files, with their theorems there.
use swim_protocol.Prelude.{◌≡◌, refl, Bool, true, false, Text, text_discrete, ite, if◌then◌else◌}
use swim_protocol.Members.Samples.{two}
use swim_protocol.Member.{new}
use swim_protocol.Sync.Defs.{Files, statuses, write_statuses}
use swim_protocol.Sync.Statuses.{shown, status_of, has_entry-write_statuses}
use swim_protocol.Prelude.{
  not, ◌&&◌, ◌∙◌, ap, sym, List, Bool-cases, inl, inr, [], ◌∷◌, Bytes, Option, none, some, arith,
  ℕ_discrete,
}
use swim_protocol.Result.{Result, ok, raise, os_error}
use swim_protocol.Packet.{Metadata}
use swim_protocol.Shuffle.{mem}
use swim_protocol.Member.{Member, is_some}
use swim_protocol.Sync.Files.{Directory}
use swim_protocol.Members.Samples.{start}
use swim_protocol.Sync.Cleanup.{cleanup}
use swim_protocol.Sync.Cleared.{all_there, removed, cleanup-Emptied}
use swim_protocol.Sync.Emptied.{Emptied}
use swim_protocol.Sync.Samples.{tree, disk}

abbrev Links : Type 0
Links = Text → Text → Bool

abbrev put : Text → Text → Bool → Links → Links
put dir name b s d n = ite (text_discrete dir d) (ite (text_discrete name n) b (s d n)) (s d n)

-- Where the entry is as wanted, to put it changes nothing.
put_same :
    (dir name d n : Text) (b : Bool) (s : Links) → s dir name ≡ b → s d n ≡ put dir name b s d n
put_same dir name d n b s h = by_names (text_discrete dir d) (text_discrete name n)
  where
    by_names : (e : Dec (dir ≡ d)) (f : Dec (name ≡ n)) → s d n ≡ ite e (ite f b (s d n)) (s d n)
    by_names (yes e) (yes f) = cc
    by_names (yes e) (no f) = refl
    by_names (no e) f = refl

-- A call, with whether there is an entry.
abbrev linking : Bool → Text → Text → Links → Bool × Links
linking true dir name s = (false, s)
linking false dir name s = (true, put dir name true s)

abbrev unlinking : Bool → Text → Text → Links → Bool × Links
unlinking true dir name s = (true, put dir name false s)
unlinking false dir name s = (false, s)

linked :
    (dir name d n : Text) (c : Bool) (s : Links)
    → s dir name ≡ c
    → (linking c dir name s).1 d n ≡ put dir name true s d n
linked dir name d n true s h = put_same dir name d n true s h
linked dir name d n false s h = refl

unlinked :
    (dir name d n : Text) (c : Bool) (s : Links)
    → s dir name ≡ c
    → (unlinking c dir name s).1 d n ≡ put dir name false s d n
unlinked dir name d n true s h = refl
unlinked dir name d n false s h = put_same dir name d n false s h

abbrev links : Files
links = record {
  Fs = Links;
  IsReady = λ s. Unit {0};
  has_entry = λ d n s. s d n;
  symlink = λ target dir name s. linking (s dir name) dir name s;
  unlink = λ dir name s. unlinking (s dir name) dir name s;
  touch = λ dir s. s;
  symlink_taken = λ target dir name s h there. rw there refl;
  unlink_missing = λ dir name s h missing. rw missing refl;
  has_entry-symlink = λ target dir name d n s h. linked dir name d n (s dir name) s refl;
  has_entry-unlink = λ dir name d n s h. unlinked dir name d n (s dir name) s refl;
  has_entry-touch = λ dir d n s h. refl;
  symlink-IsReady = λ target dir name s h. tt;
  unlink-IsReady = λ dir name s h. tt;
  touch-IsReady = λ dir s h. tt;
}

-- The member `2` is offline.
two_remote : two.local ≡ false
unfolding new
two_remote = refl

has_entry-write_statuses_example :
    ((d n : Text)
      → write_statuses links two (λ d n. false) d n ≡ shown two n false (status_of d statuses))
    × (write_statuses links two (write_statuses links two (λ d n. false))
        ≡ write_statuses links two (λ d n. false))
has_entry-write_statuses_example = has_entry-write_statuses links two (λ d n. false) tt two_remote

-- A directory as its files.
abbrev content : Text → Metadata → Option Bytes
content n [] = none
content n ((name, val) ∷ rest) = ite (text_discrete name n) (some val) (content n rest)

abbrev without_file : Text → Metadata → Metadata
without_file n [] = []
without_file n ((name, val) ∷ rest) =
    ite (text_discrete name n) (without_file n rest) ((name, val) ∷ without_file n rest)

-- A name that is not empty, `.` or `..` and has no `/`.
abbrev plain : Text → Bool
plain n =
    not (mem text_discrete n ([] ∷ (46 ∷ []) ∷ (46 ∷ 46 ∷ []) ∷ [])) && not (mem ℕ_discrete 47 n)

abbrev held : Text → Metadata → Option Bytes
held n s = if plain n then content n s else none

abbrev names : Metadata → List Text
names [] = []
names ((name, val) ∷ rest) = if plain name then name ∷ names rest else names rest

mem-names : (n : Text) (s : Metadata) → mem text_discrete n (names s) ≡ is_some (held n s)
unfolding mem
mem-names n s = elim (Bool-cases (plain n)) [
  | inl good ↦ rw good (listed n s good)
  | inr bad ↦ rw bad (unlisted n s bad)
]
  where
    listed :
        (n : Text) (s : Metadata)
        → plain n ≡ true
        → mem text_discrete n (names s) ≡ is_some (content n s)
    listed n [] h = refl
    listed n ((name, val) ∷ rest) h = elim (text_discrete name n) [
      | yes e ↦ rw (ap plain e ∙ h) (ground arith)
      | no ne ↦ ground (arith, listed n rest h)
    ]

    unlisted : (n : Text) (s : Metadata) → plain n ≡ false → mem text_discrete n (names s) ≡ false
    unlisted n [] h = refl
    unlisted n ((name, val) ∷ rest) h = elim (text_discrete name n) [
      | yes e ↦ rw (ap plain e ∙ h) (unlisted n rest h)
      | no ne ↦ ground (arith, unlisted n rest h)
    ]

names-plain : (n : Text) (s : Metadata) → mem text_discrete n (names s) ≡ true → plain n ≡ true
names-plain n s h = ground (arith, mem-names n s)

content-without_file :
    (name n : Text) (s : Metadata)
    → content n (without_file name s) ≡ ite (text_discrete name n) none (content n s)
content-without_file name n [] = ground arith
content-without_file name n ((other, val) ∷ rest) = ground (arith, content-without_file name n rest)

held-without_file :
    (name n : Text) (s : Metadata)
    → held n (without_file name s) ≡ ite (text_discrete name n) none (held n s)
held-without_file name n s = ground (arith, content-without_file name n s)

held-put :
    (name n : Text) (val : Bytes) (s : Metadata)
    → plain name ≡ true
    → held n ((name, val) ∷ s) ≡ ite (text_discrete name n) (some val) (held n s)
held-put name n val s h = elim (text_discrete name n) [
  | yes e ↦ let good = sym (ap plain e) ∙ h in ground arith
  | no ne ↦ ground arith
]

abbrev unlink_held : Text → Metadata → Result Bool × Metadata
unlink_held name s =
    if plain name then (ok (is_some (held name s)), without_file name s) else (raise os_error, s)

abbrev put_held : Text → Bytes → Metadata → Result (Unit {0}) × Metadata
put_held name val s = if plain name then (ok tt, (name, val) ∷ s) else (raise os_error, s)

abbrev files : Directory
files = record {
  Fs = Metadata;
  content = held;
  iterdir = names;
  is_file_name = plain;
  unlink = unlink_held;
  rename = put_held;
  touch = λ s. s;
  read_bytes = λ n s. elim (held n s) [ none ↦ raise os_error | some val ↦ ok val ];
  read_content = λ n val s found. rw found refl;
  mem-iterdir = mem-names;
  mem-iterdir-is_file_name = names-plain;
  unlink_file = λ name s h. (is_some (held name s), rw h refl);
  content-unlink = λ name n s h. rw h (held-without_file name n s);
  rename_file = λ name val s h. rw h refl;
  content-rename = λ name n val s h. rw h (held-put name n val s h);
  content-touch = λ n s. refl;
}

-- The member `2` with one value, where two files were.
abbrev told : Member
told = record two { metadata_dict = some ((1 ∷ [], 8 ∷ []) ∷ []) }

abbrev before : Metadata
before = (1 ∷ [], 7 ∷ []) ∷ (3 ∷ [], []) ∷ []

-- The directory of another node, with one file.
abbrev there : Metadata
there = (4 ∷ [], 6 ∷ []) ∷ []

abbrev other_files : Metadata
other_files = (5 ∷ [], []) ∷ []

cleanup-Emptied_example :
    ((cleanup tree start disk).0
      ≡ (if all_there tree start.non_local disk then ok tt else raise os_error))
    × (all_there tree start.non_local disk ≡ true
        → Emptied tree (removed tree start) disk (cleanup tree start disk).1)
unfolding mem text_discrete
cleanup-Emptied_example =
    cleanup-Emptied tree start disk refl refl refl (λ d n h. refl) (λ d n h. refl)
