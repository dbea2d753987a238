-- ===== src/Sync/Samples.antt =====
-- Directories of files only, for tests.
use swim_protocol.Prelude.{
  ◌≡◌, refl, Bool, true, false, Text, text_discrete, List, [], ◌∷◌, ite, if◌then◌else◌, arith,
}
use swim_protocol.Result.{Result, ok, raise, os_error}
use swim_protocol.Shuffle.{mem, without}
use swim_protocol.Shuffle.Content.{IsDistinct, mem-without}
use swim_protocol.Udp.Config.Samples.{once, mem-once, once-IsDistinct}
use swim_protocol.Sync.Cleanup.{Tree, base, local_link}

-- Which directories are there, and the names of their files.
pub record Disk : Type 0 where
  pub there : Text → Bool
  pub files : Text → List Text

abbrev pub unlinked : Text → Text → Disk → Disk
unlinked dir name s = record s {
  files = λ d. ite (text_discrete dir d) (without text_discrete name (s.files d)) (s.files d);
}

abbrev pub unlink_disk : Text → Text → Disk → Result (Unit {0}) × Disk
unlink_disk dir name s =
    if mem text_discrete name (s.files dir)
    then (ok tt, unlinked dir name s)
    else (raise os_error, s)

pub has_entry-unlink_disk :
    (dir name d n : Text) (s : Disk)
    → mem text_discrete name (s.files dir) ≡ true
    → mem text_discrete n ((unlink_disk dir name s).1.files d)
      ≡ ite
          (text_discrete dir d)
          (ite (text_discrete name n) false (mem text_discrete n (s.files d)))
          (mem text_discrete n (s.files d))
has_entry-unlink_disk dir name d n s h =
    rw h (ground (arith, mem-without text_discrete name n (s.files d)))

abbrev pub listed : Text → Disk → Result (List Text)
listed dir s = if s.there dir then ok (once (s.files dir)) else raise os_error

pub listed_there :
    (dir : Text) (s : Disk)
    → s.there dir ≡ true
    → (names : List Text) × (listed dir s ≡ ok names)
      × IsDistinct text_discrete names
      × ((n : Text) → mem text_discrete n names ≡ mem text_discrete n (s.files dir))
listed_there dir s h =
    (once (s.files dir), ground arith, once-IsDistinct (s.files dir), λ n. mem-once n (s.files dir))

pub listed_missing : (dir : Text) (s : Disk) → s.there dir ≡ false → listed dir s ≡ raise os_error
listed_missing dir s h = ground arith

pub unlink_there :
    (dir name : Text) (s : Disk)
    → mem text_discrete name (s.files dir) ≡ true
    → (unlink_disk dir name s).0 ≡ ok tt
unlink_there dir name s h = ground arith

pub is_there-unlink_disk :
    (dir name d : Text) (s : Disk) → (unlink_disk dir name s).1.there d ≡ s.there d
is_there-unlink_disk dir name d s = ground arith

abbrev pub tree : Tree
tree = record {
  Fs = Disk;
  is_there = λ dir s. s.there dir;
  has_entry = λ dir n s. mem text_discrete n (s.files dir);
  is_dir = λ dir n s. false;
  iterdir = listed;
  unlink = unlink_disk;
  iterdir_there = listed_there;
  iterdir_missing = listed_missing;
  unlink_file = λ dir name s h plain. unlink_there dir name s h;
  has_entry-unlink = λ dir name d n s h plain. has_entry-unlink_disk dir name d n s h;
  is_dir-unlink = λ dir name d n s. refl;
  is_there-unlink = is_there-unlink_disk;
}

-- `2` has the directory with one file, and `3` has none.
abbrev pub disk : Disk
disk = record {
  there = λ dir. ite (text_discrete dir (3 ∷ [])) false true;
  files = λ dir.
      ite (text_discrete dir base) (local_link ∷ (2 ∷ []) ∷ [])
        (ite (text_discrete dir (2 ∷ [])) ((7 ∷ []) ∷ []) []);
}
