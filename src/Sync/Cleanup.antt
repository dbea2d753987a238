-- ===== src/Sync/Cleanup.antt =====
-- swimprotocol/sync.py: what `_cleanup` removes. Directories are named below the base path.
use swim_protocol.Prelude.{◌≡◌, Bool, true, false, Text, text_discrete, List, [], ◌∷◌, map, ite}
use swim_protocol.Result.{Result, ok, raise, os_error, and_then}
use swim_protocol.Shuffle.{mem}
use swim_protocol.Shuffle.Content.{IsDistinct}
use swim_protocol.Members.{Members}
use swim_protocol.Sync.Defs.{statuses}

-- The directories, and the calls on them, with what their documentation says. A link is a file here.
pub record Tree : Type 1 where
  pub Fs : Type 0
  pub is_there : Text → Fs → Bool
  pub has_entry : Text → Text → Fs → Bool
  pub is_dir : Text → Text → Fs → Bool
  pub iterdir : Text → Fs → Result (List Text)
  -- `os.unlink(directory / name)`
  pub unlink : Text → Text → Fs → Result (Unit {0}) × Fs
  pub iterdir_there :
      (dir : Text) (s : Fs)
      → is_there dir s ≡ true
      → (names : List Text) × (iterdir dir s ≡ ok names)
        × IsDistinct text_discrete names
        × ((n : Text) → mem text_discrete n names ≡ has_entry dir n s)
  pub iterdir_missing :
      (dir : Text) (s : Fs) → is_there dir s ≡ false → iterdir dir s ≡ raise os_error
  pub unlink_file :
      (dir name : Text) (s : Fs)
      → has_entry dir name s ≡ true
      → is_dir dir name s ≡ false
      → (unlink dir name s).0 ≡ ok tt
  pub has_entry-unlink :
      (dir name d n : Text) (s : Fs)
      → has_entry dir name s ≡ true
      → is_dir dir name s ≡ false
      → has_entry d n (unlink dir name s).1
        ≡ ite
            (text_discrete dir d)
            (ite (text_discrete name n) false (has_entry d n s))
            (has_entry d n s)
  -- No directory comes or goes.
  pub is_dir-unlink :
      (dir name d n : Text) (s : Fs) → is_dir d n (unlink dir name s).1 ≡ is_dir d n s
  pub is_there-unlink :
      (dir name d : Text) (s : Fs) → is_there d (unlink dir name s).1 ≡ is_there d s

-- The base path itself, and `.local` there.
abbrev pub base : Text
base = []

abbrev pub local_link : Text
local_link = 46 ∷ 108 ∷ 111 ∷ 99 ∷ 97 ∷ 108 ∷ []

abbrev pub status_dirs : List Text
status_dirs = map (λ (d : Text × _). d.0) statuses

module _ (os : Tree) where
  unfoldable pub unlink_each : Text → List Text → os.Fs → Result (Unit {0}) × os.Fs
  unlink_each dir [] s = (ok tt, s)
  unlink_each dir (name ∷ names) s =
      and_then (os.unlink dir name s) λ _ s1. unlink_each dir names s1

  -- The loop over the entries of one directory.
  unfoldable pub clear : Text → os.Fs → Result (Unit {0}) × os.Fs
  clear dir s = elim (os.iterdir dir s) [
    | raise e ↦ (raise e, s)
    | ok names ↦ unlink_each dir names s
  ]

  unfoldable pub clear_all : List Text → os.Fs → Result (Unit {0}) × os.Fs
  clear_all [] s = (ok tt, s)
  clear_all (dir ∷ dirs) s = and_then (clear dir s) λ _ s1. clear_all dirs s1

  -- `_cleanup(base_path, members)`
  unfoldable pub cleanup : Members → os.Fs → Result (Unit {0}) × os.Fs
  cleanup members s =
      and_then (os.unlink base local_link s)
        λ _ s1. and_then (clear_all members.non_local s1) λ _ s2. clear_all status_dirs s2
