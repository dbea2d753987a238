-- ===== src/Sync/Defs.antt =====
-- swimprotocol/sync.py: how `_write_member` keeps the links in the directories of the statuses. Paths are
-- lists of names below the base path.
use swim_protocol.Prelude.{
  ◌≡◌, Bool, true, false, Text, text_discrete, List, [], ◌∷◌, ite, if◌then◌else◌,
}
use swim_protocol.Status.{
  Status, online, offline, suspect, available, unavailable, flag_and, is_set,
}
use swim_protocol.Member.{Member}

-- The calls of `os` on links, with what their documentation says.
pub record Files : Type 1 where
  pub Fs : Type 0
  -- Whether the directories of the statuses are there.
  pub IsReady : Fs → Type 0
  -- Whether there is an entry with a name in a directory.
  pub has_entry : Text → Text → Fs → Bool
  -- `os.symlink(target, directory / name)`: false for FileExistsError; other errors do not occur in
  -- a directory that is there.
  pub symlink : Text → Text → Text → Fs → Bool × Fs
  -- `os.unlink(directory / name)`: false for FileNotFoundError.
  pub unlink : Text → Text → Fs → Bool × Fs
  -- `directory.touch()`
  pub touch : Text → Fs → Fs
  -- A call that fails changes nothing.
  pub symlink_taken :
      (target dir name : Text) (s : Fs)
      → IsReady s
      → has_entry dir name s ≡ true
      → symlink target dir name s ≡ (false, s)
  pub unlink_missing :
      (dir name : Text) (s : Fs)
      → IsReady s
      → has_entry dir name s ≡ false
      → unlink dir name s ≡ (false, s)
  pub has_entry-symlink :
      (target dir name d n : Text) (s : Fs)
      → IsReady s
      → has_entry d n (symlink target dir name s).1
        ≡ ite
            (text_discrete dir d)
            (ite (text_discrete name n) true (has_entry d n s))
            (has_entry d n s)
  pub has_entry-unlink :
      (dir name d n : Text) (s : Fs)
      → IsReady s
      → has_entry d n (unlink dir name s).1
        ≡ ite
            (text_discrete dir d)
            (ite (text_discrete name n) false (has_entry d n s))
            (has_entry d n s)
  pub has_entry-touch :
      (dir d n : Text) (s : Fs) → IsReady s → has_entry d n (touch dir s) ≡ has_entry d n s
  pub symlink-IsReady :
      (target dir name : Text) (s : Fs) → IsReady s → IsReady (symlink target dir name s).1
  pub unlink-IsReady : (dir name : Text) (s : Fs) → IsReady s → IsReady (unlink dir name s).1
  pub touch-IsReady : (dir : Text) (s : Fs) → IsReady s → IsReady (touch dir s)

-- `_statuses`: `.online`, `.offline`, `.suspect`, `.available` and `.unavailable`.
abbrev pub statuses : List (Text × Status)
statuses =
    (46 ∷ 111 ∷ 110 ∷ 108 ∷ 105 ∷ 110 ∷ 101 ∷ [], online)
    ∷ (46 ∷ 111 ∷ 102 ∷ 102 ∷ 108 ∷ 105 ∷ 110 ∷ 101 ∷ [], offline)
    ∷ (46 ∷ 115 ∷ 117 ∷ 115 ∷ 112 ∷ 101 ∷ 99 ∷ 116 ∷ [], suspect)
    ∷ (46 ∷ 97 ∷ 118 ∷ 97 ∷ 105 ∷ 108 ∷ 97 ∷ 98 ∷ 108 ∷ 101 ∷ [], available)
    ∷ (46 ∷ 117 ∷ 110 ∷ 97 ∷ 118 ∷ 97 ∷ 105 ∷ 108 ∷ 97 ∷ 98 ∷ 108 ∷ 101 ∷ [], unavailable)
    ∷ []

-- `os.path.relpath` from a directory of a status to the directory of a member, beside it.
abbrev pub link_path : Text → Text
link_path name = 46 ∷ 46 ∷ 47 ∷ name

module _ (os : Files) where
  -- `_try_link(from_path, to_path)`, for the directory of a member and a name in that of a status.
  unfoldable pub try_link : Text → Text → Text → os.Fs → Bool × os.Fs
  try_link from_name dir name s = os.symlink (link_path from_name) dir name s

  unfoldable pub try_unlink : Text → Text → os.Fs → Bool × os.Fs
  try_unlink dir name s = os.unlink dir name s

  -- A directory is touched if a call has changed it.
  abbrev pub touched : Text → Bool × os.Fs → os.Fs
  touched dir (changed, s) = if changed then os.touch dir s else s

  unfoldable pub update_status : Text → Text → Bool → os.Fs → os.Fs
  update_status dir name has_status s =
      if has_status
      then touched dir (try_link name dir name s)
      else touched dir (try_unlink dir name s)

  -- The loop over `_statuses`.
  unfoldable pub update_loop : Member → List (Text × Status) → os.Fs → os.Fs
  update_loop m [] s = s
  update_loop m ((dir, status) ∷ rest) s =
      update_loop m rest (update_status dir m.name (is_set (flag_and m.status status)) s)

  -- `_write_member(member, base_path)` as far as the directories of the statuses go.
  unfoldable pub write_statuses : Member → os.Fs → os.Fs
  write_statuses m s = if m.local then s else update_loop m statuses s
