-- ===== src/Sync/Files.antt =====
-- swimprotocol/sync.py: how `_write_member` keeps the files in the directory of a member.
use swim_protocol.Prelude.{
  ℕ, ◌≡◌, ◌++◌, Bool, true, Text, Bytes, text_discrete, List, [], ◌∷◌, Option, none, some, ite,
  if◌then◌else◌,
}
use swim_protocol.Result.{Result, ok, raise, ◌>>=◌, and_then}
use swim_protocol.Packet.{Metadata}
use swim_protocol.Shuffle.{mem}
use swim_protocol.Members.{Members}
use swim_protocol.Members
use swim_protocol.Member.{Member, is_some, metadata_of}

-- The directory of a member, and the calls on it. It is there, its entries are files, this process may
-- write it and nobody else does, and it is on the file system of the temporary files. A key of the
-- metadata need not be a name that a file in it can have: `member_path / key` may then be elsewhere,
-- and nothing is said of `os.rename` to it.
pub record Directory : Type 1 where
  pub Fs : Type 0
  -- The bytes of the file with a name.
  pub content : Text → Fs → Option Bytes
  -- The names that `iterdir` gives.
  pub iterdir : Fs → List Text
  -- Whether a file in the directory can have the name: it is not empty, `.` or `..`, has no `/` and
  -- no zero byte, and is not longer than the system allows.
  pub is_file_name : Text → Bool
  -- `_try_unlink(directory / name)`
  pub unlink : Text → Fs → Result Bool × Fs
  -- A new temporary file with these bytes, and `os.rename` of it to the name.
  pub rename : Text → Bytes → Fs → Result (Unit {0}) × Fs
  pub touch : Fs → Fs
  pub read_bytes : Text → Fs → Result Bytes
  pub read_content :
      (n : Text) (val : Bytes) (s : Fs) → content n s ≡ some val → read_bytes n s ≡ ok val
  pub mem-iterdir : (n : Text) (s : Fs) → mem text_discrete n (iterdir s) ≡ is_some (content n s)
  pub mem-iterdir-is_file_name :
      (n : Text) (s : Fs) → mem text_discrete n (iterdir s) ≡ true → is_file_name n ≡ true
  pub unlink_file :
      (name : Text) (s : Fs) → is_file_name name ≡ true → (b : Bool) × ((unlink name s).0 ≡ ok b)
  pub content-unlink :
      (name n : Text) (s : Fs)
      → is_file_name name ≡ true
      → content n (unlink name s).1 ≡ ite (text_discrete name n) none (content n s)
  pub rename_file :
      (name : Text) (val : Bytes) (s : Fs)
      → is_file_name name ≡ true
      → (rename name val s).0 ≡ ok tt
  pub content-rename :
      (name n : Text) (val : Bytes) (s : Fs)
      → is_file_name name ≡ true
      → content n (rename name val s).1 ≡ ite (text_discrete name n) (some val) (content n s)
  pub content-touch : (n : Text) (s : Fs) → content n (touch s) ≡ content n s

-- `metadata.keys()`
abbrev pub keys : Metadata → List Text
keys [] = []
keys ((name, val) ∷ rest) = name ∷ keys rest

-- `existing_names - metadata.keys()`
unfoldable pub removed_names : List Text → List Text → List Text
removed_names [] names = []
removed_names (name ∷ existing) names =
    let rest = removed_names existing names in
    if mem text_discrete name names then rest else name ∷ rest

module _ (os : Directory) where
  -- The loop over the names that are removed.
  unfoldable pub unlink_all : List Text → os.Fs → Result (Unit {0}) × os.Fs
  unlink_all [] s = (ok tt, s)
  unlink_all (name ∷ names) s = and_then (os.unlink name s) (λ b s. unlink_all names s)

  -- The loop over `metadata.items()`.
  unfoldable pub rename_all : Metadata → os.Fs → Result (Unit {0}) × os.Fs
  rename_all [] s = (ok tt, s)
  rename_all ((name, val) ∷ rest) s = and_then (os.rename name val s) (λ u s. rename_all rest s)

  -- `_write_member(member, base_path)`, from `existing_names` to the hook.
  unfoldable pub write_files : Member → os.Fs → Result (Unit {0}) × os.Fs
  write_files m s =
      if m.local
      then (ok tt, s)
      else (let metadata = metadata_of m in
          and_then (unlink_all (removed_names (os.iterdir s) (keys metadata)) s)
            λ u s. and_then (rename_all metadata s) λ u s. (ok tt, os.touch s))

  -- The loop of `_read_local` over the names that `iterdir` gives, each once.
  unfoldable pub read_all : List Text → Metadata → os.Fs → Result Metadata
  read_all [] local_metadata s = ok local_metadata
  read_all (name ∷ names) local_metadata s =
      os.read_bytes name s >>= λ val. read_all names (local_metadata ++ (name, val) ∷ []) s

  -- `_read_local(base_path, members)`, after the directory and its link are made.
  unfoldable pub read_local : os.Fs → ℕ → Members → Result (Unit {0}) × Members
  read_local s now members = elim (read_all (os.iterdir s) [] s) [
    | raise e ↦ (raise e, members)
    | ok local_metadata ↦ Members.update members.local none (some local_metadata) now members
  ]
