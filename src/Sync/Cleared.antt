-- ===== src/Sync/Cleared.antt =====
-- Which directories `_cleanup` of swimprotocol/sync.py empties, and when it raises.
use swim_protocol.Prelude.{
  ◌≡◌, ◌∙◌, refl, sym, ap, Bool, true, false, ◌&&◌, Text, text_discrete, List, [], ◌∷◌, ite,
  if◌then◌else◌, arith, Bool-cases, inl, inr,
}
use swim_protocol.Result.{Result, ok, raise, os_error, and_then}
use swim_protocol.Shuffle.{mem}
use swim_protocol.Shuffle.Content.{IsDistinct}
use swim_protocol.Members.{Members}
use swim_protocol.Sync.Cleanup.{
  Tree, base, local_link, status_dirs, unlink_each, clear, clear_all, cleanup,
}
use swim_protocol.Sync.Emptied.{Emptied, Emptied-unlink, Done, Done-then}

module _ (os : Tree) where
  abbrev in_dir : Text → List Text → Text → Text → Bool
  in_dir dir names d n = ite (text_discrete dir d) (mem text_discrete n names) false

  unlink_each-Done :
      (dir : Text) (names : List Text) (s : os.Fs)
      → IsDistinct text_discrete names
      → ((n : Text) → mem text_discrete n names ≡ true → os.has_entry dir n s ≡ true)
      → ((n : Text) → os.is_dir dir n s ≡ false)
      → Done os (in_dir dir names) s (unlink_each os dir names s)
  unfolding unlink_each mem
  unlink_each-Done dir [] s distinct there plain =
      (refl, record { entries = λ d n. ground arith; dirs = λ d n. refl; there = λ d. refl })
  unlink_each-Done dir (name ∷ names) s (fresh, distinct) there plain =
      Done-then os (os.unlink dir name s) (unlink_each os dir names)
        (
          os.unlink_file dir name s (there name (ground arith)) (plain name),
          Emptied-unlink os dir name s (there name (ground arith)) (plain name),
        )
        (λ a.
          unlink_each-Done dir names (os.unlink dir name s).1 distinct
            (λ n h. ground (arith, a.entries dir n, there n, fresh)) (λ n. a.dirs dir n ∙ plain n))
        (λ d n. ground arith)

  abbrev whole : Text → Text → Text → Bool
  whole dir d n = ite (text_discrete dir d) true false

  clear-Done :
      (dir : Text) (s : os.Fs)
      → os.is_there dir s ≡ true
      → ((n : Text) → os.is_dir dir n s ≡ false)
      → Done os (whole dir) s (clear os dir s)
  unfolding clear
  clear-Done dir s there plain =
      let (names, listed, distinct, same) = os.iterdir_there dir s there in
      let (fine, a) = unlink_each-Done dir names s distinct (λ n h. sym (same n) ∙ h) plain in
      rw (listed, clear)
        (
          fine,
          record {
            entries = λ d n. emptied names n same (text_discrete dir d) (a.entries d n);
            dirs = a.dirs;
            there = a.there;
          },
        )
    where
      emptied :
          (names : List Text) {d : Text} (n : Text) {b : Bool}
          → ((n : Text) → mem text_discrete n names ≡ os.has_entry dir n s)
          → (q : Dec (dir ≡ d))
          → b ≡ (if ite q (mem text_discrete n names) false then false else os.has_entry d n s)
          → b ≡ (if ite q true false then false else os.has_entry d n s)
      emptied names {d} n same (yes p) e = ground (arith, same n, ap (λ j. os.has_entry j n s) p)
      emptied names n same (no ne) e = e

  clear_missing :
      (dir : Text) (s : os.Fs) → os.is_there dir s ≡ false → (clear os dir s).0 ≡ raise os_error
  unfolding clear
  clear_missing dir s missing = rw (os.iterdir_missing dir s missing, clear) refl

  abbrev pub all_there : List Text → os.Fs → Bool
  all_there [] s = true
  all_there (dir ∷ dirs) s = os.is_there dir s && all_there dirs s

  abbrev pub ArePlain : List Text → os.Fs → Type 0
  ArePlain dirs s = (d n : Text) → mem text_discrete d dirs ≡ true → os.is_dir d n s ≡ false

  abbrev pub among : List Text → Text → Text → Bool
  among dirs d n = mem text_discrete d dirs

  same_there :
      {gone : Text → Text → Bool} {s t : os.Fs} (dirs : List Text)
      → Emptied os gone s t
      → all_there dirs t ≡ all_there dirs s
  same_there [] a = refl
  same_there (dir ∷ dirs) a = ground (arith, a.there dir, same_there dirs a)

  ArePlain-Emptied :
      {gone : Text → Text → Bool} {s t : os.Fs} (dirs : List Text)
      → Emptied os gone s t
      → ArePlain dirs s
      → ArePlain dirs t
  ArePlain-Emptied dirs a plain d n h = a.dirs d n ∙ plain d n h

  clear_all-Done :
      (dirs : List Text) (s : os.Fs)
      → all_there dirs s ≡ true
      → ArePlain dirs s
      → Done os (among dirs) s (clear_all os dirs s)
  unfolding clear_all mem
  clear_all-Done [] s there plain =
      (refl, record { entries = λ d n. refl; dirs = λ d n. refl; there = λ d. refl })
  clear_all-Done (dir ∷ dirs) s there plain =
      Done-then os (clear os dir s) (clear_all os dirs)
        (clear-Done dir s (ground arith) (λ n. plain dir n (ground arith)))
        (λ a.
          clear_all-Done dirs (clear os dir s).1 (same_there dirs a ∙ ground arith)
            (λ d n h. a.dirs d n ∙ plain d n (ground arith)))
        (λ d n. ground arith)

  raises_first :
      (r : Result (Unit {0}) × os.Fs) (k : os.Fs → Result (Unit {0}) × os.Fs)
      → r.0 ≡ raise os_error
      → (and_then r λ _ t. k t).0 ≡ raise os_error
  raises_first (ok u, t) k h = cc
  raises_first (raise e, t) k h = h

  raises_after :
      (r : Result (Unit {0}) × os.Fs) (k : os.Fs → Result (Unit {0}) × os.Fs)
      → r.0 ≡ ok tt
      → (k r.1).0 ≡ raise os_error
      → (and_then r λ _ t. k t).0 ≡ raise os_error
  raises_after (ok u, t) k h e = e
  raises_after (raise x, t) k h e = cc

  clear_all_missing :
      (dirs : List Text) (s : os.Fs)
      → all_there dirs s ≡ false
      → ArePlain dirs s
      → (clear_all os dirs s).0 ≡ raise os_error
  unfolding clear_all mem
  clear_all_missing [] s missing plain = cc
  clear_all_missing (dir ∷ dirs) s missing plain = elim (Bool-cases (os.is_there dir s)) [
    | inr gone ↦ raises_first (clear os dir s) (clear_all os dirs) (clear_missing dir s gone)
    | inl there ↦
        let (fine, a) = clear-Done dir s there (λ n. plain dir n (ground arith)) in
        raises_after (clear os dir s) (clear_all os dirs) fine (
          clear_all_missing dirs (clear os dir s).1 (same_there dirs a ∙ ground arith)
            (λ d n h. a.dirs d n ∙ plain d n (ground arith)))
  ]

  -- The entries that `_cleanup` removes from a directory.
  abbrev pub removed : Members → Text → Text → Bool
  removed members d n =
      if ite (text_discrete base d) (ite (text_discrete local_link n) true false) false
      then true
      else if mem text_discrete d members.non_local
      then true
      else mem text_discrete d status_dirs

  -- Where `.local` is a link, the directories of the statuses are there, and they and those of the
  -- other members hold files only: `_cleanup` raises exactly if one of the other members has no
  -- directory, and if it does not, then `.local`, the files of the other members and the links to them
  -- are gone, and nothing else is.
  pub cleanup-Emptied :
      (members : Members) (s : os.Fs)
      → os.has_entry base local_link s ≡ true
      → os.is_dir base local_link s ≡ false
      → all_there status_dirs s ≡ true
      → ArePlain status_dirs s
      → ArePlain members.non_local s
      → ((cleanup os members s).0
          ≡ (if all_there members.non_local s then ok tt else raise os_error))
        × (all_there members.non_local s ≡ true
            → Emptied os (removed members) s (cleanup os members s).1)
  unfolding cleanup
  cleanup-Emptied members s linked link ready plain files =
      elim (Bool-cases (all_there members.non_local s)) [
        | inl there ↦
            let (fine, a) =
              Done-then os (os.unlink base local_link s)
                (λ t. and_then (clear_all os members.non_local t) λ _ u. clear_all os status_dirs u)
                first (λ a. rest (os.unlink base local_link s).1 a there) (λ d n. refl) in
            (fine ∙ ap (λ b. if b then ok tt else raise os_error) (sym there), λ h. a)
        | inr missing ↦
            let (fine, a) = first in
            (
              raises_after (os.unlink base local_link s)
                    (λ t.
                      and_then (clear_all os members.non_local t) λ _ u. clear_all os status_dirs u)
                    fine
                    (raises_first (clear_all os members.non_local (os.unlink base local_link s).1)
                      (clear_all os status_dirs)
                      (clear_all_missing members.non_local (os.unlink base local_link s).1
                        (same_there members.non_local a ∙ missing)
                        (ArePlain-Emptied members.non_local a files)))
                  ∙ ap (λ b. if b then ok tt else raise os_error) (sym missing),
              λ h. cc,
            )
      ]
    where
      first :
          Done os
            (λ d n. ite (text_discrete base d) (ite (text_discrete local_link n) true false) false)
            s
            (os.unlink base local_link s)
      first = (
        os.unlink_file base local_link s linked link,
        Emptied-unlink os base local_link s linked link,
      )

      rest :
          {gone : Text → Text → Bool} (t : os.Fs)
          → Emptied os gone s t
          → all_there members.non_local s ≡ true
          → Done os
              (λ d n.
                if mem text_discrete d members.non_local
                then true
                else mem text_discrete d status_dirs)
              t
              (and_then (clear_all os members.non_local t) λ _ u. clear_all os status_dirs u)
      rest t a there =
          Done-then os {f = among members.non_local} {g = among status_dirs}
            (clear_all os members.non_local t) (clear_all os status_dirs)
            (clear_all-Done members.non_local t (same_there members.non_local a ∙ there)
              (ArePlain-Emptied members.non_local a files))
            (λ b.
              clear_all-Done status_dirs (clear_all os members.non_local t).1
                (same_there status_dirs b ∙ same_there status_dirs a ∙ ready)
                (ArePlain-Emptied status_dirs b (ArePlain-Emptied status_dirs a plain)))
            (λ d n. refl)
