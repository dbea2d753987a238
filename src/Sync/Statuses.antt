-- ===== src/Sync/Statuses.antt =====
-- What `_write_member` of swimprotocol/sync.py leaves in the directories of the statuses.
use swim_protocol.Prelude.{
  ◌≡◌, ◌∙◌, refl, sym, ap, Bool, true, false, Text, text_discrete, List, [], ◌∷◌, ite,
  if◌then◌else◌, Option, none, some, if_pos,
}
use swim_protocol.Status.{Status, flag_and, is_set}
use swim_protocol.Member.{Member}
use swim_protocol.Sync.Defs.{
  Files, statuses, link_path, try_link, try_unlink, touched, update_status, update_loop,
  write_statuses,
}

-- The last status in a list for a directory.
abbrev pub status_of : Text → List (Text × Status) → Option Status
status_of d [] = none
status_of d ((dir, status) ∷ rest) = elim (status_of d rest) [
  | some later ↦ some later
  | none ↦ ite (text_discrete dir d) (some status) none
]

ite_twice : {P : Type 0} (f : Dec P) (a b c : Bool) → ite f a (ite f b c) ≡ ite f a c
ite_twice (yes p) a b c = refl
ite_twice (no p) a b c = refl

-- What is in a directory after the loop.
abbrev pub shown : Member → Text → Bool → Option Status → Bool
shown m n before none = before
shown m n before (some status) =
    ite (text_discrete m.name n) (is_set (flag_and m.status status)) before

module _ (os : Files) where
  touched-IsReady : (dir : Text) (r : Bool × os.Fs) → os.IsReady r.1 → os.IsReady (touched os dir r)
  touched-IsReady dir (true, s) h = os.touch-IsReady dir s h
  touched-IsReady dir (false, s) h = h

  has_entry-touched :
      (dir d n : Text) (r : Bool × os.Fs)
      → os.IsReady r.1
      → os.has_entry d n (touched os dir r) ≡ os.has_entry d n r.1
  has_entry-touched dir d n (true, s) h = os.has_entry-touch dir d n s h
  has_entry-touched dir d n (false, s) h = refl

  update_status-IsReady :
      (dir name : Text) (b : Bool) (s : os.Fs)
      → os.IsReady s
      → os.IsReady (update_status os dir name b s)
  unfolding update_status try_link try_unlink
  update_status-IsReady dir name true s h =
      touched-IsReady dir (try_link os name dir name s)
        (os.symlink-IsReady (link_path name) dir name s h)
  update_status-IsReady dir name false s h =
      touched-IsReady dir (try_unlink os dir name s) (os.unlink-IsReady dir name s h)

  has_entry-update_status :
      (dir name d n : Text) (b : Bool) (s : os.Fs)
      → os.IsReady s
      → os.has_entry d n (update_status os dir name b s)
        ≡ ite
            (text_discrete dir d)
            (ite (text_discrete name n) b (os.has_entry d n s))
            (os.has_entry d n s)
  unfolding update_status try_link try_unlink
  has_entry-update_status dir name d n true s h =
      has_entry-touched dir d n (try_link os name dir name s)
        (os.symlink-IsReady (link_path name) dir name s h)
      ∙ os.has_entry-symlink (link_path name) dir name d n s h
  has_entry-update_status dir name d n false s h =
      has_entry-touched dir d n (try_unlink os dir name s) (os.unlink-IsReady dir name s h)
      ∙ os.has_entry-unlink dir name d n s h

  has_entry-update_loop :
      (m : Member) (todo : List (Text × Status)) (d n : Text) (s : os.Fs)
      → os.IsReady s
      → os.IsReady (update_loop os m todo s)
        × (os.has_entry d n (update_loop os m todo s)
            ≡ shown m n (os.has_entry d n s) (status_of d todo))
  unfolding update_loop
  has_entry-update_loop m [] d n s h = (h, refl)
  has_entry-update_loop m ((dir, status) ∷ rest) d n s h =
      let b = is_set (flag_and m.status status) in
      let s1 = update_status os dir m.name b s in
      let (ready, later) =
        has_entry-update_loop m rest d n s1 (update_status-IsReady dir m.name b s h) in
      (
        ready,
        later
            ∙ ap (λ before. shown m n before (status_of d rest))
                (has_entry-update_status dir m.name d n b s h)
            ∙ by_rest (status_of d rest) (text_discrete dir d),
      )
    where
      by_rest :
          (o : Option Status) (e : Dec (dir ≡ d))
          → shown m n
              (ite e
                (ite
                  (text_discrete m.name n)
                  (is_set (flag_and m.status status))
                  (os.has_entry d n s))
                (os.has_entry d n s))
              o
            ≡ shown m n
                (os.has_entry d n s)
                (elim o [ some later ↦ some later | none ↦ ite e (some status) none ])
      by_rest none (yes e) = refl
      by_rest none (no e) = refl
      by_rest (some later) (yes e) = ite_twice (text_discrete m.name n) _ _ _
      by_rest (some later) (no e) = refl

  update_status_same :
      (dir name : Text) (b : Bool) (s : os.Fs)
      → os.IsReady s
      → os.has_entry dir name s ≡ b
      → update_status os dir name b s ≡ s
  unfolding update_status try_link try_unlink
  update_status_same dir name true s h there =
      ap (touched os dir) (os.symlink_taken (link_path name) dir name s h there)
  update_status_same dir name false s h missing =
      ap (touched os dir) (os.unlink_missing dir name s h missing)

  -- The directories have a member already as its status says.
  abbrev AllShown : Member → List (Text × Status) → os.Fs → Type 0
  AllShown m [] s = Unit {0}
  AllShown m ((dir, status) ∷ rest) s =
      (os.has_entry dir m.name s ≡ is_set (flag_and m.status status)) × AllShown m rest s

  update_loop_same :
      (m : Member) (todo : List (Text × Status)) (s : os.Fs)
      → os.IsReady s
      → AllShown m todo s
      → update_loop os m todo s ≡ s
  unfolding update_loop
  update_loop_same m [] s h shown_all = refl
  update_loop_same m ((dir, status) ∷ rest) s h (here, shown_all) =
      ap (update_loop os m rest)
        (update_status_same dir m.name (is_set (flag_and m.status status)) s h here)
      ∙ update_loop_same m rest s h shown_all

  -- Where the directories of the statuses are there, `_write_member` of a member that is not local
  -- leaves its name in exactly those whose status meets the member's, and every other name and
  -- directory as it was; and a second call with the same member changes nothing more.
  pub has_entry-write_statuses :
      (m : Member) (s : os.Fs)
      → os.IsReady s
      → m.local ≡ false
      → ((d n : Text)
          → os.has_entry d n (write_statuses os m s)
            ≡ shown m n (os.has_entry d n s) (status_of d statuses))
        × (write_statuses os m (write_statuses os m s) ≡ write_statuses os m s)
  unfolding write_statuses text_discrete
  has_entry-write_statuses m s h other =
      let after = update_loop os m statuses s in
      let ready = (has_entry-update_loop m statuses [] [] s h).0 in
      let once = written s in
      (
        λ d n. ap (os.has_entry d n) once ∙ (has_entry-update_loop m statuses d n s h).1,
        ap (write_statuses os m) once
            ∙ written after
            ∙ update_loop_same m statuses after ready (
              each _ _ refl,
              (each _ _ refl, (each _ _ refl, (each _ _ refl, (each _ _ refl, tt)))),
            )
            ∙ sym once,
      )
    where
      written : (t : os.Fs) → write_statuses os m t ≡ update_loop os m statuses t
      written t = ap (λ (b : Bool). if b then t else update_loop os m statuses t) other

      each :
          (d : Text) (status : Status)
          → status_of d statuses ≡ some status
          → os.has_entry d m.name (update_loop os m statuses s) ≡ is_set (flag_and m.status status)
      each d status e =
          (has_entry-update_loop m statuses d m.name s h).1
          ∙ ap (shown m m.name (os.has_entry d m.name s)) e
          ∙ if_pos (text_discrete m.name m.name) refl _ _
