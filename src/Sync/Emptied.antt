-- ===== src/Sync/Emptied.antt =====
-- Calls on directories that only remove entries, and chains of them, for `_cleanup` of
-- swimprotocol/sync.py.
use swim_protocol.Prelude.{
  ◌≡◌, ◌∙◌, Bool, true, false, Text, text_discrete, ite, if◌then◌else◌, arith,
}
use swim_protocol.Result.{Result, ok, raise, and_then}
use swim_protocol.Sync.Cleanup.{Tree}

module _ (os : Tree) where
  -- Entries are gone where the test says so, and no directory has come or gone.
  pub record Emptied (gone : Text → Text → Bool) (s t : os.Fs) : Type 0 where
    pub entries :
        (d n : Text) → os.has_entry d n t ≡ (if gone d n then false else os.has_entry d n s)
    pub dirs : (d n : Text) → os.is_dir d n t ≡ os.is_dir d n s
    pub there : (d : Text) → os.is_there d t ≡ os.is_there d s

  Emptied-then :
      {f g h : Text → Text → Bool} {s t u : os.Fs}
      → Emptied f s t
      → Emptied g t u
      → ((d n : Text) → h d n ≡ (if f d n then true else g d n))
      → Emptied h s u
  Emptied-then a b both = record {
    entries = λ d n. ground (arith, a.entries d n, b.entries d n, both d n);
    dirs = λ d n. b.dirs d n ∙ a.dirs d n;
    there = λ d. b.there d ∙ a.there d;
  }

  pub Emptied-unlink :
      (dir name : Text) (s : os.Fs)
      → os.has_entry dir name s ≡ true
      → os.is_dir dir name s ≡ false
      → Emptied
          (λ d n. ite (text_discrete dir d) (ite (text_discrete name n) true false) false)
          s
          (os.unlink dir name s).1
  Emptied-unlink dir name s there plain = record {
    entries = λ d n. ground (arith, os.has_entry-unlink dir name d n s there plain);
    dirs = λ d n. os.is_dir-unlink dir name d n s;
    there = λ d. os.is_there-unlink dir name d s;
  }

  -- A call that did not raise, and what it emptied.
  abbrev pub Done : (Text → Text → Bool) → os.Fs → Result (Unit {0}) × os.Fs → Type 0
  Done gone s r = (r.0 ≡ ok tt) × Emptied gone s r.1

  pub Done-then :
      {f g h : Text → Text → Bool} {s : os.Fs} (r : Result (Unit {0}) × os.Fs)
      (k : os.Fs → Result (Unit {0}) × os.Fs)
      → Done f s r
      → (Emptied f s r.1 → Done g r.1 (k r.1))
      → ((d n : Text) → h d n ≡ (if f d n then true else g d n))
      → Done h s (and_then r λ _ t. k t)
  Done-then (ok u, t) k (fine, a) next both =
      let (fine2, b) = next a in (fine2, Emptied-then a b both)
  Done-then (raise e, t) k (fine, a) next both = cc fine
