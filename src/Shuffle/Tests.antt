-- ===== src/Shuffle/Tests.antt =====
-- The runs of test/test_shuffle.py over numbers, and the theorems at concrete shuffles.
use swim_protocol.Prelude.{
  ℕ, ◌≡◌, ◌≢◌, refl, Bool, true, false, [], ◌∷◌, ℕ_discrete, if◌then◌else◌, length,
}
use swim_protocol.Result.{ok, raise, key_error, assertion_error}
use swim_protocol.Shuffle.Defs.{
  Shuffle, empty, remove_at, mem, without, index_of, pop_index, finalize, contains, len, add,
  discard, init, choice,
}
use swim_protocol.Shuffle.Content.{IsValid}
use swim_protocol.Shuffle.History.{Op, run, last_op, run-last_op}
use swim_protocol.Shuffle.Draws.{IsSynced}
use swim_protocol.Shuffle.Choice.{IsFaithful, choice-contains, discard_stale}

program : Unit {0}
unfolding remove_at mem without index_of pop_index finalize contains len add discard init choice
    ℕ_discrete
program = tt

abbrev three : Shuffle ℕ
three = record {
  weak_vals = 5 ∷ 6 ∷ 7 ∷ [];
  indexes = (5, 0) ∷ (6, 1) ∷ (7, 2) ∷ [];
  values = 5 ∷ 6 ∷ 7 ∷ [];
}

added : init ℕ_discrete (5 ∷ 6 ∷ 7 ∷ []) empty ≡ three
unfolding program
added = refl

emptied : choice ℕ_discrete (λ _. true) empty 3 ≡ raise key_error
unfolding program
emptied = refl

-- `test_discard` draws only from what is left, in the order that hides the stale index.
discarded : (discard ℕ_discrete 7 (discard ℕ_discrete 6 three)).values ≡ 5 ∷ []
unfolding program
discarded = refl

-- In the other order the value left is the one that was discarded last.
stale : (discard ℕ_discrete 7 (discard ℕ_discrete 5 three)).values ≡ 7 ∷ []
unfolding program
stale = refl

three-IsSynced : IsSynced ℕ_discrete three
unfolding program
three-IsSynced = record {
  distinct = (refl, (refl, (refl, tt)));
  values_right = refl;
  indexes_right = refl;
}

three-IsFaithful : IsFaithful ℕ_discrete three
unfolding contains
three-IsFaithful k = refl

choice-contains_example :
    (contains ℕ_discrete three 6 ≡ true → (r : ℕ) × (choice ℕ_discrete (λ _. true) three r ≡ ok 6))
    × ((r : ℕ) → choice ℕ_discrete (λ _. true) three r ≡ ok 6 → contains ℕ_discrete three 6 ≡ true)
    × ((r : ℕ) → choice ℕ_discrete (λ _. true) three r ≢ raise assertion_error)
    × ((r : ℕ)
        → choice ℕ_discrete (λ _. true) three r ≡ raise key_error
        → contains ℕ_discrete three 6 ≡ false)
choice-contains_example =
    choice-contains ℕ_discrete (λ _. true) three three-IsFaithful (λ k h. refl) 6

discard_stale_example :
    (contains ℕ_discrete (discard ℕ_discrete 7 (discard ℕ_discrete 5 three)) 7 ≡ false)
    × ((alive : ℕ → Bool)
        → choice ℕ_discrete alive (discard ℕ_discrete 7 (discard ℕ_discrete 5 three)) 0
          ≡ (if alive 7 then ok 7 else raise assertion_error))
discard_stale_example = discard_stale ℕ_discrete 5 6 7 [] three three-IsSynced refl

run-last_op_example :
    IsValid ℕ_discrete (run ℕ_discrete (Op.adds 5 ∷ Op.discards 5 ∷ []) empty)
    × (contains ℕ_discrete (run ℕ_discrete (Op.adds 5 ∷ Op.discards 5 ∷ []) empty) 5
        ≡ last_op ℕ_discrete 5 false (Op.adds 5 ∷ Op.discards 5 ∷ []))
    × (length (run ℕ_discrete (Op.adds 5 ∷ Op.discards 5 ∷ []) empty).values
        ≡ len ℕ_discrete (run ℕ_discrete (Op.adds 5 ∷ Op.discards 5 ∷ []) empty))
run-last_op_example = run-last_op ℕ_discrete (Op.adds 5 ∷ Op.discards 5 ∷ []) 5
