-- ===== src/Members/Runs.antt =====
-- What calls on the registry of swimprotocol/members.py have led to, and what no call takes back.
use swim_protocol.Prelude.{
  ℕ, ◌≤◌, ◌≡◌, ◌∙◌, refl, sym, ap, subst, Bool, true, Text, Bytes, List, [], ◌∷◌, ◌++◌, Option,
  none, some, arith, Option-cases, inl, inr,
}
use swim_protocol.Status.{Status}
use swim_protocol.Result.{Result, ok, raise}
use swim_protocol.Packet.{Metadata}
use swim_protocol.Member.{Member}
use swim_protocol.Members.Defs.{
  Members, get, update_from, update, apply, ack_gossip, finish, refresh_statuses,
}
use swim_protocol.Members.History.{Call, gets, updates, applies, acks, step, run}
use swim_protocol.Members.LocalName.{local-step}
use swim_protocol.Members.Known.{has, has-step}

-- One registry comes from another by calls.
pub record Ran (s t : Members) : Type 0 where
  pub calls : List Call
  pub ran : t ≡ run calls s

run-append :
    (before after : List Call) (s : Members) → run (before ++ after) s ≡ run after (run before s)
unfolding run
run-append [] after s = refl
run-append (c ∷ before) after s = run-append before after (step c s)

pub Ran-eq : {s t : Members} → t ≡ s → Ran s t
unfolding run
Ran-eq e = record { calls = []; ran = e }

pub Ran-step : (c : Call) (s : Members) → Ran s (step c s)
unfolding run
Ran-step c s = record { calls = c ∷ []; ran = refl }

pub Ran-trans : {r s t : Members} → Ran r s → Ran s t → Ran r t
Ran-trans {r} x y = record {
  calls = x.calls ++ y.calls;
  ran = y.ran ∙ ap (run y.calls) x.ran ∙ sym (run-append x.calls y.calls r);
}

next_clock-update_from :
    (name : Text) (source : Option Text) (clock : ℕ) (status : Option Status)
    (metadata : Option Metadata) (now : ℕ) (s : Members)
    → s.next_clock ≤ (update_from name source clock status metadata now s).1.next_clock
unfolding update_from refresh_statuses
next_clock-update_from name source clock status metadata now s =
    elim (Option-cases (s.members name)) [
      | inl unknown ↦ rw (unknown, update_from) (omega arith)
      | inr (k, found) ↦ rw (found, update_from) (later _)
    ]
  where
    later : (r : Result Bool × Member) → s.next_clock ≤ (finish name r s).1.next_clock
    later (raise e, m) = omega arith
    later (ok updated, m) = ground arith

next_clock-get :
    (name : Text) (validity : Option Bytes) (random : Bytes) (now : ℕ) (s : Members)
    → s.next_clock ≤ (get name validity random now s).next_clock
unfolding get
next_clock-get name validity random now s = ground arith

next_clock-ack_gossip :
    (member source : Text) (clock : ℕ) (s : Members)
    → s.next_clock ≤ (ack_gossip member source clock s).1.next_clock
unfolding ack_gossip
next_clock-ack_gossip member source clock s = ground arith

-- No call moves the next clock back.
next_clock-step : (c : Call) (s : Members) → s.next_clock ≤ (step c s).next_clock
unfolding step update apply
next_clock-step (gets name validity random now) s = next_clock-get name validity random now s
next_clock-step (updates name status metadata now) s =
    next_clock-update_from name none s.next_clock status metadata now s
next_clock-step (applies name source clock status metadata now) s =
    next_clock-update_from name (some source) clock (some status) metadata now s
next_clock-step (acks member source clock) s = next_clock-ack_gossip member source clock s

next_clock-run : (calls : List Call) (s : Members) → s.next_clock ≤ (run calls s).next_clock
unfolding run
next_clock-run [] s = omega arith
next_clock-run (c ∷ calls) s = omega (arith, next_clock-step c s, next_clock-run calls (step c s))

local-run : (calls : List Call) (s : Members) → (run calls s).local ≡ s.local
unfolding run
local-run [] s = refl
local-run (c ∷ calls) s = local-run calls (step c s) ∙ local-step c s

has-run : (calls : List Call) (s : Members) (n : Text) → has s n ≡ true → has (run calls s) n ≡ true
unfolding run
has-run [] s n h = h
has-run (c ∷ calls) s n h = has-run calls (step c s) n (has-step c s n h)

pub Ran-next_clock : {s t : Members} → Ran s t → s.next_clock ≤ t.next_clock
Ran-next_clock {s} r =
    subst (λ (x : Members). s.next_clock ≤ x.next_clock) (sym r.ran) (next_clock-run r.calls s)

pub Ran-local : {s t : Members} → Ran s t → t.local ≡ s.local
Ran-local {s} r = ap (λ (x : Members). x.local) r.ran ∙ local-run r.calls s

pub Ran-has : {s t : Members} → Ran s t → (n : Text) → has s n ≡ true → has t n ≡ true
Ran-has {s} r n h = subst (λ x. has x n ≡ true) (sym r.ran) (has-run r.calls s n h)
