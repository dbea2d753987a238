-- ===== src/Listener/Fresh.antt =====
-- The events of a listener of swimprotocol/listener.py, numbered from below.
use swim_protocol.Prelude.{
  ℕ, suc, ◌≡◌, ◌<◌, refl, List, [], ◌∷◌, ◌++◌, none, arith, ite, ℕ_discrete,
}
use swim_protocol.Listener.Defs.{Waiter, find_event, without_event, set_events}

module _ {A : Type 0} where
  -- Events have numbers below this one.
  abbrev pub AllBelow : ℕ → List (Waiter A) → Type 0
  AllBelow n [] = Unit {0}
  AllBelow n (w ∷ ws) = (w.event < n) × AllBelow n ws

  pub AllBelow-set_events :
      (n : ℕ) (item : A) (ws : List (Waiter A)) → AllBelow n ws → AllBelow n (set_events item ws)
  unfolding set_events
  AllBelow-set_events n item [] h = tt
  AllBelow-set_events n item (w ∷ ws) (h, hs) = (h, AllBelow-set_events n item ws hs)

  pub AllBelow-without_event :
      (n event : ℕ) (ws : List (Waiter A)) → AllBelow n ws → AllBelow n (without_event event ws)
  unfolding without_event
  AllBelow-without_event n event [] h = tt
  AllBelow-without_event n event (w ∷ ws) (h, hs) =
      let rest = AllBelow-without_event n event ws hs in kept (ℕ_discrete w.event event) h rest
    where
      kept :
          (d : Dec (w.event ≡ event))
          → w.event < n
          → AllBelow n (without_event event ws)
          → AllBelow n (ite d (without_event event ws) (w ∷ without_event event ws))
      kept (yes e) h hs = hs
      kept (no ne) h hs = (h, hs)

  pub AllBelow-append :
      (n : ℕ) (w : Waiter A) (ws : List (Waiter A))
      → w.event ≡ n
      → AllBelow n ws
      → AllBelow (suc n) (ws ++ w ∷ [])
  AllBelow-append n w [] e h = (omega arith, tt)
  AllBelow-append n w (v ∷ ws) e (h, hs) = (omega arith, AllBelow-append n w ws e hs)

  pub find_event-fresh : (n : ℕ) (ws : List (Waiter A)) → AllBelow n ws → find_event n ws ≡ none
  unfolding find_event
  find_event-fresh n [] h = refl
  find_event-fresh n (w ∷ ws) (h, hs) = ground (arith, find_event-fresh n ws hs)
