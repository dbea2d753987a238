-- ===== src/Status/Tests.antt =====
-- Runs of `transition`, and its theorems at concrete statuses.
use swim_protocol.Prelude.{◌≡◌, refl}
use swim_protocol.Result.{ok, raise, value_error}
use swim_protocol.Status.Defs.{
  online, offline, suspect, available, all, status_discrete, transition,
}

runs :
    (transition online offline ≡ ok suspect)
    × (transition offline suspect ≡ ok offline)
    × (transition suspect offline ≡ ok offline)
    × (transition online available ≡ raise value_error)
    × (transition online all ≡ ok all)
unfolding transition status_discrete
runs = (refl, refl, refl, refl, refl)
