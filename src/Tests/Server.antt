-- ===== src/Tests/Server.antt =====
-- The claims about the Stratum listeners at concrete inputs.
use elektron_net_ppool.Common.{refl, true, false, [], ◌∷◌}
use elektron_net_ppool.Config.{parsed}
use elektron_net_ppool.Server.{StratumServer, Sample, monitor}
use elektron_net_ppool.Server.Backpressure.{accepting, Shows, monitor-Shows}
use elektron_net_ppool.Tests.{defaults}

-- Listening on port 3333.
abbrev one_listener : StratumServer
one_listener = record {
  listeners = record { port = 3333; server = true; paused = false } ∷ [];
  healthy_backpressure_checks = 0;
}

abbrev slow : Sample
slow = record { event_loop_p95_ms = 3000; rss_mb = 100 }

abbrev quiet : Sample
quiet = record { event_loop_p95_ms = 20; rss_mb = 100 }

-- Overloaded once, then quiet four times.
monitor-Shows_example :
    Shows (monitor defaults (slow ∷ quiet ∷ quiet ∷ quiet ∷ quiet ∷ []) one_listener) accepting
unfolding parsed
monitor-Shows_example =
    monitor-Shows defaults (slow ∷ quiet ∷ quiet ∷ quiet ∷ quiet ∷ []) one_listener accepting refl
      (((refl, refl), tt), refl)
