-- ===== src/Server.antt =====
-- The Stratum listeners and their backpressure (src/services/stratum-v1.service.ts). The environment
-- is a `Config`; what the timer measures (the 95th percentile of the event loop's delay, in ms, and
-- the resident memory, in MB) comes with each check. Sockets and logs are not part of the state.
pub mod Backpressure
use elektron_net_ppool.Common.{
  ℕ, ◌+◌, String, Bool, true, false, ◌||◌, ◌&&◌, not, List, [], ◌∷◌, ◌++◌, map, leb, if◌then◌else◌,
  Option, none, some,
}
use elektron_net_ppool.Common.Js.{Text, text_eq, codes, to_lower}
use elektron_net_ppool.Config.{Config, positive_setting}

-- StratumListenerState; `server` is whether there is one.
pub record Listener : Type 0 where
  pub port : ℕ
  pub server : Bool
  pub paused : Bool

pub record StratumServer : Type 0 where
  pub listeners : List Listener
  pub healthy_backpressure_checks : ℕ

pub record Sample : Type 0 where
  pub event_loop_p95_ms : ℕ
  pub rss_mb : ℕ

abbrev pub get_backpressure_event_loop_p95_ms : Config → ℕ
get_backpressure_event_loop_p95_ms env =
    positive_setting env "STRATUM_BACKPRESSURE_EVENT_LOOP_P95_MS" 2000

abbrev pub get_backpressure_resume_event_loop_p95_ms : Config → ℕ
get_backpressure_resume_event_loop_p95_ms env =
    positive_setting env "STRATUM_BACKPRESSURE_EVENT_LOOP_RESUME_P95_MS" 250

abbrev pub get_backpressure_rss_mb : Config → ℕ
get_backpressure_rss_mb env = positive_setting env "STRATUM_BACKPRESSURE_RSS_MB" 2500

abbrev pub get_backpressure_resume_rss_mb : Config → ℕ
get_backpressure_resume_rss_mb env = positive_setting env "STRATUM_BACKPRESSURE_RESUME_RSS_MB" 2000

abbrev pub get_backpressure_healthy_checks : Config → ℕ
get_backpressure_healthy_checks env = positive_setting env "STRATUM_BACKPRESSURE_HEALTHY_CHECKS" 3

abbrev pub get_max_connections_per_listener : Config → ℕ
get_max_connections_per_listener env =
    positive_setting env "STRATUM_MAX_CONNECTIONS_PER_LISTENER" 10_000

abbrev pub get_stratum_port : Config → ℕ
get_stratum_port env = positive_setting env "STRATUM_PORT" 3333

-- `STRATUM_BACKPRESSURE_ENABLED?.toLowerCase() === 'false'`
abbrev pub is_false : Option String → Bool
is_false none = false
is_false (some s) = text_eq (to_lower (codes s)) (codes "false")

abbrev pub is_backpressure_disabled : Config → Bool
is_backpressure_disabled env = is_false (env "STRATUM_BACKPRESSURE_ENABLED")

abbrev pub is_overloaded : Config → Sample → Bool
is_overloaded env m =
    leb (get_backpressure_event_loop_p95_ms env) m.event_loop_p95_ms
    || leb (get_backpressure_rss_mb env) m.rss_mb

abbrev pub is_healthy : Config → Sample → Bool
is_healthy env m =
    leb m.event_loop_p95_ms (get_backpressure_resume_event_loop_p95_ms env)
    && leb m.rss_mb (get_backpressure_resume_rss_mb env)

unfoldable pub listen : Listener → Listener
listen l = if l.server then l else record l { server = true; paused = false }

unfoldable pub start_socket_server : ℕ → StratumServer → StratumServer
unfolding listen
start_socket_server port s = record s {
  listeners = s.listeners ++ listen (record { port = port; server = false; paused = false }) ∷ [];
}

abbrev pub pause : Listener → Listener
pause l = if l.paused || not l.server then l else record l { server = false; paused = true }

unfoldable pub pause_accepting : List Listener → List Listener
pause_accepting ls = map pause ls

unfoldable pub resume : Listener → Listener
unfolding listen
resume l = if not l.paused || l.server then l else listen l

unfoldable pub resume_accepting : List Listener → List Listener
unfolding resume
resume_accepting ls = map resume ls

-- `listeners.some(listener => listener.paused)`
abbrev pub some_paused : List Listener → Bool
some_paused [] = false
some_paused (l ∷ ls) = l.paused || some_paused ls

unfoldable pub check_backpressure : Config → Sample → StratumServer → StratumServer
unfolding pause_accepting resume_accepting
check_backpressure env m s =
    let paused = some_paused s.listeners in
    let checks = s.healthy_backpressure_checks + 1 in
    if is_overloaded env m
    then record s {
      healthy_backpressure_checks = 0;
      listeners = if not paused then pause_accepting s.listeners else s.listeners;
    }
    else if not paused
    then s
    else if not (is_healthy env m)
    then record s { healthy_backpressure_checks = 0 }
    else if leb (get_backpressure_healthy_checks env) checks
    then record s { listeners = resume_accepting s.listeners; healthy_backpressure_checks = 0 }
    else record s { healthy_backpressure_checks = checks }

-- The timer's checks, one after another.
unfoldable pub monitor : Config → List Sample → StratumServer → StratumServer
unfolding check_backpressure
monitor env [] s = s
monitor env (m ∷ ms) s = monitor env ms (check_backpressure env m s)
