-- ===== src/Server/Backpressure.antt =====
-- Backpressure as a machine with two modes.
use elektron_net_ppool.Common.{
  ℕ, ◌+◌, subst, Bool-cases, inl, inr, ◌≤◌, ◌<◌, ◌≡◌, refl, Bool, true, false, List, [], ◌∷◌, leb,
  if◌then◌else◌, All, length, arith,
}
use elektron_net_ppool.Config.{Config}
use elektron_net_ppool.Server.{
  Listener, StratumServer, Sample, is_overloaded, is_healthy, get_backpressure_healthy_checks,
  listen, resume, pause_accepting, resume_accepting, some_paused, check_backpressure, monitor,
}

-- What backpressure is to do: accept, or be paused with a number of healthy checks in a row.
pub data Mode : Type 0 where
  accepting : Mode
  pausing : ℕ → Mode

-- A healthy check that is not overloaded counts; enough of them in a row end the pause.
abbrev pub step : (needed : ℕ) → (overloaded healthy : Bool) → Mode → Mode
step needed true healthy mode = pausing 0
step needed false healthy accepting = accepting
step needed false false (pausing n) = pausing 0
step needed false true (pausing n) = if leb needed (n + 1) then accepting else pausing (n + 1)

abbrev pub Serves : Listener → Type 0
Serves l = (l.server ≡ true) × (l.paused ≡ false)

abbrev pub Rests : Listener → Type 0
Rests l = (l.server ≡ false) × (l.paused ≡ true)

-- The listeners all show the mode.
abbrev pub Shows : StratumServer → Mode → Type 0
Shows s accepting = All Serves s.listeners × (s.healthy_backpressure_checks ≡ 0)
Shows s (pausing n) = All Rests s.listeners × (s.healthy_backpressure_checks ≡ n)

abbrev pub has_listener : List Listener → Bool
has_listener [] = false
has_listener (l ∷ ls) = true

Serves-pause : (ls : List Listener) → All Serves ls → All Rests (pause_accepting ls)
unfolding pause_accepting
Serves-pause [] h = tt
Serves-pause (l ∷ ls) h = (ground arith, Serves-pause ls h.1)

Rests-resume : (ls : List Listener) → All Rests ls → All Serves (resume_accepting ls)
unfolding resume_accepting resume listen
Rests-resume [] h = tt
Rests-resume (l ∷ ls) h = (ground arith, Rests-resume ls h.1)

Serves-some_paused : (ls : List Listener) → All Serves ls → some_paused ls ≡ false
Serves-some_paused [] h = refl
Serves-some_paused (l ∷ ls) h = ground (arith, Serves-some_paused ls h.1)

Rests-some_paused :
    (ls : List Listener) → has_listener ls ≡ true → All Rests ls → some_paused ls ≡ true
Rests-some_paused [] e h = cc
Rests-some_paused (l ∷ ls) e h = ground arith

module _ (env : Config) where
  abbrev pub needed : ℕ
  needed = get_backpressure_healthy_checks env

  abbrev pub mode_after : Sample → Mode → Mode
  mode_after m mode = step needed (is_overloaded env m) (is_healthy env m) mode

  -- Each check of listeners that show a mode leads to listeners that show the next one.
  pub check_backpressure-Shows :
      (m : Sample) (s : StratumServer) (mode : Mode)
      → has_listener s.listeners ≡ true
      → Shows s mode
      → Shows (check_backpressure env m s) (mode_after m mode)
        × (has_listener (check_backpressure env m s).listeners ≡ true)
  unfolding check_backpressure
  check_backpressure-Shows m s accepting e h =
      ground (arith, Serves-some_paused s.listeners h.0, Serves-pause s.listeners h.0)
  check_backpressure-Shows m s (pausing n) e h =
      ground (arith, Rests-some_paused s.listeners e h.0, Rests-resume s.listeners h.0)

  abbrev pub modes_after : List Sample → Mode → Mode
  modes_after [] mode = mode
  modes_after (m ∷ ms) mode = modes_after ms (mode_after m mode)

  -- Whatever is measured, the listeners go through the modes of the two-mode machine together: all of
  -- them accept, or all are paused with the same count of healthy checks.
  pub monitor-Shows :
      (ms : List Sample) (s : StratumServer) (mode : Mode)
      → has_listener s.listeners ≡ true
      → Shows s mode
      → Shows (monitor env ms s) (modes_after ms mode)
  unfolding monitor
  monitor-Shows [] s mode e h = h
  monitor-Shows (m ∷ ms) s mode e h =
      let k = check_backpressure-Shows m s mode e h in
      monitor-Shows ms (check_backpressure env m s) (mode_after m mode) k.1 k.0

  abbrev pub IsQuiet : Sample → Type 0
  IsQuiet m = (is_overloaded env m ≡ false) × (is_healthy env m ≡ true)

  accepting_stays : (ms : List Sample) → All IsQuiet ms → modes_after ms accepting ≡ accepting
  accepting_stays [] q = refl
  accepting_stays (m ∷ ms) q = rw q.0.0 (accepting_stays ms q.1)

  pausing_ends :
      (ms : List Sample) (n : ℕ)
      → All IsQuiet ms
      → n < needed
      → needed ≤ n + length ms
      → modes_after ms (pausing n) ≡ accepting
  pausing_ends [] n q below enough = absurd (omega arith)
  pausing_ends (m ∷ ms) n q below enough = elim (Bool-cases (leb needed (n + 1))) [
    | inl last ↦ rw (q.0.0, q.0.1, last) (accepting_stays ms q.1)
    | inr more ↦
        rw (q.0.0, q.0.1, more) (pausing_ends ms (n + 1) q.1 (ground (arith, more)) (omega arith))
  ]

  -- A pause ends: once as many checks in a row as are configured are healthy and not overloaded, every
  -- listener accepts again, and it stays so as long as the checks do.
  pub monitor_resumes :
      (ms : List Sample) (s : StratumServer) (n : ℕ)
      → has_listener s.listeners ≡ true
      → Shows s (pausing n)
      → n < needed
      → All IsQuiet ms
      → needed ≤ n + length ms
      → All Serves (monitor env ms s).listeners
  monitor_resumes ms s n e h below q enough =
      (subst (λ mode. Shows (monitor env ms s) mode) (pausing_ends ms n q below enough)
        (monitor-Shows ms s (pausing n) e h)).0
