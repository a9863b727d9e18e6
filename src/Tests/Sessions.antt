-- ===== src/Tests/Sessions.antt =====
-- The claims about a session's statistics and the table of clients at concrete inputs.
use elektron_net_ppool.Common.{
  none, ◌+◌, str_eq, Bool, ℕ, ◌*◌, ◌/◌, ◌≤◌, ◌≢◌, ap, pos_part, ◌≡◌, refl, false, List, [], ◌∷◌,
  arith, ltb,
}
use elektron_net_ppool.Statistics.{Owner}
use elektron_net_ppool.Statistics.Difficulty.{nearest_power_of_two}
use elektron_net_ppool.Statistics.Suggestion.{Scales, Answers, nearest_power_of_two-Answers}
use elektron_net_ppool.Clients.{PartialClient}
use elektron_net_ppool.Clients.Answers.{
  Running, Call, asked, flushed, answered, beat, swept_dead, calls, count_answered, count_waiting,
  calls-counts,
}
use elektron_net_ppool.Tests.{fixed}

abbrev session : Owner
session = record { address = "alice"; client_name = "rig"; session_id = "01" }

at_least : (a b : ℕ) → ltb a b ≡ false → b ≤ a
at_least a b h = ground arith

not_less : (a b : ℕ) → b ≤ a → ltb a b ≡ false
not_less a b h = ground arith

hundredfold : ℕ → ℕ
hundredfold n = n * 100_000_000 / 1_000_000

grown : (n : ℕ) → 10 ≤ n → hundredfold (hundredfold (hundredfold n)) / 1_000_000 ≢ 0
unfolding hundredfold
grown n h e = absurd (omega arith)

tenfold : (n : ℕ) → 10 ≤ n → 10 ≤ hundredfold n
unfolding hundredfold
tenfold n h = omega arith

hundred : (val n : ℕ) → val / 1_000_000 ≡ 0 → hundredfold val / 1_000_000 ≡ n → n ≤ 100
unfolding hundredfold
hundred val n z e = omega arith

fixed-Scales : Scales fixed
unfolding hundredfold
fixed-Scales = record {
  nonneg = λ val h. (val / 1_000_000, refl);
  grows = λ val h e. grown val (at_least val 10 h) (ap pos_part e);
  above = λ val h. not_less (hundredfold val) 10 (tenfold val (at_least val 10 h));
  small = λ val n z e. hundred val n (ap pos_part z) (ap pos_part e);
}

nearest_power_of_two-Answers_example : Answers fixed (nearest_power_of_two fixed 4 250_000)
nearest_power_of_two-Answers_example =
    nearest_power_of_two-Answers fixed fixed-Scales 250_000 0 refl (omega arith)

abbrev newcomer : PartialClient fixed
newcomer = record { key = session; user_agent = none; best_difficulty = 0 }

abbrev is_newcomer : PartialClient fixed → Bool
is_newcomer c = str_eq c.key.session_id "01"

-- The session asks twice for its row, so that the second insert fails; the answers cross.
abbrev session_calls : List (Call fixed)
session_calls =
    asked newcomer
    ∷ flushed
    ∷ asked newcomer
    ∷ flushed
    ∷ answered 1 5000
    ∷ beat session 7 6000
    ∷ answered 0 10_000
    ∷ swept_dead 400_000
    ∷ asked newcomer
    ∷ []

abbrev idle : Running fixed
idle = record { service = record { insert_queue = []; rows = [] }; in_flight = [] }

calls-counts_example :
    let r = calls fixed session_calls idle in
    count_answered fixed is_newcomer r.0 + count_waiting fixed is_newcomer r.1 ≡ 3
calls-counts_example = calls-counts fixed is_newcomer session_calls idle
