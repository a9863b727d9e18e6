-- ===== src/Stratum/Throttle.antt =====
-- The throttled log lines of src/models/StratumV1Client.ts, `logBlockedUserAgent` and `logValidationError`:
-- one line for a key and an interval, with the number of those that were left out since the last one. The
-- table is a static one, shared by all connections.
use elektron_net_ppool.Common.{
  take, ℕ, suc, ◌+◌, ◌≡◌, refl, sym, true, false, false_not_true, Bool-cases, inl, inr, Option,
  none, some, List, [], ◌∷◌, ◌++◌, map, filter, not, ◌||◌, ◌==◌, ltb, if◌then◌else◌, arith,
}
use elektron_net_ppool.Common.Splits.{join}
use elektron_net_ppool.Common.Js.{Text, text_eq, text_eq-true, text_eq_refl, codes}

pub record LogState : Type 0 where
  pub next_log_at : ℕ
  pub suppressed : ℕ

-- `Map<string, ...>`
abbrev pub LogStates : Type 0
LogStates = List (Text × LogState)

abbrev pub get : Text → LogStates → Option LogState
get key [] = none
get key ((k, s) ∷ states) = let rest = get key states in if text_eq k key then some s else rest

abbrev pub put : Text → LogState → LogStates → LogStates
put key s [] = (key, s) ∷ []
put key s ((k, t) ∷ states) =
    let rest = put key s states in if text_eq k key then (k, s) ∷ states else (k, t) ∷ rest

-- Whether a line is written, with the number that it names, and the new state of the key.
abbrev pub throttle : (interval now : ℕ) → Option LogState → Option ℕ × LogState
throttle interval now none = (some 0, record { next_log_at = now + interval; suppressed = 0 })
throttle interval now (some s) =
    if ltb now s.next_log_at
    then (none, record s { suppressed = s.suppressed + 1 })
    else (some s.suppressed, record { next_log_at = now + interval; suppressed = 0 })

unfoldable pub log_throttled : (interval now : ℕ) → Text → LogStates → Option ℕ × LogStates
log_throttled interval now key states =
    let (line, s) = throttle interval now (get key states) in (line, put key s states)

abbrev pub blocked_user_agent_log_interval_ms : ℕ
blocked_user_agent_log_interval_ms = 60_000

unfoldable pub log_blocked_user_agent : (now : ℕ) → Text → LogStates → Option ℕ × LogStates
unfolding log_throttled
log_blocked_user_agent now agent states =
    log_throttled blocked_user_agent_log_interval_ms now agent states

-- A ValidationError, with the keys of its constraints in their sorted order and its value as text.
pub record ValidationError : Type 0 where
  pub property : Text
  pub constraints : List Text
  pub value : Option Text

-- `... || 'invalid'`
abbrev or_invalid : Text → Text
or_invalid [] = codes "invalid"
or_invalid (c ∷ s) = c ∷ s

unfoldable pub get_validation_error_signature : List ValidationError → Text
get_validation_error_signature [] = codes "unknown"
get_validation_error_signature (e ∷ errors) =
    join b';' (map (λ x. x.property ++ b':' ∷ or_invalid (join b'|' x.constraints)) (e ∷ errors))

abbrev values_of : List ValidationError → List Text
values_of [] = []
values_of (e ∷ errors) =
    let rest = values_of errors in elim e.value [ none ↦ rest | some v ↦ v ∷ rest ]

-- `replace(/[\r\n]/g, '').slice(0, 64)`
abbrev one_line : Text → Text
one_line v = take 64 (filter (λ c. not ((c == 13) || (c == 10))) v)

abbrev sample_of : List Text → Text
sample_of [] = []
sample_of (v ∷ values) = codes " sample=" ++ join b',' (v ∷ values)

unfoldable pub get_validation_error_sample : List ValidationError → Text
get_validation_error_sample errors = sample_of (map one_line (values_of errors))

abbrev pub validation_error_log_interval_ms : ℕ
validation_error_log_interval_ms = 60_000

unfoldable pub log_validation_error :
    (now : ℕ) → (label : Text) → List ValidationError → LogStates → Option ℕ × LogStates
unfolding log_throttled get_validation_error_signature
log_validation_error now label errors states =
    log_throttled validation_error_log_interval_ms now
      (label ++ b':' ∷ get_validation_error_signature errors) states

-- The lines written, newest first, each with its key and the number that it names.
abbrev pub Lines : Type 0
Lines = List (Text × ℕ)

abbrev pub add_line : Text → Option ℕ → Lines → Lines
add_line key none lines = lines
add_line key (some n) lines = (key, n) ∷ lines

-- A sequence of calls, each with its time and its key.
unfoldable pub log_all : (interval : ℕ) → List (ℕ × Text) → LogStates × Lines → LogStates × Lines
unfolding log_throttled
log_all interval [] p = p
log_all interval ((now, key) ∷ calls) (states, lines) =
    let (line, states') = log_throttled interval now key states in
    log_all interval calls (states', add_line key line lines)

abbrev pub calls_of : Text → List (ℕ × Text) → ℕ
calls_of key [] = 0
calls_of key ((now, k) ∷ calls) = (if text_eq k key then 1 else 0) + calls_of key calls

-- The calls that the lines of a key stand for: each for itself and for those that it names.
abbrev pub told : Text → Lines → ℕ
told key [] = 0
told key ((k, n) ∷ lines) = (if text_eq k key then suc n else 0) + told key lines

abbrev pub waiting_of : Option LogState → ℕ
waiting_of none = 0
waiting_of (some s) = s.suppressed

abbrev pub waiting : Text → LogStates → ℕ
waiting key states = waiting_of (get key states)

get-put :
    (key k : Text) (s : LogState) (states : LogStates)
    → get key (put k s states) ≡ (if text_eq k key then some s else get key states)
get-put key k s [] = refl
get-put key k s ((k', t) ∷ states) = elim (Bool-cases (text_eq k' k)) [
  | inl same ↦ rw (text_eq-true k' k same, text_eq_refl k) (ground arith)
  | inr other ↦
      let clash : text_eq k' key ≡ true → text_eq k key ≡ true → ⊥ = λ a b.
        false_not_true
          (sym (rw (text_eq-true k' key a, text_eq-true k key b, text_eq_refl key) at other)) in
      rw other (ground (arith, clash, get-put key k s states))
]

throttle-counts :
    (interval now : ℕ) (key : Text) (o : Option LogState) (lines : Lines)
    → told key (add_line key (throttle interval now o).0 lines)
        + (throttle interval now o).1.suppressed
      ≡ told key lines + waiting_of o + 1
throttle-counts interval now key none lines = rw (text_eq_refl key) (omega arith)
throttle-counts interval now key (some s) lines = elim (Bool-cases (ltb now s.next_log_at)) [
  | inl early ↦ rw early (omega arith)
  | inr due ↦ rw (due, text_eq_refl key) (omega arith)
]

told-add_line :
    (key k : Text) (o : Option ℕ) (lines : Lines)
    → text_eq k key ≡ false
    → told key (add_line k o lines) ≡ told key lines
told-add_line key k none lines h = refl
told-add_line key k (some n) lines h = rw h (omega arith)

log_throttled-counts :
    (interval now : ℕ) (key k : Text) (states : LogStates) (lines : Lines)
    → let (line, states') = log_throttled interval now k states in
      told key (add_line k line lines) + waiting key states'
      ≡ told key lines + waiting key states + (if text_eq k key then 1 else 0)
unfolding log_throttled
log_throttled-counts interval now key k states lines = elim (Bool-cases (text_eq k key)) [
  | inl same ↦ rw (text_eq-true k key same) (
      rw (get-put key key (throttle interval now (get key states)).1 states, text_eq_refl key)
        (throttle-counts interval now key (get key states) lines))
  | inr other ↦
      rw
        (
          get-put key k (throttle interval now (get k states)).1 states,
          other,
          told-add_line key k (throttle interval now (get k states)).0 lines other,
        )
        (omega arith)
]

-- No call is lost by the throttling: over any sequence of calls of any keys, the lines of a key stand
-- for as many calls, each for itself and those that it names, as there were, but for the ones that the next line
-- of the key will name.
pub log_all-counts :
    (interval : ℕ) (calls : List (ℕ × Text)) (key : Text) (states : LogStates) (lines : Lines)
    → let (states', lines') = log_all interval calls (states, lines) in
      told key lines' + waiting key states'
      ≡ told key lines + waiting key states + calls_of key calls
unfolding log_all
log_all-counts interval [] key states lines = omega arith
log_all-counts interval ((now, k) ∷ calls) key states lines =
    let (line, states') = log_throttled interval now k states in
    let first = log_throttled-counts interval now key k states lines in
    let rest = log_all-counts interval calls key states' (add_line k line lines) in
    omega (arith, first, rest)
