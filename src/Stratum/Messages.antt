-- ===== src/Stratum/Messages.antt =====
-- `handleMessage` and `initStratum` (src/models/StratumV1Client.ts).
pub mod Consistency
use elektron_net_ppool.Common.{
  ◌+◌, ℕ, ◌*◌, ℤ, pos, String, Bool, true, false, ◌||◌, ◌&&◌, not, Option, none, some, List, [],
  ◌∷◌, ◌++◌, if◌then◌else◌,
}
use elektron_net_ppool.Common.Js.{Text}
use elektron_net_ppool.Common.Float.{Float64}
use elektron_net_ppool.Config.{Config}
use elektron_net_ppool.Stratum.Agents.{
  is_hobby_miner, is_low_hashrate_miner, is_blocked_user_agent, tuned_difficulty,
}
use elektron_net_ppool.Stratum.Session.{
  StratumErrorCode, other_unknown, Output, subscribed, configured, accepted, set_difficulty, error,
  Authorization, Client, Net, is_socket_closed, close_socket, end_socket, write,
}

abbrev pub is_some {ℓ} : {A : Type ℓ} → Option A → Bool
is_some none = false
is_some (some a) = true

module _ (f : Float64) where
  -- A request after parsing: `valid` is whether class-validator found no error.
  pub data Message (Submission : Type 0) : Type 0 where
    invalid_json : Message Submission
    subscribe : (valid : Bool) → (user_agent : Text) → Message Submission
    configure : (valid : Bool) → Message Submission
    authorize : (valid : Bool) → Authorization f → Message Submission
    suggest_difficulty : (valid : Bool) → f.F → Message Submission
    submit : (valid : Bool) → Submission → Message Submission
    unknown_method : Message Submission

  -- After a write the source returns from the whole handler if it failed.
  abbrev pub Step : Type 0
  Step = Bool × Client f

  abbrev pub report_error : Net f → Client f → Step
  unfolding write
  report_error net c = write f net (error other_unknown) c

  -- The first subscription fixes the session's id and mode.
  abbrev pub start_session : Config → (session_id : Text) → Text → Client f → Client f
  start_session config session_id agent c = elim c.session_id [
    | some id ↦ c
    | none ↦ record c {
      session_id = some session_id;
      is_hobby_miner_session = is_hobby_miner config agent;
    }
  ]

  abbrev or_empty : Option Text → Text
  or_empty none = []
  or_empty (some t) = t

  unfoldable pub handle_subscribe : Config → Net f → (session_id : Text) → Text → Client f → Step
  unfolding write close_socket
  handle_subscribe config net session_id agent c =
      if is_blocked_user_agent config agent
      then (false, close_socket f c)
      else let c' = record (start_session config session_id agent c) {
        client_subscription = some agent;
      } in
        write f net (subscribed (or_empty c'.session_id) c'.is_hobby_miner_session) c'

  abbrev raised : f.F → Option f.F → f.F
  raised d none = d
  raised d (some x) = if f.lt d x then x else d

  -- `password` may raise the difficulty, unless the miner has suggested one.
  unfoldable pub handle_authorize : Net f → Authorization f → Client f → Step
  unfolding write
  handle_authorize net a c =
      let d : f.F = elim c.client_suggested_difficulty [
        | none ↦ raised c.session_difficulty a.starting_diff
        | some x ↦ c.session_difficulty
      ] in
      write f net accepted (record c { client_authorization = some a; session_difficulty = d })

  abbrev pub mark_used : Step → Step
  mark_used (true, c) = (true, record c { used_suggested_difficulty = true })
  mark_used (false, c) = (false, c)

  unfoldable pub handle_suggest : Net f → Bool → f.F → Client f → Step
  unfolding write
  handle_suggest net valid d c =
      if c.used_suggested_difficulty
      then (false, c)
      else if valid
      then mark_used (
          write f net (set_difficulty d)
            (record c { client_suggested_difficulty = some d; session_difficulty = d }))
      else report_error net c

  abbrev pub session_difficulty_of : Config → Text → Client f → f.F
  session_difficulty_of config agent c =
      let thousandth = f.div (f.of_int (pos 1)) (f.of_int (pos 1000)) in
      let tenth = f.div (f.of_int (pos 1)) (f.of_int (pos 10)) in
      if c.is_hobby_miner_session
      then tuned_difficulty f config "HOBBY_MINER_DIFFICULTY" thousandth
      else if is_low_hashrate_miner config agent
      then tuned_difficulty f config "LOW_HASHRATE_DIFFICULTY" tenth
      else c.session_difficulty

  -- Subscribing to new blocks, and the three timers.
  abbrev pub start_work : Step → Client f
  start_work (true, c) = record c {
    stratum_subscribed = true;
    background_work = c.background_work + 3;
  }
  start_work (false, c) = c

  abbrev pub announce_difficulty : Net f → Client f → Step
  announce_difficulty net c = elim c.client_suggested_difficulty [
    | some d ↦ (true, c)
    | none ↦ write f net (set_difficulty c.session_difficulty) c
  ]

  unfoldable pub init_stratum : Config → Net f → Text → Client f → Client f
  unfolding write close_socket
  init_stratum config net agent c =
      let c' = record c { stratum_initialized = true } in
      if is_blocked_user_agent config agent
      then close_socket f c'
      else start_work (
          announce_difficulty net
            (record c' { session_difficulty = session_difficulty_of config agent c' }))

  -- The end of `handleMessage`: both halves of the handshake are there for the first time.
  abbrev pub try_init : Config → Net f → Client f → Client f
  try_init config net c = elim c.client_subscription [
    | none ↦ c
    | some agent ↦
        if is_some c.client_authorization && not c.stratum_initialized
        then init_stratum config net agent c
        else c
  ]

  abbrev pub continue : Config → Net f → Step → Client f
  continue config net (true, c) = try_init config net c
  continue config net (false, c) = c

  -- `run` is `handleMiningSubmission`, whose result is always `false`: no second answer is written.
  -- `Pool` is the state that all connections share.
  abbrev pub Handler : Type 0 → Type 0 → Type 0
  Handler Submission Pool = Submission → Client f → Pool → Client f × Pool

  unfoldable pub handle_submit :
      {Submission Pool : Type 0}
      → Handler Submission Pool
      → Net f
      → Bool
      → Submission
      → Client f
      → Pool
      → Client f × Pool
  unfolding write close_socket end_socket
  handle_submit run net valid s c p =
      if not c.stratum_initialized
      then (end_socket f c, p)
      else if valid
      then run s c p
      else let (success, c') = report_error net c in (if success then close_socket f c' else c', p)

  unfoldable pub handle_message :
      {Submission Pool : Type 0}
      → Handler Submission Pool
      → Config
      → Net f
      → (session_id : Text) → Message Submission
      → Client f
      → Pool
      → Client f × Pool
  unfolding handle_subscribe handle_authorize handle_suggest handle_submit init_stratum
  handle_message run config net session_id invalid_json c p = (end_socket f c, p)
  handle_message run config net session_id (subscribe true agent) c p =
      (continue config net (handle_subscribe config net session_id agent c), p)
  handle_message run config net session_id (subscribe false agent) c p =
      (continue config net (report_error net c), p)
  handle_message run config net session_id (configure true) c p =
      (continue config net (write f net configured (record c { client_configured = true })), p)
  handle_message run config net session_id (configure false) c p =
      (continue config net (report_error net c), p)
  handle_message run config net session_id (authorize true a) c p =
      (continue config net (handle_authorize net a c), p)
  handle_message run config net session_id (authorize false a) c p =
      (continue config net (report_error net c), p)
  handle_message run config net session_id (suggest_difficulty valid d) c p =
      (continue config net (handle_suggest net valid d c), p)
  handle_message run config net session_id (submit valid s) c p = handle_submit run net valid s c p
  handle_message run config net session_id unknown_method c p = (try_init config net c, p)

  -- The loop over the lines of one `data` event: it stops once the socket is closed.
  unfoldable pub handle_lines :
      {Submission Pool : Type 0}
      → Handler Submission Pool
      → Config
      → Net f
      → (session_id : Text) → List (Message Submission)
      → Client f
      → Pool
      → Client f × Pool
  handle_lines run config net session_id [] c p = (c, p)
  handle_lines run config net session_id (m ∷ ms) c p =
      let (c', p') = handle_message run config net session_id m c p in
      let next = handle_lines run config net session_id ms c' p' in
      if is_socket_closed f c then (c, p) else next
