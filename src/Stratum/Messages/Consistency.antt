-- ===== src/Stratum/Messages/Consistency.antt =====
-- What holds of a connection across all messages: its timers, its handshake, and its silence once
-- the socket is closed.
use elektron_net_ppool.Common.{◌≡◌, refl, ◌⊎◌, Bool, true, false, some, List, [], ◌∷◌, arith}
use elektron_net_ppool.Common.Js.{Text}
use elektron_net_ppool.Common.Float.{Float64}
use elektron_net_ppool.Config.{Config}
use elektron_net_ppool.Stratum.Session.{
  other_unknown, Output, configured, error, Authorization, Client, Net, is_socket_closed, destroy,
  close_socket, end_socket, write,
}
use elektron_net_ppool.Stratum.Messages.{
  Message, invalid_json, subscribe, configure, authorize, suggest_difficulty, submit,
  unknown_method, Step, is_some, start_session, handle_subscribe, handle_authorize, handle_suggest,
  init_stratum, try_init, continue, handle_submit, Handler, handle_message, handle_lines,
}

module _ (f : Float64) where
  -- Timers run only for an initialized client that is not destroyed, at most the three of them; an
  -- initialized client has subscribed and is authorized; a destroyed one is closed.
  pub record IsConsistent (c : Client f) : Type 0 where
    pub timers :
        (c.background_work ≡ 0) ⊎ ((c.background_work ≡ 3) × (c.stratum_initialized ≡ true))
    pub idle : c.is_destroyed ≡ true → (c.background_work ≡ 0) × (c.connection_closed ≡ true)
    pub ready :
        c.stratum_initialized ≡ true
        → (is_some c.client_subscription ≡ true) × (is_some c.client_authorization ≡ true)

  -- A handler goes on only with a client whose socket is open.
  abbrev pub IsGood : Step f → Type 0
  IsGood r = IsConsistent r.1 × (r.0 ≡ true → is_socket_closed f r.1 ≡ false)

  pub write-IsGood :
      (net : Net f) (o : Output f) (c : Client f) → IsConsistent c → IsGood (write f net o c)
  unfolding write destroy
  write-IsGood net o c k = ground (arith, k.timers, k.idle, k.ready)

  close_socket-IsConsistent : (c : Client f) → IsConsistent c → IsConsistent (close_socket f c)
  unfolding close_socket destroy
  close_socket-IsConsistent c k = ground (arith, k.timers, k.idle, k.ready)

  destroyed_is_closed :
      (c : Client f) → IsConsistent c → is_socket_closed f c ≡ false → c.is_destroyed ≡ false
  destroyed_is_closed c k is_open = ground (arith, k.timers, k.idle, k.ready)

  start_session-IsConsistent :
      (config : Config) (session_id agent : Text) (c : Client f)
      → IsConsistent c
      → IsConsistent
          (record (start_session f config session_id agent c) { client_subscription = some agent })
  start_session-IsConsistent config session_id agent c k = ground (arith, k.timers, k.idle, k.ready)

  handle_subscribe-IsGood :
      (config : Config) (net : Net f) (session_id agent : Text) (c : Client f)
      → IsConsistent c
      → IsGood (handle_subscribe f config net session_id agent c)
  unfolding handle_subscribe write close_socket destroy
  handle_subscribe-IsGood config net session_id agent c k =
      ground (arith, k.timers, k.idle, k.ready)

  handle_authorize-IsGood :
      (net : Net f) (a : Authorization f) (c : Client f)
      → IsConsistent c
      → IsGood (handle_authorize f net a c)
  unfolding handle_authorize write destroy
  handle_authorize-IsGood net a c k = ground (arith, k.timers, k.idle, k.ready)

  handle_suggest-IsGood :
      (net : Net f) (valid : Bool) (d : f.F) (c : Client f)
      → IsConsistent c
      → IsGood (handle_suggest f net valid d c)
  unfolding handle_suggest write destroy
  handle_suggest-IsGood net valid d c k = ground (arith, k.timers, k.idle, k.ready)

  configure-IsGood :
      (net : Net f) (c : Client f)
      → IsConsistent c
      → IsGood (write f net configured (record c { client_configured = true }))
  unfolding write destroy
  configure-IsGood net c k = ground (arith, k.timers, k.idle, k.ready)

  try_init-IsConsistent :
      (config : Config) (net : Net f) (c : Client f)
      → IsConsistent c
      → is_socket_closed f c ≡ false
      → IsConsistent (try_init f config net c)
  unfolding init_stratum write close_socket destroy
  try_init-IsConsistent config net c k is_open = ground (arith, k.timers, k.idle, k.ready)

  continue-IsConsistent :
      (config : Config) (net : Net f) (r : Step f)
      → IsGood r
      → IsConsistent (continue f config net r)
  continue-IsConsistent config net (true, c) (k, is_open) =
      try_init-IsConsistent config net c k (is_open refl)
  continue-IsConsistent config net (false, c) (k, is_open) = k

  module _ {Submission Pool : Type 0} (run : Handler f Submission Pool)
      (run-IsConsistent : (s : Submission) (c : Client f) (p : Pool)
        → IsConsistent c
        → IsConsistent (run s c p).0)
      (config : Config) (net : Net f) (session_id : Text) where
    handle_submit-IsConsistent :
        (valid : Bool) (s : Submission) (c : Client f) (p : Pool)
        → IsConsistent c
        → IsConsistent (handle_submit f run net valid s c p).0
    unfolding handle_submit write close_socket end_socket destroy
    handle_submit-IsConsistent valid s c p k =
        ground (arith, k.timers, k.idle, k.ready, run-IsConsistent s c p k)

    handle_message-IsConsistent :
        (m : Message f Submission) (c : Client f) (p : Pool)
        → IsConsistent c
        → is_socket_closed f c ≡ false
        → IsConsistent (handle_message f run config net session_id m c p).0
    unfolding handle_message end_socket
    handle_message-IsConsistent invalid_json c p k is_open =
        ground (arith, k.timers, k.idle, k.ready)
    handle_message-IsConsistent (subscribe true agent) c p k is_open =
        continue-IsConsistent config net _ (handle_subscribe-IsGood config net session_id agent c k)
    handle_message-IsConsistent (subscribe false agent) c p k is_open =
        continue-IsConsistent config net _ (write-IsGood net (error other_unknown) c k)
    handle_message-IsConsistent (configure true) c p k is_open =
        continue-IsConsistent config net _ (configure-IsGood net c k)
    handle_message-IsConsistent (configure false) c p k is_open =
        continue-IsConsistent config net _ (write-IsGood net (error other_unknown) c k)
    handle_message-IsConsistent (authorize true a) c p k is_open =
        continue-IsConsistent config net _ (handle_authorize-IsGood net a c k)
    handle_message-IsConsistent (authorize false a) c p k is_open =
        continue-IsConsistent config net _ (write-IsGood net (error other_unknown) c k)
    handle_message-IsConsistent (suggest_difficulty valid d) c p k is_open =
        continue-IsConsistent config net _ (handle_suggest-IsGood net valid d c k)
    handle_message-IsConsistent (submit valid s) c p k is_open =
        handle_submit-IsConsistent valid s c p k
    handle_message-IsConsistent unknown_method c p k is_open =
        try_init-IsConsistent config net c k is_open

    -- The lines of a `data` event, for a `run` that keeps a connection consistent.
    pub handle_lines-IsConsistent :
        (ms : List (Message f Submission)) (c : Client f) (p : Pool)
        → IsConsistent c
        → IsConsistent (handle_lines f run config net session_id ms c p).0
    unfolding handle_lines
    handle_lines-IsConsistent [] c p k = k
    handle_lines-IsConsistent (m ∷ ms) c p k =
        elim_closed (is_socket_closed f c) refl
          (λ e. handle_lines-IsConsistent ms _ _ (handle_message-IsConsistent m c p k e))
      where
        elim_closed :
            (b : Bool)
            → is_socket_closed f c ≡ b
            → (is_socket_closed f c ≡ false
                → let r = handle_message f run config net session_id m c p in
                  IsConsistent (handle_lines f run config net session_id ms r.0 r.1).0)
            → IsConsistent (handle_lines f run config net session_id (m ∷ ms) c p).0
        elim_closed true e rest = ground arith
        elim_closed false e rest = ground (arith, rest e)

    -- As long as a connection is not initialized, none of its messages changes the state that the
    -- connections share: only a `mining.submit` after the handshake reaches the share log.
    pub handle_message_uninitialized :
        (m : Message f Submission) (c : Client f) (p : Pool)
        → c.stratum_initialized ≡ false
        → (handle_message f run config net session_id m c p).1 ≡ p
    unfolding handle_message handle_submit
    handle_message_uninitialized invalid_json c p e = refl
    handle_message_uninitialized (subscribe true agent) c p e = refl
    handle_message_uninitialized (subscribe false agent) c p e = refl
    handle_message_uninitialized (configure true) c p e = refl
    handle_message_uninitialized (configure false) c p e = refl
    handle_message_uninitialized (authorize true a) c p e = refl
    handle_message_uninitialized (authorize false a) c p e = refl
    handle_message_uninitialized (suggest_difficulty valid d) c p e = refl
    handle_message_uninitialized (submit valid s) c p e = ground arith
    handle_message_uninitialized unknown_method c p e = refl
