-- ===== src/Stratum/Session.antt =====
-- The state of a connection, its socket, and what ends it (src/models/StratumV1Client.ts).
use elektron_net_ppool.Common.{
  ℕ, String, Bool, true, false, ◌||◌, Option, none, List, [], ◌∷◌, ◌++◌, if◌then◌else◌,
}
use elektron_net_ppool.Common.Js.{Text}
use elektron_net_ppool.Common.Float.{Float64}
use elektron_net_ppool.Jobs.{JobTemplate}

-- eStratumErrorCode
pub data StratumErrorCode : Type 0 where
  other_unknown job_not_found duplicate_share low_difficulty_share unauthorized_worker
        not_subscribed :
      StratumErrorCode

module _ (f : Float64) where
  -- A message to the miner; `set_difficulty` is `mining.set_difficulty`, and `notify` has the job's id,
  -- version and timestamp and whether jobs are to be cleared.
  pub data Output : Type 0 where
    subscribed : (session_id : Text) → (hobby : Bool) → Output
    configured : Output
    accepted : Output
    set_difficulty : f.F → Output
    error : StratumErrorCode → Output
    notify : (job_id : Text) → (version timestamp : ℕ) → Bool → Output

  pub record Authorization : Type 0 where
    pub address : String
    pub worker : Text
    pub starting_diff : Option f.F

  -- ClientEntity, of the fields that the client reads.
  pub record ClientEntity : Type 0 where
    pub best_difficulty : f.F
    pub updated_at : Option ℕ

  pub record Client : Type 0 where
    pub client_subscription : Option Text
    pub client_configured : Bool
    pub client_authorization : Option Authorization
    pub client_suggested_difficulty : Option f.F
    pub stratum_subscribed : Bool
    pub background_work : ℕ
    pub stratum_initialized : Bool
    pub used_suggested_difficulty : Bool
    pub session_difficulty : f.F
    pub is_hobby_miner_session : Bool
    pub entity : Option ClientEntity
    pub session_id : Option Text
    pub connection_closed : Bool
    -- `socket.writableEnded` and `socket.destroyed`
    pub writable_ended : Bool
    pub socket_destroyed : Bool
    pub last_sent_mining_job_timestamp : Option ℕ
    pub is_destroyed : Bool
    pub elektron_pool_version_counter : ℕ
    pub current_job_template : Option (JobTemplate f)
    pub last_local_work_sent_at : ℕ
    pub mining_submission_hashes : List Text
    pub outputs : List Output

  -- Whether the write of the last of these outputs succeeded.
  abbrev pub Net : Type 0
  Net = List Output → Bool

  abbrev pub is_socket_closed : Client → Bool
  is_socket_closed c = c.connection_closed || (c.socket_destroyed || c.writable_ended)

  -- The row of the client is deleted too, if it has an id.
  unfoldable pub destroy : Client → Client
  destroy c = if c.is_destroyed then c else record c {
    connection_closed = true;
    background_work = 0;
    stratum_subscribed = false;
    current_job_template = none;
    is_destroyed = true;
  }

  unfoldable pub close_socket : Client → Client
  unfolding destroy
  close_socket c = record (destroy (record c { connection_closed = true })) {
    connection_closed = true;
    socket_destroyed = true;
  }

  -- `socket.end()`
  unfoldable pub end_socket : Client → Client
  end_socket c = record c { writable_ended = true }

  -- The result is whether the client goes on. A failed write destroys the client and the socket.
  unfoldable pub write : Net → Output → Client → Bool × Client
  unfolding destroy
  write net o c =
      if is_socket_closed c
      then (false, c)
      else let c' = record c { outputs = c.outputs ++ o ∷ [] } in
        if net c'.outputs
        then (true, c')
        else (false, record (destroy c') { socket_destroyed = true })
