-- ===== src/Stratum/Work.antt =====
-- The jobs that a client is sent (src/models/StratumV1Client.ts): `sendNewMiningJob`,
-- `refreshMiningJob`, `refreshLocalMiningWork` and `checkDifficulty`. The coinbase that the job's constructor serializes
-- is an argument.
pub mod Difficulty
pub mod Rotation
use elektron_net_ppool.Common.{
  ℕ, ◌+◌, ◌-◌, ◌*◌, ◌/◌, ◌%◌, ◌^◌, Bool, true, false, Option, none, some, List, [], ◌∷◌, max, ltb,
  ◌&&◌, ◌++◌, if◌then◌else◌,
}
use elektron_net_ppool.Common.Js.{Text}
use elektron_net_ppool.Common.Float.{Float64}
use elektron_net_ppool.Jobs.{JobTemplate, Job, JobsService, get_next_id, add_job}
use elektron_net_ppool.Stratum.Session.{
  Output, notify, set_difficulty, Client, Net, is_socket_closed, write,
}

-- `elektronPoolVersionCounter & 0x0f`
abbrev pub rotation_state : ℕ → ℕ
rotation_state counter = counter % 16

-- `(version & ~0x0001e000) | (rotationState << 13)` of 32 bits: bits 13 to 16 are replaced.
unfoldable pub job_version_of : (version counter : ℕ) → ℕ
job_version_of version counter =
    version % 2 ^ 32 / 2 ^ 17 * 2 ^ 17 + rotation_state counter * 2 ^ 13 + version % 2 ^ 13

module _ (f : Float64) where
  abbrev pub reset_on_clear : Bool → Client f → Client f
  reset_on_clear clear_jobs c =
      if clear_jobs then record c { elektron_pool_version_counter = 0 } else c

  unfoldable pub new_job :
      (now : ℕ) → (coinbase : List ℕ) → JobTemplate f → (counter : ℕ) → JobsService f → Job f
  unfolding job_version_of get_next_id
  new_job now coinbase t counter s = record {
    job_id = get_next_id f s;
    job_template_id = t.id;
    creation = now;
    job_version = job_version_of t.version counter;
    merkle_branch = t.merkle_branch;
    coinbase = coinbase;
  }

  abbrev pub mark_sent : (now : ℕ) → JobTemplate f → Bool × Client f → Client f
  mark_sent now t (true, c) = record c {
    last_sent_mining_job_timestamp = some t.timestamp;
    last_local_work_sent_at = now;
  }
  mark_sent now t (false, c) = c

  unfoldable pub send_new_mining_job :
      Net f
      → (now : ℕ) → (coinbase : List ℕ) → JobTemplate f
      → Client f
      → JobsService f
      → Client f × JobsService f
  unfolding new_job add_job write
  send_new_mining_job net now coinbase t c s =
      let counter = (reset_on_clear t.clear_jobs c).elektron_pool_version_counter in
      let job = new_job now coinbase t counter s in
      if is_socket_closed f c then (c, s) else (
        mark_sent now t (
            write f net (notify job.job_id job.job_version t.timestamp t.clear_jobs)
              (record c { elektron_pool_version_counter = counter + 1 })),
        add_job f job s,
      )

  -- With a template of `buildTemplateFor`; the client is authorized.
  unfoldable pub refresh_mining_job :
      Net f
      → (now : ℕ) → (coinbase : List ℕ) → JobTemplate f
      → Client f
      → JobsService f
      → Client f × JobsService f
  unfolding send_new_mining_job
  refresh_mining_job net now coinbase t c s =
      if is_socket_closed f c
      then (c, s)
      else let c' = if t.clear_jobs then record c { mining_submission_hashes = [] } else c in
        send_new_mining_job net now coinbase t (record c' { current_job_template = some t }) s

  abbrev pub local_template : (now : ℕ) → JobTemplate f → JobTemplate f
  local_template now t = record t { timestamp = max t.timestamp (now / 1000); clear_jobs = false }

  -- `nowMs - lastLocalWorkSentAt < 350`
  unfoldable pub refresh_local_mining_work :
      Net f → (now : ℕ) → (coinbase : List ℕ) → Client f → JobsService f → Client f × JobsService f
  unfolding send_new_mining_job
  refresh_local_mining_work net now coinbase c s = elim c.current_job_template [
    | none ↦ (c, s)
    | some t ↦
        if is_socket_closed f c
        then (c, s)
        else if ltb now (c.last_local_work_sent_at + 350)
        then (c, s)
        else send_new_mining_job net now coinbase (local_template now t) c s
  ]

  -- `socket.write(data)`, whose failure is not looked at.
  abbrev pub socket_write : Output f → Client f → Client f
  socket_write o c = if is_socket_closed f c then c else record c { outputs = c.outputs ++ o ∷ [] }

  abbrev sent_or_zero : Option ℕ → ℕ
  sent_or_zero none = 0
  sent_or_zero (some t) = t

  -- The template with a time after that of the last job, and with the jobs to be cleared.
  abbrev pub refreshed_template : (now : ℕ) → Client f → JobTemplate f → JobTemplate f
  refreshed_template now c t = record t {
    timestamp =
        max (max t.timestamp (now / 1000)) (sent_or_zero c.last_sent_mining_job_timestamp + 1);
    clear_jobs = true;
  }

  abbrev pub template_or : JobTemplate f → Option (JobTemplate f) → JobTemplate f
  template_or fresh none = fresh
  template_or fresh (some t) = t

  -- `target_diff` is what the statistics suggest, and `fresh` what `buildTemplateFor` would answer.
  unfoldable pub check_difficulty :
      Net f
      → (now : ℕ) → (coinbase : List ℕ) → (fresh : JobTemplate f) → (target_diff : Option f.F)
      → Client f
      → JobsService f
      → Client f × JobsService f
  unfolding send_new_mining_job
  check_difficulty net now coinbase fresh none c s = (c, s)
  check_difficulty net now coinbase fresh (some target_diff) c s =
      if f.le target_diff c.session_difficulty && f.le c.session_difficulty target_diff
      then (c, s)
      else let t = template_or fresh c.current_job_template in
        let c' =
          socket_write (set_difficulty target_diff)
            (record c { session_difficulty = target_diff }) in
        send_new_mining_job net now coinbase (refreshed_template now c t)
          (record c' { current_job_template = some t }) s
