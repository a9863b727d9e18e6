-- ===== src/Stratum/Work/Difficulty.antt =====
-- The job that goes with a new difficulty.
use elektron_net_ppool.Common.{
  ℕ, ◌<◌, ◌≡◌, ◌∙◌, true, false, ◌&&◌, some, List, ◌∷◌, [], ◌++◌, arith, append_assoc,
}
use elektron_net_ppool.Common.Float.{Float64}
use elektron_net_ppool.Jobs.{JobTemplate, JobsService}
use elektron_net_ppool.Stratum.Session.{set_difficulty, notify, Client, Net, is_socket_closed}
use elektron_net_ppool.Stratum.Work.{new_job, refreshed_template, template_or, check_difficulty}
use elektron_net_ppool.Stratum.Work.Rotation.{send_new_mining_job_lem}

module _ (f : Float64) (net : Net f) (now : ℕ) (coinbase : List ℕ) (fresh : JobTemplate f) where
  -- On an open socket, of a suggestion that is not the session's difficulty the miner is told
  -- the difficulty and right after it a job that clears the former ones, and the time of this job is
  -- after that of the last one.
  pub check_difficulty_lem :
      (target_diff : f.F) (last : ℕ) (c : Client f) (s : JobsService f)
      → is_socket_closed f c ≡ false
      → c.last_sent_mining_job_timestamp ≡ some last
      → (f.le target_diff c.session_difficulty && f.le c.session_difficulty target_diff) ≡ false
      → let r = check_difficulty f net now coinbase fresh (some target_diff) c s in
        let t = refreshed_template f now c (template_or f fresh c.current_job_template) in
        let job = new_job f now coinbase t 0 s in
        (r.0.outputs
          ≡ c.outputs
            ++ set_difficulty target_diff ∷ notify job.job_id job.job_version t.timestamp true ∷ [])
        × (last < t.timestamp)
  unfolding check_difficulty
  check_difficulty_lem target_diff last c s h e k =
      let t = template_or f fresh c.current_job_template in
      let c' : Client f = record c {
        session_difficulty = target_diff;
        outputs = c.outputs ++ set_difficulty target_diff ∷ [];
        current_job_template = some t;
      } in
      (
        rw (k, h)
            ((send_new_mining_job_lem f net now coinbase (refreshed_template f now c t) c' s h).2
              ∙ append_assoc c.outputs _ _),
        rw e (omega arith),
      )
