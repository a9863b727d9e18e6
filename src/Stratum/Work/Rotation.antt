-- ===== src/Stratum/Work/Rotation.antt =====
-- The version bits that the pool rotates, over the jobs of one client.
use elektron_net_ppool.Common.{
  ℕ, ◌+◌, ◌/◌, ◌%◌, ◌^◌, ◌<◌, ◌≡◌, false, List, ◌∷◌, [], ◌++◌, if◌then◌else◌, arith,
}
use elektron_net_ppool.Common.Float.{Float64}
use elektron_net_ppool.Jobs.{JobTemplate, JobsService, add_job}
use elektron_net_ppool.Stratum.Session.{notify, Client, Net, is_socket_closed, write, destroy}
use elektron_net_ppool.Stratum.Work.{
  job_version_of, new_job, send_new_mining_job, refresh_local_mining_work,
}

-- Two jobs of one template have the same version only if their counters agree modulo 16, so that any
-- sixteen in a row have different versions; and all bits but bits 13 to 16 are the template's.
pub job_version_of_rotates :
    (version n m : ℕ)
    → (job_version_of version n % 2 ^ 13 ≡ version % 2 ^ 13)
      × (job_version_of version n / 2 ^ 17 ≡ version % 2 ^ 32 / 2 ^ 17)
      × (job_version_of version n / 2 ^ 13 % 16 ≡ n % 16)
      × (job_version_of version n ≡ job_version_of version m → n % 16 ≡ m % 16)
unfolding job_version_of
job_version_of_rotates version n m = (omega arith, omega arith, omega arith, λ e. omega arith)

module _ (f : Float64) (net : Net f) (now : ℕ) (coinbase : List ℕ) where
  -- Local work is not sent within 350 ms of the last job, and it never forgets which submissions were
  -- seen.
  pub refresh_local_mining_work_lem :
      (c : Client f) (s : JobsService f)
      → let r = refresh_local_mining_work f net now coinbase c s in
        (now < c.last_local_work_sent_at + 350 → r ≡ (c, s))
        × (r.0.mining_submission_hashes ≡ c.mining_submission_hashes)
  unfolding refresh_local_mining_work send_new_mining_job write destroy
  refresh_local_mining_work_lem c s = ground arith

  -- A job on an open socket: the service keeps the job, under its next id; the counter goes on from 0
  -- if jobs are cleared; and the miner is told that id, with the version that the kept job has.
  pub send_new_mining_job_lem :
      (t : JobTemplate f) (c : Client f) (s : JobsService f)
      → is_socket_closed f c ≡ false
      → let r = send_new_mining_job f net now coinbase t c s in
        let counter = if t.clear_jobs then 0 else c.elektron_pool_version_counter in
        let job = new_job f now coinbase t counter s in
        (r.1 ≡ add_job f job s)
        × (r.0.elektron_pool_version_counter ≡ counter + 1)
        × (r.0.outputs
            ≡ c.outputs ++ notify job.job_id job.job_version t.timestamp t.clear_jobs ∷ [])
  unfolding send_new_mining_job write destroy
  send_new_mining_job_lem t c s e = ground arith
