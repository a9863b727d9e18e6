-- ===== src/Stratum/Submit/Connection.antt =====
-- The handler of submissions within a connection.
use elektron_net_ppool.Common.{
  ℕ, String, Bool, true, false, Option, none, some, List, ◌∷◌, arith, if◌then◌else◌,
}
use elektron_net_ppool.Common.Js.{Text}
use elektron_net_ppool.Common.Float.{Float64}
use elektron_net_ppool.Config.{Config}
use elektron_net_ppool.Jobs.{JobTemplate, Job}
use elektron_net_ppool.Stratum.Header.{Submission, calculate_difficulty}
use elektron_net_ppool.Stratum.Session.{
  StratumErrorCode, low_difficulty_share, duplicate_share, job_not_found, accepted, error, Client,
  write, end_socket,
}
use elektron_net_ppool.Stratum.Messages.{Message, handle_lines}
use elektron_net_ppool.Stratum.Messages.Consistency.{
  IsConsistent, write-IsGood, handle_lines-IsConsistent,
}
use elektron_net_ppool.Stratum.Submit.{
  Pool, Backend, submission_hash, has_hash, header_of, log_share, block_found, finish, credit_share,
  answer, judge, address_of, check_submission, check_job, handle_mining_submission,
}

-- Both sides of a test.
either :
    {A : Type 0} (P : A → Type 0) (test : Bool) (x y : A) → P x → P y → P (if test then x else y)
either P true x y p q = p
either P false x y p q = q

module _ (f : Float64) (b : Backend f) (config : Config) (now : ℕ) where
  finish-IsConsistent :
      (a : String) (d : f.F) (header : List ℕ) (c : Client f) (go_on : Bool) (p : Pool f)
      → IsConsistent f c
      → IsConsistent f (finish f config now a d header c (go_on, p)).0
  unfolding finish end_socket
  finish-IsConsistent a d header c false p k = ground (arith, k.timers, k.idle, k.ready)
  finish-IsConsistent a d header c true p k = ground (arith, k.timers, k.idle, k.ready)

  credit_share-IsConsistent :
      (a : String) (d : f.F) (t : JobTemplate f) (header : List ℕ) (c : Client f) (p : Pool f)
      → IsConsistent f c
      → IsConsistent f (credit_share f b config now a d t header c p).0
  unfolding credit_share
  credit_share-IsConsistent a d t header c p k =
      let logged = log_share f b now a d t.height p in
      let r =
        if f.le t.network_difficulty d
        then block_found f b config now a t header logged
        else (true, logged) in
      finish-IsConsistent a d header c r.0 r.1 k

  answer-IsConsistent :
      (code : StratumErrorCode) (c : Client f)
      → IsConsistent f c
      → IsConsistent f (answer f b code c)
  unfolding answer
  answer-IsConsistent code c k = (write-IsGood f b.net (error code) c k).0

  judge-IsConsistent :
      (a : String) (t : JobTemplate f) (header : Option (List ℕ)) (c : Client f) (p : Pool f)
      → IsConsistent f c
      → IsConsistent f (judge f b config now a t header c p).0
  unfolding judge end_socket
  judge-IsConsistent a t none c p k = ground (arith, k.timers, k.idle, k.ready)
  judge-IsConsistent a t (some header) c p k =
      let d = calculate_difficulty f b.hash256 b.infinity header in
      let w = write-IsGood f b.net accepted c k in
      let credited = credit_share-IsConsistent a d t header (write f b.net accepted c).1 p w.0 in
      let refused = answer-IsConsistent low_difficulty_share c k in
      either (λ (r : Client f × Pool f). IsConsistent f r.0) (f.le c.session_difficulty d) _ _
        (either (λ (r : Client f × Pool f). IsConsistent f r.0) (write f b.net accepted c).0 _ _
          credited w.0)
        refused

  check_submission-IsConsistent :
      (s : Submission) (job : Job f) (t : Option (JobTemplate f)) (c : Client f) (p : Pool f)
      → IsConsistent f c
      → IsConsistent f (check_submission f b config now s job t c p).0
  unfolding check_submission
  check_submission-IsConsistent s job none c p k = answer-IsConsistent job_not_found c k
  check_submission-IsConsistent s job (some t) c p k =
      let c' = record c {
        mining_submission_hashes = submission_hash f s ∷ c.mining_submission_hashes;
      } in
      let seen = answer-IsConsistent duplicate_share c k in
      let fresh =
        judge-IsConsistent (address_of f c.client_authorization) t (header_of f b s job t) c' p
          (ground (arith, k.timers, k.idle, k.ready)) in
      either (λ (r : Client f × Pool f). IsConsistent f r.0)
        (has_hash f (submission_hash f s) c.mining_submission_hashes) _ _ seen fresh

  check_job-IsConsistent :
      (s : Submission) (job : Option (Job f)) (c : Client f) (p : Pool f)
      → IsConsistent f c
      → IsConsistent f (check_job f b config now s job c p).0
  unfolding check_job
  check_job-IsConsistent s none c p k = answer-IsConsistent job_not_found c k
  check_job-IsConsistent s (some job) c p k = check_submission-IsConsistent s job _ c p k

  handle_mining_submission-IsConsistent :
      (s : Submission) (c : Client f) (p : Pool f)
      → IsConsistent f c
      → IsConsistent f (handle_mining_submission f b config now s c p).0
  unfolding handle_mining_submission
  handle_mining_submission-IsConsistent s c p k = check_job-IsConsistent s _ c p k

  -- With the pool's own handler of submissions, the lines of any `data` event keep a connection
  -- consistent: timers run only for an initialized client that is not destroyed, an initialized client
  -- has both subscribed and authorized, and a destroyed one is closed and has no timers.
  pub handle_lines_submitting-IsConsistent :
      (session_id : Text) (ms : List (Message f Submission)) (c : Client f) (p : Pool f)
      → IsConsistent f c
      → IsConsistent f
          (handle_lines f
            (handle_mining_submission f b config now)
            config
            b.net
            session_id
            ms
            c
            p).0
  handle_lines_submitting-IsConsistent session_id ms c p k =
      handle_lines-IsConsistent f (handle_mining_submission f b config now)
        handle_mining_submission-IsConsistent config b.net session_id ms c p k
