-- ===== src/Stratum/Submit/Credit.antt =====
-- What a share that counts changes in the tables of the pool.
use elektron_net_ppool.Common.{
  ℕ, ◌≡◌, ◌∙◌, sym, ap, subst, String, Bool, true, false, ◌&&◌, some, List, [], ◌∷◌, ◌++◌,
  if◌then◌else◌, arith,
}
use elektron_net_ppool.Common.Float.{Float64}
use elektron_net_ppool.Config.{Config}
use elektron_net_ppool.Shares.{ShareLog, record_share}
use elektron_net_ppool.Rewards.{Books, process_block_found}
use elektron_net_ppool.Jobs.{JobTemplate, Job, get_job_by_id, get_job_template_by_id}
use elektron_net_ppool.Stratum.Header.{Submission, calculate_difficulty}
use elektron_net_ppool.Stratum.Session.{accepted, Client, write, is_socket_closed}
use elektron_net_ppool.Stratum.Submit.{
  Pool, Backend, submission_hash, has_hash, header_of, log_share, block_found, finish, credit_share,
  judge, address_of, check_submission, check_job, handle_mining_submission,
}

-- The fields of a client on which the next submissions depend.
pub record SameClient {f : Float64} (ok : Bool) (c c' : Client f) : Type 0 where
  pub hashes : c'.mining_submission_hashes ≡ c.mining_submission_hashes
  pub difficulty : c'.session_difficulty ≡ c.session_difficulty
  pub authorization : c'.client_authorization ≡ c.client_authorization
  pub outputs : c'.outputs ≡ c.outputs
  pub closed : ok ≡ true → is_socket_closed f c' ≡ is_socket_closed f c

module _ (f : Float64) (b : Backend f) (config : Config) (now : ℕ) where
  -- Nothing throws between the node's answer and the reward.
  abbrev pub is_undisturbed : Bool
  is_undisturbed = b.block_is_saved && b.block_is_notified

  -- What the tables and the client have in common before and after the last steps of a credited share.
  finish-keeps :
      (a : String) (d : f.F) (header : List ℕ) (c : Client f) (go_on : Bool) (p : Pool f)
      → let r = finish f config now a d header c (go_on, p) in
        (r.1.shares ≡ p.shares)
        × (r.1.books ≡ p.books)
        × (r.1.jobs ≡ p.jobs)
        × SameClient go_on c r.0
  unfolding finish
  finish-keeps a d header c false p = ground arith
  finish-keeps a d header c true p = ground arith

  unfoldable pub credited_books : JobTemplate f → f.F → List ℕ → ShareLog f → Books → Books
  unfolding process_block_found
  credited_books t d header shares books =
      if f.le t.network_difficulty d && b.node_accepts header && is_undisturbed
      then process_block_found f config now t.height t.coinbasevalue shares books
      else books

  pub credit_share-keeps :
      (a : String) (d : f.F) (t : JobTemplate f) (header : List ℕ) (c : Client f) (p : Pool f)
      → let r = credit_share f b config now a d t header c p in
        let logged = (log_share f b now a d t.height p).shares in
        (r.1.shares ≡ logged)
        × (r.1.books ≡ credited_books t d header logged p.books)
        × (r.1.jobs ≡ p.jobs)
        × SameClient is_undisturbed c r.0
  unfolding credit_share credited_books log_share block_found
  credit_share-keeps a d t header c p =
      let logged = log_share f b now a d t.height p in
      let r =
        if f.le t.network_difficulty d
        then block_found f b config now a t header logged
        else (true, logged) in
      ground (arith, finish-keeps a d header c r.0 r.1)

  judge-accepted :
      (a : String) (t : JobTemplate f) (header : List ℕ) (c : Client f) (p : Pool f)
      → let d = calculate_difficulty f b.hash256 b.infinity header in
        f.le c.session_difficulty d ≡ true
        → is_socket_closed f c ≡ false
        → b.net (c.outputs ++ accepted ∷ []) ≡ true
        → judge f b config now a t (some header) c p
          ≡ credit_share f b config now a d t header
              (record c { outputs = c.outputs ++ accepted ∷ [] })
              p
  unfolding judge write
  judge-accepted a t header c p e is_open sent = ground arith

  -- What a submission is judged by, as the code finds it: a known job and template, and a header.
  pub record IsJudged (s : Submission) (p : Pool f) (job : Job f) (t : JobTemplate f)
      (header : List ℕ) : Type 0 where
    pub job_found : get_job_by_id f s.job_id p.jobs ≡ some job
    pub template_found : get_job_template_by_id f job.job_template_id p.jobs ≡ some t
    pub header_built : header_of f b s job t ≡ some header

  -- The tables after a credited share, and the client's state for the next.
  pub record IsCredited (s : Submission) (t : JobTemplate f) (header : List ℕ) (c : Client f)
      (p : Pool f) (c' : Client f) (p' : Pool f) : Type 0 where
    pub share :
        p'.shares
        ≡ record_share f now
            (address_of f c.client_authorization)
            (calculate_difficulty f b.hash256 b.infinity header)
            t.height
            p.shares
    pub books :
        p'.books
        ≡ credited_books t
            (calculate_difficulty f b.hash256 b.infinity header)
            header
            p'.shares
            p.books
    pub jobs : p'.jobs ≡ p.jobs
    pub client :
        SameClient is_undisturbed
          (record c {
            mining_submission_hashes = submission_hash f s ∷ c.mining_submission_hashes;
            outputs = c.outputs ++ accepted ∷ [];
          })
          c'

  handle_mining_submission-checked :
      (s : Submission) (c : Client f) (p : Pool f) (job : Job f) (t : JobTemplate f)
      (header : List ℕ)
      → IsJudged s p job t header
      → has_hash f (submission_hash f s) c.mining_submission_hashes ≡ false
      → handle_mining_submission f b config now s c p
        ≡ judge f b config now
            (address_of f c.client_authorization)
            t
            (some header)
            (record c {
              mining_submission_hashes = submission_hash f s ∷ c.mining_submission_hashes;
            })
            p
  unfolding handle_mining_submission check_job check_submission
  handle_mining_submission-checked s c p job t header j fresh =
      rw (j.job_found, j.template_found, fresh, j.header_built)

  log_share-saved :
      (a : String) (d : f.F) (h : ℕ) (p : Pool f)
      → b.share_is_saved ≡ true
      → (log_share f b now a d h p).shares ≡ record_share f now a d h p.shares
  unfolding log_share
  log_share-saved a d h p e = rw e

  credit_share-IsCredited :
      (s : Submission) (c : Client f) (p : Pool f) (t : JobTemplate f) (header : List ℕ)
      → b.share_is_saved ≡ true
      → let d = calculate_difficulty f b.hash256 b.infinity header in
        let c₀ = record c {
          mining_submission_hashes = submission_hash f s ∷ c.mining_submission_hashes;
          outputs = c.outputs ++ accepted ∷ [];
        } in
        let r = credit_share f b config now (address_of f c.client_authorization) d t header c₀ p in
        IsCredited s t header c p r.0 r.1
  credit_share-IsCredited s c p t header saved =
      let d = calculate_difficulty f b.hash256 b.infinity header in
      let a = address_of f c.client_authorization in
      let k = credit_share-keeps a d t header _ p in
      record {
        share = k.0 ∙ log_share-saved a d t.height p saved;
        books = k.1 ∙ ap (λ l. credited_books t d header l p.books) (sym k.0);
        jobs = k.2;
        client = k.3;
      }

  -- A submission for a known job and template, not seen before, whose header can be built and has at least
  -- the session's difficulty, on an open socket, where the answer is written and the row of the share
  -- is saved: the share log grows by one share of the miner with
  -- the actual difficulty, and the books change exactly when the difficulty is also the network's
  -- and the node accepts the block, whose row is saved and whose notifications succeed, by the reward of that block over a log that has the share.
  pub handle_mining_submission-credits :
      (s : Submission) (c : Client f) (p : Pool f) (job : Job f) (t : JobTemplate f)
      (header : List ℕ)
      → IsJudged s p job t header
      → has_hash f (submission_hash f s) c.mining_submission_hashes ≡ false
      → f.le c.session_difficulty (calculate_difficulty f b.hash256 b.infinity header) ≡ true
      → is_socket_closed f c ≡ false
      → b.net (c.outputs ++ accepted ∷ []) ≡ true
      → b.share_is_saved ≡ true
      → let r = handle_mining_submission f b config now s c p in IsCredited s t header c p r.0 r.1
  handle_mining_submission-credits s c p job t header j fresh enough is_open sent saved =
      let checked = handle_mining_submission-checked s c p job t header j fresh in
      let accepted_then =
        judge-accepted (address_of f c.client_authorization) t header _ p enough is_open sent in
      subst (λ r. IsCredited s t header c p r.0 r.1) (sym (checked ∙ accepted_then))
        (credit_share-IsCredited s c p t header saved)
