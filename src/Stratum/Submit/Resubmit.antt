-- ===== src/Stratum/Submit/Resubmit.antt =====
-- What a submission that comes back changes in the tables of the pool.
use elektron_net_ppool.Common.{
  ℕ, ◌≡◌, refl, ◌∙◌, sym, ap, subst, inl, inr, String, true, false, Option, none, some, List, [],
  ◌∷◌, ◌++◌, arith, Bool-cases, ==-refl,
}
use elektron_net_ppool.Common.Js.{Text, text_eq}
use elektron_net_ppool.Common.Float.{Float64}
use elektron_net_ppool.Config.{Config}
use elektron_net_ppool.Shares.{record_share}
use elektron_net_ppool.Jobs.{JobTemplate, Job, get_job_by_id, get_job_template_by_id}
use elektron_net_ppool.Stratum.Header.{Submission, calculate_difficulty}
use elektron_net_ppool.Stratum.Session.{
  StratumErrorCode, low_difficulty_share, duplicate_share, accepted, Client, write, destroy,
  is_socket_closed,
}
use elektron_net_ppool.Stratum.Submit.{
  Pool, Backend, submission_hash, has_hash, header_of, answer, judge, address_of, check_submission,
  check_job, handle_mining_submission,
}
use elektron_net_ppool.Stratum.Submit.Credit.{
  IsJudged, is_undisturbed, credit_share-keeps, handle_mining_submission-credits,
}

module _ (f : Float64) (b : Backend f) (config : Config) (now : ℕ) where
  text_eq_refl : (s : Text) → text_eq s s ≡ true
  text_eq_refl [] = refl
  text_eq_refl (x ∷ s) = rw (==-refl x, text_eq_refl s)

  answer-hashes :
      (code : StratumErrorCode) (c : Client f)
      → (answer f b code c).mining_submission_hashes ≡ c.mining_submission_hashes
  unfolding answer write destroy
  answer-hashes code c = ground arith

  judge-keeps :
      (a : String) (t : JobTemplate f) (header : Option (List ℕ)) (c : Client f) (p : Pool f)
      → let r = judge f b config now a t header c p in
        (r.1.jobs ≡ p.jobs) × (r.0.mining_submission_hashes ≡ c.mining_submission_hashes)
  unfolding judge write destroy
  judge-keeps a t none c p = (refl, refl)
  judge-keeps a t (some header) c p =
      let d = calculate_difficulty f b.hash256 b.infinity header in
      let k = credit_share-keeps f b config now a d t header (write f b.net accepted c).1 p in
      ground (arith, k.2, k.3.hashes, answer-hashes low_difficulty_share c)

  check_submission_known :
      (s : Submission) (job : Job f) (t : JobTemplate f) (c : Client f) (p : Pool f)
      → has_hash f (submission_hash f s) c.mining_submission_hashes ≡ true
      → check_submission f b config now s job (some t) c p ≡ (answer f b duplicate_share c, p)
  unfolding check_submission
  check_submission_known s job t c p e = rw e

  check_submission_fresh :
      (s : Submission) (job : Job f) (t : JobTemplate f) (c : Client f) (p : Pool f)
      → has_hash f (submission_hash f s) c.mining_submission_hashes ≡ false
      → check_submission f b config now s job (some t) c p
        ≡ judge f b config now
            (address_of f c.client_authorization)
            t
            (header_of f b s job t)
            (record c {
              mining_submission_hashes = submission_hash f s ∷ c.mining_submission_hashes;
            })
            p
  unfolding check_submission
  check_submission_fresh s job t c p e = rw e

  has_hash_self : (h : Text) (hs : List Text) → has_hash f h (h ∷ hs) ≡ true
  has_hash_self h hs = rw (text_eq_refl h)

  has_hash-same :
      (h : Text) (hs hs' : List Text) → hs' ≡ hs → has_hash f h hs ≡ true → has_hash f h hs' ≡ true
  has_hash-same h hs hs' e k = ap (has_hash f h) e ∙ k

  -- After the first check of a submission with a job and a template, its hash is known.
  check_submission-hash :
      (s : Submission) (job : Job f) (t : JobTemplate f) (c : Client f) (p : Pool f)
      → let r = check_submission f b config now s job (some t) c p in
        (r.1.jobs ≡ p.jobs) × (has_hash f (submission_hash f s) r.0.mining_submission_hashes ≡ true)
  check_submission-hash s job t c p =
      elim (Bool-cases (has_hash f (submission_hash f s) c.mining_submission_hashes)) [
        | inl e ↦
            subst
              (λ r.
                (r.1.jobs ≡ p.jobs)
                × (has_hash f (submission_hash f s) r.0.mining_submission_hashes ≡ true))
              (sym (check_submission_known s job t c p e))
              (refl, has_hash-same (submission_hash f s) _ _ (answer-hashes duplicate_share c) e)
        | inr e ↦
            let c' = record c {
              mining_submission_hashes = submission_hash f s ∷ c.mining_submission_hashes;
            } in
            let k =
              judge-keeps (address_of f c.client_authorization) t (header_of f b s job t) c' p in
            subst
              (λ r.
                (r.1.jobs ≡ p.jobs)
                × (has_hash f (submission_hash f s) r.0.mining_submission_hashes ≡ true))
              (sym (check_submission_fresh s job t c p e))
              (
                k.0,
                has_hash-same (submission_hash f s) _ _ k.1
                    (has_hash_self (submission_hash f s) c.mining_submission_hashes),
              )
      ]

  check_submission_again :
      (s : Submission) (job : Job f) (t : Option (JobTemplate f)) (c : Client f) (p : Pool f)
      → let r = check_submission f b config now s job t c p in
        (r.1.jobs ≡ p.jobs) × ((check_submission f b config now s job t r.0 r.1).1 ≡ r.1)
  unfolding check_submission
  check_submission_again s job none c p = (refl, refl)
  check_submission_again s job (some t) c p =
      let r = check_submission f b config now s job (some t) c p in
      let k = check_submission-hash s job t c p in
      (k.0, ap (λ x. x.1) (check_submission_known s job t r.0 r.1 k.1))

  check_job_again :
      (s : Submission) (job : Option (Job f)) (c : Client f) (p : Pool f)
      → let r = check_job f b config now s job c p in
        (r.1.jobs ≡ p.jobs) × ((check_job f b config now s job r.0 r.1).1 ≡ r.1)
  unfolding check_job
  check_job_again s none c p = (refl, refl)
  check_job_again s (some job) c p =
      let t = get_job_template_by_id f job.job_template_id p.jobs in
      let r = check_submission f b config now s job t c p in
      let k = check_submission_again s job t c p in
      (
        k.0,
        ap
              (λ jobs.
                (check_submission f b config now s job
                  (get_job_template_by_id f job.job_template_id jobs) r.0 r.1).1)
              k.0
            ∙ k.1,
      )

  -- Handling a submission a second time, right after the first, leaves the whole state that the
  -- connections share as the first left it, whatever was answered: no share, reward or found block is
  -- recorded twice.
  pub handle_mining_submission_twice :
      (s : Submission) (c : Client f) (p : Pool f)
      → let r = handle_mining_submission f b config now s c p in
        (handle_mining_submission f b config now s r.0 r.1).1 ≡ r.1
  unfolding handle_mining_submission
  handle_mining_submission_twice s c p =
      let job = get_job_by_id f s.job_id p.jobs in
      let r = check_job f b config now s job c p in
      let k = check_job_again s job c p in
      ap (λ jobs. (check_job f b config now s (get_job_by_id f s.job_id jobs) r.0 r.1).1) k.0 ∙ k.1

  -- The hash of a submission has its second extranonce, which no header depends on: a credited
  -- submission is credited once more, with the same difficulty, when it comes back with another one,
  -- as long as the hash is another, the connection is open and the writes, the insertions and the
  -- notifications succeed.
  pub replay_with_another_extra_nonce2 :
      (s : Submission) (c : Client f) (p : Pool f) (job : Job f) (t : JobTemplate f)
      (header : List ℕ) (extra_nonce2 : Text)
      → IsJudged f b config now s p job t header
      → has_hash f (submission_hash f s) c.mining_submission_hashes ≡ false
      → has_hash f
          (submission_hash f (record s { extra_nonce2 = extra_nonce2 }))
          (submission_hash f s ∷ c.mining_submission_hashes)
        ≡ false
      → f.le c.session_difficulty (calculate_difficulty f b.hash256 b.infinity header) ≡ true
      → is_socket_closed f c ≡ false
      → b.net (c.outputs ++ accepted ∷ []) ≡ true
      → b.net ((c.outputs ++ accepted ∷ []) ++ accepted ∷ []) ≡ true
      → b.share_is_saved ≡ true
      → is_undisturbed f b config now ≡ true
      → let r = handle_mining_submission f b config now s c p in
        let r' =
          handle_mining_submission f b config now
            (record s { extra_nonce2 = extra_nonce2 })
            r.0
            r.1 in
        let a = address_of f c.client_authorization in
        let d = calculate_difficulty f b.hash256 b.infinity header in
        r'.1.shares ≡ record_share f now a d t.height (record_share f now a d t.height p.shares)
  replay_with_another_extra_nonce2 s c p job t header e j fresh fresh' enough is_open sent sent'
        saved undisturbed =
      let s' = record s { extra_nonce2 = e } in
      let r = handle_mining_submission f b config now s c p in
      let k =
        handle_mining_submission-credits f b config now s c p job t header j fresh enough is_open
          sent saved in
      let j' : IsJudged f b config now s' r.1 job t header = record {
        job_found = ap (get_job_by_id f s.job_id) k.jobs ∙ j.job_found;
        template_found =
            ap (get_job_template_by_id f job.job_template_id) k.jobs ∙ j.template_found;
        header_built = j.header_built;
      } in
      let d = calculate_difficulty f b.hash256 b.infinity header in
      let k' =
        handle_mining_submission-credits f b config now s' r.0 r.1 job t header j'
          (ap (has_hash f (submission_hash f s')) k.client.hashes ∙ fresh')
          (ap (λ x. f.le x d) k.client.difficulty ∙ enough) (k.client.closed undisturbed ∙ is_open)
          (ap (λ x. b.net (x ++ accepted ∷ [])) k.client.outputs ∙ sent') saved in
      k'.share
      ∙ ap (λ x. record_share f now (address_of f x) d t.height r.1.shares) k.client.authorization
      ∙ ap (record_share f now (address_of f c.client_authorization) d t.height) k.share
