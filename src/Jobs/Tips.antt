-- ===== src/Jobs/Tips.antt =====
-- What a new tip does to the jobs, and who is told of it.
use elektron_net_ppool.Common.{
  ℕ, ◌+◌, ◌≡◌, ◌≢◌, refl, String, str_eq_refl, Bool, true, false, not, none, some, All, filter-All,
  ==-ne, ==-refl, ◌==◌, if◌then◌else◌, arith, ◌≤◌, leb→le,
}
use elektron_net_ppool.Common.Js.{Text, text_eq}
use elektron_net_ppool.Common.Float.{Float64}
use elektron_net_ppool.Jobs.{
  IBlockTemplate, JobsService, previous_height, build_template_for, get_job_by_id,
  get_job_template_by_id, max_age_ms, is_fresh, keep_fresh, drop_all,
}

module _ (f : Float64) (pow : f.F → f.F → f.F) where
  -- The first template of a new height for an address clears the jobs: no job that was given out is
  -- found any more, and of the templates only the new one is.
  pub new_tip_clears :
      (now : ℕ) (a : String) (t : IBlockTemplate) (s : JobsService f) (job : Text)
      → previous_height f a s.last_template_height_by_address ≢ t.height
      → let (template, s') = build_template_for f pow now a t s in
        (template.clear_jobs ≡ true)
        × (get_job_by_id f job s' ≡ none)
        × (get_job_template_by_id f job s'
            ≡ (if text_eq template.id job then some template else none))
  unfolding build_template_for get_job_by_id get_job_template_by_id
  new_tip_clears now a t s job h =
      rw (==-ne (previous_height f a s.last_template_height_by_address) t.height h)
        (refl, refl, refl)

  -- Of two templates for one address at one height only the first says that jobs are to be cleared,
  -- whatever came before. All clients share the address of the pool's wallet, so at a new tip one
  -- client alone is told to clear.
  pub one_clear_for_each_tip :
      (now later : ℕ) (a : String) (t u : IBlockTemplate) (s : JobsService f)
      → u.height ≡ t.height
      → (build_template_for f pow later a u (build_template_for f pow now a t s).1).0.clear_jobs
        ≡ false
  unfolding build_template_for
  one_clear_for_each_tip now later a t u s e = rw (str_eq_refl a, e, ==-refl t.height)

  -- At an unchanged height no job or template is kept for more than five minutes.
  pub old_jobs_expire :
      (now : ℕ) (a : String) (t : IBlockTemplate) (s : JobsService f)
      → let s' = (build_template_for f pow now a t s).1 in
        All (λ j. now ≤ j.creation + max_age_ms f) s'.jobs
        × All (λ b. now ≤ b.creation + max_age_ms f) s'.blocks
  unfolding build_template_for
  old_jobs_expire now a t s = go (previous_height f a s.last_template_height_by_address == t.height)
    where
      fresh : (c : ℕ) → is_fresh f now c ≡ true → now ≤ c + max_age_ms f
      fresh c h = leb→le now (c + max_age_ms f) h

      jobs :
          (b : Bool)
          → All
              (λ j. now ≤ j.creation + max_age_ms f)
              (if not b then drop_all f s else keep_fresh f now s).jobs
      jobs true = filter-All (λ j. is_fresh f now j.creation) _ s.jobs (λ j h. fresh j.creation h)
      jobs false = tt

      blocks :
          (b : Bool)
          → All
              (λ t. now ≤ t.creation + max_age_ms f)
              (if not b then drop_all f s else keep_fresh f now s).blocks
      blocks true =
          filter-All (λ j. is_fresh f now j.creation) _ s.blocks (λ j h. fresh j.creation h)
      blocks false = tt

      go :
          (b : Bool)
          → All
              (λ j. now ≤ j.creation + max_age_ms f)
              (if not b then drop_all f s else keep_fresh f now s).jobs
            × ((now ≤ now + max_age_ms f)
                × All
                    (λ t. now ≤ t.creation + max_age_ms f)
                    (if not b then drop_all f s else keep_fresh f now s).blocks)
      go b = (jobs b, (omega arith, blocks b))
