-- ===== src/Stratum/Submit.antt =====
-- `handleMiningSubmission` (src/models/StratumV1Client.ts), with the tables that a share is written to.
-- The diagnostic log and the hashrate statistics of a session are not modelled.
pub mod Credit
pub mod Resubmit
pub mod Connection
use elektron_net_ppool.Common.{
  ℕ, ◌+◌, ◌*◌, ◌^◌, ℤ, pos, String, str_eq, Bool, true, false, not, ◌&&◌, ◌||◌, Option, none, some,
  List, [], ◌∷◌, ◌++◌, leb, ltb, if◌then◌else◌,
}
use elektron_net_ppool.Common.Js.{Text, text_eq, codes, to_lower}
use elektron_net_ppool.Common.Float.{Float64}
use elektron_net_ppool.Config.{Config, is_true}
use elektron_net_ppool.Shares.{ShareLog, record_share}
use elektron_net_ppool.Rewards.{Books, process_block_found}
use elektron_net_ppool.Jobs.{JobTemplate, Job, JobsService, get_job_by_id, get_job_template_by_id}
use elektron_net_ppool.Stratum.Header.{
  Submission, parse_hex, build_header_buffer, calculate_difficulty,
}
use elektron_net_ppool.Stratum.Session.{
  Output, accepted, error, StratumErrorCode, job_not_found, duplicate_share, low_difficulty_share,
  ClientEntity, Client, Authorization, Net, write, end_socket,
}

-- A row of the table of found blocks, of the fields that say which block and whose.
pub record FoundBlock : Type 0 where
  pub height : ℕ
  pub miner_address : String
  pub header : List ℕ

module _ (f : Float64) where
  -- What all connections share.
  pub record Pool : Type 0 where
    pub jobs : JobsService f
    pub shares : ShareLog f
    pub books : Books
    pub found_blocks : List FoundBlock
    pub best_difficulties : List (String × f.F)
    pub external_shares : List (List ℕ)

  -- What answers from outside: `node_accepts` is whether `submitblock` succeeds for the block with this
  -- header; `share_is_saved` and `block_is_saved` whether the insertions into the share log and into the
  -- table of found blocks succeed, `block_is_notified` whether the notifications of the block do. The
  -- report to the registry does not throw.
  pub record Backend : Type 0 where
    pub hash256 : List ℕ → List ℕ
    pub infinity : f.F
    pub node_accepts : List ℕ → Bool
    pub share_is_saved : Bool
    pub block_is_saved : Bool
    pub block_is_notified : Bool
    pub net : Net f

  abbrev pub colon : Text
  colon = b':' ∷ []

  -- `[jobId, extraNonce2, ntime, nonce, versionMask].join(':')`
  abbrev pub submission_hash : Submission → Text
  submission_hash s =
      s.job_id ++ colon ++ s.extra_nonce2 ++ colon ++ s.ntime ++ colon ++ s.nonce ++ colon
      ++ s.version_mask

  abbrev pub has_hash : Text → List Text → Bool
  has_hash h [] = false
  has_hash h (x ∷ xs) = text_eq x h || has_hash h xs

  abbrev pub header_of : Backend → Submission → Job f → JobTemplate f → Option (List ℕ)
  header_of b s job t =
      build_header_buffer b.hash256 job t (parse_hex s.version_mask) (parse_hex s.nonce)
        (parse_hex s.ntime)

  abbrev pub reset_best : List (String × f.F) → List (String × f.F)
  reset_best [] = []
  reset_best ((a, d) ∷ m) = (a, f.of_int (pos 0)) ∷ reset_best m

  -- Insert or ignore, then update where the difficulty is lower.
  unfoldable pub update_best_difficulty_if_higher :
      String → f.F → List (String × f.F) → List (String × f.F)
  update_best_difficulty_if_higher a d [] =
      (a, if f.lt (f.of_int (pos 0)) d then d else f.of_int (pos 0)) ∷ []
  update_best_difficulty_if_higher a d ((b, x) ∷ m) =
      if str_eq b a
      then (b, if f.lt x d then d else x) ∷ m
      else (b, x) ∷ update_best_difficulty_if_higher a d m

  -- A failed insertion into the share log is only logged.
  unfoldable pub log_share : Backend → (now : ℕ) → String → f.F → ℕ → Pool → Pool
  unfolding record_share
  log_share b now a d height p =
      if b.share_is_saved then record p { shares = record_share f now a d height p.shares } else p

  abbrev pub save_found : String → JobTemplate f → List ℕ → Pool → Pool
  save_found a t header p = record p {
    found_blocks =
        p.found_blocks ++ record { height = t.height; miner_address = a; header = header } ∷ [];
  }

  abbrev pub pay_for_block : Config → (now : ℕ) → JobTemplate f → Pool → Pool
  pay_for_block config now t p = record p {
    best_difficulties = reset_best p.best_difficulties;
    books = process_block_found f config now t.height t.coinbasevalue p.shares p.books;
  }

  -- Whether the handler goes on, and the state: if the found block cannot be saved, or a notification of it
  -- fails, it throws, and what stands behind is not done.
  unfoldable pub block_found :
      Backend → Config → (now : ℕ) → String → JobTemplate f → List ℕ → Pool → Bool × Pool
  unfolding process_block_found
  block_found b config now a t header p =
      if not (b.node_accepts header)
      then (true, p)
      else if not b.block_is_saved
      then (false, p)
      else if not b.block_is_notified
      then (false, save_found a t header p)
      else (true, pay_for_block config now t (save_found a t header p))

  abbrev new_entity : Option (ClientEntity f) → ClientEntity f
  new_entity none = record { best_difficulty = f.of_int (pos 0); updated_at = none }
  new_entity (some e) = e

  abbrev is_stale : (now : ℕ) → Option ℕ → Bool
  is_stale now none = true
  is_stale now (some u) = ltb (u + 1000 * 60) now

  abbrev heartbeat : (now : ℕ) → ClientEntity f → ClientEntity f
  heartbeat now e = if is_stale now e.updated_at then record e { updated_at = some now } else e

  abbrev minimum_difficulty : Option String → f.F
  minimum_difficulty none = f.of_int (pos (10 ^ 12))
  minimum_difficulty (some s) = elim (f.parse (codes s)) [
    | none ↦ f.of_int (pos (10 ^ 12))
    | some d ↦
        if f.le d (f.of_int (pos 0)) && f.le (f.of_int (pos 0)) d
        then f.of_int (pos (10 ^ 12))
        else d
  ]

  abbrev submit_external : Config → f.F → List ℕ → Pool → Pool
  submit_external config d header p =
      if is_true (config "EXTERNAL_SHARE_SUBMISSION_ENABLED")
        && f.le (minimum_difficulty (config "MINIMUM_DIFFICULTY")) d
      then record p { external_shares = p.external_shares ++ header ∷ [] }
      else p

  -- After the block: the session's row, its best difficulty, and the external pool.
  unfoldable pub finish :
      Config → (now : ℕ) → String → f.F → List ℕ → Client f → Bool × Pool → Client f × Pool
  unfolding update_best_difficulty_if_higher end_socket
  finish config now a d header c (false, p) = (end_socket f c, p)
  finish config now a d header c (true, p) =
      let e = heartbeat now (new_entity c.entity) in
      let best = f.lt e.best_difficulty d in
      (
        record c { entity = some (if best then record e { best_difficulty = d } else e) },
        submit_external config d header (
            if best
            then record p {
              best_difficulties = update_best_difficulty_if_higher a d p.best_difficulties;
            }
            else p),
      )

  unfoldable pub credit_share :
      Backend
      → Config
      → (now : ℕ) → String
      → f.F
      → JobTemplate f
      → List ℕ
      → Client f
      → Pool
      → Client f × Pool
  unfolding log_share block_found finish
  credit_share b config now a d t header c p =
      let logged = log_share b now a d t.height p in
      finish config now a d header c (
        if f.le t.network_difficulty d
        then block_found b config now a t header logged
        else (true, logged))

  unfoldable pub answer : Backend → StratumErrorCode → Client f → Client f
  unfolding write
  answer b code c = (write f b.net (error code) c).1

  -- A header that cannot be built throws, and the `data` handler ends the socket.
  unfoldable pub judge :
      Backend
      → Config
      → (now : ℕ) → String
      → JobTemplate f
      → Option (List ℕ)
      → Client f
      → Pool
      → Client f × Pool
  unfolding write calculate_difficulty credit_share answer end_socket
  judge b config now a t none c p = (end_socket f c, p)
  judge b config now a t (some header) c p =
      let d = calculate_difficulty f b.hash256 b.infinity header in
      let (success, c') = write f b.net accepted c in
      if f.le c.session_difficulty d
      then if success then credit_share b config now a d t header c' p else (c', p)
      else (answer b low_difficulty_share c, p)

  abbrev pub address_of : Option (Authorization f) → String
  address_of none = ""
  address_of (some a) = a.address

  unfoldable pub check_submission :
      Backend
      → Config
      → (now : ℕ) → Submission
      → Job f
      → Option (JobTemplate f)
      → Client f
      → Pool
      → Client f × Pool
  unfolding answer judge
  check_submission b config now s job none c p = (answer b job_not_found c, p)
  check_submission b config now s job (some t) c p =
      let h = submission_hash s in
      if has_hash h c.mining_submission_hashes
      then (answer b duplicate_share c, p)
      else judge b config now (address_of c.client_authorization) t (header_of b s job t)
          (record c { mining_submission_hashes = h ∷ c.mining_submission_hashes }) p

  unfoldable pub check_job :
      Backend → Config → (now : ℕ) → Submission → Option (Job f) → Client f → Pool → Client f × Pool
  unfolding answer check_submission get_job_template_by_id
  check_job b config now s none c p = (answer b job_not_found c, p)
  check_job b config now s (some job) c p =
      check_submission b config now s job (get_job_template_by_id f job.job_template_id p.jobs) c p

  -- An initialized client has an authorization, so it has an address.
  unfoldable pub handle_mining_submission :
      Backend → Config → (now : ℕ) → Submission → Client f → Pool → Client f × Pool
  unfolding get_job_by_id check_job
  handle_mining_submission b config now s c p =
      check_job b config now s (get_job_by_id f s.job_id p.jobs) c p
