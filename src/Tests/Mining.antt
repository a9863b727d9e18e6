-- ===== src/Tests/Mining.antt =====
-- The claims about jobs, shares and connections at concrete inputs.
use elektron_net_ppool.Common.{
  ℕ, pos, ◌≡◌, refl, true, false, none, some, List, [], ◌∷◌, ◌++◌, arith, if◌then◌else◌,
}
use elektron_net_ppool.Common.Js.{codes, text_eq}
use elektron_net_ppool.Shares.{record_share}
use elektron_net_ppool.Jobs.{
  IBlockTemplate, JobTemplate, Job, JobsService, build_template_for, get_job_by_id,
  get_job_template_by_id,
}
use elektron_net_ppool.Jobs.Tips.{new_tip_clears, one_clear_for_each_tip}
use elektron_net_ppool.Stratum.Header.{
  Submission, le_bytes, build_header_buffer, calculate_difficulty,
}
use elektron_net_ppool.Stratum.Session.{Client, Net}
use elektron_net_ppool.Stratum.Messages.{Message, submit, subscribe, unknown_method, handle_lines}
use elektron_net_ppool.Stratum.Messages.Consistency.{IsConsistent}
use elektron_net_ppool.Stratum.Submit.{Pool, Backend, handle_mining_submission, address_of}
use elektron_net_ppool.Stratum.Submit.Credit.{
  IsJudged, IsCredited, handle_mining_submission-credits,
}
use elektron_net_ppool.Stratum.Submit.Resubmit.{
  handle_mining_submission_twice, replay_with_another_extra_nonce2,
}
use elektron_net_ppool.Stratum.Submit.Connection.{handle_lines_submitting-IsConsistent}
use elektron_net_ppool.WalletRpc.{
  Node, amounts_from, send_many_sats, send_many_with_fee_fallback, wallet_passphrase_of,
}
use elektron_net_ppool.WalletRpc.Sending.{
  Sends, Pays, send_many_sats-Pays, send_many_with_fee_fallback-Sends,
}
use elektron_net_ppool.Wallet.{ok, Payout}
use elektron_net_ppool.Tests.{defaults, fixed, books}

abbrev template : JobTemplate fixed
template = record {
  id = codes "1";
  creation = 1000;
  version = 0x20000000;
  bits = 0x1d00ffff;
  timestamp = 700;
  prev_hash = [];
  merkle_branch = [];
  coinbasevalue = pos 1000;
  network_difficulty = 1;
  height = 301;
  clear_jobs = true;
}

abbrev job : Job fixed
job = record {
  job_id = codes "7";
  job_template_id = codes "1";
  creation = 1000;
  job_version = 0x20000000;
  merkle_branch = [];
  coinbase = [];
}

abbrev jobs : JobsService fixed
jobs = record {
  latest_job_id = 8;
  latest_job_template_id = 2;
  jobs = job ∷ [];
  blocks = template ∷ [];
  last_template_height_by_address = ("pool", 301) ∷ [];
}

abbrev client : Client fixed
client = record {
  client_subscription = some (codes "miner/1.0");
  client_configured = false;
  client_authorization =
      some (record { address = "alice"; worker = codes "rig"; starting_diff = none });
  client_suggested_difficulty = none;
  stratum_subscribed = true;
  background_work = 3;
  stratum_initialized = true;
  used_suggested_difficulty = false;
  session_difficulty = 5;
  is_hobby_miner_session = false;
  entity = none;
  session_id = some (codes "ab");
  connection_closed = false;
  writable_ended = false;
  socket_destroyed = false;
  last_sent_mining_job_timestamp = none;
  is_destroyed = false;
  elektron_pool_version_counter = 15;
  current_job_template = some template;
  last_local_work_sent_at = 1000;
  mining_submission_hashes = [];
  outputs = [];
}

abbrev pool : Pool fixed
pool = record {
  jobs = jobs;
  shares = [];
  books = books;
  found_blocks = [];
  best_difficulties = [];
  external_shares = [];
}

abbrev backend : Backend fixed
backend = record {
  hash256 = λ bytes. 1 ∷ [];
  infinity = 0;
  node_accepts = λ header. true;
  share_is_saved = true;
  block_is_saved = true;
  block_is_notified = true;
  net = λ outputs. true;
}

abbrev submission : Submission
submission = record {
  job_id = codes "7";
  extra_nonce2 = [];
  ntime = codes "2bc";
  nonce = codes "ff";
  version_mask = codes "0";
}

abbrev header : List ℕ
header = le_bytes 4 0x20000000 ++ 1 ∷ le_bytes 4 0x2bc ++ le_bytes 4 0x1d00ffff ++ le_bytes 4 0xff

judged : IsJudged fixed backend defaults 2000 submission pool job template header
unfolding get_job_by_id get_job_template_by_id build_header_buffer
judged = record { job_found = refl; template_found = refl; header_built = refl }

handle_mining_submission-credits_example :
    let r = handle_mining_submission fixed backend defaults 2000 submission client pool in
    IsCredited fixed backend defaults 2000 submission template header client pool r.0 r.1
unfolding calculate_difficulty
handle_mining_submission-credits_example =
    handle_mining_submission-credits fixed backend defaults 2000 submission client pool job template
      header judged refl refl refl refl refl

handle_mining_submission_twice_example :
    let r = handle_mining_submission fixed backend defaults 2000 submission client pool in
    (handle_mining_submission fixed backend defaults 2000 submission r.0 r.1).1 ≡ r.1
handle_mining_submission_twice_example =
    handle_mining_submission_twice fixed backend defaults 2000 submission client pool

replay_with_another_extra_nonce2_example :
    let r = handle_mining_submission fixed backend defaults 2000 submission client pool in
    let r' =
      handle_mining_submission fixed backend defaults 2000
        (record submission { extra_nonce2 = codes "00" })
        r.0
        r.1 in
    let a = address_of fixed client.client_authorization in
    let d = calculate_difficulty fixed backend.hash256 backend.infinity header in
    r'.1.shares ≡ record_share fixed 2000 a d 301 (record_share fixed 2000 a d 301 [])
unfolding calculate_difficulty
replay_with_another_extra_nonce2_example =
    replay_with_another_extra_nonce2 fixed backend defaults 2000 submission client pool job template
      header (codes "00") judged refl refl refl refl refl refl refl refl

client-IsConsistent : IsConsistent fixed client
client-IsConsistent = ground arith

abbrev every : Net fixed
every outputs = true

abbrev lines : List (Message fixed Submission)
lines = subscribe true (codes "miner/1.0") ∷ submit true submission ∷ unknown_method ∷ []

handle_lines_submitting-IsConsistent_example :
    IsConsistent fixed
      (handle_lines fixed
        (handle_mining_submission fixed backend defaults 2000)
        defaults
        every
        (codes "ab")
        lines
        client
        pool).0
handle_lines_submitting-IsConsistent_example =
    handle_lines_submitting-IsConsistent fixed backend defaults 2000 (codes "ab") lines client pool
      client-IsConsistent

abbrev node_template : ℕ → IBlockTemplate
node_template height = record {
  mintime = 600;
  height = height;
  version = 0x20000000;
  bits = 0x1d00ffff;
  prev_hash = [];
  merkle_branch = [];
  coinbasevalue = pos 1000;
}

abbrev power : ℕ → ℕ → ℕ
power a b = a

new_tip_clears_example :
    let (t, s') = build_template_for fixed power 2000 "pool" (node_template 302) jobs in
    (t.clear_jobs ≡ true)
    × (get_job_by_id fixed (codes "7") s' ≡ none)
    × (get_job_template_by_id fixed (codes "7") s'
        ≡ (if text_eq t.id (codes "7") then some t else none))
new_tip_clears_example =
    new_tip_clears fixed power 2000 "pool" (node_template 302) jobs (codes "7") (λ e. omega arith)

one_clear_for_each_tip_example :
    (build_template_for fixed power 2500 "pool"
      (node_template 302)
      (build_template_for fixed power 2000 "pool" (node_template 302) jobs).1).0.clear_jobs
    ≡ false
one_clear_for_each_tip_example =
    one_clear_for_each_tip fixed power 2000 2500 "pool" (node_template 302) (node_template 302) jobs
      refl

abbrev node : Node fixed
node = record {
  unlocked = λ calls. ok tt;
  locked = λ calls. ok tt;
  sent = λ calls. ok "tx";
  confirmations = λ txid. ok none;
  balance = ok 0;
  balances = ok (0, 0);
}

abbrev payouts : List Payout
payouts = record { address = "alice"; amount_sats = pos 150_000 } ∷ []

send_many_with_fee_fallback-Sends_example :
    let (r, after) =
      send_many_with_fee_fallback fixed defaults node (amounts_from fixed payouts []) [] in
    Sends fixed defaults node (amounts_from fixed payouts []) [] r after
send_many_with_fee_fallback-Sends_example =
    send_many_with_fee_fallback-Sends fixed defaults node (amounts_from fixed payouts []) []

send_many_sats-Pays_example :
    let (r, after) = send_many_sats fixed defaults node payouts [] in
    let amounts = amounts_from fixed payouts [] in
    Pays fixed defaults node (wallet_passphrase_of defaults) amounts [] r after
send_many_sats-Pays_example = send_many_sats-Pays fixed defaults node payouts []
