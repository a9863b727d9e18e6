-- ===== src/Tests/Coinbase.antt =====
-- The claims about the coinbase and the notification of a job at concrete inputs.
use elektron_net_ppool.Common.{
  ℕ, ◌+◌, pos, ◌≡◌, refl, true, false, none, some, List, [], ◌∷◌, ◌++◌, length,
}
use elektron_net_ppool.Common.Js.{codes}
use elektron_net_ppool.Jobs.{JobTemplate, Job}
use elektron_net_ppool.Stratum.Header.{build_header_buffer}
use elektron_net_ppool.Stratum.Parsing.{subscription_response}
use elektron_net_ppool.MiningJob.{
  CoinbaseTransaction, AddressObject, CoinbaseTemplate, Bitcoin, coinbase_of, response,
  copy_and_update_block,
}
use elektron_net_ppool.MiningJob.Payout.{IsWords, IsCoinbase, coinbase_of-IsCoinbase}
use elektron_net_ppool.MiningJob.Miner.{miner_header, miner_header-response}
use elektron_net_ppool.MiningJob.Submitted.{write_header, build_header_buffer-copy_and_update_block}
use elektron_net_ppool.Tests.{fixed}

-- A library that writes a script as its address and a transaction as its scripts.
abbrev library : Bitcoin
library = record {
  to_output_script = λ address. some (codes address);
  encode_number = λ n. n ∷ [];
  commitment_script = λ s. 106 ∷ s;
  to_buffer = λ tx. tx.script_sig ++ 255 ∷ [];
  weight = λ tx. 400 + length tx.script_sig;
}

abbrev template : CoinbaseTemplate
template = record {
  height = 120;
  coinbasevalue = pos 5_000_000;
  coinbase_script_sig_prefix = 1 ∷ 120 ∷ [];
  coinbase_required_outputs = record { script = 106 ∷ []; value = pos 0 } ∷ [];
  witness_commit = none;
  block_weight = 1000;
}

abbrev pool_address : List AddressObject
pool_address = record { address = "pool"; percent = 100 } ∷ []

coinbase_of-IsCoinbase_example :
    IsCoinbase fixed library pool_address template (coinbase_of fixed library pool_address template)
coinbase_of-IsCoinbase_example = coinbase_of-IsCoinbase fixed library pool_address template

abbrev paying : CoinbaseTransaction
paying = record {
  script_sig = 1 ∷ 120 ∷ [];
  outs =
      record { script = codes "pool"; value = pos 5_000_000 }
      ∷ record { script = 106 ∷ []; value = pos 0 }
      ∷ [];
  locktime = pos 119;
}

abbrev job_template : JobTemplate fixed
job_template = record {
  id = codes "1";
  creation = 1000;
  version = 0x20000000;
  bits = 0x1d00ffff;
  timestamp = 1_700_000_000;
  prev_hash = 1 ∷ 2 ∷ 3 ∷ 4 ∷ 5 ∷ 6 ∷ 7 ∷ 8 ∷ [];
  merkle_branch = (9 ∷ []) ∷ [];
  coinbasevalue = pos 5_000_000;
  network_difficulty = 1_000_000;
  height = 120;
  clear_jobs = true;
}

abbrev job : Job fixed
job = record {
  job_id = codes "7";
  job_template_id = codes "1";
  creation = 1000;
  job_version = 0x20002000;
  merkle_branch = (9 ∷ []) ∷ [];
  coinbase = 1 ∷ 120 ∷ 255 ∷ [];
}

-- A hash that keeps the first two bytes.
abbrev short_hash : List ℕ → List ℕ
short_hash (a ∷ b ∷ s) = a ∷ b ∷ []
short_hash s = s

miner_header-response_example :
    miner_header short_hash
      (subscription_response (codes "ab") false)
      []
      (response library paying job job_template)
      (some (pos 0x2000))
      (some (pos 7))
      (some (pos 1_700_000_001))
    ≡ build_header_buffer short_hash job job_template
        (some (pos 0x2000))
        (some (pos 7))
        (some (pos 1_700_000_001))
unfolding IsWords subscription_response
miner_header-response_example =
    miner_header-response short_hash library paying job job_template (codes "ab") [] refl refl tt
      refl (some (pos 0x2000)) (some (pos 7)) (some (pos 1_700_000_001))

build_header_buffer-copy_and_update_block_example :
    build_header_buffer short_hash job job_template none (some (pos 7)) (some (pos 1_700_000_001))
    ≡ write_header (
        copy_and_update_block short_hash
          (short_hash job.coinbase)
          job
          job_template
          none
          (some (pos 7))
          (some (pos 1_700_000_001)))
build_header_buffer-copy_and_update_block_example =
    build_header_buffer-copy_and_update_block short_hash job job_template none (some (pos 7))
      (some (pos 1_700_000_001))
