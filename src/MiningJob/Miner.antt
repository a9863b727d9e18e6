-- ===== src/MiningJob/Miner.antt =====
-- The header that a miner builds from a notification, as the protocol has it, and the one that the
-- pool builds from its job.
use elektron_net_ppool.Common.{
  ℕ, ℤ, pos, negsuc, ◌≡◌, refl, false, Option, none, some, List, [], ◌∷◌, ◌++◌, length, arith,
}
use elektron_net_ppool.Common.Js.{Text}
use elektron_net_ppool.Stratum.Parsing.{subscription_response}
use elektron_net_ppool.Dashboard.Shares.{hex_bytes}
use elektron_net_ppool.Common.Float.{Float64}
use elektron_net_ppool.Jobs.{JobTemplate, Job}
use elektron_net_ppool.Stratum.Header.{
  le_bytes, write_uint32, write_version, join_header, parse_hex, calculate_merkle_root_hash,
  build_header_buffer,
}
use elektron_net_ppool.MiningJob.{
  CoinbaseTransaction, Bitcoin, swap_endian_words, MiningNotify, response,
}
use elektron_net_ppool.MiningJob.Hex.{parse_hex-to_hex}
use elektron_net_ppool.MiningJob.Payout.{
  IsWords, swap_endian_words_twice, coinbase_part1-coinbase_part2,
}

-- The number that a field of the notification is.
abbrev with_number : Option ℤ → (ℕ → Option (List ℕ)) → Option (List ℕ)
with_number (some (pos n)) k = k n
with_number (some (negsuc n)) k = none
with_number none k = none

-- What the miner hashes, with the version mask, the nonce and the time that it submits: the previous
-- hash with its words swapped back, and the coinbase with the extranonce of the subscription and its own
-- one between the two parts.
unfoldable pub miner_header :
    (hash256 : List ℕ → List ℕ)
    → Text × (Text × ℕ)
    → (extranonce2 : List ℕ) → MiningNotify
    → (version_mask nonce_sent timestamp : Option ℤ) → Option (List ℕ)
miner_header hash256 subscribed extranonce2 n version_mask nonce_sent timestamp =
    with_number (parse_hex n.version) (λ version. with_number (parse_hex n.bits) (λ bits.
      join_header (write_version version version_mask)
        (swap_endian_words n.prev_hash
          ++ calculate_merkle_root_hash hash256
              (hash256 (
                n.coinbase_part1
                ++ (hex_bytes subscribed.1.0 ++ (extranonce2 ++ n.coinbase_part2))))
              n.merkle_branch)
        (write_uint32 timestamp) (le_bytes 4 bits) (write_uint32 nonce_sent)))

-- When the job keeps the serialized coinbase and the template's branch, and the previous hash is
-- whole words, a miner of a session that is not in hobby mode, which puts the extranonce of its subscription
-- and one of the size that it was told into the coinbase of the notification, hashes the header that
-- the pool judges, for every version mask, nonce and time.
pub miner_header-response :
    (hash256 : List ℕ → List ℕ) {f : Float64} (lib : Bitcoin) (tx : CoinbaseTransaction)
    (job : Job f) (t : JobTemplate f) (client_id : Text) (extranonce2 : List ℕ)
    → job.coinbase ≡ lib.to_buffer tx
    → job.merkle_branch ≡ t.merkle_branch
    → IsWords t.prev_hash
    → let subscribed = subscription_response client_id false in
      length extranonce2 ≡ subscribed.1.1
      → (version_mask nonce_sent timestamp : Option ℤ)
      → miner_header hash256 subscribed extranonce2
          (response lib tx job t)
          version_mask
          nonce_sent
          timestamp
        ≡ build_header_buffer hash256 job t version_mask nonce_sent timestamp
unfolding miner_header response build_header_buffer subscription_response hex_bytes
miner_header-response hash256 lib tx job t client_id (x ∷ s) coinbase branch words size version_mask
      nonce_sent timestamp =
    absurd (omega (arith, size))
miner_header-response hash256 lib tx job t client_id [] coinbase branch words size version_mask
      nonce_sent timestamp =
    rw
      (
        parse_hex-to_hex job.job_version,
        parse_hex-to_hex t.bits,
        swap_endian_words_twice t.prev_hash words,
        coinbase_part1-coinbase_part2 lib tx,
        coinbase,
        branch,
      )
      refl
