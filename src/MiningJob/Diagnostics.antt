-- ===== src/MiningJob/Diagnostics.antt =====
-- The headers that the diagnostics of a rejected share try (src/models/MiningJob.ts), where the miner
-- may have put its extra nonce into the coinbase.
use elektron_net_ppool.Common.{ℕ, ℤ, ◌≡◌, refl, Option, List, [], ◌∷◌, ◌++◌, append-nil}
use elektron_net_ppool.Common.Float.{Float64}
use elektron_net_ppool.Jobs.{JobTemplate, Job}
use elektron_net_ppool.Stratum.Header.{
  le_bytes, write_uint32, write_version, join_header, calculate_merkle_root_hash,
  build_header_buffer,
}
use elektron_net_ppool.MiningJob.{CoinbaseTransaction, Bitcoin, coinbase_part1, coinbase_part2}
use elektron_net_ppool.MiningJob.Payout.{coinbase_part1-coinbase_part2}

module _ (hash256 : List ℕ → List ℕ) (lib : Bitcoin) (tx : CoinbaseTransaction) {f : Float64}
    (job : Job f) (t : JobTemplate f) (version_mask nonce_sent timestamp : Option ℤ) where
  unfoldable pub assemble_header : (coinbase_serialized : List ℕ) → Option (List ℕ)
  assemble_header coinbase_serialized =
      join_header (write_version job.job_version version_mask)
        (t.prev_hash
          ++ calculate_merkle_root_hash hash256 (hash256 coinbase_serialized) job.merkle_branch)
        (write_uint32 timestamp) (le_bytes 4 t.bits) (write_uint32 nonce_sent)

  unfoldable pub build_header_buffer_with_coinbase_suffix : List ℕ → Option (List ℕ)
  unfolding assemble_header coinbase_part1
  build_header_buffer_with_coinbase_suffix [] = assemble_header (coinbase_part1 lib tx)
  build_header_buffer_with_coinbase_suffix (b ∷ suffix) =
      assemble_header (coinbase_part1 lib tx ++ b ∷ suffix)

  unfoldable pub build_header_buffer_with_coinbase_prefix : List ℕ → Option (List ℕ)
  unfolding assemble_header coinbase_part1
  build_header_buffer_with_coinbase_prefix [] = assemble_header (coinbase_part1 lib tx)
  build_header_buffer_with_coinbase_prefix (b ∷ before) =
      assemble_header ((b ∷ before) ++ coinbase_part1 lib tx)

  -- `clone` is `Transaction.fromBuffer(tx.toBuffer())`.
  unfoldable pub build_header_buffer_with_script_sig_splice :
      (clone : CoinbaseTransaction → CoinbaseTransaction) → List ℕ → Option (List ℕ)
  unfolding assemble_header
  build_header_buffer_with_script_sig_splice clone extra_bytes =
      let cloned = clone tx in
      assemble_header
        (lib.to_buffer (record cloned { script_sig = cloned.script_sig ++ extra_bytes }))

  -- When the job keeps the serialized coinbase and a clone is the same transaction, the splice of no
  -- bytes and the two parts put together give the header that a share is judged by.
  pub assemble_header-build_header_buffer :
      (clone : CoinbaseTransaction → CoinbaseTransaction)
      → clone tx ≡ tx
      → job.coinbase ≡ lib.to_buffer tx
      → let judged = build_header_buffer hash256 job t version_mask nonce_sent timestamp in
        (build_header_buffer_with_script_sig_splice clone [] ≡ judged)
        × (assemble_header (coinbase_part1 lib tx ++ coinbase_part2 lib tx) ≡ judged)
  unfolding build_header_buffer_with_script_sig_splice build_header_buffer assemble_header
  assemble_header-build_header_buffer clone same kept = (
    rw (same, append-nil tx.script_sig, kept) refl,
    rw (coinbase_part1-coinbase_part2 lib tx, kept) refl,
  )
