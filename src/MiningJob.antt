-- ===== src/MiningJob.antt =====
-- The coinbase of a job, what the miner is told of it, and the block that is submitted
-- (src/models/MiningJob.ts). Buffers are lists of bytes. What bitcoinjs does is an argument: the
-- script of an address, the encoding of a height, the serialization and the weight of a transaction,
-- and the commitment script.
pub mod Diagnostics
pub mod Hex
pub mod Miner
pub mod Payout
pub mod Submitted
use elektron_net_ppool.Common.{
  ℕ, suc, ◌+◌, ◌-◌, ◌*◌, ◌%◌, ◌^◌, ℤ, pos, negsuc, ◌+ℤ◌, ◌-ℤ◌, String, Bool, true, false, Option,
  none, some, List, [], ◌∷◌, ◌++◌, map, ltb, length, if◌then◌else◌, drop,
}
use elektron_net_ppool.Common.Js.{Text}
use elektron_net_ppool.Common.Float.{Float64}
use elektron_net_ppool.Jobs.{JobTemplate, Job, to_hex}
use elektron_net_ppool.Stratum.Header.{calculate_merkle_root_hash, to_int32}
use Prim.Native.Nat.{bit_xor}

pub record TxOut : Type 0 where
  pub script : List ℕ
  pub value : ℤ

-- The fields of the transaction that are not constants: its version is 2, its only input is that of a
-- coinbase with the sequence 0xfffffffe, and its witness is 32 zero bytes.
pub record CoinbaseTransaction : Type 0 where
  pub script_sig : List ℕ
  pub outs : List TxOut
  pub locktime : ℤ

-- AddressObject
pub record AddressObject : Type 0 where
  pub address : String
  pub percent : ℕ

-- What of the template the coinbase is made from; an absent prefix is `[]`.
pub record CoinbaseTemplate : Type 0 where
  pub height : ℕ
  pub coinbasevalue : ℤ
  pub coinbase_script_sig_prefix : List ℕ
  pub coinbase_required_outputs : List TxOut
  pub witness_commit : Option (List ℕ)
  pub block_weight : ℕ

-- `to_output_script` is `none` where it throws.
pub record Bitcoin : Type 0 where
  pub to_output_script : String → Option (List ℕ)
  pub encode_number : ℕ → List ℕ
  pub commitment_script : List ℕ → List ℕ
  pub to_buffer : CoinbaseTransaction → List ℕ
  pub weight : CoinbaseTransaction → ℕ

abbrev pub max_block_weight : ℕ
max_block_weight = 4_000_000

abbrev pub take {ℓ} : {A : Type ℓ} → ℕ → List A → List A
take ℕ.zero xs = []
take (suc n) [] = []
take (suc n) (x ∷ xs) = x ∷ take n xs

abbrev pub or_empty : Option (List ℕ) → List ℕ
or_empty none = []
or_empty (some s) = s

unfoldable pub get_payment_script : Bitcoin → String → List ℕ
get_payment_script lib address = or_empty (lib.to_output_script address)

-- The loop over the addresses, with the balance that is left.
unfoldable pub pay_each :
    (f : Float64) → Bitcoin → (reward : ℤ) → List AddressObject → ℤ → List TxOut × ℤ
unfolding get_payment_script
pay_each f lib reward [] balance = ([], balance)
pay_each f lib reward (a ∷ rest) balance =
    let amount =
      f.floor (f.mul (f.div (f.of_int (pos a.percent)) (f.of_int (pos 100))) (f.of_int reward)) in
    let (outs, left) = pay_each f lib reward rest (balance -ℤ amount) in
    (record { script = get_payment_script lib a.address; value = amount } ∷ outs, left)

-- `outs[0].value += rewardBalance`; without an output it throws.
abbrev pub add_balance : List TxOut × ℤ → Option (List TxOut)
add_balance ([], balance) = none
add_balance (o ∷ outs, balance) = some (record o { value = o.value +ℤ balance } ∷ outs)

unfoldable pub create_coinbase_outputs :
    Float64 → Bitcoin → List AddressObject → ℤ → Option (List TxOut)
unfolding pay_each
create_coinbase_outputs f lib addresses reward =
    add_balance (pay_each f lib reward addresses reward)

-- At least two bytes, against `bad-cb-length`.
abbrev padded : List ℕ → List ℕ
padded [] = 0 ∷ []
padded (x ∷ []) = x ∷ 0 ∷ []
padded (x ∷ y ∷ s) = x ∷ y ∷ s

abbrev height_script : Bitcoin → ℕ → List ℕ
height_script lib height =
    let encoded = lib.encode_number height in padded (length encoded ∷ encoded)

unfoldable pub script_sig_of : Bitcoin → CoinbaseTemplate → List ℕ
script_sig_of lib t = elim t.coinbase_script_sig_prefix [
  | [] ↦ height_script lib t.height
  | ◌∷◌ x s ↦ x ∷ s
]

-- The required outputs in the template's order, or else the witness commitment.
unfoldable pub extra_outputs : Bitcoin → List TxOut → Option (List ℕ) → List TxOut
extra_outputs lib (o ∷ outs) commit = o ∷ outs
extra_outputs lib [] none = []
extra_outputs lib [] (some commit) =
    record { script = lib.commitment_script commit; value = pos 0 } ∷ []

abbrev pub within_weight :
    Bitcoin → CoinbaseTemplate → CoinbaseTransaction → Option CoinbaseTransaction
within_weight lib t tx =
    if ltb max_block_weight (lib.weight tx + t.block_weight) then none else some tx

unfoldable pub finish_coinbase :
    Bitcoin → CoinbaseTemplate → Option (List TxOut) → Option CoinbaseTransaction
unfolding script_sig_of extra_outputs
finish_coinbase lib t none = none
finish_coinbase lib t (some outs) = within_weight lib t (record {
  script_sig = script_sig_of lib t;
  outs = outs ++ extra_outputs lib t.coinbase_required_outputs t.witness_commit;
  locktime = pos t.height -ℤ pos 1;
})

-- The constructor; `none` is an error.
unfoldable pub coinbase_of :
    Float64 → Bitcoin → List AddressObject → CoinbaseTemplate → Option CoinbaseTransaction
unfolding create_coinbase_outputs finish_coinbase
coinbase_of f lib addresses t =
    finish_coinbase lib t (create_coinbase_outputs f lib addresses t.coinbasevalue)

-- `41 + 1 + scriptSig.length`
abbrev pub coinbase_split_offset : CoinbaseTransaction → ℕ
coinbase_split_offset tx = 41 + 1 + length tx.script_sig

unfoldable pub coinbase_part1 : Bitcoin → CoinbaseTransaction → List ℕ
coinbase_part1 lib tx = take (coinbase_split_offset tx) (lib.to_buffer tx)

unfoldable pub coinbase_part2 : Bitcoin → CoinbaseTransaction → List ℕ
coinbase_part2 lib tx = drop (coinbase_split_offset tx) (lib.to_buffer tx)

-- Four bytes at a time; what is read past the end is written as 0.
unfoldable pub swap_endian_words : List ℕ → List ℕ
swap_endian_words (a ∷ b ∷ c ∷ d ∷ rest) = d ∷ c ∷ b ∷ a ∷ swap_endian_words rest
swap_endian_words (a ∷ b ∷ c ∷ []) = 0 ∷ c ∷ b ∷ []
swap_endian_words (a ∷ b ∷ []) = 0 ∷ 0 ∷ []
swap_endian_words (a ∷ []) = 0 ∷ []
swap_endian_words [] = []

-- IMiningNotify; the parts are hexadecimal on the wire.
pub record MiningNotify : Type 0 where
  pub job_id : Text
  pub prev_hash : List ℕ
  pub coinbase_part1 : List ℕ
  pub coinbase_part2 : List ℕ
  pub merkle_branch : List (List ℕ)
  pub version : Text
  pub bits : Text
  pub timestamp : Text
  pub clear_jobs : Bool

unfoldable pub response :
    {f : Float64} → Bitcoin → CoinbaseTransaction → Job f → JobTemplate f → MiningNotify
unfolding coinbase_part1 coinbase_part2 swap_endian_words
response lib tx job t = record {
  job_id = job.job_id;
  prev_hash = swap_endian_words t.prev_hash;
  coinbase_part1 = coinbase_part1 lib tx;
  coinbase_part2 = coinbase_part2 lib tx;
  merkle_branch = t.merkle_branch;
  version = to_hex job.job_version;
  bits = to_hex t.bits;
  timestamp = to_hex t.timestamp;
  clear_jobs = t.clear_jobs;
}

-- The block that is submitted, with the number that its version is.
pub record Block : Type 0 where
  pub version : ℤ
  pub prev_hash : List ℕ
  pub merkle_root : List ℕ
  pub timestamp : Option ℤ
  pub bits : ℕ
  pub nonce : Option ℤ

-- The number below 2 ^ 32 as the signed one with the same bits.
abbrev pub signed32 : ℕ → ℤ
signed32 n = if ltb n (2 ^ 31) then pos n else negsuc ((2 ^ 32 - 1) - n)

-- `version ^ versionMask`, unless the mask is 0.
unfoldable pub masked_version : ℕ → Option ℤ → ℤ
masked_version version (some (pos ℕ.zero)) = pos version
masked_version version none = signed32 (version % 2 ^ 32)
masked_version version (some mask) = signed32 (bit_xor (version % 2 ^ 32) (to_int32 mask))

-- `transaction_hash` is `getHash(false)` of the coinbase.
unfoldable pub copy_and_update_block :
    (hash256 : List ℕ → List ℕ)
    → (transaction_hash : List ℕ) → {f : Float64} → Job f
    → JobTemplate f
    → (version_mask nonce timestamp : Option ℤ) → Block
unfolding masked_version
copy_and_update_block hash256 transaction_hash job t version_mask nonce timestamp = record {
  version = masked_version job.job_version version_mask;
  prev_hash = t.prev_hash;
  merkle_root = calculate_merkle_root_hash hash256 transaction_hash job.merkle_branch;
  timestamp = timestamp;
  bits = t.bits;
  nonce = nonce;
}
