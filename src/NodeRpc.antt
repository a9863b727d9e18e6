-- ===== src/NodeRpc.antt =====
-- src/services/bitcoin-rpc.service.ts: the client of the pool's own node. The node is a parameter: its
-- answer to a request, by the number of the request, or the failure to reach it. The subscribers of
-- `newBlock$` see the list of what was emitted, newest first. Timers and the ZMQ socket only say when
-- a poll starts.
pub mod Tip
pub mod Templates
pub mod Scans
use elektron_net_ppool.Common.{
  ℕ, zero, suc, ◌+◌, ℤ, pos, negsuc, String, str_eq, Bool, true, false, Option, none, some, List,
  [], ◌∷◌, ltb, ◌==◌, if◌then◌else◌,
}
use elektron_net_ppool.Common.Js.{Text, codes}
use elektron_net_ppool.Common.Float.{Float64}
use elektron_net_ppool.Config.{Config}
use elektron_net_ppool.Wallet.{Result, ok, threw, RpcError}

-- `cfg(newKey, oldKey)`
unfoldable pub cfg : Config → String → String → Option String
cfg config new_key old_key = elim (config new_key) [
  | none ↦ config old_key
  | some value ↦ some value
]

-- Of what `getmininginfo` answers, the field that is read.
pub record MiningInfo : Type 0 where
  pub blocks : ℕ

-- The body of a JSON-RPC answer.
pub record Envelope (A : Type 0) : Type 0 where
  pub error : Option RpcError
  pub result : Option A

pub record BitcoinRpcService : Type 0 where
  pub block_height : ℕ
  pub rpc_request_id : ℕ
  pub new_blocks : List MiningInfo

-- What `callRpc` makes of the answer.
unfoldable pub unwrap : {A : Type 0} → Result (Envelope A) → Result (Option A)
unwrap (threw e) = threw e
unwrap (ok body) = elim body.error [ some e ↦ threw e | none ↦ ok body.result ]

-- `++this.rpcRequestId`
abbrev pub next_request : BitcoinRpcService → BitcoinRpcService
next_request s = record s { rpc_request_id = suc s.rpc_request_id }

unfoldable pub call_rpc :
    {A : Type 0}
    → (ℕ → Result (Envelope A))
    → BitcoinRpcService
    → Result (Option A) × BitcoinRpcService
unfolding unwrap
call_rpc node s = let s' = next_request s in (unwrap (node s'.rpc_request_id), s')

-- The `catch` of `getMiningInfo`.
abbrev pub or_null : {A : Type 0} → Result (Option A) → Option A
or_null (threw e) = none
or_null (ok answer) = answer

unfoldable pub get_mining_info :
    (ℕ → Result (Envelope MiningInfo)) → BitcoinRpcService → Option MiningInfo × BitcoinRpcService
unfolding call_rpc
get_mining_info node s = let (answer, s') = call_rpc node s in (or_null answer, s')

-- The part of a poll behind its `await`.
unfoldable pub announce : Option MiningInfo → BitcoinRpcService → BitcoinRpcService
announce none s = s
announce (some info) s =
    if ltb s.block_height info.blocks
    then record s { block_height = info.blocks; new_blocks = info ∷ s.new_blocks }
    else s

unfoldable pub poll_mining_info :
    (ℕ → Result (Envelope MiningInfo)) → BitcoinRpcService → BitcoinRpcService
unfolding get_mining_info announce
poll_mining_info node s = let (info, s') = get_mining_info node s in announce info s'

-- How a call of `getBlockTemplate` ends.
pub data Loaded (T : Type 0) : Type 0 where
  no_address failed : Loaded T
  loaded : T → Loaded T

module _ {T : Type 0} where
  -- The loop of `loadBlockTemplate`; `none` is that the fuel is out while the node still answers null.
  unfoldable pub load_block_template :
      (fuel : ℕ)
      → (ℕ → Result (Envelope T))
      → BitcoinRpcService
      → Option (Result T) × BitcoinRpcService
  unfolding call_rpc
  load_block_template zero node s = (none, s)
  load_block_template (suc fuel) node s =
      let (answer, s') = call_rpc node s in
      elim answer [
        | threw e ↦ (some (threw e), s')
        | ok (some template) ↦ (some (ok template), s')
        | ok none ↦ load_block_template fuel node s'
      ]

  abbrev pub loaded_or_failed : Option (Result T) → Option (Loaded T)
  loaded_or_failed none = none
  loaded_or_failed (some (threw e)) = some failed
  loaded_or_failed (some (ok template)) = some (loaded template)

  unfoldable pub get_block_template :
      (fuel : ℕ)
      → (String → ℕ → Result (Envelope T))
      → String
      → BitcoinRpcService
      → Option (Loaded T) × BitcoinRpcService
  unfolding load_block_template
  get_block_template fuel node address s =
      let (answer, s') = load_block_template fuel (node address) s in
      if str_eq address "" then (some no_address, s) else (loaded_or_failed answer, s')

-- What the caller of `SUBMIT_BLOCK` is told: the node's text, or the error that was caught.
pub data Submission : Type 0 where
  response : Text → Submission
  caught : RpcError → Submission

abbrev pub submission : Result (Option Text) → Submission
submission (threw e) = caught e
submission (ok none) = response (codes "SUCCESS!")
submission (ok (some text)) = response text

unfoldable pub submit_block :
    (List ℕ → ℕ → Result (Envelope Text))
    → List ℕ
    → BitcoinRpcService
    → Submission × BitcoinRpcService
unfolding call_rpc
submit_block node block s = let (answer, s') = call_rpc (node block) s in (submission answer, s')

abbrev pub is_exactly : ℕ → ℤ → Bool
is_exactly expected (pos n) = n == expected
is_exactly expected (negsuc n) = false

module _ (f : Float64) where
  -- `scantxoutset`; `unspents` is `none` where the answer has no array.
  pub record ScanResult : Type 0 where
    pub success : Bool
    pub unspents : Option (List f.F)

  -- `Math.round(utxo.amount * 1e8) === expectedAmountSats`
  abbrev pub is_amount : ℕ → f.F → Bool
  is_amount expected amount =
      is_exactly expected (f.round (f.mul amount (f.of_int (pos 100_000_000))))

  abbrev pub any_amount : ℕ → List f.F → Bool
  any_amount expected [] = false
  any_amount expected (x ∷ xs) = if is_amount expected x then true else any_amount expected xs

  abbrev pub unspents_have : ℕ → Option (List f.F) → Bool
  unspents_have expected none = false
  unspents_have expected (some xs) = any_amount expected xs

  abbrev pub scan_has : ℕ → Option ScanResult → Bool
  scan_has expected none = false
  scan_has expected (some r) = if r.success then unspents_have expected r.unspents else false

  abbrev pub scanned : ℕ → Result (Option ScanResult) → Result Bool
  scanned expected (threw e) = threw e
  scanned expected (ok answer) = ok (scan_has expected answer)

  unfoldable pub scan_address_for_amount_sats :
      (String → ℕ → Result (Envelope ScanResult))
      → String
      → ℕ
      → BitcoinRpcService
      → Result Bool × BitcoinRpcService
  unfolding call_rpc
  scan_address_for_amount_sats node address expected s =
      let (answer, s') = call_rpc (node address) s in (scanned expected answer, s')
