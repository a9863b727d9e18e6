-- ===== src/WalletRpc.antt =====
-- src/services/wallet-rpc.service.ts: the batch payment and the queries of the wallet's node. The node
-- is a parameter: what it answers to a call may depend on all the calls before it. The calls made so
-- far are the state.
pub mod Amounts
pub mod Sending
use elektron_net_ppool.Common.{
  ℕ, suc, ◌+◌, ◌*◌, ◌/◌, ◌%◌, ℤ, pos, negsuc, String, Bool, true, false, Option, none, some, List,
  [], ◌∷◌, ◌++◌, ltb, str_eq, if◌then◌else◌, ◌&&◌,
}
use elektron_net_ppool.Common.Js.{Text, codes, to_lower, includes}
use elektron_net_ppool.Common.Float.{Float64}
use elektron_net_ppool.Config.{Config, positive_setting}
use elektron_net_ppool.Wallet.{Wallet, Result, ok, threw, RpcError, Payout}

abbrev pub digit : ℕ → ℕ
digit n = b'0' + n

-- The decimal digits of a whole number; `fuel` above the number is enough.
unfoldable pub decimal : (fuel : ℕ) → ℕ → Text
decimal ℕ.zero n = []
decimal (suc fuel) n =
    let front = decimal fuel (n / 10) in
    if ltb n 10 then digit n ∷ [] else front ++ digit (n % 10) ∷ []

-- `(amountSats / 1e8).toFixed(8)`
unfoldable pub to_fixed8 : (f : Float64) → ℤ → Text
to_fixed8 f n = f.to_fixed8 (f.div (f.of_int n) (f.of_int (pos 100_000_000)))

-- `Record<string, string>`
abbrev pub Amounts : Type 0
Amounts = List (String × Text)

-- `amounts[address] = text`
unfoldable pub put : String → Text → Amounts → Amounts
put a t [] = (a, t) ∷ []
put a t ((b, u) ∷ m) = if str_eq b a then (b, t) ∷ m else (b, u) ∷ put a t m

unfoldable pub amounts_from : (f : Float64) → List Payout → Amounts → Amounts
unfolding put to_fixed8
amounts_from f [] m = m
amounts_from f (p ∷ payouts) m =
    amounts_from f payouts (put p.address (to_fixed8 f p.amount_sats) m)

abbrev pub is_fee_estimation_failure : RpcError → Bool
is_fee_estimation_failure e = elim e.message [
  | none ↦ false
  | some text ↦ includes (to_lower text) (codes "fee estimation failed")
]

abbrev pub min_confirmations : ℕ
min_confirmations = 1

-- `get('WALLET_PASSPHRASE') || undefined`
abbrev pub wallet_passphrase_of : Config → Option String
wallet_passphrase_of config = elim (config "WALLET_PASSPHRASE") [
  | none ↦ none
  | some s ↦ if str_eq s "" then none else some s
]

abbrev pub wallet_unlock_seconds : Config → ℕ
wallet_unlock_seconds config = positive_setting config "WALLET_UNLOCK_SECONDS" 60

module _ (f : Float64) where
  -- The calls of this service, with the parameters that vary; `send_many` has the minimum of
  -- confirmations, and the fee rate of the second attempt.
  pub data RpcCall : Type 0 where
    wallet_passphrase : String → ℕ → RpcCall
    wallet_lock : RpcCall
    send_many : Amounts → ℕ → Option f.F → RpcCall

  pub record Node : Type 0 where
    pub unlocked : List RpcCall → Result (Unit {0})
    pub locked : List RpcCall → Result (Unit {0})
    pub sent : List RpcCall → Result String
    -- `gettransaction(txid).confirmations`
    pub confirmations : String → Result (Option ℤ)
    -- `getbalance`, and `balance` and `immature_balance` of `getwalletinfo`
    pub balance : Result f.F
    pub balances : Result (f.F × f.F)

  abbrev pub Calls : Type 0
  Calls = List RpcCall

  -- A positive rate in lepton per vB.
  abbrev pub get_fallback_fee_rate : Config → f.F
  get_fallback_fee_rate config =
      let one = f.of_int (pos 1) in
      elim (config "PAYOUT_FALLBACK_FEE_RATE_SATS_PER_VB") [
        | none ↦ one
        | some s ↦ elim (f.parse (codes s)) [
          | none ↦ one
          | some x ↦ if f.lt (f.of_int (pos 0)) x then x else one
        ]
      ]

  abbrev pub ask : {A : Type 0} → (Calls → Result A) → RpcCall → Calls → Result A × Calls
  ask answer call calls = let calls' = calls ++ call ∷ [] in (answer calls', calls')

  abbrev pub retry : Config → Node → Amounts → Result String × Calls → Result String × Calls
  retry config node amounts (ok txid, calls) = (ok txid, calls)
  retry config node amounts (threw e, calls) =
      if is_fee_estimation_failure e
      then ask node.sent (send_many amounts min_confirmations (some (get_fallback_fee_rate config)))
          calls
      else (threw e, calls)

  unfoldable pub send_many_with_fee_fallback :
      Config → Node → Amounts → Calls → Result String × Calls
  send_many_with_fee_fallback config node amounts calls =
      retry config node amounts (ask node.sent (send_many amounts min_confirmations none) calls)

  -- The `finally` block: the lock's own failure is swallowed.
  abbrev pub finally_lock : Node → Result String × Calls → Result String × Calls
  finally_lock node (result, calls) =
      let (_, calls') = ask node.locked wallet_lock calls in (result, calls')

  abbrev pub unlocked_send :
      Config → Node → Amounts → Result (Unit {0}) × Calls → Result String × Calls
  unlocked_send config node amounts (threw e, calls) = (threw e, calls)
  unlocked_send config node amounts (ok _, calls) =
      finally_lock node (send_many_with_fee_fallback config node amounts calls)

  unfoldable pub send_many_sats : Config → Node → List Payout → Calls → Result String × Calls
  unfolding send_many_with_fee_fallback amounts_from
  send_many_sats config node payouts calls =
      let amounts = amounts_from f payouts [] in
      elim (wallet_passphrase_of config) [
        | none ↦ send_many_with_fee_fallback config node amounts calls
        | some passphrase ↦
            unlocked_send config node amounts (
              ask node.unlocked (wallet_passphrase passphrase (wallet_unlock_seconds config)) calls)
      ]

  abbrev pub to_sats : f.F → ℤ
  to_sats x = f.round (f.mul x (f.of_int (pos 100_000_000)))

  unfoldable pub get_confirmations : Node → String → Result ℤ
  get_confirmations node txid = elim (node.confirmations txid) [
    | threw e ↦ threw e
    | ok none ↦ ok (pos 0)
    | ok (some n) ↦ ok n
  ]

  unfoldable pub get_wallet_balance_sats : Node → Result ℤ
  get_wallet_balance_sats node = elim node.balance [ threw e ↦ threw e | ok x ↦ ok (to_sats x) ]

  unfoldable pub get_wallet_total_balance_sats : Node → Result ℤ
  get_wallet_total_balance_sats node = elim node.balances [
    | threw e ↦ threw e
    | ok (spendable, immature) ↦ ok (to_sats (f.add spendable immature))
  ]

  -- The wallet as the scheduler sees it, for one call of `sendManySats` after `calls`.
  abbrev pub wallet_of : Config → Node → Calls → Wallet
  wallet_of config node calls = record {
    send_many_sats = λ payouts. (send_many_sats config node payouts calls).0;
    get_confirmations = get_confirmations node;
    get_wallet_balance_sats = get_wallet_balance_sats node;
    get_wallet_total_balance_sats = get_wallet_total_balance_sats node;
  }
