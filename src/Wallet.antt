-- ===== src/Wallet.antt =====
-- What the payout scheduler relies on of the wallet: the public operations of `WalletRpcService`
-- (src/services/wallet-rpc.service.ts), each with the value that its promise is resolved with or the
-- error that it is rejected with.
use elektron_net_ppool.Common.{ℤ, String, List, Option}
use elektron_net_ppool.Common.Js.{Text}

pub record RpcError : Type 0 where
  pub code : Option ℤ
  pub message : Option Text

pub data Result {ℓ} (A : Type ℓ) : Type ℓ where
  ok : A → Result A
  threw : RpcError → Result A

-- `{ address, amountSats }`
pub record Payout : Type 0 where
  pub address : String
  pub amount_sats : ℤ

pub record Wallet : Type 0 where
  pub send_many_sats : List Payout → Result String
  pub get_confirmations : String → Result ℤ
  pub get_wallet_balance_sats : Result ℤ
  pub get_wallet_total_balance_sats : Result ℤ
