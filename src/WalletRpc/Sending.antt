-- ===== src/WalletRpc/Sending.antt =====
-- How often a batch is sent, and that the wallet is locked again.
use elektron_net_ppool.Common.{
  ◌≡◌, refl, Bool, true, false, Option, none, some, List, [], ◌∷◌, ◌++◌, String,
}
use elektron_net_ppool.Common.Float.{Float64}
use elektron_net_ppool.Config.{Config}
use elektron_net_ppool.Wallet.{Result, ok, threw, RpcError, Payout}
use elektron_net_ppool.WalletRpc.{
  Amounts, amounts_from, wallet_passphrase, wallet_lock, send_many, Node, Calls, ask, retry,
  unlocked_send, min_confirmations, get_fallback_fee_rate, is_fee_estimation_failure,
  send_many_with_fee_fallback, send_many_sats, wallet_passphrase_of, wallet_unlock_seconds,
}

module _ (f : Float64) (config : Config) (node : Node f) where
  -- The calls that end with an attempt without a fee rate, and with one after it.
  abbrev pub first_attempt : Amounts → Calls f → Calls f
  first_attempt amounts calls = calls ++ send_many amounts min_confirmations none ∷ []

  abbrev pub second_attempt : Amounts → Calls f → Calls f
  second_attempt amounts calls =
      first_attempt amounts calls
      ++ send_many amounts min_confirmations (some (get_fallback_fee_rate f config)) ∷ []

  -- How a batch may go out: one call, whose answer counts unless it is a failure to estimate the
  -- fee; only then one more, whose answer counts.
  pub data Sends (amounts : Amounts) (calls : Calls f) (r : Result String) (after : Calls f)
      : Type 0 where
    sent :
        (txid : String)
        → node.sent (first_attempt amounts calls) ≡ ok txid
        → r ≡ ok txid
        → after ≡ first_attempt amounts calls
        → Sends amounts calls r after
    failed :
        (e : RpcError)
        → node.sent (first_attempt amounts calls) ≡ threw e
        → is_fee_estimation_failure e ≡ false
        → r ≡ threw e
        → after ≡ first_attempt amounts calls
        → Sends amounts calls r after
    retried :
        (e : RpcError)
        → node.sent (first_attempt amounts calls) ≡ threw e
        → is_fee_estimation_failure e ≡ true
        → r ≡ node.sent (second_attempt amounts calls)
        → after ≡ second_attempt amounts calls
        → Sends amounts calls r after

  -- Every call of `sendManyWithFeeFallback` goes in one of these ways, so a batch that was accepted, or
  -- whose fate is not known, is not sent again.
  pub send_many_with_fee_fallback-Sends :
      (amounts : Amounts) (calls : Calls f)
      → let (r, after) = send_many_with_fee_fallback f config node amounts calls in
        Sends amounts calls r after
  unfolding send_many_with_fee_fallback
  send_many_with_fee_fallback-Sends amounts calls =
      go (node.sent (first_attempt amounts calls)) refl
    where
      failing :
          (e : RpcError) (b : Bool)
          → node.sent (first_attempt amounts calls) ≡ threw e
          → is_fee_estimation_failure e ≡ b
          → let (r, after) = retry f config node amounts (threw e, first_attempt amounts calls) in
            Sends amounts calls r after
      failing e true h k = rw k (retried e h k refl refl)
      failing e false h k = rw k (failed e h k refl refl)

      go :
          (a : Result String)
          → node.sent (first_attempt amounts calls) ≡ a
          → let (r, after) = retry f config node amounts (a, first_attempt amounts calls) in
            Sends amounts calls r after
      go (ok txid) h = sent txid h refl refl
      go (threw e) h = failing e (is_fee_estimation_failure e) h refl

  -- The calls of a payment from a wallet with a passphrase: the unlocking, then, unless that failed,
  -- the attempts, and last the locking, whose own answer does not change the result.
  abbrev pub unlocking : String → Calls f → Calls f
  unlocking passphrase calls =
      calls ++ wallet_passphrase passphrase (wallet_unlock_seconds config) ∷ []

  pub data Guarded (passphrase : String) (amounts : Amounts) (calls : Calls f) (r : Result String)
      (after : Calls f) : Type 0 where
    refused :
        (e : RpcError)
        → node.unlocked (unlocking passphrase calls) ≡ threw e
        → r ≡ threw e
        → after ≡ unlocking passphrase calls
        → Guarded passphrase amounts calls r after
    relocked :
        (between : Calls f)
        → node.unlocked (unlocking passphrase calls) ≡ ok tt
        → Sends amounts (unlocking passphrase calls) r between
        → after ≡ between ++ wallet_lock ∷ []
        → Guarded passphrase amounts calls r after

  abbrev pub Pays : Option String → Amounts → Calls f → Result String → Calls f → Type 0
  Pays none amounts calls r after = Sends amounts calls r after
  Pays (some p) amounts calls r after = Guarded p amounts calls r after

  -- With a passphrase the wallet is unlocked first and locked last, however the payment ends; without
  -- one it is neither.
  pub send_many_sats-Pays :
      (payouts : List Payout) (calls : Calls f)
      → let (r, after) = send_many_sats f config node payouts calls in
        let amounts = amounts_from f payouts [] in
        Pays (wallet_passphrase_of config) amounts calls r after
  unfolding send_many_sats
  send_many_sats-Pays payouts calls = go (wallet_passphrase_of config)
    where
      amounts : Amounts
      amounts = amounts_from f payouts []

      pay :
          (p : String) (a : Result (Unit {0}))
          → node.unlocked (unlocking p calls) ≡ a
          → let (r, after) = unlocked_send f config node amounts (a, unlocking p calls) in
            Guarded p amounts calls r after
      pay p (threw e) h = refused e h refl refl
      pay p (ok tt) h =
          relocked _ h (send_many_with_fee_fallback-Sends amounts (unlocking p calls)) refl

      go :
          (o : Option String)
          → let (r, after) = elim o as (λ p. Result String × Calls f) [
            | none ↦ send_many_with_fee_fallback f config node amounts calls
            | some passphrase ↦ unlocked_send f config node amounts (
                ask f node.unlocked
                  (wallet_passphrase passphrase (wallet_unlock_seconds config))
                  calls)
          ] in
            Pays o amounts calls r after
      go none = send_many_with_fee_fallback-Sends amounts calls
      go (some p) = pay p (node.unlocked (unlocking p calls)) refl
