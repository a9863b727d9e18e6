-- ===== src/Tests/Node.antt =====
-- The claims about the node's client and logins by payment at concrete inputs.
use elektron_net_ppool.Common.{
  ℕ, zero, suc, ◌+◌, ◌≤◌, ◌<◌, ◌≡◌, refl, String, true, Option, none, some, List, [], ◌∷◌, arith,
}
use elektron_net_ppool.Common.Js.{codes}
use elektron_net_ppool.Wallet.{Result, ok, threw}
use elektron_net_ppool.Auth.{
  Challenge, ChallengeStore, get_challenge, consume, peek, unexpired, check_payment, login_on_chain,
}
use elektron_net_ppool.NodeRpc.{
  Envelope, BitcoinRpcService, unwrap, call_rpc, loaded, get_block_template, ScanResult,
  scan_address_for_amount_sats,
}
use elektron_net_ppool.NodeRpc.Tip.{Event, asks, hears, watch, highest, Rises, watch-Rises}
use elektron_net_ppool.NodeRpc.Templates.{settled, get_block_template_ends}
use elektron_net_ppool.NodeRpc.Scans.{HasAmount, IsScanned, login_on_chain-HasAmount}
use elektron_net_ppool.Tests.{fixed}

abbrev service : BitcoinRpcService
service = record { block_height = 0; rpc_request_id = 0; new_blocks = [] }

abbrev envelope : {A : Type 0} → Option A → Result (Envelope A)
envelope o = ok (record { error = none; result = o })

abbrev height : ℕ → Event
height n = hears (envelope (some (record { blocks = n })))

-- Two polls overlap, one answer is old, and one is an error.
abbrev events : List Event
events =
    asks
    ∷ asks
    ∷ height 7
    ∷ height 5
    ∷ asks
    ∷ hears (threw (record { code = none; message = none }))
    ∷ height 9
    ∷ []

watch-Rises_example :
    Rises (watch events service).block_height (watch events service).new_blocks
    × ((watch events service).block_height ≡ highest events 0)
unfolding Rises
watch-Rises_example = watch-Rises events service refl

-- The node has a template from its third answer on.
abbrev node : String → ℕ → Result (Envelope ℕ)
node address zero = envelope none
node address (suc zero) = envelope none
node address (suc (suc zero)) = envelope none
node address (suc (suc (suc n))) = envelope (some 42)

get_block_template_ends_example :
    get_block_template 5 node "be1pool" service
    ≡ (some (loaded 42), record { block_height = 0; rpc_request_id = 3; new_blocks = [] })
unfolding unwrap settled
get_block_template_ends_example =
    get_block_template_ends 5 2 node "be1pool" (ok 42) service (omega arith) nulls refl
  where
    nulls : (i : ℕ) → i < 2 → unwrap (node "be1pool" (suc (i + 0))) ≡ ok none
    nulls zero h = refl
    nulls (suc zero) h = refl
    nulls (suc (suc i)) h = absurd (omega (arith, h))

abbrev challenge : Challenge
challenge = record { nonce = codes "00ff"; required_amount_sats = 500; expires_at = 5000 }

abbrev store : ChallengeStore
store = ("alice", challenge) ∷ []

-- Outputs of 0.000005, which are 500 of the smallest unit, and of 0.
abbrev scan : String → ℕ → Result (Envelope (ScanResult fixed))
scan address n = envelope (some (record { success = true; unspents = some (5 ∷ 0 ∷ []) }))

login_on_chain-HasAmount_example :
    (◌≡◌ {A = String} "alice" "alice")
    × ((c : Challenge) × ((xs : List ℕ) × ((get_challenge "alice" store ≡ some c)
            × ((4000 ≤ c.expires_at)
                × (IsScanned fixed (unwrap (scan "alice" 1)) xs
                    × HasAmount fixed c.required_amount_sats xs)))))
unfolding login_on_chain peek unexpired check_payment consume scan_address_for_amount_sats call_rpc
    unwrap
login_on_chain-HasAmount_example =
    login_on_chain-HasAmount fixed scan service 4000 "alice" "alice" store [] refl
