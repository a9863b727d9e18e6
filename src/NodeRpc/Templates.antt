-- ===== src/NodeRpc/Templates.antt =====
-- How the loop that asks for a template ends.
use elektron_net_ppool.Common.{
  ℕ, zero, suc, ◌+◌, ◌<◌, ◌≡◌, refl, ◌∙◌, String, str_eq, Option, none, some, if◌then◌else◌, arith,
}
use elektron_net_ppool.Wallet.{Result, ok, threw}
use elektron_net_ppool.NodeRpc.{
  BitcoinRpcService, Envelope, unwrap, next_request, call_rpc, load_block_template, no_address,
  loaded_or_failed, get_block_template,
}

module _ {T : Type 0} where
  -- What ends the loop: an error, or a template.
  unfoldable pub settled : Result (Option T) → Option (Result T)
  settled (threw e) = some (threw e)
  settled (ok none) = none
  settled (ok (some template)) = some (ok template)

  one_answer :
      (fuel : ℕ) (node : ℕ → Result (Envelope T)) (r : Result T) (s : BitcoinRpcService)
      (answer : Result (Option T))
      → settled answer ≡ some r
      → elim answer [
        | threw e ↦ (some (threw e), next_request s)
        | ok (some template) ↦ (some (ok template), next_request s)
        | ok none ↦ load_block_template fuel node (next_request s)
      ]
        ≡ (some r, next_request s)
  unfolding settled
  one_answer fuel node r s (threw e) h = cc
  one_answer fuel node r s (ok none) h = cc
  one_answer fuel node r s (ok (some t)) h = cc

  null_answer :
      (fuel : ℕ) (node : ℕ → Result (Envelope T)) (s : BitcoinRpcService)
      (answer : Result (Option T))
      → answer ≡ ok none
      → ◌≡◌ {A = Option (Result T) × BitcoinRpcService}
          (elim answer [
            | threw e ↦ (some (threw e), next_request s)
            | ok (some template) ↦ (some (ok template), next_request s)
            | ok none ↦ load_block_template fuel node (next_request s)
          ])
          (load_block_template fuel node (next_request s))
  null_answer fuel node s answer h = rw h refl

  -- Where the node answers null `k` times and then an error or a template, the loop ends with that answer
  -- after `k + 1` requests, given that much fuel or more.
  pub load_block_template_ends :
      (fuel k : ℕ) (node : ℕ → Result (Envelope T)) (r : Result T) (s : BitcoinRpcService)
      → k < fuel
      → ((i : ℕ) → i < k → unwrap (node (suc (i + s.rpc_request_id))) ≡ ok none)
      → settled (unwrap (node (suc (k + s.rpc_request_id)))) ≡ some r
      → load_block_template fuel node s
        ≡ (some r, record s { rpc_request_id = suc (k + s.rpc_request_id) })
  unfolding load_block_template call_rpc
  load_block_template_ends zero k node r s enough nulls last = absurd (omega arith)
  load_block_template_ends (suc fuel) zero node r s enough nulls last =
      let e : 0 + s.rpc_request_id ≡ s.rpc_request_id = omega arith in
      rw e (one_answer fuel node r s (unwrap (node (suc s.rpc_request_id))) (rw e at last))
  load_block_template_ends (suc fuel) (suc k) node r s enough nulls last =
      let e : 0 + s.rpc_request_id ≡ s.rpc_request_id = omega arith in
      let first : unwrap (node (suc s.rpc_request_id)) ≡ ok none =
        rw e at (nulls 0 (omega arith)) in
      let shift : (i : ℕ) → suc i + s.rpc_request_id ≡ i + suc s.rpc_request_id =
        λ i. omega arith in
      null_answer fuel node s (unwrap (node (suc s.rpc_request_id))) first
      ∙ rw (shift k) (
          load_block_template_ends fuel k node r (next_request s) (omega arith)
            (λ i h. rw (shift i) at (nulls (suc i) (omega arith))) (rw (shift k) at last))

  -- So a call for a non-empty address ends, with the first template that the node answers or, at an error
  -- before it, as a failure; for an empty address the node is not asked at all.
  pub get_block_template_ends :
      (fuel k : ℕ) (node : String → ℕ → Result (Envelope T)) (address : String) (r : Result T)
      (s : BitcoinRpcService)
      → k < fuel
      → ((i : ℕ) → i < k → unwrap (node address (suc (i + s.rpc_request_id))) ≡ ok none)
      → settled (unwrap (node address (suc (k + s.rpc_request_id)))) ≡ some r
      → get_block_template fuel node address s ≡ (
          if str_eq address "" then (some no_address, s) else (
            loaded_or_failed (some r),
            record s { rpc_request_id = suc (k + s.rpc_request_id) },
          ))
  unfolding get_block_template
  get_block_template_ends fuel k node address r s enough nulls last =
      rw (load_block_template_ends fuel k (node address) r s enough nulls last) refl
