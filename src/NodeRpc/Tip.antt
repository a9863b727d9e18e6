-- ===== src/NodeRpc/Tip.antt =====
-- The heights that the subscribers of new blocks see, whatever the node answers and in whatever order.
use elektron_net_ppool.Common.{
  ℕ, suc, ◌<◌, max, ◌≡◌, refl, ap, ◌∙◌, Option, none, some, List, [], ◌∷◌, ltb, Bool-cases, inl,
  inr, arith,
}
use elektron_net_ppool.Wallet.{Result}
use elektron_net_ppool.NodeRpc.{
  MiningInfo, Envelope, BitcoinRpcService, unwrap, next_request, or_null, call_rpc, get_mining_info,
  announce, poll_mining_info,
}

-- The polls of the timer and of the socket overlap: a request and an answer are steps of their own.
pub data Event : Type 0 where
  asks : Event
  hears : Result (Envelope MiningInfo) → Event

abbrev pub happen : Event → BitcoinRpcService → BitcoinRpcService
happen asks s = next_request s
happen (hears answer) s = announce (or_null (unwrap answer)) s

abbrev pub watch : List Event → BitcoinRpcService → BitcoinRpcService
watch [] s = s
watch (e ∷ events) s = watch events (happen e s)

-- The height that an answer tells; 0 where there is none.
abbrev pub told : Option MiningInfo → ℕ
told none = 0
told (some info) = info.blocks

abbrev pub highest : List Event → ℕ → ℕ
highest [] n = n
highest (asks ∷ events) n = highest events n
highest (hears answer ∷ events) n = highest events (max n (told (or_null (unwrap answer))))

-- Every height that was emitted is above the ones before it, and the newest one is the height kept.
unfoldable pub Rises : ℕ → List MiningInfo → Type 0
Rises n [] = n ≡ 0
Rises n (info ∷ earlier) = (info.blocks ≡ n) × ((below : ℕ) × ((below < n) × Rises below earlier))

announce-Rises :
    (o : Option MiningInfo) (s : BitcoinRpcService)
    → Rises s.block_height s.new_blocks
    → Rises (announce o s).block_height (announce o s).new_blocks
      × ((announce o s).block_height ≡ max s.block_height (told o))
unfolding announce Rises
announce-Rises none s h = (h, omega arith)
announce-Rises (some info) s h = elim (Bool-cases (ltb s.block_height info.blocks)) [
  | inl higher ↦ rw higher ((refl, (s.block_height, (ground arith, h))), ground arith)
  | inr same ↦ rw same (h, ground arith)
]

-- However the requests and the answers of the polls interleave, and whatever the node says or fails to
-- say: each height that the subscribers are told is above all that they were told before, the last one is
-- the height that the service keeps, and that is the highest of all the heights that it heard, so no
-- new tip is missed.
pub watch-Rises :
    (events : List Event) (s : BitcoinRpcService)
    → Rises s.block_height s.new_blocks
    → Rises (watch events s).block_height (watch events s).new_blocks
      × ((watch events s).block_height ≡ highest events s.block_height)
watch-Rises [] s h = (h, refl)
watch-Rises (asks ∷ events) s h = watch-Rises events (next_request s) h
watch-Rises (hears answer ∷ events) s h =
    let o = or_null (unwrap answer) in
    let step = announce-Rises o s h in
    let (rises, top) = watch-Rises events (announce o s) step.0 in
    (rises, top ∙ ap (highest events) step.1)

-- A poll that nothing interrupts is a request followed by its answer.
pub poll_mining_info-watch :
    (node : ℕ → Result (Envelope MiningInfo)) (s : BitcoinRpcService)
    → poll_mining_info node s ≡ watch (asks ∷ hears (node (suc s.rpc_request_id)) ∷ []) s
unfolding poll_mining_info get_mining_info call_rpc
poll_mining_info-watch node s = refl
