-- ===== src/NodeRpc/Scans.antt =====
-- What a payment on the chain proves.
use elektron_net_ppool.Common.{
  ℕ, suc, ◌≤◌, ◌≡◌, ◌⊎◌, refl, String, Bool, true, false, Option, none, some, arith, List, [], ◌∷◌,
  pos, negsuc, ℤ, ==→eq, false_not_true, Bool-cases, inl, inr,
}
use elektron_net_ppool.Common.Float.{Float64}
use elektron_net_ppool.Wallet.{Result, ok, threw}
use elektron_net_ppool.Auth.{ChallengeStore, Challenge, get_challenge, logged_in, login_on_chain}
use elektron_net_ppool.Auth.Logins.{login_on_chain-IsProven}
use elektron_net_ppool.NodeRpc.{
  BitcoinRpcService, Envelope, unwrap, call_rpc, ScanResult, is_exactly, is_amount, any_amount,
  unspents_have, scanned, scan_address_for_amount_sats,
}

module _ (f : Float64) where
  -- Some amount of the list is, in the smallest unit, exactly the expected one.
  abbrev pub HasAmount : ℕ → List f.F → Type 0
  HasAmount expected [] = ⊥
  HasAmount expected (x ∷ xs) =
      (f.round (f.mul x (f.of_int (pos 100_000_000))) ≡ pos expected) ⊎ HasAmount expected xs

  is_exactly-eq : (n : ℕ) (z : ℤ) → is_exactly n z ≡ true → z ≡ pos n
  is_exactly-eq n (pos m) h = rw (==→eq m n h)
  is_exactly-eq n (negsuc m) h = cc

  any_amount-HasAmount :
      (expected : ℕ) (xs : List f.F) → any_amount f expected xs ≡ true → HasAmount expected xs
  any_amount-HasAmount expected [] h = absurd (false_not_true h)
  any_amount-HasAmount expected (x ∷ xs) h = elim (Bool-cases (is_amount f expected x)) [
    | inl here ↦ inl (is_exactly-eq expected (f.round (f.mul x (f.of_int (pos 100_000_000)))) here)
    | inr there ↦ inr (any_amount-HasAmount expected xs (rw there at h))
  ]

  -- The unspent outputs that a successful scan of the address answered.
  unfoldable pub IsScanned : Result (Option (ScanResult f)) → List f.F → Type 0
  IsScanned answer xs =
      (r : ScanResult f) × ((answer ≡ ok (some r)) × ((r.success ≡ true) × (r.unspents ≡ some xs)))

  with_outputs :
      (expected : ℕ) (r : ScanResult f)
      → r.success ≡ true
      → (o : Option (List f.F)) → r.unspents ≡ o
      → ◌≡◌ {A = Result Bool} (ok (unspents_have f expected o)) (ok true)
      → (xs : List f.F) × (IsScanned (ok (some r)) xs × HasAmount expected xs)
  unfolding IsScanned
  with_outputs expected r success none e h = cc
  with_outputs expected r success (some xs) e h =
      (xs, ((r, (refl, (success, e))), any_amount-HasAmount expected xs (ground (arith, h))))

  scanned-HasAmount :
      (expected : ℕ) (answer : Result (Option (ScanResult f)))
      → scanned f expected answer ≡ ok true
      → (xs : List f.F) × (IsScanned answer xs × HasAmount expected xs)
  unfolding IsScanned
  scanned-HasAmount expected (threw e) h = cc
  scanned-HasAmount expected (ok none) h = cc
  scanned-HasAmount expected (ok (some r)) h = elim (Bool-cases r.success) [
    | inl success ↦ with_outputs expected r success r.unspents refl (rw success at h)
    | inr failure ↦ cc (rw failure at h)
  ]

  -- What `loginOnChain` learns from the scan; a scan that fails ends the login with an error.
  abbrev pub is_found : Result Bool → Bool
  is_found (threw e) = false
  is_found (ok b) = b

  is_found-true : (r : Result Bool) → is_found r ≡ true → r ≡ ok true
  is_found-true (threw e) h = cc
  is_found-true (ok b) h = rw h

  -- A login by payment goes through only where a successful scan of the very address listed an unspent
  -- output that is exactly the amount of the address's pending challenge, which had not expired.
  pub login_on_chain-HasAmount :
      (node : String → ℕ → Result (Envelope (ScanResult f))) (service : BitcoinRpcService) (now : ℕ)
      (a b : String) (s s' : ChallengeStore)
      → login_on_chain
          (λ address amount.
            is_found (scan_address_for_amount_sats f node address amount service).0)
          now
          a
          s
        ≡ (logged_in b, s')
      → (b ≡ a)
        × ((c : Challenge) × ((xs : List f.F) × ((get_challenge a s ≡ some c)
                × ((now ≤ c.expires_at)
                    × (IsScanned (unwrap (node a (suc service.rpc_request_id))) xs
                        × HasAmount c.required_amount_sats xs)))))
  unfolding scan_address_for_amount_sats call_rpc
  login_on_chain-HasAmount node service now a b s s' e =
      let (same, proof, _) =
        login_on_chain-IsProven
          (λ address amount.
            is_found (scan_address_for_amount_sats f node address amount service).0)
          now a b s s' e in
      let (xs, (listed, has)) =
        scanned-HasAmount proof.challenge.required_amount_sats
          (unwrap (node a (suc service.rpc_request_id))) (is_found-true _ proof.proven) in
      (same, (proof.challenge, (xs, (proof.issued, (proof.in_time, (listed, has))))))
