-- ===== src/Auth/Logins.antt =====
-- Who is logged in, and how often.
use elektron_net_ppool.Common.{
  ℕ, ◌+◌, ◌≤◌, ◌≡◌, refl, String, str_eq, str_eq_iff, str_eq_refl, Bool, true, false, Bool-cases,
  inl, inr, Option, none, some, [], ◌∷◌, ltb, arith, if◌then◌else◌,
}
use elektron_net_ppool.Common.Js.{Text}
use elektron_net_ppool.Auth.{
  Challenge, ChallengeStore, get_challenge, consume, issue, unexpired, peek, build_message,
  no_challenge, logged_in, Verify, accept, check_signature, login, check_payment, login_on_chain,
  challenge_ttl_ms,
}

get_challenge-consume : (a : String) (s : ChallengeStore) → get_challenge a (consume a s) ≡ none
unfolding consume
get_challenge-consume a [] = refl
get_challenge-consume a ((b, c) ∷ s) = ground (arith, get_challenge-consume a s)

get_challenge-others :
    (a b : String) (s : ChallengeStore)
    → str_eq a b ≡ false
    → get_challenge b (consume a s) ≡ get_challenge b s
unfolding consume
get_challenge-others a b [] d = refl
get_challenge-others a b ((x, c) ∷ s) d =
    ground (arith, get_challenge-others a b s d, str_eq_iff x a, str_eq_iff x b, str_eq_iff a b)

-- What a login rests on: a challenge of this address that has not expired, with its proof.
pub record IsProven (proof : Challenge → Type 0) (now : ℕ) (a : String) (s : ChallengeStore)
    (s' : ChallengeStore) : Type 0 where
  pub challenge : Challenge
  pub issued : get_challenge a s ≡ some challenge
  pub in_time : now ≤ challenge.expires_at
  pub proven : proof challenge
  pub consumed : s' ≡ consume a s

accepted :
    (a b : String) (o : Option Bool) (s s' : ChallengeStore)
    → accept a o s ≡ (logged_in b, s')
    → (b ≡ a) × (o ≡ some true) × (s' ≡ consume a s)
unfolding accept
accepted a b none s s' e = cc
accepted a b (some false) s s' e = cc
accepted a b (some true) s s' e = ground arith

signed :
    (verify : Verify) (now : ℕ) (a b : String) (signature : Text) (s s' : ChallengeStore)
    (o : Option Challenge)
    → get_challenge a s ≡ o
    → check_signature verify a signature (unexpired now a o s) ≡ (logged_in b, s')
    → (b ≡ a) × IsProven (λ c. verify (build_message a c.nonce) a signature ≡ some true) now a s s'
unfolding check_signature unexpired
signed verify now a b signature s s' none g e = cc
signed verify now a b signature s s' (some c) g e = elim (Bool-cases (ltb c.expires_at now)) [
  | inl expired ↦ cc (rw expired at e)
  | inr in_time ↦
      let k = accepted a b (verify (build_message a c.nonce) a signature) s s' (rw in_time at e) in
      (
        k.0,
        record {
          challenge = c;
          issued = g;
          in_time = ground (arith, in_time);
          proven = k.1;
          consumed = k.2;
        },
      )
]

paid :
    (found : String → ℕ → Bool) (now : ℕ) (a b : String) (s s' : ChallengeStore)
    (o : Option Challenge)
    → get_challenge a s ≡ o
    → check_payment found a (unexpired now a o s) ≡ (logged_in b, s')
    → (b ≡ a) × IsProven (λ c. found a c.required_amount_sats ≡ true) now a s s'
unfolding check_payment unexpired
paid found now a b s s' none g e = cc
paid found now a b s s' (some c) g e = elim (Bool-cases (ltb c.expires_at now)) [
  | inl expired ↦ cc (rw expired at e)
  | inr in_time ↦ elim (Bool-cases (found a c.required_amount_sats)) [
    | inl seen ↦
        let k = rw (in_time, seen) at e in
        (
          ground (arith, k),
          record {
            challenge = c;
            issued = g;
            in_time = ground (arith, in_time);
            proven = seen;
            consumed = ground (arith, k);
          },
        )
    | inr unseen ↦ cc (rw (in_time, unseen) at e)
  ]
]

-- A token goes to the address that asked for it, on the strength of a signature of the address over its
-- own pending challenge, which has not expired and is gone afterwards; so the next login of the
-- address, at any time and with any signature, is refused until a new challenge is issued.
pub login-IsProven :
    (verify : Verify) (now : ℕ) (a b : String) (signature : Text) (s s' : ChallengeStore)
    → login verify now a signature s ≡ (logged_in b, s')
    → (b ≡ a)
      × IsProven (λ c. verify (build_message a c.nonce) a signature ≡ some true) now a s s'
      × ((later : ℕ) (again : Text) → (login verify later a again s').0 ≡ no_challenge)
unfolding login peek unexpired check_signature accept
login-IsProven verify now a b signature s s' e =
    let k = signed verify now a b signature s s' (get_challenge a s) refl e in
    (k.0, k.1, λ later again. rw (k.1.consumed, get_challenge-consume a s))

-- The same for a payment of the challenge's amount to the address.
pub login_on_chain-IsProven :
    (found : String → ℕ → Bool) (now : ℕ) (a b : String) (s s' : ChallengeStore)
    → login_on_chain found now a s ≡ (logged_in b, s')
    → (b ≡ a)
      × IsProven (λ c. found a c.required_amount_sats ≡ true) now a s s'
      × ((later : ℕ) → (login_on_chain found later a s').0 ≡ no_challenge)
unfolding login_on_chain peek unexpired check_payment
login_on_chain-IsProven found now a b s s' e =
    let k = paid found now a b s s' (get_challenge a s) refl e in
    (k.0, k.1, λ later. rw (k.1.consumed, get_challenge-consume a s))

-- A challenge that was issued is the pending one of its address up to its expiry and not a moment
-- longer, and the challenges of other addresses stay as they are.
pub peek-issue :
    (now later : ℕ) (nonce : Text) (amount : ℕ) (a b : String) (s : ChallengeStore)
    → let (c, s') = issue now nonce amount a s in
      ((peek later a s').0 ≡ (if ltb (now + challenge_ttl_ms) later then none else some c))
      × (str_eq a b ≡ false → get_challenge b s' ≡ get_challenge b s)
unfolding issue peek unexpired
peek-issue now later nonce amount a b s =
    (rw (str_eq_refl a) (ground arith), λ d. rw d (get_challenge-others a b s d))
