-- ===== src/Auth.antt =====
-- The login of a miner (src/auth): the store of challenges and the two proofs of an address. A token
-- is the address that it is issued to; signing it is the JWT library's.
pub mod Logins
use elektron_net_ppool.Common.{
  ℕ, ◌+◌, ◌*◌, String, str_eq, Bool, true, false, Option, none, some, List, [], ◌∷◌, ◌++◌, ltb,
  if◌then◌else◌,
}
use elektron_net_ppool.Common.Js.{Text, codes}

abbrev pub challenge_ttl_ms : ℕ
challenge_ttl_ms = 30 * 60 * 1000

abbrev pub onchain_amount_min_sats : ℕ
onchain_amount_min_sats = 1000

-- IChallenge
pub record Challenge : Type 0 where
  pub nonce : Text
  pub required_amount_sats : ℕ
  pub expires_at : ℕ

-- `Map<string, IChallenge>`
abbrev pub ChallengeStore : Type 0
ChallengeStore = List (String × Challenge)

abbrev pub get_challenge : String → ChallengeStore → Option Challenge
get_challenge a [] = none
get_challenge a ((b, c) ∷ s) = if str_eq b a then some c else get_challenge a s

unfoldable pub consume : String → ChallengeStore → ChallengeStore
consume a [] = []
consume a ((b, c) ∷ s) = let rest = consume a s in if str_eq b a then rest else (b, c) ∷ rest

-- `nonce` and `amount` are the random bytes and the random number below 99,000.
unfoldable pub issue :
    (now : ℕ) → (nonce : Text) → (amount : ℕ) → String → ChallengeStore → Challenge × ChallengeStore
unfolding consume
issue now nonce amount a s =
    let c : Challenge = record {
      nonce = nonce;
      required_amount_sats = onchain_amount_min_sats + amount;
      expires_at = now + challenge_ttl_ms;
    } in
    (c, (a, c) ∷ consume a s)

unfoldable pub unexpired :
    (now : ℕ) → String → Option Challenge → ChallengeStore → Option Challenge × ChallengeStore
unfolding consume
unexpired now a none s = (none, s)
unexpired now a (some c) s = if ltb c.expires_at now then (none, consume a s) else (some c, s)

unfoldable pub peek : (now : ℕ) → String → ChallengeStore → Option Challenge × ChallengeStore
unfolding unexpired
peek now a s = unexpired now a (get_challenge a s) s

-- The text that is signed; 10 is the line feed.
unfoldable pub build_message : String → Text → Text
build_message a nonce =
    codes "Sign this message to log in to the Elektron Net PPLNS Pool."
    ++ 10 ∷ 10 ∷ codes "Address: "
    ++ codes a
    ++ 10 ∷ codes "Nonce: "
    ++ nonce
    ++ 10 ∷ 10 ∷ codes "This request will not move any funds."

-- A token for an address, or the reason of a refusal.
pub data Login : Type 0 where
  no_challenge invalid_signature signature_mismatch no_payment : Login
  logged_in : String → Login

-- What `bitcoinMessage.verify` answers; `none` is an exception.
abbrev pub Verify : Type 0
Verify = (message : Text) → (address : String) → (signature : Text) → Option Bool

unfoldable pub accept : String → Option Bool → ChallengeStore → Login × ChallengeStore
unfolding consume
accept a none s = (invalid_signature, s)
accept a (some false) s = (signature_mismatch, s)
accept a (some true) s = (logged_in a, consume a s)

unfoldable pub check_signature :
    Verify → String → Text → Option Challenge × ChallengeStore → Login × ChallengeStore
unfolding accept build_message
check_signature verify a signature (none, s) = (no_challenge, s)
check_signature verify a signature (some c, s) =
    accept a (verify (build_message a c.nonce) a signature) s

unfoldable pub login : Verify → (now : ℕ) → String → Text → ChallengeStore → Login × ChallengeStore
unfolding peek check_signature
login verify now a signature s = check_signature verify a signature (peek now a s)

-- `found` is whether an unspent output of the address has the amount.
unfoldable pub check_payment :
    (found : String → ℕ → Bool)
    → String
    → Option Challenge × ChallengeStore
    → Login × ChallengeStore
unfolding consume
check_payment found a (none, s) = (no_challenge, s)
check_payment found a (some c, s) =
    if found a c.required_amount_sats then (logged_in a, consume a s) else (no_payment, s)

unfoldable pub login_on_chain :
    (found : String → ℕ → Bool) → (now : ℕ) → String → ChallengeStore → Login × ChallengeStore
unfolding peek check_payment
login_on_chain found now a s = check_payment found a (peek now a s)
