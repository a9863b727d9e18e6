-- ===== src/Tests/Logins.antt =====
-- The claims about logins at concrete inputs.
use elektron_net_ppool.Common.{ℕ, ◌≡◌, refl, String, true, some, [], ◌∷◌}
use elektron_net_ppool.Common.Js.{Text, codes}
use elektron_net_ppool.Auth.{
  Challenge, ChallengeStore, consume, unexpired, peek, accept, check_signature, build_message,
  no_challenge, Verify, login,
}
use elektron_net_ppool.Auth.Logins.{IsProven, login-IsProven}

abbrev challenge : Challenge
challenge = record { nonce = codes "00ff"; required_amount_sats = 1234; expires_at = 5000 }

abbrev store : ChallengeStore
store = ("bob", challenge) ∷ ("alice", challenge) ∷ []

abbrev always : Verify
always message address signature = some true

login-IsProven_example :
    (◌≡◌ {A = String} "alice" "alice")
    × IsProven
        (λ c. always (build_message "alice" c.nonce) "alice" (codes "sig") ≡ some true)
        4000
        "alice"
        store
        (("bob", challenge) ∷ [])
    × ((later : ℕ) (again : Text)
        → (login always later "alice" again (("bob", challenge) ∷ [])).0 ≡ no_challenge)
unfolding login peek unexpired check_signature accept consume
login-IsProven_example =
    login-IsProven always 4000 "alice" "alice" (codes "sig") store (("bob", challenge) ∷ []) refl
