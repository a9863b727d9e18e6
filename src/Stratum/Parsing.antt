-- ===== src/Stratum/Parsing.antt =====
-- What the messages make of their parameters (src/models/stratum-messages): the transforms of
-- `mining.authorize`, `mining.subscribe` and `mining.submit`, and the answers to `mining.subscribe` and
-- `mining.configure`. A parameter that is missing is `none`.
use elektron_net_ppool.Common.{
  ℕ, ◌≡◌, refl, Bool, true, ◌&&◌, ◌||◌, Option, none, some, List, [], ◌∷◌, ◌++◌, All, All-append,
  All-map, if◌then◌else◌, ◌==◌,
}
use elektron_net_ppool.Common.Js.{Text, codes, split, includes, is_digit, digits_from}
use elektron_net_ppool.Common.Splits.{join, IsFree, split-join}

-- `parts[0]` of a split, which is never empty.
abbrev pub first_of : List Text → Text
first_of [] = []
first_of (s ∷ parts) = s

-- `parts[1] == null ? 'worker' : parts[1]`
abbrev pub second_or_worker : List Text → Text
second_or_worker (s ∷ t ∷ parts) = t
second_or_worker _ = codes "worker"

abbrev pub all_digits : Text → Bool
all_digits [] = true
all_digits (c ∷ s) = is_digit c && all_digits s

abbrev pub digits_of : Text → Option Text
digits_of [] = none
digits_of (c ∷ s) = if all_digits (c ∷ s) then some (c ∷ s) else none

-- A part `d=` with digits and nothing else, of a password that is split at its commas.
abbrev pub difficulty_part : Text → Option Text
difficulty_part (a ∷ b ∷ s) = if (a == b'd') && (b == b'=') then digits_of s else none
difficulty_part _ = none

-- `password?.match(/(?:^|,)d=(\d+)(?:,|$)/)`: the first such part.
abbrev pub first_difficulty : List Text → Option Text
first_difficulty [] = none
first_difficulty (p ∷ parts) =
    let rest = first_difficulty parts in elim (difficulty_part p) [ none ↦ rest | some d ↦ some d ]

unfoldable pub starting_diff : Option Text → Option ℕ
starting_diff none = none
starting_diff (some password) = elim (first_difficulty (split b',' password)) [
  | none ↦ none
  | some digits ↦ some (digits_from 0 digits)
]

-- AuthorizationMessage, of `params[0]` and `params[1]`.
pub record AuthorizationMessage : Type 0 where
  pub address : Text
  pub worker : Text
  pub starting_diff : Option ℕ
  pub password : Option Text

unfoldable pub authorization_of : Text → Option Text → AuthorizationMessage
unfolding starting_diff
authorization_of name password = record {
  address = first_of (split b'.' name);
  worker = second_or_worker (split b'.' name);
  starting_diff = starting_diff password;
  password = password;
}

-- `split(' ')[0].split('/')[0].split('V')[0].split('-')[0]`
abbrev pub agent_name : Text → Text
agent_name agent =
    first_of
      (split b'-' (first_of (split b'V' (first_of (split b'/' (first_of (split b' ' agent)))))))

abbrev pub known_agent : Text → Text
known_agent name =
    if includes name (codes "bosminer") || includes name (codes "bOS")
    then codes "Braiins OS"
    else if includes name (codes "cpuminer")
    then codes "cpuminer"
    else name

unfoldable pub refine_user_agent : Text → Text
refine_user_agent agent = known_agent (agent_name agent)

unfoldable pub user_agent_of : Option Text → Text
unfolding refine_user_agent
user_agent_of none = codes "unknown"
user_agent_of (some agent) = refine_user_agent agent

abbrev pub extranonce2_size_bytes : ℕ
extranonce2_size_bytes = 0

-- The channel's id, `extranonce1` and the size of `extranonce2` in the answer to `mining.subscribe`.
unfoldable pub subscription_response : Text → (hobby_mode : Bool) → Text × (Text × ℕ)
subscription_response client_id hobby_mode =
    (client_id, (if hobby_mode then client_id else [], extranonce2_size_bytes))

-- `'version-rolling.mask'` of the answer to `mining.configure`.
abbrev pub version_rolling_mask : Text
version_rolling_mask = codes "1ffe0000"

-- MiningSubmitMessage, of its parameters; the last one may be missing.
pub record MiningSubmitMessage : Type 0 where
  pub user_id : Text
  pub job_id : Text
  pub extra_nonce2 : Text
  pub ntime : Text
  pub nonce : Text
  pub version_mask : Text

-- Between five and six parameters.
unfoldable pub submission_of : List Text → Option MiningSubmitMessage
submission_of (user ∷ job ∷ extra ∷ ntime ∷ n ∷ []) = some (record {
  user_id = user;
  job_id = job;
  extra_nonce2 = extra;
  ntime = ntime;
  nonce = n;
  version_mask = codes "0";
})
submission_of (user ∷ job ∷ extra ∷ ntime ∷ n ∷ mask ∷ []) = some (record {
  user_id = user;
  job_id = job;
  extra_nonce2 = extra;
  ntime = ntime;
  nonce = n;
  version_mask = mask;
})
submission_of _ = none

-- An address and a worker without dots are read from the name that joins them with one, also where more parts
-- follow; an address alone has the worker `worker`.
pub authorization_of_name :
    (address worker : Text) (others : List Text) (password : Option Text)
    → IsFree b'.' address
    → IsFree b'.' worker
    → All (IsFree b'.') others
    → let m = authorization_of (join b'.' (address ∷ worker ∷ others)) password in
      let alone = authorization_of address password in
      (m.address ≡ address)
      × (m.worker ≡ worker)
      × (alone.address ≡ address)
      × (alone.worker ≡ codes "worker")
unfolding authorization_of
authorization_of_name address worker others password h k l = (
  rw (split-join b'.' address (worker ∷ others) h (k, l)) refl,
  rw (split-join b'.' address (worker ∷ others) h (k, l)) refl,
  rw (split-join b'.' address [] h tt) refl,
  rw (split-join b'.' address [] h tt) refl,
)

-- A part that is no difficulty.
abbrev IsOther : Text → Type 0
IsOther p = difficulty_part p ≡ none

first_difficulty-others :
    (before after : List Text) (digits : Text)
    → All IsOther before
    → digits_of digits ≡ some digits
    → first_difficulty (before ++ (b'd' ∷ b'=' ∷ digits) ∷ after) ≡ some digits
first_difficulty-others [] after digits h k = rw (first_difficulty, k) refl
first_difficulty-others (p ∷ before) after digits h k =
    rw (first_difficulty, h.0, first_difficulty-others before after digits h.1 k) refl

-- In a password of parts between commas, the difficulty that a miner starts with is the number of the first
-- part that is `d=` and digits, wherever it stands.
pub starting_diff_part :
    (first : Text) (before after : List Text) (digits : Text)
    → All (λ p. IsFree b',' p × IsOther p) (first ∷ before)
    → All (IsFree b',') ((b'd' ∷ b'=' ∷ digits) ∷ after)
    → digits_of digits ≡ some digits
    → starting_diff (some (join b',' (first ∷ before ++ (b'd' ∷ b'=' ∷ digits) ∷ after)))
      ≡ some (digits_from 0 digits)
unfolding starting_diff
starting_diff_part first before after digits h k d =
    let free =
      All-append (IsFree b',') before ((b'd' ∷ b'=' ∷ digits) ∷ after)
        (All-map (λ p. IsFree b',' p × IsOther p) (IsFree b',') before (λ p q. q.0) h.1) k in
    let others = All-map (λ p. IsFree b',' p × IsOther p) IsOther before (λ p q. q.1) h.1 in
    rw
      (
        split-join b',' first (before ++ (b'd' ∷ b'=' ∷ digits) ∷ after) h.0.0 free,
        first_difficulty-others (first ∷ before) after digits (h.0.1, others) d,
      )
      refl
