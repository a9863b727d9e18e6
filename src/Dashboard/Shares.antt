-- ===== src/Dashboard/Shares.antt =====
-- The shares that other pools report (src/controllers/external-share, src/ORM/external-shares and
-- src/utils/difficulty.utils.ts). The library's hash and the time that it reads in a header are parameters;
-- the body has passed its validators.
use elektron_net_ppool.Common.{
  ℕ, ◌≢◌, ◌+◌, ◌-◌, ◌*◌, ◌/◌, ◌^◌, ◌≤◌, ◌≡◌, pos, String, str_eq, Bool, false, not, ◌&&◌, ◌⊎◌,
  Option, none, some, List, [], ◌∷◌, filter, ltb, if◌then◌else◌,
}
use elektron_net_ppool.Common.Js.{Text, codes}
use elektron_net_ppool.Common.Float.{Float64}
use elektron_net_ppool.Config.{Config}
use elektron_net_ppool.Stratum.Header.{is_hex_digit, hex_value, calculate_difficulty}

-- `Buffer.from(text, 'hex')`, up to the first pair that is not hexadecimal.
unfoldable pub hex_bytes : Text → List ℕ
hex_bytes [] = []
hex_bytes (a ∷ []) = []
hex_bytes (a ∷ b ∷ s) =
    let rest = hex_bytes s in
    if is_hex_digit a && is_hex_digit b then (hex_value a * 16 + hex_value b) ∷ rest else []

-- ExternalPoolShare
pub record ExternalPoolShare : Type 0 where
  pub worker : String
  pub address : String
  pub user_agent : String
  pub external_pool_name : String
  pub header : Text

module _ (f : Float64) where
  -- ExternalSharesEntity
  pub record ExternalShare : Type 0 where
    pub address : String
    pub client_name : String
    pub time : ℕ
    pub difficulty : f.F
    pub user_agent : String
    pub external_pool_name : String
    pub header : Text

  -- `block_timestamp` is `Block.fromBuffer(header).timestamp`; `none` is an exception.
  pub record Library : Type 0 where
    pub hash256 : List ℕ → List ℕ
    pub infinity : f.F
    pub block_timestamp : List ℕ → Option ℕ

  -- How a request ends.
  pub data Submitted : Type 0 where
    invalid_key too_low no_block too_old : Submitted
    accepted : f.F → Submitted

  -- `get('MINIMUM_DIFFICULTY') || 1000000000000`, as a number; a text that is none compares as false.
  abbrev pub minimum_of : Option String → Option f.F
  minimum_of none = some (f.of_int (pos (10 ^ 12)))
  minimum_of (some s) = if str_eq s "" then some (f.of_int (pos (10 ^ 12))) else f.number (codes s)

  abbrev pub is_below : f.F → Option f.F → Bool
  is_below d none = false
  is_below d (some minimum) = f.lt d minimum

  -- `this.apiKey && apiKey !== this.apiKey`
  abbrev pub is_refused : Option String → Option String → Bool
  is_refused none given = false
  is_refused (some key) none = not (str_eq key "")
  is_refused (some key) (some given) = not (str_eq key "") && not (str_eq given key)

  -- `block.timestamp < Math.floor(Date.now() / 1000) - 10 * 60`
  abbrev pub is_too_old : (now : ℕ) → ℕ → Bool
  is_too_old now timestamp = ltb (timestamp + 10 * 60) (now / 1000)

  abbrev pub row_of : (now : ℕ) → f.F → ExternalPoolShare → ExternalShare
  row_of now d s = record {
    address = s.address;
    client_name = s.worker;
    time = now;
    difficulty = d;
    user_agent = s.user_agent;
    external_pool_name = s.external_pool_name;
    header = s.header;
  }

  abbrev pub store :
      (now : ℕ)
      → f.F
      → Option ℕ
      → ExternalPoolShare
      → List ExternalShare
      → Submitted × List ExternalShare
  store now d none s rows = (no_block, rows)
  store now d (some timestamp) s rows =
      if is_too_old now timestamp then (too_old, rows) else (accepted d, row_of now d s ∷ rows)

  unfoldable pub submit_external_share :
      Config
      → Library
      → (now : ℕ) → (api_key : Option String) → ExternalPoolShare
      → List ExternalShare
      → Submitted × List ExternalShare
  unfolding hex_bytes calculate_difficulty
  submit_external_share config lib now api_key s rows =
      let header = hex_bytes s.header in
      let d = calculate_difficulty f lib.hash256 lib.infinity header in
      if is_refused (config "SHARE_SUBMISSION_API_KEY") api_key
      then (invalid_key, rows)
      else if is_below d (minimum_of (config "MINIMUM_DIFFICULTY"))
      then (too_low, rows)
      else store now d (lib.block_timestamp header) s rows

  unfoldable pub delete_old_shares : (now : ℕ) → List ExternalShare → List ExternalShare
  delete_old_shares now rows = filter (λ r. not (ltb r.time (now - 24 * 60 * 60 * 1000))) rows

  -- `MAX(difficulty)` of an address, or 0.
  unfoldable pub get_address_best_difficulty : String → List ExternalShare → f.F
  get_address_best_difficulty address [] = f.of_int (pos 0)
  get_address_best_difficulty address (r ∷ rows) =
      let best = get_address_best_difficulty address rows in
      if str_eq r.address address
      then (if f.lt best r.difficulty then r.difficulty else best)
      else best

  -- What an accepted share has passed.
  pub record IsAccepted (config : Config) (lib : Library) (now : ℕ) (api_key : Option String)
      (s : ExternalPoolShare) (d : f.F) : Type 0 where
    pub key : is_refused (config "SHARE_SUBMISSION_API_KEY") api_key ≡ false
    pub computed : d ≡ calculate_difficulty f lib.hash256 lib.infinity (hex_bytes s.header)
    pub enough : is_below d (minimum_of (config "MINIMUM_DIFFICULTY")) ≡ false
    pub timestamp : ℕ
    pub read : lib.block_timestamp (hex_bytes s.header) ≡ some timestamp
    pub recent : now / 1000 ≤ timestamp + 10 * 60

  -- What a request did.
  abbrev pub Outcome :
      Config
      → Library
      → (now : ℕ) → Option String
      → ExternalPoolShare
      → List ExternalShare
      → Submitted × List ExternalShare
      → Type 0
  Outcome config lib now api_key s rows (answer, rows') =
      ((rows' ≡ rows) × ((d : f.F) → answer ≢ accepted d))
      ⊎ ((d : f.F) × ((answer ≡ accepted d)
            × ((rows' ≡ row_of now d s ∷ rows) × IsAccepted config lib now api_key s d)))
