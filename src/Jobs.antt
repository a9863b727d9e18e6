-- ===== src/Jobs.antt =====
-- src/services/stratum-v1-jobs.service.ts: the templates and jobs that shares are checked against.
-- A template keeps the fields that the program reads later; the node's answer, and the parts of it
-- that bitcoinjs decodes, are arguments. The maps are lists of what was set, newest first.
pub mod Tips
use elektron_net_ppool.Common.{
  ℕ, suc, ◌+◌, ◌-◌, ◌*◌, ◌/◌, ◌%◌, ◌^◌, ℤ, pos, String, str_eq, Bool, true, false, not, Option,
  none, some, List, [], ◌∷◌, ◌++◌, ltb, leb, ◌==◌, max, filter, if◌then◌else◌,
}
use elektron_net_ppool.Common.Js.{Text, text_eq}
use elektron_net_ppool.Common.Float.{Float64}

abbrev pub hex_digit : ℕ → ℕ
hex_digit n = if ltb n 10 then b'0' + n else b'a' + (n - 10)

-- `n.toString(16)`; `fuel` above the number is enough.
unfoldable pub hex_from : (fuel : ℕ) → ℕ → Text
hex_from ℕ.zero n = []
hex_from (suc fuel) n =
    let front = hex_from fuel (n / 16) in
    if ltb n 16 then hex_digit n ∷ [] else front ++ hex_digit (n % 16) ∷ []

abbrev pub to_hex : ℕ → Text
to_hex n = hex_from (suc n) n

-- What `getblocktemplate` answers, of the fields read here, with `bits` decoded.
pub record IBlockTemplate : Type 0 where
  pub mintime : ℕ
  pub height : ℕ
  pub version : ℕ
  pub bits : ℕ
  pub prev_hash : List ℕ
  pub merkle_branch : List (List ℕ)
  pub coinbasevalue : ℤ

module _ (f : Float64) where
  pub record JobTemplate : Type 0 where
    pub id : Text
    pub creation : ℕ
    pub version : ℕ
    pub bits : ℕ
    pub timestamp : ℕ
    pub prev_hash : List ℕ
    pub merkle_branch : List (List ℕ)
    pub coinbasevalue : ℤ
    pub network_difficulty : f.F
    pub height : ℕ
    pub clear_jobs : Bool

  -- A `MiningJob` as the service keeps it: `coinbase` is the serialized transaction, without witness.
  pub record Job : Type 0 where
    pub job_id : Text
    pub job_template_id : Text
    pub creation : ℕ
    pub job_version : ℕ
    pub merkle_branch : List (List ℕ)
    pub coinbase : List ℕ

  pub record JobsService : Type 0 where
    pub latest_job_id : ℕ
    pub latest_job_template_id : ℕ
    pub jobs : List Job
    pub blocks : List JobTemplate
    pub last_template_height_by_address : List (String × ℕ)

  -- `lastTemplateHeightByAddress[a] ?? 0`
  abbrev pub previous_height : String → List (String × ℕ) → ℕ
  previous_height a [] = 0
  previous_height a ((b, h) ∷ m) = if str_eq b a then h else previous_height a m

  unfoldable pub get_next_id : JobsService → Text
  get_next_id s = to_hex s.latest_job_id

  unfoldable pub get_next_template_id : JobsService → Text
  get_next_template_id s = to_hex s.latest_job_template_id

  abbrev pub find_job : Text → List Job → Option Job
  find_job id [] = none
  find_job id (j ∷ js) = if text_eq j.job_id id then some j else find_job id js

  abbrev pub find_template : Text → List JobTemplate → Option JobTemplate
  find_template id [] = none
  find_template id (t ∷ ts) = if text_eq t.id id then some t else find_template id ts

  unfoldable pub get_job_by_id : Text → JobsService → Option Job
  get_job_by_id id s = find_job id s.jobs

  unfoldable pub get_job_template_by_id : Text → JobsService → Option JobTemplate
  get_job_template_by_id id s = find_template id s.blocks

  unfoldable pub add_job : Job → JobsService → JobsService
  add_job job s = record s { jobs = job ∷ s.jobs; latest_job_id = s.latest_job_id + 1 }

  abbrev pub max_age_ms : ℕ
  max_age_ms = 1000 * 60 * 5

  -- `!(now - creation > 5 min)`
  abbrev pub is_fresh : (now : ℕ) → ℕ → Bool
  is_fresh now creation = leb now (creation + max_age_ms)

  -- `maxTarget / (mantissa * 256 ^ (exponent - 3))`, where `pow` is `Math.pow`.
  abbrev pub calculate_network_difficulty : (pow : f.F → f.F → f.F) → ℕ → f.F
  calculate_network_difficulty pow bits =
      let mantissa = bits % 0x800000 in
      let exponent = bits / 2 ^ 24 % 256 in
      let target =
        f.mul (f.of_int (pos mantissa))
          (pow (f.of_int (pos 256)) (f.sub (f.of_int (pos exponent)) (f.of_int (pos 3)))) in
      let max_target = f.mul (pow (f.of_int (pos 2)) (f.of_int (pos 208))) (f.of_int (pos 65535)) in
      f.div max_target target

  abbrev pub keep_fresh : (now : ℕ) → JobsService → JobsService
  keep_fresh now s = record s {
    jobs = filter (λ j. is_fresh now j.creation) s.jobs;
    blocks = filter (λ t. is_fresh now t.creation) s.blocks;
  }

  abbrev pub drop_all : JobsService → JobsService
  drop_all s = record s { jobs = []; blocks = [] }

  unfoldable pub build_template_for :
      (pow : f.F → f.F → f.F)
      → (now : ℕ) → String
      → IBlockTemplate
      → JobsService
      → JobTemplate × JobsService
  unfolding get_next_template_id
  build_template_for pow now coinbase_address t s =
      let current_time = now / 1000 in
      let clear_jobs =
        not (previous_height coinbase_address s.last_template_height_by_address == t.height) in
      let template : JobTemplate = record {
        id = get_next_template_id s;
        creation = now;
        version = t.version;
        bits = t.bits;
        timestamp = if ltb current_time t.mintime then t.mintime else current_time;
        prev_hash = t.prev_hash;
        merkle_branch = t.merkle_branch;
        coinbasevalue = t.coinbasevalue;
        network_difficulty = calculate_network_difficulty pow t.bits;
        height = t.height;
        clear_jobs = clear_jobs;
      } in
      let s' = if clear_jobs then drop_all s else keep_fresh now s in
      (
        template,
        record s' {
          latest_job_template_id = s.latest_job_template_id + 1;
          blocks = template ∷ s'.blocks;
          last_template_height_by_address =
              (coinbase_address, t.height) ∷ s.last_template_height_by_address;
        },
      )
