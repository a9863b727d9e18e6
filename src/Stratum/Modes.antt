-- ===== src/Stratum/Modes.antt =====
-- The diagnostics of a share (src/models/StratumV1Client.ts, `parseDiagnosticModes` and the probes of
-- `handleMiningSubmission`): which headers are tried beside the one that the share is judged by. They
-- are only logged; a probe is kept with its header, `none` where building it throws.
use elektron_net_ppool.Common.{
  ℕ, ◌≡◌, refl, sym, Bool, true, false, ◌&&◌, ◌||◌, Bool-cases, inl, inr, ℤ, Option, none, some,
  String, List, [], ◌∷◌, ◌++◌, map, filter, if◌then◌else◌,
}
use elektron_net_ppool.Common.Js.{
  Text, codes, split, trim, to_lower, text_eq, text_eq-true, text_eq_refl,
}
use elektron_net_ppool.Common.Float.{Float64}
use elektron_net_ppool.Jobs.{JobTemplate, Job}
use elektron_net_ppool.MiningJob.{CoinbaseTransaction, Bitcoin}
use elektron_net_ppool.MiningJob.Diagnostics.{
  build_header_buffer_with_coinbase_suffix, build_header_buffer_with_coinbase_prefix,
  build_header_buffer_with_script_sig_splice,
}
use elektron_net_ppool.Stratum.Header.{build_header_buffer}
use mathlib.Core.List.{reverse}

abbrev pub all_modes : List Text
all_modes =
    codes "canonical"
    ∷ codes "suffix-en1"
    ∷ codes "suffix-en1-en2"
    ∷ codes "suffix-en1-default-en2"
    ∷ codes "suffix-zero4"
    ∷ codes "suffix-zero8"
    ∷ codes "prefix-en1"
    ∷ codes "suffix-en1-reversed"
    ∷ codes "scriptsig-en1"
    ∷ []

-- `includes` of an array, and `has` of a set.
unfoldable pub has : Text → List Text → Bool
has m [] = false
has m (x ∷ xs) = text_eq x m || has m xs

abbrev pub is_some_text : Text → Bool
is_some_text [] = false
is_some_text (c ∷ s) = true

unfoldable pub tokens_of : Text → List Text
tokens_of raw = filter is_some_text (map (λ t. to_lower (trim t)) (split b',' raw))

abbrev pub modes_of : List Text → List Text
modes_of tokens =
    if has (codes "all") tokens then all_modes else filter (λ t. has t all_modes) tokens

-- A set is the list of what is in it; no test here depends on the order or on repetitions.
unfoldable pub parse_diagnostic_modes : Option String → List Text
unfolding has tokens_of
parse_diagnostic_modes none = []
parse_diagnostic_modes (some raw) = modes_of (tokens_of (codes raw))

and_false : (a : Bool) → (a && false) ≡ false
and_false true = refl
and_false false = refl

and_true : (a : Bool) → (a && true) ≡ a
and_true true = refl
and_true false = refl

and_comm : (a b : Bool) → (a && b) ≡ (b && a)
and_comm true b = sym (and_true b)
and_comm false b = sym (and_false b)

has-filter : (m : Text) (p : Text → Bool) (xs : List Text) → has m (filter p xs) ≡ (has m xs && p m)
unfolding has
has-filter m p [] = refl
has-filter m p (x ∷ xs) = elim (Bool-cases (text_eq x m)) [
  | inl same ↦ rw (text_eq-true x m same) (elim (Bool-cases (p m)) [
    | inl on ↦ rw (on, text_eq_refl m) refl
    | inr off ↦
        rw (off, has-filter m p xs, off, and_false (has m xs), and_false (text_eq m m || has m xs))
          refl
  ])
  | inr other ↦ elim (Bool-cases (p x)) [
    | inl on ↦ rw (on, has, other) (has-filter m p xs)
    | inr off ↦ rw (off, other) (has-filter m p xs)
  ]
]

-- A mode is on exactly where it is a known one and the setting names it, or names `all`, among its parts between
-- commas, whatever their spaces and their case; other parts have no effect.
pub parse_diagnostic_modes-has :
    (raw : String) (m : Text)
    → let tokens = tokens_of (codes raw) in
      has m (parse_diagnostic_modes (some raw))
      ≡ (has m all_modes && (has (codes "all") tokens || has m tokens))
unfolding parse_diagnostic_modes
parse_diagnostic_modes-has raw m = go (tokens_of (codes raw))
  where
    go :
        (tokens : List Text)
        → has m (modes_of tokens) ≡ (has m all_modes && (has (codes "all") tokens || has m tokens))
    go tokens = elim (Bool-cases (has (codes "all") tokens)) [
      | inl all ↦ rw all (sym (and_true (has m all_modes)))
      | inr some_modes ↦
          rw (some_modes, has-filter m (λ t. has t all_modes) tokens)
            (and_comm (has m tokens) (has m all_modes))
    ]

-- The bytes that the probes put into the coinbase.
pub record Extra : Type 0 where
  pub en1 : List ℕ
  pub en2 : List ℕ

abbrev pub zero4 : List ℕ
zero4 = 0 ∷ 0 ∷ 0 ∷ 0 ∷ []

abbrev pub en2_default : List ℕ
en2_default = 0 ∷ 0 ∷ 0 ∷ 1 ∷ []

abbrev pub Probes : Type 0
Probes = List (Text × Option (List ℕ))

-- `if (enabledModes.has(mode)) probe(mode, ...)`
abbrev pub probe : List Text → Text → Option (List ℕ) → Probes → Probes
probe enabled mode header rest = if has mode enabled then (mode, header) ∷ rest else rest

module _ (hash256 : List ℕ → List ℕ) (lib : Bitcoin) (tx : CoinbaseTransaction)
    (clone : CoinbaseTransaction → CoinbaseTransaction) {f : Float64} (job : Job f)
    (t : JobTemplate f) (version_mask nonce_sent timestamp : Option ℤ) where
  abbrev suffixed : List ℕ → Option (List ℕ)
  suffixed bytes =
      build_header_buffer_with_coinbase_suffix hash256 lib tx job t version_mask nonce_sent
        timestamp bytes

  -- The header that each mode tries.
  unfoldable pub header_of_mode : Extra → Text → Option (List ℕ)
  header_of_mode e mode =
      if text_eq mode (codes "canonical")
      then build_header_buffer hash256 job t version_mask nonce_sent timestamp
      else if text_eq mode (codes "suffix-en1")
      then suffixed e.en1
      else if text_eq mode (codes "suffix-en1-en2")
      then suffixed (e.en1 ++ e.en2)
      else if text_eq mode (codes "suffix-en1-default-en2")
      then suffixed (e.en1 ++ en2_default)
      else if text_eq mode (codes "suffix-zero4")
      then suffixed zero4
      else if text_eq mode (codes "suffix-zero8")
      then suffixed (zero4 ++ zero4)
      else if text_eq mode (codes "prefix-en1")
      then build_header_buffer_with_coinbase_prefix hash256 lib tx job t version_mask nonce_sent
          timestamp e.en1
      else if text_eq mode (codes "suffix-en1-reversed")
      then suffixed (reverse e.en1)
      else build_header_buffer_with_script_sig_splice hash256 lib tx job t version_mask nonce_sent
          timestamp clone e.en1

  abbrev pub probes_in : List Text → Extra → List Text → Probes
  probes_in enabled e [] = []
  probes_in enabled e (mode ∷ modes) =
      probe enabled mode (header_of_mode e mode) (probes_in enabled e modes)

  -- The chain of tests, in the order of the modes.
  unfoldable pub diagnostic_probes : List Text → Extra → Probes
  unfolding has header_of_mode
  diagnostic_probes enabled e = probes_in enabled e all_modes
