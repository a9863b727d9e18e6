-- ===== src/Stratum/Header.antt =====
-- The block header of a share (src/models/MiningJob.ts, `buildHeaderBuffer`) and its difficulty
-- (src/models/StratumV1Client.ts, `calculateDifficulty`). Buffers are lists of bytes.
use elektron_net_ppool.Common.{
  ℕ, suc, ◌+◌, ◌-◌, ◌*◌, ◌/◌, ◌%◌, ◌^◌, ℤ, pos, negsuc, Bool, true, false, ◌&&◌, ◌||◌, Option, none,
  some, List, [], ◌∷◌, ◌++◌, ltb, leb, ◌==◌, if◌then◌else◌,
}
use elektron_net_ppool.Common.Js.{Text, trim_start, lower_code, is_digit}
use elektron_net_ppool.Common.Float.{Float64}
use elektron_net_ppool.Jobs.{JobTemplate, Job}
use Prim.Native.Nat.{bit_xor}

-- MiningSubmitMessage, of the fields that are read.
pub record Submission : Type 0 where
  pub job_id : Text
  pub extra_nonce2 : Text
  pub ntime : Text
  pub nonce : Text
  pub version_mask : Text

abbrev pub is_hex_digit : ℕ → Bool
is_hex_digit c = is_digit c || (leb b'a' (lower_code c) && leb (lower_code c) b'f')

abbrev pub hex_value : ℕ → ℕ
hex_value c = if is_digit c then c - b'0' else lower_code c - 87

abbrev pub hex_digits_from : ℕ → Text → ℕ
hex_digits_from n [] = n
hex_digits_from n (c ∷ s) =
    let rest = hex_digits_from (n * 16 + hex_value c) s in if is_hex_digit c then rest else n

abbrev pub leading_hex : Text → Option ℕ
leading_hex [] = none
leading_hex (c ∷ s) = if is_hex_digit c then some (hex_digits_from 0 (c ∷ s)) else none

abbrev pub without_prefix : Text → Text
without_prefix (a ∷ b ∷ s) = if (a == b'0') && (lower_code b == b'x') then s else a ∷ b ∷ s
without_prefix s = s

abbrev minus : ℕ → ℤ
minus ℕ.zero = pos 0
minus (suc n) = negsuc n

abbrev pub signed_hex : Bool → Option ℕ → Option ℤ
signed_hex b none = none
signed_hex true (some n) = some (minus n)
signed_hex false (some n) = some (pos n)

abbrev pub sign_split : Text → Bool × Text
sign_split [] = (false, [])
sign_split (c ∷ s) =
    if c == b'-' then (true, s) else if c == b'+' then (false, s) else (false, c ∷ s)

-- `parseInt(s, 16)`; `none` is `NaN`.
abbrev pub parse_hex : Text → Option ℤ
parse_hex s =
    let (minus_sign, digits) = sign_split (trim_start s) in
    signed_hex minus_sign (leading_hex (without_prefix digits))

-- The `k` low bytes of a number, the lowest first.
abbrev pub le_bytes : ℕ → ℕ → List ℕ
le_bytes ℕ.zero n = []
le_bytes (suc k) n = n % 256 ∷ le_bytes k (n / 256)

-- `writeUInt32LE`: `NaN` is written as 0, and what is out of range throws.
abbrev pub write_uint32 : Option ℤ → Option (List ℕ)
write_uint32 none = some (le_bytes 4 0)
write_uint32 (some (pos n)) = if ltb n (2 ^ 32) then some (le_bytes 4 n) else none
write_uint32 (some (negsuc n)) = none

-- `ToInt32`, as the number below 2 ^ 32 with the same bits.
abbrev pub to_int32 : ℤ → ℕ
to_int32 (pos n) = n % 2 ^ 32
to_int32 (negsuc n) = (2 ^ 32 - 1) - n % 2 ^ 32

-- `writeInt32LE(version)`, where `version` is xored with the mask if the mask is not 0: only a
-- number that no bit operator has brought into range can throw.
abbrev pub write_version : ℕ → Option ℤ → Option (List ℕ)
write_version version (some (pos ℕ.zero)) =
    if ltb version (2 ^ 31) then some (le_bytes 4 version) else none
write_version version none = some (le_bytes 4 (version % 2 ^ 32))
write_version version (some mask) = some (le_bytes 4 (bit_xor (version % 2 ^ 32) (to_int32 mask)))

-- The four parts of the header that can throw, in the order of the writes.
abbrev pub join_header :
    Option (List ℕ) → List ℕ → Option (List ℕ) → List ℕ → Option (List ℕ) → Option (List ℕ)
join_header (some v) middle (some t) bits (some n) = some (v ++ middle ++ t ++ bits ++ n)
join_header _ _ _ _ _ = none

module _ (hash256 : List ℕ → List ℕ) where
  -- `calculateMerkleRootHash`; hashes and branches have 32 bytes.
  abbrev pub calculate_merkle_root_hash : List ℕ → List (List ℕ) → List ℕ
  calculate_merkle_root_hash root [] = root
  calculate_merkle_root_hash root (b ∷ branches) =
      calculate_merkle_root_hash (hash256 (root ++ b)) branches

  -- `extraNonce` and `extraNonce2` are arguments of the source's method that it does not read.
  unfoldable pub build_header_buffer :
      {f : Float64}
      → Job f
      → JobTemplate f
      → (version_mask nonce timestamp : Option ℤ) → Option (List ℕ)
  build_header_buffer job t version_mask nonce timestamp =
      join_header (write_version job.job_version version_mask)
        (t.prev_hash ++ calculate_merkle_root_hash (hash256 job.coinbase) job.merkle_branch)
        (write_uint32 timestamp) (le_bytes 4 t.bits) (write_uint32 nonce)

module _ (f : Float64) where
  -- `number * 256 + target[i]`, from the last byte on
  abbrev pub le256todouble : List ℕ → f.F
  le256todouble [] = f.of_int (pos 0)
  le256todouble (b ∷ bytes) =
      f.add (f.mul (le256todouble bytes) (f.of_int (pos 256))) (f.of_int (pos b))

  abbrev true_diff_one : f.F
  true_diff_one = f.of_int (pos (2695953529101131 * 10 ^ 52))

  -- `infinity` is `Number.POSITIVE_INFINITY`.
  unfoldable pub calculate_difficulty :
      (hash256 : List ℕ → List ℕ) → (infinity : f.F) → List ℕ → f.F
  calculate_difficulty hash256 infinity header =
      let target = le256todouble (hash256 header) in
      if f.le target (f.of_int (pos 0)) then infinity else f.div true_diff_one target
