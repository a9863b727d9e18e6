-- ===== src/MiningJob/Submitted.antt =====
-- The submitted block is the one whose header was judged.
use elektron_net_ppool.Common.{
  ltb-true, ℕ, zero, suc, ◌-◌, ◌/◌, ◌%◌, ◌^◌, ◌≤◌, ◌<◌, ℤ, pos, negsuc, ◌≡◌, refl, sym, ap, Option,
  none, some, List, ◌++◌, ltb, if◌then◌else◌, arith, Bool-cases, inl, inr,
}
use native.Mathlib.Nat.{pow-suc}
use elektron_net_ppool.Common.Float.{Float64}
use elektron_net_ppool.Jobs.{JobTemplate, Job}
use elektron_net_ppool.Stratum.Header.{
  le_bytes, write_uint32, write_version, to_int32, join_header, calculate_merkle_root_hash,
  build_header_buffer,
}
use elektron_net_ppool.MiningJob.{Block, signed32, masked_version, copy_and_update_block}
use Prim.Native.Nat.{bit_xor, digits, differ, bit_xor-bitwise}

differ-le : (x y : ℕ) → x < 2 → y < 2 → differ x y ≤ 1
differ-le zero y h k = omega arith
differ-le (suc x) zero h k = omega arith
differ-le (suc zero) (suc zero) h k = omega arith
differ-le (suc zero) (suc (suc y)) h k = absurd (omega arith)
differ-le (suc (suc x)) (suc y) h k = absurd (omega arith)

digits-lt : (k n a b : ℕ) → a ≤ n → a < 2 ^ k → b < 2 ^ k → digits (λ b. b) differ n a b < 2 ^ k
digits-lt k zero a b q h l = l
digits-lt k (suc n) zero b q h l = l
digits-lt zero (suc n) (suc a) b q h l = absurd (omega arith)
digits-lt (suc k) (suc n) (suc a) b q h l =
    let h' = rw pow-suc at h in
    let l' = rw pow-suc at l in
    rw pow-suc (
      omega (
        arith,
        digits-lt k n (suc a / 2) (b / 2) (omega arith) (omega arith) (omega arith),
        differ-le (suc a % 2) (b % 2) (omega arith) (omega arith),
      ))

bit_xor-lt : (a b : ℕ) → a < 2 ^ 32 → b < 2 ^ 32 → bit_xor a b < 2 ^ 32
bit_xor-lt a b h l = omega (arith, bit_xor-bitwise a b, digits-lt 32 a a b (omega arith) h l)

-- `writeInt32LE`
unfoldable pub write_int32 : ℤ → Option (List ℕ)
write_int32 (pos n) = if ltb n (2 ^ 31) then some (le_bytes 4 n) else none
write_int32 (negsuc n) = if ltb n (2 ^ 31) then some (le_bytes 4 ((2 ^ 32 - 1) - n)) else none

-- The bytes of a block's header.
unfoldable pub write_header : Block → Option (List ℕ)
unfolding write_int32
write_header b =
    join_header (write_int32 b.version) (b.prev_hash ++ b.merkle_root) (write_uint32 b.timestamp)
      (le_bytes 4 b.bits) (write_uint32 b.nonce)

write_int32-signed32 : (n : ℕ) → n < 2 ^ 32 → write_int32 (signed32 n) ≡ some (le_bytes 4 n)
unfolding write_int32
write_int32-signed32 n h = elim (Bool-cases (ltb n (2 ^ 31))) [
  | inl e ↦ rw (e, e) refl
  | inr e ↦
      rw (e, ltb-true ((2 ^ 32 - 1) - n) (2 ^ 31) (ground arith))
        (ap (λ k. some (le_bytes 4 k)) (omega arith))
]

to_int32-lt : (z : ℤ) → to_int32 z < 2 ^ 32
to_int32-lt (pos n) = omega arith
to_int32-lt (negsuc n) = omega arith

write_version-masked_version :
    (version : ℕ) (mask : Option ℤ)
    → write_version version mask ≡ write_int32 (masked_version version mask)
unfolding write_int32 masked_version
write_version-masked_version version none =
    sym (write_int32-signed32 (version % 2 ^ 32) (omega arith))
write_version-masked_version version (some (pos zero)) = refl
write_version-masked_version version (some (pos (suc k))) = sym (
    write_int32-signed32 _ (
      bit_xor-lt (version % 2 ^ 32) (to_int32 (pos (suc k))) (omega arith)
        (to_int32-lt (pos (suc k)))))
write_version-masked_version version (some (negsuc k)) = sym (
    write_int32-signed32 _
      (bit_xor-lt (version % 2 ^ 32) (to_int32 (negsuc k)) (omega arith) (to_int32-lt (negsuc k))))

-- The block that is built from a job and from what a share submits has the header that was built to
-- judge the share, whatever the version mask, the nonce and the time are: the same bytes where
-- there is a header, and no header where that one throws.
pub build_header_buffer-copy_and_update_block :
    (hash256 : List ℕ → List ℕ) {f : Float64} (job : Job f) (t : JobTemplate f)
    (version_mask nonce timestamp : Option ℤ)
    → build_header_buffer hash256 job t version_mask nonce timestamp
      ≡ write_header
          (copy_and_update_block hash256 (hash256 job.coinbase) job t version_mask nonce timestamp)
unfolding build_header_buffer copy_and_update_block write_header
build_header_buffer-copy_and_update_block hash256 job t version_mask nonce timestamp =
    ap
      (λ v.
        join_header v
          (t.prev_hash
            ++ calculate_merkle_root_hash hash256 (hash256 job.coinbase) job.merkle_branch)
          (write_uint32 timestamp) (le_bytes 4 t.bits) (write_uint32 nonce))
      (write_version-masked_version job.job_version version_mask)
