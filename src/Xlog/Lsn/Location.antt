-- ===== src/Xlog/Lsn/Location.antt =====
-- From a location to a file name with an offset, and back.
use Prim.Native.Nat.{bit_and}
use native.Mathlib.Nat.{div-add-mod, mod-lt, div-le_self}
use barman.Prelude.{ℕ, zero, suc, ◌+◌, ◌-◌, ◌*◌, ◌/◌, ◌%◌, ◌^◌, ◌<◌, ◌≡◌, sym, ap, ◌∙◌, arith}
use barman.Bits.{pow2, pow2-pos, bit_and_low, bit_and_high, div_unique, mod_unique}
use barman.Result.{ok}
use barman.Xlog.Name.{encode_segment_name}
use barman.Xlog.Name.Codec.{decode-encode}
use barman.Xlog.Segments.{xlog_segment_mask, xlog_segments_per_file}
use barman.Xlog.Lsn.{
  format_lsn, location_to_xlogfile_name_offset, location_from_xlogfile_name_offset,
}
use barman.Xlog.Lsn.RoundTrip.{parse-format}

-- A segment size is a power of 2 that divides 2^32.
pub pow2-mul : (k j : ℕ) → pow2 k * pow2 j ≡ pow2 (k + j)
pow2-mul zero j =
    let e : 0 + j ≡ j = omega arith in let m : 1 * pow2 j ≡ pow2 j = omega arith in rw (e, m)
pow2-mul (suc k) j =
    let e : suc k + j ≡ suc (k + j) = omega arith in
    let m : 2 * pow2 k * pow2 j ≡ 2 * (pow2 k * pow2 j) = grind arith in rw (e, m, pow2-mul k j)

mask_ones : (p q : ℕ) → 0 < p → 0 < q → p * (q - 1) + (p - 1) + 1 ≡ p * q
mask_ones p zero h k = absurd (omega arith)
mask_ones p (suc m) h k = let e : suc m - 1 ≡ m = omega arith in rw e (omega arith)

module _ (k j n : ℕ) (whole : pow2 k * pow2 j ≡ 2 ^ 32) where
  mask_shape : xlog_segment_mask (pow2 k) ≡ pow2 k * (pow2 j - 1)
  unfolding xlog_segment_mask xlog_segments_per_file
  mask_shape =
      let p = pow2-pos k in
      let q = pow2-pos j in
      let shape : 0xFFFFFFFF ≡ pow2 k * (pow2 j - 1) + (pow2 k - 1) =
        omega (arith, mask_ones (pow2 k) (pow2 j) p q) in
      let quotient : 0xFFFFFFFF / pow2 k ≡ pow2 j - 1 =
        ap (λ t. t / pow2 k) shape ∙ div_unique (pow2 k) (pow2 j - 1) (pow2 k - 1) (omega arith) in
      rw quotient

  -- The mask keeps the part of an LSN that numbers the segment in its log.
  mask_segments : bit_and n (xlog_segment_mask (pow2 k)) / pow2 k ≡ n % 2 ^ 32 / pow2 k
  mask_segments =
      let x = n % 2 ^ 32 / pow2 k in
      let high : bit_and n (pow2 k * (pow2 j - 1)) ≡ pow2 k * x + 0 =
        omega (arith, bit_and_high k j n, ap (λ t. n % t / pow2 k * pow2 k) whole) in
      rw (mask_shape, high) (div_unique (pow2 k) x 0 (pow2-pos k))

  offset_part : n % 2 ^ 32 % pow2 k ≡ n % pow2 k
  offset_part =
      let P = pow2 k in
      let q = n / 2 ^ 32 in
      let r = n % 2 ^ 32 in
      let shape : n ≡ P * (pow2 j * q + r / P) + r % P =
        omega (arith, div-add-mod r P, ap (λ t. t * q) whole) in
      sym
        (ap (λ t. t % P) shape ∙ mod_unique P (pow2 j * q + r / P) (r % P) (mod-lt r (pow2-pos k)))

  parts_sum : n / 2 ^ 32 * 2 ^ 32 + n % 2 ^ 32 / pow2 k * pow2 k + n % pow2 k ≡ n
  parts_sum = omega (arith, div-add-mod (n % 2 ^ 32) (pow2 k), offset_part)

  -- For every segment size that is a power of 2 and divides 2^32, every timeline of 32 bits and
  -- every LSN of 64 bits: converting the location to a file name and an offset gives the segment
  -- that holds it and its place there, and converting those back gives the location.
  pub location-round_trip :
      (timeline : ℕ)
      → n < 2 ^ 64
      → timeline < 2 ^ 32
      → (location_to_xlogfile_name_offset (format_lsn n) timeline (pow2 k)
          ≡ ok (encode_segment_name timeline (n / 2 ^ 32) (n % 2 ^ 32 / pow2 k), n % pow2 k))
        × (location_from_xlogfile_name_offset
              (encode_segment_name timeline (n / 2 ^ 32) (n % 2 ^ 32 / pow2 k))
              (n % pow2 k)
              (pow2 k)
            ≡ ok (format_lsn n))
  unfolding location_to_xlogfile_name_offset location_from_xlogfile_name_offset
  location-round_trip timeline h t = (
    rw (parse-format n, mask_segments, bit_and_low k n),
    rw (
      decode-encode timeline (n / 2 ^ 32) (n % 2 ^ 32 / pow2 k) t (omega arith)
          (omega (arith, div-le_self (n % 2 ^ 32) (pow2 k))),
      parts_sum,
    ),
  )
