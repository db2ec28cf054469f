-- ===== src/Wal/Name/RoundTrip.antt =====
-- segmentName and parseSegmentName of pkg/wal/segment.go together.
use nile.Prelude.{
  ℕ, zero, suc, ◌+◌, ◌-◌, ◌*◌, ◌/◌, ◌%◌, ◌^◌, ◌<◌, ◌≡◌, refl, ap, ◌∙◌, arith, Bytes, IsU64,
  bytes_eq_refl, length, replicate, true, some, [], ◌∷◌, ◌++◌, length-append, take-append_length,
  drop-append_length,
}
use nile.Wal.Name.{
  segment_prefix, segment_ext, digits, format_index, segment_name, parse_digits, parse_uint,
  has_prefix, has_suffix, trim_suffix, parse_segment_name,
}

parse_digits-zeros : (k : ℕ) (s : Bytes) → parse_digits 0 (replicate k 48 ++ s) ≡ parse_digits 0 s
unfolding parse_digits
parse_digits-zeros zero s = refl
parse_digits-zeros (suc k) s = parse_digits-zeros k s

-- One more digit behind a text that reads as `v`.
parse_digits-last :
    (s : Bytes) (acc v d : ℕ)
    → d < 10
    → IsU64 (v * 10 + d)
    → parse_digits acc s ≡ some v
    → parse_digits acc (s ++ ((48 + d) ∷ [])) ≡ some (v * 10 + d)
unfolding parse_digits
parse_digits-last [] acc v d h fits e = ground arith
parse_digits-last (c ∷ s) acc v d h fits e =
    ground (arith, parse_digits-last s (acc * 10 + (c - 48)) v d)

parse_digits-digits : (n v : ℕ) → v < 10 ^ suc n → IsU64 v → parse_digits 0 (digits n v) ≡ some v
unfolding digits parse_digits
parse_digits-digits zero v h fits = ground arith
parse_digits-digits (suc n) v h fits = ground (
  arith,
  parse_digits-digits n (v / 10),
  parse_digits-last (digits n (v / 10)) 0 (v / 10) (v % 10),
)

digits-cons : (n v : ℕ) → 0 < length (digits n v)
unfolding digits
digits-cons zero v = omega arith
digits-cons (suc n) v = ground (arith, length-append (digits n (v / 10)) ((48 + v % 10) ∷ []))

parse_uint-cons : (s : Bytes) → 0 < length s → parse_uint s ≡ parse_digits 0 s
unfolding parse_uint
parse_uint-cons [] h = absurd (omega arith)
parse_uint-cons (c ∷ s) h = refl

pub parse_uint-digits : (v : ℕ) → IsU64 v → parse_uint (digits 19 v) ≡ some v
parse_uint-digits v h =
    parse_uint-cons (digits 19 v) (digits-cons 19 v) ∙ parse_digits-digits 19 v (omega arith) h

parse_uint-format_index : (v : ℕ) → IsU64 v → parse_uint (format_index v) ≡ some v
unfolding format_index
parse_uint-format_index v h =
    parse_uint-cons (replicate (6 - length (digits 19 v)) 48 ++ digits 19 v) (
      omega (
        arith,
        length-append (replicate (6 - length (digits 19 v)) 48) (digits 19 v),
        digits-cons 19 v,
      ))
    ∙ parse_digits-zeros (6 - length (digits 19 v)) (digits 19 v)
    ∙ parse_digits-digits 19 v (omega arith) h

has_suffix-append : (t suf : Bytes) → has_suffix (t ++ suf) suf ≡ true
has_suffix-append t suf =
    let n : length t ≡ length (t ++ suf) - length suf = omega (arith, length-append t suf) in
    rw (drop-append_length (length (t ++ suf) - length suf) t suf n)
      (ground (arith, bytes_eq_refl suf, length-append t suf))

trim_suffix-append : (t suf : Bytes) → trim_suffix (t ++ suf) suf ≡ t
trim_suffix-append t suf =
    let n : length t ≡ length (t ++ suf) - length suf = omega (arith, length-append t suf) in
    rw (has_suffix-append t suf) (take-append_length (length (t ++ suf) - length suf) t suf n)

has_prefix_segment : (t : Bytes) → has_prefix (segment_prefix ++ t) segment_prefix ≡ true
has_prefix_segment t = ground arith

-- A text between the prefix and the extension is what parseSegmentName hands to ParseUint.
pub parse_between :
    (s : Bytes) → parse_segment_name (segment_prefix ++ (s ++ segment_ext)) ≡ parse_uint s
unfolding parse_segment_name
parse_between s =
    let p = has_prefix_segment (s ++ segment_ext) in
    let q = has_suffix-append (segment_prefix ++ s) segment_ext in
    rw (p, q) (ap parse_uint (trim_suffix-append s segment_ext))

-- The name of a segment parses to its base index, a uint64.
pub parse-segment_name :
    (base : ℕ) → IsU64 base → parse_segment_name (segment_name base) ≡ some base
unfolding segment_name
parse-segment_name base h = parse_between (format_index base) ∙ parse_uint-format_index base h
