-- ===== src/Wal/Name.antt =====
-- The file names of pkg/wal/segment.go: segmentName, parseSegmentName and the order of listSegments.
pub mod RoundTrip
pub mod Injective
use nile.Prelude.{
  ℕ, zero, suc, ◌+◌, ◌-◌, ◌*◌, ◌/◌, ◌%◌, Bytes, ascii, bytes_eq, length, take, drop, replicate, ltb,
  leb, ◌==◌, if◌then◌else◌, Bool, true, false, ◌&&◌, Option, none, some, List, [], ◌∷◌, ◌++◌,
}

abbrev pub segment_prefix : Bytes
segment_prefix = ascii "seg-"

abbrev pub segment_ext : Bytes
segment_ext = ascii ".wal"

-- The decimal digits of a number below 10 ^ (n + 1), without leading zeros.
unfoldable pub digits : ℕ → ℕ → Bytes
digits zero v = (48 + v) ∷ []
digits (suc n) v =
    let front = digits n (v / 10) in
    if ltb v 10 then (48 + v) ∷ [] else front ++ ((48 + v % 10) ∷ [])

-- A uint64 has at most 20 digits; `%06d` pads with zeros up to six.
unfoldable pub format_index : ℕ → Bytes
format_index v = let ds = digits 19 v in replicate (6 - length ds) 48 ++ ds

unfoldable pub segment_name : ℕ → Bytes
unfolding format_index
segment_name base_index = segment_prefix ++ (format_index base_index ++ segment_ext)

abbrev is_digit : ℕ → Bool
is_digit c = leb 48 c && leb c 57

-- The loop of strconv.ParseUint(s, 10, 64): a character that is no digit, or a value above 64 bits, is an error.
unfoldable pub parse_digits : ℕ → Bytes → Option ℕ
parse_digits acc [] = some acc
parse_digits acc (c ∷ cs) =
    let rest = parse_digits (acc * 10 + (c - 48)) cs in
    if is_digit c && ltb (acc * 10 + (c - 48)) 18446744073709551616 then rest else none

unfoldable pub parse_uint : Bytes → Option ℕ
unfolding parse_digits
parse_uint [] = none
parse_uint (c ∷ cs) = parse_digits 0 (c ∷ cs)

abbrev pub has_prefix : Bytes → Bytes → Bool
has_prefix s p = leb (length p) (length s) && bytes_eq (take (length p) s) p

abbrev pub has_suffix : Bytes → Bytes → Bool
has_suffix s p = leb (length p) (length s) && bytes_eq (drop (length s - length p) s) p

abbrev pub trim_prefix : Bytes → Bytes → Bytes
trim_prefix s p = if has_prefix s p then drop (length p) s else s

abbrev pub trim_suffix : Bytes → Bytes → Bytes
trim_suffix s p = if has_suffix s p then take (length s - length p) s else s

unfoldable pub parse_segment_name : Bytes → Option ℕ
unfolding parse_uint
parse_segment_name name =
    if has_prefix name segment_prefix && has_suffix name segment_ext
    then parse_uint (trim_suffix (trim_prefix name segment_prefix) segment_ext)
    else none

-- sort.Slice by `<`, as an insertion sort.
unfoldable pub insert : ℕ → List ℕ → List ℕ
insert a [] = a ∷ []
insert a (b ∷ l) = if ltb b a then b ∷ insert a l else a ∷ (b ∷ l)

unfoldable pub sort : List ℕ → List ℕ
unfolding insert
sort [] = []
sort (a ∷ l) = insert a (sort l)
