-- ===== src/Json/Written.antt =====
-- Numbers and whole texts that Marshal has written, unmarshalled.
use nile.Prelude.{ℕ, suc, ℤ, pos, negsuc, IsU64, ◌≡◌, refl, ap, arith, true}
use nile.Wal.Name.RoundTrip.{parse_uint-digits}
use nile.Cli.Int.{format_int, IsInt64, parse_int-format_int}
use nile.Json.{Value, num, emit}
use nile.Json.Numeral.{IsNumeral, digits-IsNumeral, negative-IsNumeral}
use nile.Json.Pieces.{IsPrintable}
use nile.Json.Reading.{parse_json-emit}
use nile.Json.Object.{
  uint, Setter, number_or, fine_only, into_uint, into_int, into_struct, unmarshal,
}

pub into_uint-digits : (n old : ℕ) → IsU64 n → into_uint (uint n) old ≡ (n, true)
unfolding into_uint
into_uint-digits n old h = ap (λ o. number_or o old) (parse_uint-digits n h)

pub into_int-format_int : (z old : ℤ) → IsInt64 z → into_int (num (format_int z)) old ≡ (z, true)
unfolding into_int
into_int-format_int z old h = ap (λ o. number_or o old) (parse_int-format_int z h)

pub format_int-IsNumeral : (z : ℤ) → IsInt64 z → IsNumeral (format_int z)
unfolding format_int
format_int-IsNumeral (pos n) h = digits-IsNumeral n (omega arith)
format_int-IsNumeral (negsuc n) h = negative-IsNumeral (suc n) (omega arith) (omega arith)

-- A text that Marshal has written is unmarshalled from its value.
pub unmarshal-emit :
    {A : Type 0} (set : Setter A) (start : A) (v : Value)
    → IsPrintable v
    → unmarshal set start (emit v) ≡ fine_only (into_struct set v start)
unfolding unmarshal
unmarshal-emit set start v h = rw (parse_json-emit v h, unmarshal) refl
