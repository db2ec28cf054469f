-- ===== src/Json.antt =====
-- Texts of encoding/json: the values, and how Marshal writes them.
pub mod Chars
pub mod Quoting
pub mod Number
pub mod Numeral
pub mod Parser
pub mod Pieces
pub mod Reading
pub mod Shrinking
pub mod Fuel
pub mod Object
pub mod Written
use nile.Prelude.{ℕ, Bytes, ascii, Bool, true, false, if◌then◌else◌, List, [], ◌∷◌, ◌++◌}
use Chars.{quote}

-- A number is kept as it is written.
mutual
  pub data Value : Type 0 where
    object : Fields → Value
    array : Items → Value
    str num : Bytes → Value
    bool : Bool → Value
    null : Value

  pub data Items : Type 0 where
    no_items : Items
    item : Value → Items → Items

  pub data Fields : Type 0 where
    no_fields : Fields
    field : Bytes → Value → Fields → Fields

abbrev pub comma : Bool → Bytes
comma first = if first then [] else 44 ∷ []

-- Marshal puts no spaces.
unfoldable mutual
  unfolding quote

  pub emit : Value → Bytes
  emit null = ascii "null"
  emit (bool b) = if b then ascii "true" else ascii "false"
  emit (num n) = n
  emit (str s) = quote s
  emit (array xs) = 91 ∷ emit_items xs true
  emit (object fs) = 123 ∷ emit_fields fs true

  pub emit_items : Items → Bool → Bytes
  emit_items no_items first = 93 ∷ []
  emit_items (item v xs) first = comma first ++ (emit v ++ emit_items xs false)

  pub emit_fields : Fields → Bool → Bytes
  emit_fields no_fields first = 125 ∷ []
  emit_fields (field k v fs) first =
      comma first ++ (quote k ++ (58 ∷ (emit v ++ emit_fields fs false)))
