-- ===== src/Trim.antt =====
-- strings.TrimSpace of Go's library, on texts in UTF-8.
use nile.Prelude.{ℕ, zero, suc, ◌-◌, Bytes, Bool, if◌then◌else◌, List, [], ◌∷◌, length, take, drop}
use nile.Wal.Name.{has_prefix, has_suffix}

-- The characters that strings.TrimSpace removes, in UTF-8.
abbrev pub spaces : List Bytes
spaces =
    (9 ∷ [])
    ∷ (10 ∷ [])
    ∷ (11 ∷ [])
    ∷ (12 ∷ [])
    ∷ (13 ∷ [])
    ∷ (32 ∷ [])
    ∷ (194 ∷ 133 ∷ [])
    ∷ (194 ∷ 160 ∷ [])
    ∷ (225 ∷ 154 ∷ 128 ∷ [])
    ∷ (226 ∷ 128 ∷ 128 ∷ [])
    ∷ (226 ∷ 128 ∷ 129 ∷ [])
    ∷ (226 ∷ 128 ∷ 130 ∷ [])
    ∷ (226 ∷ 128 ∷ 131 ∷ [])
    ∷ (226 ∷ 128 ∷ 132 ∷ [])
    ∷ (226 ∷ 128 ∷ 133 ∷ [])
    ∷ (226 ∷ 128 ∷ 134 ∷ [])
    ∷ (226 ∷ 128 ∷ 135 ∷ [])
    ∷ (226 ∷ 128 ∷ 136 ∷ [])
    ∷ (226 ∷ 128 ∷ 137 ∷ [])
    ∷ (226 ∷ 128 ∷ 138 ∷ [])
    ∷ (226 ∷ 128 ∷ 168 ∷ [])
    ∷ (226 ∷ 128 ∷ 169 ∷ [])
    ∷ (226 ∷ 128 ∷ 175 ∷ [])
    ∷ (226 ∷ 129 ∷ 159 ∷ [])
    ∷ (227 ∷ 128 ∷ 128 ∷ [])
    ∷ []

-- The length of the space that `starts` finds in a text, or 0.
abbrev pub space_length : (Bytes → Bool) → List Bytes → ℕ
space_length starts [] = 0
space_length starts (s ∷ ss) = if starts s then length s else space_length starts ss

-- Each round removes a space; a text has at most as many as it has bytes.
unfoldable pub trim_left : ℕ → Bytes → Bytes
trim_left zero s = s
trim_left (suc n) s = let k = space_length (has_prefix s) spaces in trim_left n (drop k s)

unfoldable pub trim_right : ℕ → Bytes → Bytes
trim_right zero s = s
trim_right (suc n) s =
    let k = space_length (has_suffix s) spaces in trim_right n (take (length s - k) s)

unfoldable pub trim_space : Bytes → Bytes
unfolding trim_left trim_right
trim_space s = trim_right (length s) (trim_left (length s) s)
