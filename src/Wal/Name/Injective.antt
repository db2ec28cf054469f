-- ===== src/Wal/Name/Injective.antt =====
-- Segment names of pkg/wal/segment.go compared.
use nile.Prelude.{
  ℕ, ◌≡◌, ◌≢◌, sym, ap, ◌∙◌, IsU64, bytes_eq, bytes_eq→eq, Bool-cases, false, inl, inr, some,
}
use nile.Wal.Name.{segment_name, parse_segment_name}
use nile.Wal.Name.RoundTrip.{parse-segment_name}

-- Two base indices, of type uint64, whose segments have one name are the same.
pub segment_name-injective : (a b : ℕ) → IsU64 a → IsU64 b → segment_name a ≡ segment_name b → a ≡ b
segment_name-injective a b ha hb e =
    let p : some a ≡ some b =
      sym (parse-segment_name a ha) ∙ ap parse_segment_name e ∙ parse-segment_name b hb in
    cc

pub segment_name-ne :
    (a b : ℕ) → IsU64 a → IsU64 b → a ≢ b → bytes_eq (segment_name a) (segment_name b) ≡ false
segment_name-ne a b ha hb h = elim (Bool-cases (bytes_eq (segment_name a) (segment_name b))) [
  | inl e ↦ absurd (h (segment_name-injective a b ha hb (bytes_eq→eq _ _ e)))
  | inr e ↦ e
]
