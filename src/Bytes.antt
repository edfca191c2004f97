-- ===== src/Bytes.antt =====
-- Byte strings, as lists of numbers below 256: Rust's `[u8]`, its lexicographic order, and the
-- `to_be_bytes`, `to_le_bytes` and `from_*_bytes` of its unsigned integers.
pub mod Order
pub mod Codec
use rfs.Prelude.{
  ℕ, zero, suc, ◌+◌, ◌*◌, ◌/◌, ◌%◌, ◌^◌, ◌<◌, compare, Ordering, lt, eq, gt, ◌≡◌, List, [], ◌∷◌,
  length, Bool, true, false,
}

abbrev pub Bytes : Type 0
Bytes = List ℕ

-- Every item is a byte.
abbrev pub IsBytes : Bytes → Type 0
IsBytes [] = Unit
IsBytes (b ∷ r) = (b < 256) × IsBytes r

abbrev pub then_cmp : Ordering → Ordering → Ordering
then_cmp eq second = second
then_cmp first _ = first

-- `<[u8] as Ord>::cmp`: the first difference decides, and a proper prefix comes first.
unfoldable pub compare_bytes : Bytes → Bytes → Ordering
compare_bytes [] [] = eq
compare_bytes [] (b ∷ bs) = lt
compare_bytes (a ∷ as_) [] = gt
compare_bytes (a ∷ as_) (b ∷ bs) = then_cmp (compare a b) (compare_bytes as_ bs)

abbrev pub is_lt : Ordering → Bool
is_lt lt = true
is_lt _ = false

abbrev pub is_eq : Ordering → Bool
is_eq eq = true
is_eq _ = false

infix 50 ◌≺◌
abbrev pub ◌≺◌ : Bytes → Bytes → Type 0
a ≺ b = compare_bytes a b ≡ lt

-- `to_le_bytes` and `to_be_bytes` of an unsigned integer of `w` bytes.
unfoldable pub to_le : ℕ → ℕ → Bytes
to_le zero v = []
to_le (suc w) v = v % 256 ∷ to_le w (v / 256)

unfoldable pub to_be : ℕ → ℕ → Bytes
to_be zero v = []
to_be (suc w) v = v / 256 ^ w % 256 ∷ to_be w (v % 256 ^ w)

-- `from_le_bytes` and `from_be_bytes`.
unfoldable pub of_le : Bytes → ℕ
of_le [] = 0
of_le (b ∷ r) = b + 256 * of_le r

unfoldable pub of_be : Bytes → ℕ
of_be [] = 0
of_be (b ∷ r) = b * 256 ^ length r + of_be r
