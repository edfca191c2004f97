-- ===== src/Bytes/Order.antt =====
-- The order of byte slices is a strict total order, and a common prefix does not change it.
use rfs.Prelude.{eq, gt, ◌≡◌, refl, [], ◌∷◌, ◌++◌, arith, length}
use rfs.Bytes.{Bytes, compare_bytes, then_cmp, ◌≺◌}

pub compare_refl : (a : Bytes) → compare_bytes a a ≡ eq
unfolding compare_bytes
compare_refl [] = refl
compare_refl (x ∷ a) = ground (arith, compare_refl a)

pub eq_of_compare : (a b : Bytes) → compare_bytes a b ≡ eq → a ≡ b
unfolding compare_bytes
eq_of_compare [] [] h = refl
eq_of_compare (x ∷ a) (y ∷ b) h = ground (arith, eq_of_compare a b)
eq_of_compare [] (y ∷ b) h = ground arith
eq_of_compare (x ∷ a) [] h = ground arith

pub lt_of_gt : (a b : Bytes) → compare_bytes a b ≡ gt → b ≺ a
unfolding compare_bytes
lt_of_gt [] [] h = ground arith
lt_of_gt (x ∷ a) (y ∷ b) h = ground (arith, lt_of_gt a b)
lt_of_gt [] (y ∷ b) h = ground arith
lt_of_gt (x ∷ a) [] h = refl

pub gt_of_lt : (a b : Bytes) → a ≺ b → compare_bytes b a ≡ gt
unfolding compare_bytes
gt_of_lt [] [] h = ground arith
gt_of_lt (x ∷ a) (y ∷ b) h = ground (arith, gt_of_lt a b)
gt_of_lt [] (y ∷ b) h = refl
gt_of_lt (x ∷ a) [] h = ground arith

pub lt_trans : (a b c : Bytes) → a ≺ b → b ≺ c → a ≺ c
unfolding compare_bytes
lt_trans [] [] c h k = ground arith
lt_trans [] (y ∷ b) [] h k = ground arith
lt_trans [] (y ∷ b) (z ∷ c) h k = refl
lt_trans (x ∷ a) [] c h k = ground arith
lt_trans (x ∷ a) (y ∷ b) [] h k = ground arith
lt_trans (x ∷ a) (y ∷ b) (z ∷ c) h k = ground (arith, lt_trans a b c)

pub lt_irrefl : (a : Bytes) → a ≺ a → ⊥
lt_irrefl a h = ground (arith, compare_refl a)

-- A common prefix decides nothing.
pub compare-append_left : (p a b : Bytes) → compare_bytes (p ++ a) (p ++ b) ≡ compare_bytes a b
unfolding compare_bytes
compare-append_left [] a b = refl
compare-append_left (x ∷ p) a b = ground (arith, compare-append_left p a b)

-- Behind prefixes of one length, the tails are compared only where the prefixes agree.
pub compare-append :
    (p q a b : Bytes)
    → length p ≡ length q
    → compare_bytes (p ++ a) (q ++ b) ≡ then_cmp (compare_bytes p q) (compare_bytes a b)
unfolding compare_bytes
compare-append [] [] a b h = refl
compare-append (x ∷ p) (y ∷ q) a b h = ground (arith, compare-append p q a b)
compare-append [] (y ∷ q) a b h = absurd (omega arith)
compare-append (x ∷ p) [] a b h = absurd (omega arith)
