-- ===== src/Store/FreeList/Block.antt =====
-- A block of the free list's chain reads back.
use rfs.Prelude.{
  ℕ, ◌+◌, ◌-◌, ◌*◌, ◌^◌, ◌<◌, ◌≤◌, ◌≡◌, refl, sym, ap, ◌∙◌, List, [], ◌∷◌, ◌++◌, length, take, drop,
  replicate, min, arith, length-append, take-length, drop-length, append_assoc, subst,
  length-replicate,
}
use rfs.Bytes.{Bytes, to_le, of_le}
use rfs.Bytes.Codec.{length-to_le, of_le-to_le}
use rfs.Store.FreeList.{chain_block, entries_bytes, read_entries, next_of, entries_of}

-- Every number is below 2 ^ 64.
abbrev pub AllBlocks : List ℕ → Type 0
AllBlocks [] = Unit
AllBlocks (x ∷ xs) = (x < 256 ^ 8) × AllBlocks xs

take_front : (k : ℕ) (a b : Bytes) → length a ≡ k → take k (a ++ b) ≡ a
take_front k a b h = subst (λ i. take i (a ++ b) ≡ a) h (take-length a b)

drop_front : (k : ℕ) (a b : Bytes) → length a ≡ k → drop k (a ++ b) ≡ b
drop_front k a b h = subst (λ i. drop i (a ++ b) ≡ b) h (drop-length a b)

length-entries_bytes : (xs : List ℕ) → length (entries_bytes xs) ≡ 8 * length xs
length-entries_bytes [] = omega arith
length-entries_bytes (x ∷ xs) =
    omega (
      arith,
      length-append (to_le 8 x) (entries_bytes xs),
      length-to_le 8 x,
      length-entries_bytes xs,
    )

read_entries-bytes :
    (xs : List ℕ) (r : Bytes) → AllBlocks xs → read_entries (length xs) (entries_bytes xs ++ r) ≡ xs
read_entries-bytes [] r h = refl
read_entries-bytes (x ∷ xs) r (hx, h) =
    let e = append_assoc (to_le 8 x) (entries_bytes xs) r in
    let t =
      ap (λ b. of_le (take 8 b)) e
      ∙ ap of_le (take_front 8 (to_le 8 x) (entries_bytes xs ++ r) (length-to_le 8 x))
      ∙ of_le-to_le 8 x hx in
    let d =
      ap (λ b. read_entries (length xs) (drop 8 b)) e
      ∙ ap (read_entries (length xs))
          (drop_front 8 (to_le 8 x) (entries_bytes xs ++ r) (length-to_le 8 x))
      ∙ read_entries-bytes xs r h in
    ap (λ y. y ∷ read_entries (length xs) (drop 8 (entries_bytes (x ∷ xs) ++ r))) t
    ∙ ap (λ ys. x ∷ ys) d

module _ (next : ℕ) (chunk : List ℕ) where
  pub length-chain_block : length chunk ≤ 510 → length (chain_block next chunk) ≡ 4096
  unfolding chain_block
  length-chain_block h =
      let zeros = replicate {A = ℕ} (4096 - (16 + 8 * length chunk)) 0 in
      omega (
        arith,
        length-to_le 8 next,
        length-to_le 8 (length chunk),
        length-entries_bytes chunk,
        length-append (to_le 8 next) (to_le 8 (length chunk) ++ (entries_bytes chunk ++ zeros)),
        length-append (to_le 8 (length chunk)) (entries_bytes chunk ++ zeros),
        length-append (entries_bytes chunk) zeros,
        length-replicate {A = ℕ} (4096 - (16 + 8 * length chunk)) 0,
      )

  pub next_of-chain_block : next < 256 ^ 8 → next_of (chain_block next chunk) ≡ next
  unfolding next_of chain_block
  next_of-chain_block h =
      let zeros = replicate {A = ℕ} (4096 - (16 + 8 * length chunk)) 0 in
      ap of_le (
        take_front 8 (to_le 8 next) (to_le 8 (length chunk) ++ (entries_bytes chunk ++ zeros))
          (length-to_le 8 next))
      ∙ of_le-to_le 8 next h

  pub entries_of-chain_block :
      length chunk ≤ 510 → AllBlocks chunk → entries_of (chain_block next chunk) ≡ chunk
  unfolding entries_of chain_block
  entries_of-chain_block h k =
      let zeros = replicate {A = ℕ} (4096 - (16 + 8 * length chunk)) 0 in
      let a = to_le 8 next in
      let c = to_le 8 (length chunk) in
      let rest = entries_bytes chunk ++ zeros in
      let lh : length (a ++ c) ≡ 16 =
        omega (arith, length-append a c, length-to_le 8 next, length-to_le 8 (length chunk)) in
      let tail : drop 16 (a ++ (c ++ rest)) ≡ rest =
        ap (λ x. drop 16 x) (sym (append_assoc a c rest)) ∙ drop_front 16 (a ++ c) rest lh in
      let count : of_le (take 8 (drop 8 (a ++ (c ++ rest)))) ≡ length chunk =
        ap (λ x. of_le (take 8 x)) (drop_front 8 a (c ++ rest) (length-to_le 8 next))
        ∙ ap of_le (take_front 8 c rest (length-to_le 8 (length chunk)))
        ∙ of_le-to_le 8 (length chunk) (omega arith) in
      ap (λ x. read_entries (min x 510) (drop 16 (a ++ (c ++ rest)))) count
      ∙ ap (read_entries (min (length chunk) 510)) tail
      ∙ ap (λ x. read_entries x rest) (omega arith)
      ∙ read_entries-bytes chunk zeros k
