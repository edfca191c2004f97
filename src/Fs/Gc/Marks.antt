-- ===== src/Fs/Gc/Marks.antt =====
-- The marks of `gc`: exactly the blocks that something refers to.
use rfs.Prelude.{
  ℕ, zero, suc, ◌+◌, ◌≤◌, ◌<◌, ◌≡◌, refl, ap, ◌∙◌, Bool, true, false, ◌||◌, some, List, [], ◌∷◌,
  arith, ◌==◌, get_elem?, replicate,
}
use rfs.Leaf.{contains}
use rfs.Store.{first_data_block_nr}
use rfs.Fs.Gc.{set, set_all, blocks_from, marks}

set_lem :
    (mark : List Bool) (nr i : ℕ) (b : Bool)
    → get_elem? mark i ≡ some b
    → get_elem? (set mark nr) i ≡ some ((nr == i) || b)
set_lem [] nr i b h = let p : ⊥ = cc in absurd p
set_lem (m ∷ ms) zero zero b h = refl
set_lem (m ∷ ms) zero (suc i) b h = let p : (0 == suc i) ≡ false = ground arith in rw p h
set_lem (m ∷ ms) (suc nr) zero b h = let p : (suc nr == 0) ≡ false = ground arith in rw p h
set_lem (m ∷ ms) (suc nr) (suc i) b h = ground (arith, set_lem ms nr i b h)

swap : (a b c : Bool) → (b || (a || c)) ≡ ((a || b) || c)
swap true true c = refl
swap true false c = refl
swap false true c = refl
swap false false c = refl

set_all_lem :
    (mark : List Bool) (nrs : List ℕ) (i : ℕ) (b : Bool)
    → get_elem? mark i ≡ some b
    → get_elem? (set_all mark nrs) i ≡ some (contains nrs i || b)
set_all_lem mark [] i b h = h
set_all_lem mark (nr ∷ nrs) i b h =
    set_all_lem (set mark nr) nrs i ((nr == i) || b) (set_lem mark nr i b h)
    ∙ ap (λ x. some x) (swap (nr == i) (contains nrs i) b)

replicate_lem : (n i : ℕ) → i < n → get_elem? (replicate n false) i ≡ some false
replicate_lem zero i h = absurd (omega arith)
replicate_lem (suc n) zero h = refl
replicate_lem (suc n) (suc i) h = replicate_lem n i (omega arith)

reserved_lem : (n nr i : ℕ) → nr + n ≤ i → contains (blocks_from n nr) i ≡ false
reserved_lem zero nr i h = refl
reserved_lem (suc n) nr i h = ground (arith, reserved_lem n (nr + 1) i (omega arith))

-- A block that the file system refers to.
abbrev pub is_live_block : (nodes extents free_list chain : List ℕ) → ℕ → Bool
is_live_block nodes extents free_list chain i =
    contains chain i || (contains free_list i || (contains extents i || contains nodes i))

right_false :
    (a b c d : Bool) → (a || (b || (c || (d || (false || false))))) ≡ (a || (b || (c || d)))
right_false a b c true = refl
right_false a b c false = refl

pub marks_lem :
    (hwm : ℕ) (nodes extents free_list chain : List ℕ) (i : ℕ)
    → first_data_block_nr ≤ i
    → i < hwm
    → get_elem? (marks hwm nodes extents free_list chain) i
      ≡ some (is_live_block nodes extents free_list chain i)
marks_lem hwm nodes extents free_list chain i low high =
    let m0 = replicate hwm false in
    let m1 = set_all m0 (blocks_from first_data_block_nr 0) in
    let m2 = set_all m1 nodes in
    let m3 = set_all m2 extents in
    let m4 = set_all m3 free_list in
    let reserved = contains (blocks_from first_data_block_nr 0) i in
    let h1 =
      set_all_lem m0 (blocks_from first_data_block_nr 0) i false (replicate_lem hwm i high) in
    let h2 = set_all_lem m1 nodes i (reserved || false) h1 in
    let h3 = set_all_lem m2 extents i _ h2 in
    let h4 = set_all_lem m3 free_list i _ h3 in
    let h5 = set_all_lem m4 chain i _ h4 in
    h5
    ∙ ap
        (λ r. some (
          contains chain i
          || (contains free_list i || (contains extents i || (contains nodes i || (r || false))))))
        (reserved_lem first_data_block_nr 0 i low)
    ∙ ap (λ x. some x)
        (right_false (contains chain i) (contains free_list i) (contains extents i)
          (contains nodes i))
