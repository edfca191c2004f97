-- ===== src/Fs/Gc.antt =====
-- fs.rs: what `gc` does between its two syncs: the marks of the live blocks, and the sweep. The
-- blocks of the free list's chain are an argument.
pub mod Marks
pub mod Live
pub mod Sweep
use rfs.Prelude.{
  ℕ, zero, suc, ◌+◌, ◌-◌, Bool, true, false, Option, none, some, List, [], ◌∷◌, get_elem?,
  replicate, if◌then◌else◌,
}
use rfs.Prelude.Outcome.{Outcome, ok, ◌>>=◌, or_panic}
use rfs.Entry.Kind.{is_live}
use rfs.Visible.{Row}
use rfs.Store.{first_data_block_nr}
use rfs.Btree.Flush.{collect_node_blocks}
use rfs.Btree.Handle as Btree
use rfs.Fs.Keys.{kind_extent}
use rfs.Fs.Values.{extent_of_bytes}
use rfs.Fs.State.{Fs}
use rfs.Fs.Files.{free_data_block}

-- The closure `set`: a block behind the marks is left out.
abbrev pub set : List Bool → ℕ → List Bool
set [] nr = []
set (m ∷ ms) zero = true ∷ ms
set (m ∷ ms) (suc nr) = m ∷ set ms nr

abbrev pub set_all : List Bool → List ℕ → List Bool
set_all mark [] = mark
set_all mark (nr ∷ nrs) = set_all (set mark nr) nrs

-- `nr..nr + n`.
abbrev pub blocks_from : ℕ → ℕ → List ℕ
blocks_from zero nr = []
blocks_from (suc n) nr = nr ∷ blocks_from n (nr + 1)

-- The data blocks of the live extents.
unfoldable pub live_data : List Row → Outcome (List ℕ)
unfolding extent_of_bytes
live_data [] = ok []
live_data (r ∷ rows) = live_data rows >>= λ rest.
    if is_live r.kind
    then (or_panic (extent_of_bytes r.value) >>= λ ext. ok (ext.data_block ∷ rest))
    else ok rest

-- The loop of the sweep from `nr` on, with the blocks that it has freed.
unfoldable pub sweep : List Bool → ℕ → ℕ → ℕ × Fs → Outcome (ℕ × Fs)
unfolding free_data_block
sweep mark zero nr r = ok r
sweep mark (suc n) nr r = or_panic (get_elem? mark nr) >>= λ m.
    sweep mark n (nr + 1) (if m then r else (r.0 + 1, free_data_block nr r.1))

-- The marks of `hwm` blocks.
abbrev pub marks : ℕ → (nodes extents free_list chain : List ℕ) → List Bool
marks hwm nodes extents free_list chain =
    set_all
      (set_all
        (set_all (set_all (set_all (replicate hwm false) (blocks_from first_data_block_nr 0)) nodes)
          extents)
        free_list)
      chain

unfoldable pub mark_and_sweep : ℕ → List ℕ → Fs → Outcome (ℕ × Fs)
unfolding collect_node_blocks Btree.range_scan_all live_data sweep
mark_and_sweep fuel chain f = do
  nodes ← collect_node_blocks fuel f.tree.store f.tree.root_block
  rows ← Btree.range_scan_all fuel (kind_extent ∷ []) ((kind_extent + 1) ∷ []) f.tree
  extents ← live_data rows
  let hwm : ℕ = f.tree.store.next_block_nr
  sweep (marks hwm nodes extents f.tree.store.free_list chain) (hwm - first_data_block_nr)
      first_data_block_nr (0, f)
