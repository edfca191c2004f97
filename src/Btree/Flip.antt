-- ===== src/Btree/Flip.antt =====
-- btree.rs: `flip_kind_in_place`, a delete at the snapshot that holds the entry. The loop of its
-- closure `flip` over the bsets is that of `merged_find`.
use rfs.Prelude.{ℕ, zero, suc, true, List, [], ◌∷◌, ◌==◌, if◌then◌else◌}
use rfs.Prelude.Outcome.{Outcome, ok, panic, ◌>>=◌, or_panic}
use rfs.Bytes.{Bytes}
use rfs.Entry.{DiskEntry, set_kind}
use rfs.Entry.Kind.{EntryKind}
use rfs.Node.{Node, Bset, set_child_block, set_bset_needs_whiteout}
use rfs.Node.Merged.{merged_find}
use rfs.Btree.{NodeStore, WriteMode, in_place, cow, with_node, write_fresh, route}
use rfs.Btree.Insert.{land}

abbrev pub edit_entry : (DiskEntry → DiskEntry) → List DiskEntry → ℕ → List DiskEntry
edit_entry f [] i = []
edit_entry f (e ∷ es) zero = f e ∷ es
edit_entry f (e ∷ es) (suc i) = e ∷ edit_entry f es i

-- The entry `i` of bset `b`, through `entry_at_mut`.
unfoldable pub edit_at : (DiskEntry → DiskEntry) → List Bset → ℕ → ℕ → List Bset
edit_at f [] b i = []
edit_at f (s ∷ ss) zero i = record s { entries = edit_entry f s.entries i } ∷ ss
edit_at f (s ∷ ss) (suc b) i = s ∷ edit_at f ss b i

abbrev pub mark_flip : EntryKind → ℕ → Node → Node
mark_flip EntryKind.whiteout b n = set_bset_needs_whiteout n b true
mark_flip k b n = n

unfoldable pub flip : Node → Bytes → EntryKind → Outcome Node
unfolding merged_find edit_at
flip leaf key kind = or_panic (merged_find leaf key) >>= λ h. ok (
    mark_flip kind h.bset_idx
      (record leaf { bsets = edit_at (λ e. set_kind e kind) leaf.bsets h.bset_idx h.entry_idx }))

-- An internal node whose child has been flipped.
unfoldable pub patch : WriteMode → NodeStore → ℕ → ℕ → ℕ → Outcome (ℕ × NodeStore)
unfolding with_node write_fresh set_child_block
patch in_place s nr child_idx new_child = ok (nr, s)
patch cow s nr child_idx new_child =
    with_node s nr >>= λ n. ok (write_fresh s (set_child_block n child_idx new_child))

unfoldable pub flip_kind_in_place :
    ℕ → WriteMode → Bytes → EntryKind → NodeStore → ℕ → Outcome (ℕ × NodeStore)
unfolding with_node flip land route patch
flip_kind_in_place zero mode key kind s nr = panic
flip_kind_in_place (suc fuel) mode key kind s nr = with_node s nr >>= λ n.
    if n.level == 0
    then (flip n key kind >>= λ n'. ok (land mode s nr n'))
    else (route n key >>= λ r.
        flip_kind_in_place fuel mode key kind s r.1 >>= λ c. patch mode c.1 nr r.0 c.0)
