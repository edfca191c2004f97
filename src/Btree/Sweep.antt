-- ===== src/Btree/Sweep.antt =====
-- btree.rs: `compact_whiteouts_rec` and `drop_snapshot_keys_rec`, which walk every leaf and compact
-- those that a test picks.
use rfs.Prelude.{ℕ, zero, suc, ◌+◌, Bool, List, [], ◌∷◌, ◌==◌, if◌then◌else◌}
use rfs.Prelude.Outcome.{Outcome, ok, panic, ◌>>=◌}
use rfs.Node.{Node}
use rfs.Leaf.{
  leaf_has_droppable_whiteout, compact_leaf_dropping_whiteouts, leaf_has_snap_entries,
  compact_leaf_dropping_snap,
}
use rfs.Btree.{with_node, edit_node, children}
use rfs.Btree.Split.{Edit}

-- The number of entries dropped, and the store and counter behind the call.
abbrev pub Swept : Type 0
Swept = ℕ × Edit

unfoldable pub sweep_all : (Edit → ℕ → Outcome Swept) → Edit → List ℕ → Outcome Swept
sweep_all sweep e [] = ok (0, e)
sweep_all sweep e (c ∷ cs) = do
  (k, e') ← sweep e c
  (j, e'') ← sweep_all sweep e' cs
  ok (k + j, e'')

module _ (picks : Node → Bool) (compact : Node → ℕ → Outcome (Node × ℕ)) where
  unfoldable pub sweep_leaf : Edit → ℕ → Node → Outcome Swept
  unfolding edit_node
  sweep_leaf e nr n =
      if picks n
      then (compact n e.next_bset_seq >>= λ c.
          ok
            (c.1, record { store = edit_node e.store nr c.0; next_bset_seq = e.next_bset_seq + 1 }))
      else ok (0, e)

  unfoldable pub sweep : ℕ → Edit → ℕ → Outcome Swept
  unfolding with_node children sweep_all sweep_leaf
  sweep zero e nr = panic
  sweep (suc fuel) e nr = with_node e.store nr >>= λ n.
      if n.level == 0
      then sweep_leaf e nr n
      else (children n >>= λ cs. sweep_all (λ d c. sweep fuel d c) e cs)

unfoldable pub compact_whiteouts : ℕ → List ℕ → Edit → ℕ → Outcome Swept
unfolding sweep leaf_has_droppable_whiteout compact_leaf_dropping_whiteouts
compact_whiteouts fuel [] e nr = ok (0, e)
compact_whiteouts fuel (d ∷ dead_snaps) e nr =
    sweep (λ n. leaf_has_droppable_whiteout n (d ∷ dead_snaps))
      (λ n m. compact_leaf_dropping_whiteouts n m (d ∷ dead_snaps)) fuel e nr

unfoldable pub drop_snapshot_keys : ℕ → ℕ → Edit → ℕ → Outcome Swept
unfolding sweep leaf_has_snap_entries compact_leaf_dropping_snap
drop_snapshot_keys fuel dead_snap e nr =
    sweep (λ n. leaf_has_snap_entries n dead_snap) (λ n m. compact_leaf_dropping_snap n m dead_snap)
      fuel e nr
