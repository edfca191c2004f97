-- ===== src/Fs/Reclaim/Budget.antt =====
-- A pass of `reclaim_deleted_inodes` stays within its budget.
use rfs.Prelude.{
  ℕ, ◌+◌, ◌≤◌, ◌≡◌, refl, ◌∙◌, Bool, true, false, Option, none, some, List, [], ◌∷◌, arith, ◌==◌,
  if◌then◌else◌,
}
use rfs.Prelude.Outcome.{Outcome, ok, panic, or_panic, Ends, Ends-bind, Ends-any, Ends-if}
use rfs.Visible.{Row}
use rfs.Entry.{root_snap}
use rfs.Btree.Handle.{Btree, push, edit, write_at, flip_at, delete_found, delete_below}
use rfs.Btree.Handle as Btree
use rfs.Fs.Keys.{extent_key, extent_range, extent_offset_from_key, next_u64, deleted_inode_key}
use rfs.Fs.Values.{extent_of_bytes, DeletedInodeV1, deleted_inode_to_bytes, SnapshotV1}
use rfs.Fs.Snapshots.{ancestor_chain}
use rfs.Fs.State.{Fs, get_snapshot}
use rfs.Fs.Files.{free_data_block}
use rfs.Fs.Reclaim.{
  Pass, Extents, spend, put_deleted_inode, delete_deleted_inode, list_deleted_inodes,
  reclaim_extents, finish_inode, reclaim_found, reclaim_inode, reclaim_each, reclaim_deleted_inodes,
}
use rfs.Fs.Reclaim.Removals.{removals, delete_at-removals, put_at-removals}

-- Deletes move from the budget to those issued.
abbrev pub total : Pass → ℕ
total p = p.budget + p.issued

Ends-split :
    {A : Type 0} (P : A → Type 0) (b : Bool) (m n : Outcome A)
    → (b ≡ true → Ends P m)
    → (b ≡ false → Ends P n)
    → Ends P (if b then m else n)
Ends-split P true m n h g = h refl
Ends-split P false m n h g = g refl

total-spend : (f : Fs) (p : Pass) → (p.budget == 0) ≡ false → total (spend f p) ≡ total p
total-spend f p h = ground arith

-- From a pass to a later one: what the budget lost was issued, and each record of a removal that the
-- log gained was issued.
record Later (p q : Pass) : Type 0 where
  pub same : total q ≡ total p
  pub paid : removals q.fs.tree.log + p.issued ≤ removals p.fs.tree.log + q.issued

Later-refl : (p : Pass) → Later p p
Later-refl p = record { same = refl; paid = omega arith }

Later-trans : (p q r : Pass) → Later p q → Later q r → Later p r
Later-trans p q r a b =
    let x = a.paid in let y = b.paid in record { same = b.same ∙ a.same; paid = omega arith }

Later-spend :
    (f : Fs) (p : Pass)
    → (p.budget == 0) ≡ false
    → removals f.tree.log ≤ removals p.fs.tree.log + 1
    → Later p (spend f p)
Later-spend f p h d = record { same = total-spend f p h; paid = omega arith }

-- A pass behind a step.
along :
    {A : Type 0} (pass : A → Pass) (p p' : Pass)
    → Later p' p
    → (o : Outcome A) → Ends (λ x. Later p (pass x)) o
    → Ends (λ x. Later p' (pass x)) o
along pass p p' q (ok x) h = Later-trans p' p (pass x) q h
along pass p p' q (Outcome.err e) h = tt
along pass p p' q panic h = tt

module _ (fuel : ℕ) where
  delete_deleted_inode-removals :
      (ino snap : ℕ) (f : Fs)
      → Ends
          (λ (g : Fs). removals g.tree.log ≤ removals f.tree.log + 1)
          (delete_deleted_inode fuel ino snap f)
  unfolding delete_deleted_inode
  delete_deleted_inode-removals ino snap f =
      Ends-bind (λ (r : Bool × Btree). removals r.1.log ≤ removals f.tree.log + 1)
        (λ (g : Fs). removals g.tree.log ≤ removals f.tree.log + 1)
        (Btree.delete_at fuel (deleted_inode_key ino snap) root_snap (root_snap ∷ []) f.tree) _
        (delete_at-removals fuel (deleted_inode_key ino snap) root_snap f.tree (root_snap ∷ []))
        λ r w. w

  freed-removals :
      (b : Bool) (nr : ℕ) (f : Fs)
      → removals (if b then free_data_block nr f else f).tree.log ≡ removals f.tree.log
  unfolding free_data_block
  freed-removals true nr f = refl
  freed-removals false nr f = refl

  extents_lem :
      (ino snap : ℕ) (chain : List ℕ) (rows : List Row) (last : ℕ) (p : Pass)
      → Ends (λ x. Later p x.pass) (reclaim_extents fuel ino snap chain rows last p)
  unfolding reclaim_extents
  extents_lem ino snap chain [] last p = Later-refl p
  extents_lem ino snap chain (r ∷ rows) last p =
      let P = λ (x : Extents). Later p x.pass in
      Ends-split P (p.budget == 0) _ _ (λ q. Later-refl p)
        λ q. Ends-any P (or_panic (extent_of_bytes r.value)) _ λ ext.
          Ends-any P (extent_offset_from_key r.logical) _ λ offset.
            Ends-bind (λ (d : Bool × Btree). removals d.1.log ≤ removals p.fs.tree.log + 1) P
              (Btree.delete_at fuel (extent_key ino offset) snap chain p.fs.tree) _
              (delete_at-removals fuel (extent_key ino offset) snap p.fs.tree chain)
              λ d w.
                let deleted_fs : Fs = record p.fs { tree = d.1 } in
                let f : Fs =
                  if r.snap == snap
                  then free_data_block ext.data_block deleted_fs
                  else deleted_fs in
                let same = freed-removals (r.snap == snap) ext.data_block deleted_fs in
                along (λ (x : Extents). x.pass) (spend f p) p (Later-spend f p q (rw same w))
                  (reclaim_extents fuel ino snap chain rows offset (spend f p))
                  (extents_lem ino snap chain rows offset (spend f p))

  finish_lem :
      (ino snap next : ℕ) (x : Extents)
      → Ends (λ q. Later x.pass q) (finish_inode fuel ino snap next x)
  unfolding finish_inode put_deleted_inode
  finish_lem ino snap next x =
      let P = λ (q : Pass). Later x.pass q in
      Ends-if P x.finished _ _
        (Ends-split P (x.pass.budget == 0) _ _ (λ q. Later-refl x.pass)
          λ q.
            Ends-bind (λ (g : Fs). removals g.tree.log ≤ removals x.pass.fs.tree.log + 1) P
              (delete_deleted_inode fuel ino snap x.pass.fs) _
              (delete_deleted_inode-removals ino snap x.pass.fs) λ f w. Later-spend f x.pass q w)
        (Ends-if P (next_u64 x.last_offset == next) _ _ (Later-refl x.pass) (
          Ends-bind (λ (g : Fs). removals g.tree.log ≤ removals x.pass.fs.tree.log) P
            (put_deleted_inode fuel ino snap (next_u64 x.last_offset) x.pass.fs) _
            (put_at-removals fuel (deleted_inode_key ino snap) root_snap
              (deleted_inode_to_bytes (record { next_offset = next_u64 x.last_offset; pad = 0 }))
              x.pass.fs)
            λ f w. (record { same = refl; paid = omega arith })))

  found_lem :
      (ino snap next : ℕ) (p : Pass) (o : Option SnapshotV1)
      → (p.budget == 0) ≡ false
      → Ends (λ q. Later p q) (reclaim_found fuel ino snap next p o)
  unfolding reclaim_found
  found_lem ino snap next p none h =
      Ends-bind (λ (g : Fs). removals g.tree.log ≤ removals p.fs.tree.log + 1)
        (λ (q : Pass). Later p q) (delete_deleted_inode fuel ino snap p.fs) _
        (delete_deleted_inode-removals ino snap p.fs) λ f w. Later-spend f p h w
  found_lem ino snap next p (some meta) h =
      let P = λ (q : Pass). Later p q in
      Ends-any P (ancestor_chain (λ s. get_snapshot fuel p.fs s) snap) _ λ chain.
        Ends-any P
          (Btree.range_scan_visible_with_snap fuel (extent_key ino next) (extent_range ino).1 chain
            p.fs.tree)
          _
          λ rows.
            Ends-bind (λ (x : Extents). Later p x.pass) P
              (reclaim_extents fuel ino snap chain rows next p) _
              (extents_lem ino snap chain rows next p)
              λ x w.
                along (λ q. q) x.pass p w (finish_inode fuel ino snap next x)
                  (finish_lem ino snap next x)

  each_lem :
      (orphans : List ((ℕ × ℕ) × DeletedInodeV1)) (p : Pass)
      → Ends (λ q. Later p q) (reclaim_each fuel orphans p)
  unfolding reclaim_each reclaim_inode
  each_lem [] p = Later-refl p
  each_lem (((ino, snap), progress) ∷ orphans) p =
      let P = λ (q : Pass). Later p q in
      Ends-split P (p.budget == 0) _ _ (λ h. Later-refl p)
        λ h.
          Ends-bind P P (reclaim_inode fuel ino snap progress.next_offset p) _
            (Ends-any P (get_snapshot fuel p.fs snap) _
              λ found. found_lem ino snap progress.next_offset p found h)
            λ q w. along (λ r. r) q p w (reclaim_each fuel orphans q) (each_lem orphans q)

  -- A pass over the deleted inodes that returns has counted no more deletes than its budget, and
  -- the tree's log has gained no more records of a removal than the deletes that it counted.
  pub reclaim-budget :
      (op_budget : ℕ) (f : Fs)
      → Ends
          (λ r. (r.0 ≤ op_budget) × (removals r.1.tree.log ≤ removals f.tree.log + r.0))
          (reclaim_deleted_inodes fuel op_budget f)
  unfolding reclaim_deleted_inodes
  reclaim-budget op_budget f =
      let P =
        λ (r : ℕ × Fs). (r.0 ≤ op_budget) × (removals r.1.tree.log ≤ removals f.tree.log + r.0) in
      let start : Pass = record { fs = f; budget = op_budget; issued = 0 } in
      Ends-any P (list_deleted_inodes fuel f) _ λ orphans.
        Ends-bind (λ (q : Pass). Later start q) P (reclaim_each fuel orphans start) _
          (each_lem orphans start)
          λ q w. (let x = w.same in let y = w.paid in (omega arith, omega arith))
