-- ===== src/BpTree/Growth/Root.antt =====
-- bptree.cpp: the file after `insert` has split the root.
use mathlib.Core.Path.{fun_ext}
use computer_science_notes.Base.{
  ℕ, suc, ◌+◌, ◌-◌, ◌<◌, ◌≡◌, sym, ap, ap₂, ◌∙◌, subst, true, ltb, update, arith, ℕ_discrete,
}
use computer_science_notes.BpTree.Node.{
  Node, File, new_node, node_size, max_key, write_node, get_final_node, shift_up,
}
use computer_science_notes.BpTree.Insert.{grow, split_parent, split_child, split_right, split_file}
use computer_science_notes.BpTree.Shape.{Labels, Index, Shape}
use computer_science_notes.BpTree.Descent.{read_node-live}
use computer_science_notes.BpTree.Relabel.{update-each, update-other}
use computer_science_notes.BpTree.Split.Marks.{split_labels, split-level}
use computer_science_notes.BpTree.Split.Whole.{IsCrowded, IsSplit, end-Vacant}
use computer_science_notes.BpTree.Split.Room.{split_nodes, split_nodes-IsSplit, make_room-Shape}
use computer_science_notes.BpTree.Growth.Hoist.{
  hoist_node, hoist, hoist_labels, hoist-Shape, hoist-IsCrowded, hoist_below, hoist-last,
  hoist-root, level-root, hoist-rest,
}

-- The new root as `insert` makes it, and as the split of the one child makes it.
fresh : Node → Node
fresh root = record new_node {
  key = update new_node.key 0 (root.key (root.key_total - 1));
  pointer = update new_node.pointer 0 0;
}

top : Node → ℕ → ℕ → Node
top root last right =
    let n = split_parent (fresh root) root 0 right in record n { pointer = update n.pointer 0 last }

top-eq :
    (root : Node) (last right : ℕ)
    → top root last right ≡ split_parent (hoist_node root last) root 0 right
unfolding top fresh split_parent shift_up hoist_node
top-eq root last right =
    let same : update
          (update (update (update new_node.pointer 0 0) 1 (update new_node.pointer 0 0 0)) 1 right)
          0 last
        ≡ update (update (update new_node.pointer 0 last) 1 (update new_node.pointer 0 last 0)) 1
            right =
      fun_ext (λ x. ground arith) in
    let with_pointer : (ℕ → ℕ) → Node =
      λ p. record (split_parent (hoist_node root last) root 0 right) { pointer = p } in
    ap with_pointer same

module _ (f : File) (l : Labels) (m : Index) (s : Shape f l m)
    (full : (f.node 0).key_total ≡ max_key) where
  abbrev h : File
  h = hoist f

  abbrev after : Labels
  after = hoist_labels l f.size

  crowded : IsCrowded h after 0 0
  crowded = hoist-IsCrowded f l m s full

  shape : Shape h after m
  shape = hoist-Shape f l m s

  nodes : IsSplit h 0 0 (split_nodes h after m shape 0 0 crowded)
  nodes = split_nodes-IsSplit h after m shape 0 0 crowded

  grow-file : grow f ≡ record {
    node =
        update
          (update
            (update (update f.node f.size (fresh (f.node 0))) h.size (split_right (f.node 0)))
            f.size
            (split_child (f.node 0) h.size))
          0
          (top (f.node 0) f.size h.size);
    size = h.size + node_size;
  }
  unfolding grow write_node split_file get_final_node top fresh
  grow-file =
      let up : ltb f.size (f.size + node_size) ≡ true = ground arith in
      rw (read_node-live f l m 0 s s.root, up) (ground (arith, s.placed 0 s.root))

  grow_node :
      (x : ℕ)
      → update
          (update
            (update (update f.node f.size (fresh (f.node 0))) h.size (split_right (f.node 0)))
            f.size
            (split_child (f.node 0) h.size))
          0
          (top (f.node 0) f.size h.size)
          x
        ≡ split_nodes h after m shape 0 0 crowded x
  grow_node x =
      let root = f.node 0 in
      let after_split = split_nodes h after m shape 0 0 crowded in
      let at = hoist_below f l m s in
      let below : h.node ((h.node 0).pointer 0) ≡ root = ap h.node at ∙ hoist-last f l m s in
      let is_node : ℕ → Node → Type 0 = λ y n. n ≡ after_split y in
      let nodes_0 = update f.node f.size (fresh root) in
      let nodes_1 = update nodes_0 h.size (split_right root) in
      let nodes_2 = update nodes_1 f.size (split_child root h.size) in
      update-each is_node nodes_2 0 (top root f.size h.size) x
        (λ e.
          top-eq root f.size h.size
          ∙ ap₂ (λ n c. split_parent n c 0 h.size) (sym (hoist-root f l m s)) (sym below)
          ∙ sym nodes.above
          ∙ ap after_split e)
        (λ other.
          update-each is_node nodes_1 f.size (split_child root h.size) x
            (λ e.
              ap (λ c. split_child c h.size) (sym below) ∙ sym nodes.left ∙ ap after_split (at ∙ e))
            (λ other'.
              update-each is_node nodes_0 h.size (split_right root) x
                (λ e. ap split_right (sym below) ∙ sym nodes.right ∙ ap after_split e)
                (λ old.
                  update-other f.node f.size (fresh root) x other'
                  ∙ sym (hoist-rest f l m s x other other')
                  ∙ sym (nodes.rest x old other (λ e. other' (sym at ∙ e))))))

  pub grow_labels : Labels
  grow_labels =
      split_labels after 0 ((h.node 0).pointer 0) h.size ((h.node ((h.node 0).pointer 0)).key 2)

  pub grow-Shape : Shape (grow f) grow_labels m
  unfolding grow_labels
  grow-Shape = rw grow-file (
      subst (λ nodes. Shape (record { node = nodes; size = h.size + node_size }) grow_labels m)
        (sym (fun_ext grow_node)) (make_room-Shape h after m shape 0 0 crowded))

  pub grow_tall : grow_labels.level 0 ≡ suc (l.level 0)
  unfolding grow_labels
  grow_tall =
      split-level after 0 ((h.node 0).pointer 0) h.size ((h.node ((h.node 0).pointer 0)).key 2) 0
        (end-Vacant h after m shape 0 shape.root)
      ∙ level-root f l m s

  pub grow_room : ((grow f).node 0).key_total < max_key
  unfolding top fresh split_parent ℕ_discrete
  grow_room = rw grow-file (omega arith)
