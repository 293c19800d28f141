-- ===== src/BpTree/Split/Room.antt =====
-- bptree.cpp: the part of `insert_pos` that splits the child it goes to.
use computer_science_notes.Base.{ℕ, ◌+◌, ◌≡◌, ◌≢◌, sym, ap, ◌∙◌, true, ◌==◌, update, arith}
use computer_science_notes.BpTree.Node.{Node, File, node_size, max_key, write_node, get_final_node}
use computer_science_notes.BpTree.Insert.{
  split_parent, split_child, split_right, split_file, make_room,
}
use computer_science_notes.BpTree.Shape.{Labels, Index, Child, Shape}
use computer_science_notes.BpTree.Descent.{read_node-live}
use computer_science_notes.BpTree.Relabel.{update-same, update-other}
use computer_science_notes.BpTree.Split.Marks.{split_labels}
use computer_science_notes.BpTree.Split.Above
use computer_science_notes.BpTree.Split.Whole.{IsCrowded, IsSplit, end-Vacant, split-Shape}

module _ (f : File) (l : Labels) (m : Index) (s : Shape f l m) (o i : ℕ)
    (z : IsCrowded f l o i) where
  abbrev n : Node
  n = f.node o

  abbrev c : ℕ
  c = n.pointer i

  abbrev n' : Node
  n' = split_parent n (f.node c) i f.size

  unfoldable pub split_nodes : ℕ → Node
  split_nodes =
      update (update (update f.node f.size (split_right (f.node c))) o n') c
        (split_child (f.node c) f.size)

  the-Child : Child l n o i
  the-Child = (s.fits o z.alive).child i z.within z.inner

  pub split_nodes-IsSplit : IsSplit f o i split_nodes
  unfolding split_nodes
  split_nodes-IsSplit =
      let vacant = end-Vacant f l m s in
      let far = vacant o z.alive in
      let far' = vacant c the-Child.alive in
      let apart : c ≢ o = λ e. omega (arith, ap l.level e, the-Child.below) in
      record {
        left =
            update-same (update (update f.node f.size (split_right (f.node c))) o n') c
              (split_child (f.node c) f.size);
        right =
            update-other (update (update f.node f.size (split_right (f.node c))) o n') c
              (split_child (f.node c) f.size) f.size (λ e. far' (sym e))
            ∙ update-other (update f.node f.size (split_right (f.node c))) o n' f.size
                (λ e. far (sym e))
            ∙ update-same f.node f.size (split_right (f.node c));
        above =
            update-other (update (update f.node f.size (split_right (f.node c))) o n') c
              (split_child (f.node c) f.size) o apart
            ∙ update-same (update f.node f.size (split_right (f.node c))) o n';
        rest = λ x old other other'.
            update-other (update (update f.node f.size (split_right (f.node c))) o n') c
              (split_child (f.node c) f.size) x other'
            ∙ update-other (update f.node f.size (split_right (f.node c))) o n' x other
            ∙ update-other f.node f.size (split_right (f.node c)) x old;
      }

  pub make_room-split :
      make_room f o n i ≡ (record { node = split_nodes; size = f.size + node_size }, n')
  unfolding make_room split_nodes write_node split_file get_final_node
  make_room-split =
      let same : n'.pointer i ≡ c =
        Above.above_pointer n (f.node c) i f.size z.within i (omega (arith, z.within))
        ∙ ground arith in
      let full : ((f.node c).key_total == max_key) ≡ true = ground (arith, z.full) in
      rw (read_node-live f l m c s the-Child.alive, full, same)
        (ground (arith, s.placed o z.alive, s.placed c the-Child.alive))

  pub make_room-Shape :
      Shape
        (record { node = split_nodes; size = f.size + node_size })
        (split_labels l o c f.size ((f.node c).key 2))
        m
  make_room-Shape = split-Shape f l m s o i z split_nodes split_nodes-IsSplit
