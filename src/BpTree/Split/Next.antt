-- ===== src/BpTree/Split/Next.antt =====
-- bptree.cpp: the child that `insert_pos` goes on to when it has split one.
use computer_science_notes.Base.{
  ℕ, suc, ◌+◌, ◌-◌, ◌≤◌, ◌<◌, ◌≡◌, ◌≢◌, sym, ap, ◌∙◌, true, false, if◌then◌else◌, arith, dec_lt,
}
use computer_science_notes.BpTree.Node.{Node, File, node_size, max_key}
use computer_science_notes.BpTree.Search.{seek}
use computer_science_notes.BpTree.Insert.{split_parent, goes_left}
use computer_science_notes.BpTree.Shape.{Labels, Index, Child, Fits, Shape}
use computer_science_notes.BpTree.Arrays.{placed, seek_below, seek_at}
use computer_science_notes.BpTree.Descent.{Covers, between-Covers}
use computer_science_notes.BpTree.Split.Marks.{
  split_labels, Vacant, split-level, split-low, split-high,
}
use computer_science_notes.BpTree.Split.Halves
use computer_science_notes.BpTree.Split.Above
use computer_science_notes.BpTree.Split.Whole.{IsCrowded, IsSplit, end-Vacant}
use computer_science_notes.BpTree.Split.Room.{split_nodes, split_nodes-IsSplit}

-- A node that may be inserted below.
pub record IsOpen (f : File) (l : Labels) (o k : ℕ) : Type 0 where
  pub alive : l.live o ≡ true
  pub covers : Covers l o k
  pub room : (f.node o).key_total < max_key

module _ (f : File) (l : Labels) (m : Index) (s : Shape f l m) (o k i : ℕ) (z : IsCrowded f l o i)
    (at : i ≡ seek (f.node o).key k (f.node o).key_total 0) (cover : Covers l o k) where
  abbrev n : Node
  n = f.node o

  abbrev c : ℕ
  c = n.pointer i

  abbrev n' : Node
  n' = split_parent n (f.node c) i f.size

  abbrev after : Labels
  after = split_labels l o c f.size ((f.node c).key 2)

  abbrev f' : File
  f' = record { node = split_nodes f l m s o i z; size = f.size + node_size }

  nodes : IsSplit f o i (split_nodes f l m s o i z)
  nodes = split_nodes-IsSplit f l m s o i z

  vacant : Vacant l f.size
  vacant = end-Vacant f l m s

  the-Child : Child l n o i
  the-Child = (s.fits o z.alive).child i z.within z.inner

  fit' : Fits l m (f.node c) c
  fit' = s.fits c the-Child.alive

  new_fit : Fits after m n' o
  new_fit =
      Above.split_parent-Fits l m n (f.node c) o i f.size (s.fits o z.alive) fit' z.alive s.root
        z.within z.inner z.room z.full vacant

  new_inner : after.level o ≢ 0
  new_inner e = z.inner (sym (split-level l o c f.size ((f.node c).key 2) o (vacant o z.alive)) ∙ e)

  new_cover : Covers after o k
  new_cover =
      let old = vacant o z.alive in
      let apart : c ≢ o = λ e. omega (arith, ap l.level e, the-Child.below) in
      rw
        (
          split-low l o c f.size ((f.node c).key 2) o old,
          split-high l o c f.size ((f.node c).key 2) o old apart,
        )
        cover

  total' : n'.key_total ≡ n.key_total + 1
  total' = Above.above_total n (f.node c) i f.size z.within

  key_at : (j : ℕ) → j < n.key_total + 1 → n'.key j ≡ placed n.key i ((f.node c).key 2) j
  key_at = Above.above_key n (f.node c) i f.size z.within

  before_left : 0 < i → n'.key (i - 1) < k
  before_left pos =
      let less : n.key (i - 1) < k =
        seek_below n.key k n.key_total 0 (i - 1) (omega arith) (omega (arith, at)) in
      ground (arith, key_at (i - 1) (omega (arith, z.within)))

  after_right : i + 1 < n'.key_total → k ≤ n'.key (i + 1)
  after_right lt =
      let more : k ≤ n.key i = rw at (seek_at n.key k n.key_total 0 (omega (arith, at, total'))) in
      ground (arith, key_at (i + 1) (omega (arith, total')))

  left_at : n'.pointer i ≡ c
  left_at =
      Above.above_pointer n (f.node c) i f.size z.within i (omega (arith, z.within)) ∙ ground arith

  right_at : n'.pointer (i + 1) ≡ f.size
  right_at =
      Above.above_pointer n (f.node c) i f.size z.within (i + 1) (omega (arith, z.within))
      ∙ ground arith

  left_IsOpen : k ≤ n'.key i → IsOpen f' after (n'.pointer i) k
  left_IsOpen le =
      let child = new_fit.child i (omega (arith, z.within, total')) new_inner in
      record {
        alive = child.alive;
        covers =
            between-Covers after n' o i k child new_cover before_left (λ _. le)
              (omega (arith, z.within, total'));
        room =
            rw (left_at, nodes.left)
              (omega (
                arith,
                (Halves.left_total l m (f.node c) o c f.size fit' the-Child.alive s.root z.full
                    vacant).1,
              ));
      }

  right_IsOpen : n'.key i < k → IsOpen f' after (n'.pointer (i + 1)) k
  right_IsOpen lt =
      let child = new_fit.child (i + 1) (omega (arith, z.within, total')) new_inner in
      let back : i + 1 - 1 ≡ i = omega arith in
      record {
        alive = child.alive;
        covers =
            between-Covers after n' o (i + 1) k child new_cover (λ _. rw (ap n'.key back) lt)
              after_right (omega (arith, z.within, total'));
        room =
            rw (right_at, nodes.right)
              (omega (
                arith,
                Halves.right_total l m (f.node c) o c f.size fit' the-Child.alive s.root z.full
                    vacant,
              ));
      }

  abbrev pub next : ℕ
  next = if goes_left n' i k then n'.pointer i else n'.pointer (i + 1)

  abbrev pub IsNext : ℕ → Type 0
  IsNext x = IsOpen f' after x k × (suc (after.level x) ≡ after.level o)

  pub next-IsNext : IsNext next
  next-IsNext = elim (dec_lt (n'.key i) k) [
    | yes more ↦
        let right : goes_left n' i k ≡ false =
          unfold goes_left in ground (arith, z.within, total') in
        rw right (
          right_IsOpen more,
          (new_fit.child (i + 1) (omega (arith, z.within, total')) new_inner).below,
        )
    | no not_more ↦
        let left : goes_left n' i k ≡ true = unfold goes_left in ground arith in
        rw left (
          left_IsOpen (omega arith),
          (new_fit.child i (omega (arith, z.within, total')) new_inner).below,
        )
  ]
