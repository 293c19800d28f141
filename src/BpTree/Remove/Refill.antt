-- ===== src/BpTree/Remove/Refill.antt =====
-- bptree.cpp: `remove_pos` on a leaf that gets an entry from a brother before the way goes on to it.
use computer_science_notes.Base.{
  ℕ, zero, suc, ◌+◌, ◌≤◌, ◌<◌, ◌≡◌, ◌≢◌, refl, sym, ap, ◌∙◌, subst, true, ltb, update, arith,
  ℕ_discrete,
}
use computer_science_notes.BpTree.Node.{Node, File, read_node}
use computer_science_notes.BpTree.Shape.{Labels, Index, Shape}
use computer_science_notes.BpTree.Descent.{Covers, read_node-live}
use computer_science_notes.BpTree.Relabel.{update-same, update-other}
use computer_science_notes.BpTree.Remove.Leaves.{refill_leaf, borrow_left, borrow_right}
use computer_science_notes.BpTree.Remove.Pair.{IsPair, IsWritten, move_labels, with_separator}
use computer_science_notes.BpTree.Remove.Borrow
use computer_science_notes.BpTree.Remove.BorrowRight

-- The brother that a leaf gets an entry from: the left one, or for the first leaf the right one.
abbrev pub brother_index : ℕ → ℕ
brother_index zero = 1
brother_index (suc i) = i

-- No inner node has the key.
abbrev pub NotInner : File → Labels → ℕ → Type 0
NotInner f l k =
    (x j : ℕ) → l.live x ≡ true → 0 < l.level x → j < (f.node x).key_total → k ≢ (f.node x).key j

-- The file, the node and the index that the way goes on with, to a leaf.
pub record IsRefilled (m : Index) (k top : ℕ) (r : File × Node × ℕ) : Type 0 where
  pub labels : Labels
  pub shape : Shape r.0 labels m
  pub tall : labels.level 0 ≡ top
  pub alive : labels.live (r.1.pointer r.2) ≡ true
  pub bottom : labels.level (r.1.pointer r.2) ≡ 0
  pub covers : Covers labels (r.1.pointer r.2) k
  pub has_key : 0 < (r.0.node (r.1.pointer r.2)).key_total
  pub not_inner : NotInner r.0 labels k

module _ (f : File) (l : Labels) (m : Index) (s : Shape f l m) (o k : ℕ)
    (not_inner : NotInner f l k) where
  written-NotInner :
      (i sep : ℕ) (left right : Node) (g : ℕ → Node)
      → IsPair f l o i
      → IsWritten f o i sep left right g
      → l.level ((f.node o).pointer i) ≡ 0
      → l.level ((f.node o).pointer (i + 1)) ≡ 0
      → k ≢ sep
      → NotInner
          (record { node = g; size = f.size })
          (move_labels l ((f.node o).pointer i) ((f.node o).pointer (i + 1)) sep)
          k
  written-NotInner i sep left right g z v low low' ne x j live up lt e = elim (ℕ_discrete o x) [
    | yes same ↦
        let at : g x ≡ with_separator (f.node o) i sep = ap g (sym same) ∙ v.above in
        let lt' : j < (f.node o).key_total = rw at at lt in
        let e' : k ≡ update (f.node o).key i sep j = rw at at e in
        elim (ℕ_discrete i j) [
          | yes here ↦
              ne (
                e' ∙ ap (update (f.node o).key i sep) (sym here) ∙ update-same (f.node o).key i sep)
          | no other ↦
              not_inner o j z.alive (omega (arith, z.low_level)) lt'
                (e' ∙ update-other (f.node o).key i sep j other)
        ]
    | no not_o ↦
        let not_a : (f.node o).pointer i ≢ x = λ e0. omega (arith, ap l.level e0, low) in
        let not_b : (f.node o).pointer (i + 1) ≢ x = λ e0. omega (arith, ap l.level e0, low') in
        let at = v.rest x not_o not_a not_b in not_inner x j live up (rw at at lt) (rw at at e)
  ]

  module _ (i : ℕ) (z : IsPair f l o i) where
    left-IsRefilled :
        (room : 2 < (f.node ((f.node o).pointer i)).key_total)
        → (poor : (f.node ((f.node o).pointer (i + 1))).key_total ≤ 2)
        → Covers l ((f.node o).pointer (i + 1)) k
        → IsRefilled m k (l.level 0) (
            borrow_left f o
              (f.node o)
              (f.node ((f.node o).pointer i))
              (f.node ((f.node o).pointer (i + 1)))
              (i + 1))
    left-IsRefilled room poor cover =
        let sep = Borrow.sep f l m s o i z room poor in
        let b = (f.node o).pointer (i + 1) in
        let v = Borrow.borrow_nodes-IsWritten f l m s o i z room poor in
        let low_b = Borrow.low_b f l m s o i z room poor in
        let below = Borrow.below f l m s o i z room poor in
        rw (Borrow.borrow_left-file f l m s o i z room poor) (record {
          labels = Borrow.after f l m s o i z room poor;
          shape = Borrow.borrow_left-Shape f l m s o i z room poor;
          tall = refl;
          alive = Borrow.alive_b f l m s o i z room poor;
          bottom = Borrow.bottom_b f l m s o i z room poor;
          covers =
              rw (update-same l.low b (sep + 1), Borrow.high_b' f l m s o i z room poor)
                (omega (arith, cover, low_b, below));
          has_key = rw v.at_right (omega (arith, Borrow.grown_total f l m s o i z room poor));
          not_inner =
              written-NotInner i sep (Borrow.cut f l m s o i z room poor)
                (Borrow.grown f l m s o i z room poor) (Borrow.borrow_nodes f l m s o i z room poor)
                z v (Borrow.bottom_a f l m s o i z room poor)
                (Borrow.bottom_b f l m s o i z room poor) (λ e. omega (arith, cover, low_b, below));
        })

    right-IsRefilled :
        (room : 2 < (f.node ((f.node o).pointer (i + 1))).key_total)
        → (poor : (f.node ((f.node o).pointer i)).key_total ≤ 2) → Covers l ((f.node o).pointer i) k
        → IsRefilled m k (l.level 0) (
            borrow_right f o
              (f.node o)
              (f.node ((f.node o).pointer i))
              (f.node ((f.node o).pointer (i + 1)))
              i)
    right-IsRefilled room poor cover =
        let sep = BorrowRight.sep f l m s o i z room poor in
        let a = (f.node o).pointer i in
        let v = BorrowRight.borrow_right_nodes-IsWritten f l m s o i z room poor in
        let high_a = BorrowRight.high_a f l m s o i z room poor in
        let above = BorrowRight.above f l m s o i z room poor in
        rw (BorrowRight.borrow_right-file f l m s o i z room poor) (record {
          labels = BorrowRight.after f l m s o i z room poor;
          shape = BorrowRight.borrow_right-Shape f l m s o i z room poor;
          tall = refl;
          alive = BorrowRight.alive_a f l m s o i z room poor;
          bottom = BorrowRight.bottom_a f l m s o i z room poor;
          covers =
              rw (BorrowRight.low_a' f l m s o i z room poor, update-same l.high a (sep + 1))
                (omega (arith, cover, high_a, above));
          has_key = rw v.at_left (omega (arith, BorrowRight.grown_total f l m s o i z room poor));
          not_inner =
              written-NotInner i sep (BorrowRight.grown f l m s o i z room poor)
                (BorrowRight.cut f l m s o i z room poor)
                (BorrowRight.borrow_right_nodes f l m s o i z room poor) z v
                (BorrowRight.bottom_a f l m s o i z room poor)
                (BorrowRight.bottom_b f l m s o i z room poor)
                (λ e. omega (arith, cover, high_a, above));
        })

  pub refill_leaf-IsRefilled :
      (i : ℕ)
      → l.live o ≡ true
      → l.level o ≡ 1
      → 0 < (f.node o).key_total
      → i ≤ (f.node o).key_total
      → Covers l ((f.node o).pointer i) k
      → (f.node ((f.node o).pointer i)).key_total ≤ 2
      → 2 < (read_node f ((f.node o).pointer (brother_index i))).key_total
      → IsRefilled m k (l.level 0) (refill_leaf f o (f.node o) (f.node ((f.node o).pointer i)) i)
  unfolding refill_leaf
  refill_leaf-IsRefilled zero alive level some_key le cover poor rich =
      let c = (s.fits o alive).child 1 (omega arith) (λ e. omega (arith, level)) in
      let at = read_node-live f l m ((f.node o).pointer 1) s c.alive in
      let room : 2 < (f.node ((f.node o).pointer 1)).key_total = rw at at rich in
      let test : ltb 2 (f.node ((f.node o).pointer 1)).key_total ≡ true = ground arith in
      rw (at, test)
        (right-IsRefilled 0 (record { alive = alive; low_level = level; within = some_key }) room
          poor cover)
  refill_leaf-IsRefilled (suc i) alive level some_key le cover poor rich =
      let c = (s.fits o alive).child i (omega arith) (λ e. omega (arith, level)) in
      let brother = (f.node o).pointer i in
      let at = read_node-live f l m brother s c.alive in
      let room : 2 < (f.node brother).key_total = rw at at rich in
      let test : ltb 2 (f.node brother).key_total ≡ true = ground arith in
      let next : i + 1 ≡ suc i = omega arith in
      let z : IsPair f l o i = record { alive = alive; low_level = level; within = omega arith } in
      rw (at, test)
        (subst
          (λ x.
            IsRefilled m k (l.level 0)
              (borrow_left f o (f.node o) (f.node brother) (f.node ((f.node o).pointer x)) x))
          next
          (left-IsRefilled i z room
            (subst (λ x. (f.node ((f.node o).pointer x)).key_total ≤ 2) (sym next) poor)
            (subst (λ x. Covers l ((f.node o).pointer x) k) (sym next) cover)))
