-- ===== src/BpTree/Remove/Pair.antt =====
-- bptree.cpp: two leaves side by side, and a change of both and of the separator between them.
use computer_science_notes.Base.{ℕ, ◌+◌, ◌≤◌, ◌<◌, ◌≡◌, ◌≢◌, ◌⊎◌, true, some, update}
use computer_science_notes.BpTree.Node.{Node, File}
use computer_science_notes.BpTree.Shape.{Labels, Index, Fits}

abbrev pub Has : Node → ℕ → Type 0
Has n x = (j : ℕ) × (j < n.key_total) × (n.key j ≡ x)

-- The labels after the separator between the leaves at `a` and at `b` has become `sep`.
abbrev pub move_labels : Labels → ℕ → ℕ → ℕ → Labels
move_labels l a b sep = record l {
  low = update l.low b (sep + 1);
  high = update l.high a (sep + 1);
}

abbrev pub with_separator : Node → ℕ → ℕ → Node
with_separator n i sep = record n { key = update n.key i sep }

-- Two leaves side by side, below the node at `o`.
pub record IsPair (f : File) (l : Labels) (o i : ℕ) : Type 0 where
  pub alive : l.live o ≡ true
  pub low_level : l.level o ≡ 1
  pub within : i < (f.node o).key_total

-- What is written in place of the two and of their separator, and what becomes of the index.
pub record IsChange (f : File) (l : Labels) (m m' : Index) (o i sep : ℕ) (left right : Node)
    : Type 0 where
  pub left_fits :
      Fits
        (move_labels l ((f.node o).pointer i) ((f.node o).pointer (i + 1)) sep)
        m'
        left
        ((f.node o).pointer i)
  pub right_fits :
      Fits
        (move_labels l ((f.node o).pointer i) ((f.node o).pointer (i + 1)) sep)
        m'
        right
        ((f.node o).pointer (i + 1))
  pub from : l.low ((f.node o).pointer i) ≤ sep
  pub upto : sep + 1 < l.high ((f.node o).pointer (i + 1))
  pub known : (q : ℕ) × (m' sep ≡ some q)
  pub others :
      (x : ℕ)
      → l.live x ≡ true
      → o ≢ x
      → (f.node o).pointer i ≢ x
      → (f.node o).pointer (i + 1) ≢ x
      → Fits l m' (f.node x) x
  pub separators :
      (j : ℕ) → j < (f.node o).key_total → j ≢ i → (q : ℕ) × (m' ((f.node o).key j) ≡ some q)
  pub fewer : (x q : ℕ) → m' x ≡ some q → m x ≡ some q
  pub keeps :
      (x q : ℕ)
      → m' x ≡ some q
      → (Has (f.node ((f.node o).pointer i)) x) ⊎ (Has (f.node ((f.node o).pointer (i + 1))) x)
      → (Has left x) ⊎ (Has right x)

-- The nodes after the change.
pub record IsWritten (f : File) (o i sep : ℕ) (left right : Node) (g : ℕ → Node) : Type 0 where
  pub at_left : g ((f.node o).pointer i) ≡ left
  pub at_right : g ((f.node o).pointer (i + 1)) ≡ right
  pub above : g o ≡ with_separator (f.node o) i sep
  pub rest :
      (x : ℕ) → o ≢ x → (f.node o).pointer i ≢ x → (f.node o).pointer (i + 1) ≢ x → g x ≡ f.node x
