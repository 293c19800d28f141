-- ===== src/BpTree/Shape.antt =====
-- bptree.cpp: what a file of the index looks like between two operations. The labels are not in the
-- file: which offsets hold a node, how far above the leaves it stands, the keys that may stand in it
-- or below it, and the node above it.
use computer_science_notes.Base.{
  ℕ, suc, ◌+◌, ◌-◌, ◌≤◌, ◌<◌, ◌≡◌, ◌≢◌, Bool, true, ◌==◌, if◌then◌else◌, Option, some,
}
use computer_science_notes.BpTree.Node.{max_key, node_size, Node, File}

-- One more than the greatest key.
abbrev pub key_limit : ℕ
key_limit = 4294967296

pub record Labels : Type 0 where
  pub live : ℕ → Bool
  pub level : ℕ → ℕ
  pub low : ℕ → ℕ
  pub high : ℕ → ℕ
  pub parent : ℕ → ℕ

-- The index maps a key to a pointer.
abbrev pub Index : Type 0
Index = ℕ → Option ℕ

abbrev pub IsAscending : (ℕ → ℕ) → ℕ → Type 0
IsAscending a n = (i j : ℕ) → i < j → j < n → a i < a j

-- The node that the `i`-th pointer of the node `n` at `o` leads to.
pub record Child (l : Labels) (n : Node) (o i : ℕ) : Type 0 where
  pub alive : l.live (n.pointer i) ≡ true
  pub below : suc (l.level (n.pointer i)) ≡ l.level o
  pub belongs : l.parent (n.pointer i) ≡ o
  pub from : l.low (n.pointer i) ≡ (if i == 0 then l.low o else n.key (i - 1) + 1)
  pub upto : l.high (n.pointer i) ≡ (if i == n.key_total then l.high o else n.key i + 1)

-- The node `n` may stand at `o`.
pub record Fits (l : Labels) (m : Index) (n : Node) (o : ℕ) : Type 0 where
  pub small : n.key_total ≤ max_key
  pub kind : n.is_leaf ≡ (l.level o == 0)
  pub under : l.level o ≤ l.level 0
  pub nonempty : l.low o < l.high o
  pub ascending : IsAscending n.key n.key_total
  pub ranged : (i : ℕ) → i < n.key_total → (l.low o ≤ n.key i) × (n.key i < l.high o)
  pub known : (i : ℕ) → i < n.key_total → (q : ℕ) × (m (n.key i) ≡ some q)
  pub filed : (i : ℕ) → i < n.key_total → l.level o ≡ 0 → m (n.key i) ≡ some (n.pointer i)
  pub child : (i : ℕ) → i ≤ n.key_total → l.level o ≢ 0 → Child l n o i

-- A pointer in the node above leads to `o`.
pub record Owned (node : ℕ → Node) (l : Labels) (o : ℕ) : Type 0 where
  pub alive : l.live (l.parent o) ≡ true
  pub above : l.level (l.parent o) ≡ suc (l.level o)
  pub place : ℕ
  pub within : place ≤ (node (l.parent o)).key_total
  pub leads : (node (l.parent o)).pointer place ≡ o

-- A leaf has the key.
pub record Held (node : ℕ → Node) (l : Labels) (k : ℕ) : Type 0 where
  pub leaf : ℕ
  pub alive : l.live leaf ≡ true
  pub ground_level : l.level leaf ≡ 0
  pub place : ℕ
  pub within : place < (node leaf).key_total
  pub there : (node leaf).key place ≡ k

pub record Shape (f : File) (l : Labels) (m : Index) : Type 0 where
  pub root : l.live 0 ≡ true
  pub lowest : l.low 0 ≡ 0
  pub highest : l.high 0 ≡ key_limit
  pub placed : (o : ℕ) → l.live o ≡ true → o + node_size ≤ f.size
  pub fits : (o : ℕ) → l.live o ≡ true → Fits l m (f.node o) o
  pub owned : (o : ℕ) → l.live o ≡ true → o ≢ 0 → Owned f.node l o
  pub held : (k q : ℕ) → m k ≡ some q → Held f.node l k
