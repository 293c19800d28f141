-- ===== src/BpTree/Node.antt =====
-- bptree.cpp: `Node` and the index file.
-- A key is counted from the least `int`, so that keys are numbers and -1 is 2 ^ 31 - 1.
use computer_science_notes.Base.{ℕ, zero, suc, ◌+◌, Bool, false, leb, ltb, if◌then◌else◌, update}

abbrev pub max_key : ℕ
max_key = 5

-- `(int) -1` as a key and as a pointer.
abbrev pub no_key : ℕ
no_key = 2147483647

abbrev pub no_pointer : ℕ
no_pointer = 4294967295

-- `class Node`: `key` has MAX_KEY entries and `pointer` one more.
pub record Node : Type 0 where
  pub key : ℕ → ℕ
  pub pointer : ℕ → ℕ
  pub key_total : ℕ
  pub is_leaf : Bool

-- `Node()`
abbrev pub new_node : Node
new_node = record { key = λ i. no_key; pointer = λ i. no_pointer; key_total = 0; is_leaf = false }

-- `sizeof(Node)`
abbrev pub node_size : ℕ
node_size = 52

-- The index file: the node that begins at an offset, and where the file ends. Nodes are written at
-- multiples of their size, so that none overlaps another.
pub record File : Type 0 where
  pub node : ℕ → Node
  pub size : ℕ

unfoldable pub get_final_node : File → ℕ
get_final_node f = f.size

-- `fread` leaves the node as it was constructed where the file has ended.
unfoldable pub read_node : File → ℕ → Node
read_node f offset = if leb (offset + node_size) f.size then f.node offset else new_node

unfoldable pub write_node : File → ℕ → Node → File
write_node f offset n = record {
  node = update f.node offset n;
  size = if ltb f.size (offset + node_size) then offset + node_size else f.size;
}

-- `for (j = pos + n; j > pos; --j) a[j] = a[j - 1];`
unfoldable pub shift_up : (ℕ → ℕ) → ℕ → ℕ → ℕ → ℕ
shift_up a pos zero = a
shift_up a pos (suc n) = shift_up (update a (pos + n + 1) (a (pos + n))) pos n

-- `for (j = pos; j < pos + n; j++) a[j] = a[j + 1];`
unfoldable pub shift_down : (ℕ → ℕ) → ℕ → ℕ → ℕ → ℕ
shift_down a pos zero = a
shift_down a pos (suc n) = shift_down (update a pos (a (pos + 1))) (pos + 1) n

-- `for (j = 0; j < n; j++) a[to + j] = b[from + j];`
unfoldable pub copy_range : (ℕ → ℕ) → ℕ → (ℕ → ℕ) → ℕ → ℕ → ℕ → ℕ
copy_range a to b from zero = a
copy_range a to b from (suc n) = copy_range (update a to (b from)) (to + 1) b (from + 1) n
