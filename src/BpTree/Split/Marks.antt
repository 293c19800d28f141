-- ===== src/BpTree/Split/Marks.antt =====
-- bptree.cpp: the labels after `split`.
use computer_science_notes.Base.{
  ℕ, ◌+◌, ◌≤◌, ◌<◌, ◌≡◌, ◌≢◌, true, ◌==◌, ◌&&◌, ltb, if◌then◌else◌, update, arith,
}
use computer_science_notes.BpTree.Shape.{Labels}
use computer_science_notes.BpTree.Relabel.{update-other}

-- The labels after the node at `c`, a child of the node at `o`, has given the keys above `mid` to a
-- new node at `right`.
abbrev pub split_labels : Labels → ℕ → ℕ → ℕ → ℕ → Labels
split_labels l o c right mid = record {
  live = update l.live right true;
  level = update l.level right (l.level c);
  low = update l.low right (mid + 1);
  high = update (update l.high right (l.high c)) c (mid + 1);
  parent = update (λ x. if l.parent x == c && ltb mid (l.low x) then right else l.parent x) right o;
}

-- No node stands at `right`.
abbrev pub Vacant : Labels → ℕ → Type 0
Vacant l right = (x : ℕ) → l.live x ≡ true → right ≢ x

module _ (l : Labels) (o c right mid x : ℕ) where
  pub split-live : l.live x ≡ true → (split_labels l o c right mid).live x ≡ true
  split-live e = ground arith

  module _ (old : right ≢ x) where
    pub split-level : (split_labels l o c right mid).level x ≡ l.level x
    split-level = update-other l.level right (l.level c) x old

    pub split-low : (split_labels l o c right mid).low x ≡ l.low x
    split-low = update-other l.low right (mid + 1) x old

    pub split-high : c ≢ x → (split_labels l o c right mid).high x ≡ l.high x
    split-high other = ground arith

    pub split-parent_elsewhere :
        l.parent x ≢ c → (split_labels l o c right mid).parent x ≡ l.parent x
    split-parent_elsewhere other = ground arith

    pub split-parent_stays : l.low x ≤ mid → (split_labels l o c right mid).parent x ≡ l.parent x
    split-parent_stays low = ground arith

    pub split-parent_moves :
        l.parent x ≡ c → mid < l.low x → (split_labels l o c right mid).parent x ≡ right
    split-parent_moves e high = ground arith
