-- ===== src/BpTree/Growth/Hoist.antt =====
-- bptree.cpp: a node with one child above the old root, as if `insert` had put it there before it
-- splits the old root.
use computer_science_notes.Base.{
  ℕ, suc, ◌+◌, ◌-◌, ◌≤◌, ◌<◌, ◌≡◌, ◌≢◌, refl, sym, ap, ◌∙◌, subst, true, ◌==◌, if◌then◌else◌,
  update, arith, ℕ_discrete,
}
use computer_science_notes.BpTree.Node.{Node, File, new_node, node_size, max_key}
use computer_science_notes.BpTree.Shape.{Labels, Index, Child, Fits, Owned, Held, Shape}
use computer_science_notes.BpTree.Relabel.{
  update-same, update-other, Child-at, Owned-at, Fits-relabel,
}
use computer_science_notes.BpTree.Split.Marks.{Vacant}
use computer_science_notes.BpTree.Split.Whole.{IsCrowded, end-Vacant}

-- The node above the old root, before the split.
unfoldable pub hoist_node : Node → ℕ → Node
hoist_node root last = record new_node {
  key = update new_node.key 0 (root.key (root.key_total - 1));
  pointer = update new_node.pointer 0 last;
}

abbrev pub hoist : File → File
hoist f = record {
  node = update (update f.node f.size (f.node 0)) 0 (hoist_node (f.node 0) f.size);
  size = f.size + node_size;
}

abbrev pub hoist_labels : Labels → ℕ → Labels
hoist_labels l last = record {
  live = update l.live last true;
  level = update (update l.level last (l.level 0)) 0 (suc (l.level 0));
  low = update l.low last (l.low 0);
  high = update l.high last (l.high 0);
  parent = update (λ x. if l.parent x == 0 then last else l.parent x) last 0;
}

module _ (f : File) (l : Labels) (m : Index) (s : Shape f l m) where
  abbrev last : ℕ
  last = f.size

  abbrev after : Labels
  after = hoist_labels l last

  vacant : Vacant l last
  vacant = end-Vacant f l m s

  moved : last ≢ 0
  moved = vacant 0 s.root

  level-old : (x : ℕ) → 0 ≢ x → last ≢ x → after.level x ≡ l.level x
  level-old x ne old = ground arith

  level-last : after.level last ≡ l.level 0
  level-last = ground (arith, moved)

  pub level-root : after.level 0 ≡ suc (l.level 0)
  level-root = update-same (update l.level last (l.level 0)) 0 (suc (l.level 0))

  low-old : (x : ℕ) → last ≢ x → after.low x ≡ l.low x
  low-old x old = update-other l.low last (l.low 0) x old

  high-old : (x : ℕ) → last ≢ x → after.high x ≡ l.high x
  high-old x old = update-other l.high last (l.high 0) x old

  parent-old : (x : ℕ) → last ≢ x → l.parent x ≢ 0 → after.parent x ≡ l.parent x
  parent-old x old other = ground arith

  parent-moved : (x : ℕ) → last ≢ x → l.parent x ≡ 0 → after.parent x ≡ last
  parent-moved x old e = ground arith

  hoist-live : (x : ℕ) → l.live x ≡ true → after.live x ≡ true
  hoist-live x alive = ground arith

  below_ne_root : (x j : ℕ) → l.live x ≡ true → Child l (f.node x) x j → 0 ≢ (f.node x).pointer j
  below_ne_root x j alive b e = omega (arith, ap l.level e, b.below, (s.fits x alive).under)

  -- A child of the node `x`, now at `x'`.
  moved_Child :
      (x x' j : ℕ)
      → l.live x ≡ true
      → after.level x' ≡ l.level x
      → after.low x' ≡ l.low x
      → after.high x' ≡ l.high x
      → ((y : ℕ) → last ≢ y → l.parent y ≡ x → after.parent y ≡ x')
      → Child l (f.node x) x j
      → Child after (f.node x) x' j
  moved_Child x x' j alive level low high parent b =
      let y = (f.node x).pointer j in
      let old = vacant y b.alive in
      Child-at after (f.node x) x' j y refl (hoist-live y b.alive)
        (rw (level-old y (below_ne_root x j alive b) old, level) b.below) (parent y old b.belongs)
        (low-old y old ∙ b.from ∙ rw low) (high-old y old ∙ b.upto ∙ rw high)

  moved_Fits :
      (x x' : ℕ)
      → l.live x ≡ true
      → after.level x' ≡ l.level x
      → after.low x' ≡ l.low x
      → after.high x' ≡ l.high x
      → ((y : ℕ) → last ≢ y → l.parent y ≡ x → after.parent y ≡ x')
      → Fits after m (f.node x) x'
  moved_Fits x x' alive level low high parent =
      Fits-relabel l after m (f.node x) x x' level low high (omega (arith, level-root))
        (λ j le inner b. moved_Child x x' j alive level low high parent b) (s.fits x alive)

  root_Child : Child after (hoist_node (f.node 0) last) 0 0
  unfolding hoist_node
  root_Child =
      Child-at after (hoist_node (f.node 0) last) 0 0 last (update-same new_node.pointer 0 last)
        (update-same l.live last true) (rw (level-last, level-root))
        (update-same (λ x. if l.parent x == 0 then last else l.parent x) last 0)
        (update-same l.low last (l.low 0) ∙ sym (low-old 0 moved))
        (update-same l.high last (l.high 0) ∙ sym (high-old 0 moved))

  root_Fits : Fits after m (hoist_node (f.node 0) last) 0
  unfolding hoist_node
  root_Fits = record {
    small = omega arith;
    kind = rw level-root (ground arith);
    under = omega arith;
    nonempty = rw (low-old 0 moved, high-old 0 moved) (s.fits 0 s.root).nonempty;
    ascending = λ a b lt lt'. absurd (omega arith);
    ranged = λ j lt. absurd (omega arith);
    known = λ j lt. absurd (omega arith);
    filed = λ j lt. absurd (omega arith);
    child = λ j le inner.
        let e : j ≡ 0 = omega arith in
        subst (Child after (hoist_node (f.node 0) last) 0) (sym e) root_Child;
  }

  pub hoist-root : (hoist f).node 0 ≡ hoist_node (f.node 0) last
  hoist-root = update-same (update f.node last (f.node 0)) 0 (hoist_node (f.node 0) last)

  pub hoist-last : (hoist f).node last ≡ f.node 0
  hoist-last =
      update-other (update f.node last (f.node 0)) 0 (hoist_node (f.node 0) last) last
        (λ e. moved (sym e))
      ∙ update-same f.node last (f.node 0)

  pub hoist-rest : (x : ℕ) → 0 ≢ x → last ≢ x → (hoist f).node x ≡ f.node x
  hoist-rest x other old =
      update-other (update f.node last (f.node 0)) 0 (hoist_node (f.node 0) last) x other
      ∙ update-other f.node last (f.node 0) x old

  was_live : (x : ℕ) → after.live x ≡ true → last ≢ x → l.live x ≡ true
  was_live x alive old = sym (update-other l.live last true x old) ∙ alive

  hoist-Fits : (x : ℕ) → after.live x ≡ true → Fits after m ((hoist f).node x) x
  hoist-Fits x alive = elim (ℕ_discrete last x) [
    | yes e ↦
        subst (λ y. Fits after m ((hoist f).node y) y) e
          (rw hoist-last (
            moved_Fits 0 last s.root level-last (update-same l.low last (l.low 0))
              (update-same l.high last (l.high 0)) parent-moved))
    | no old ↦ elim (ℕ_discrete 0 x) [
      | yes e ↦ subst (λ y. Fits after m ((hoist f).node y) y) e (rw hoist-root root_Fits)
      | no other ↦ rw (hoist-rest x other old) (
          moved_Fits x x (was_live x alive old) (level-old x other old) (low-old x old)
            (high-old x old) (λ y old' e. parent-old y old' (λ e'. other (sym e' ∙ e)) ∙ e))
    ]
  ]

  hoist-Owned : (x : ℕ) → after.live x ≡ true → x ≢ 0 → Owned (hoist f).node after x
  hoist-Owned x alive ne = elim (ℕ_discrete last x) [
    | yes e ↦ subst (Owned (hoist f).node after) e (
        Owned-at (hoist f).node after last 0 0
          (update-same (λ y. if l.parent y == 0 then last else l.parent y) last 0)
          (hoist-live 0 s.root) (rw (level-root, level-last)) (omega arith)
          (rw hoist-root (unfold hoist_node in update-same new_node.pointer 0 last)))
    | no old ↦
        let own = s.owned x (was_live x alive old) ne in
        let above : l.level 0 ≡ suc (l.level x) → after.level last ≡ suc (after.level x) =
          λ e. level-last ∙ e ∙ ap suc (sym (level-old x (λ e'. ne (sym e')) old)) in
        elim (ℕ_discrete (l.parent x) 0) [
          | yes e ↦
              Owned-at (hoist f).node after x last own.place (parent-moved x old e)
                (update-same l.live last true) (above (ap l.level (sym e) ∙ own.above))
                (rw hoist-last (subst (λ y. own.place ≤ (f.node y).key_total) e own.within))
                (rw hoist-last (subst (λ y. (f.node y).pointer own.place ≡ x) e own.leads))
          | no other ↦
              let q = l.parent x in
              let same = hoist-rest q (λ e. other (sym e)) (vacant q own.alive) in
              Owned-at (hoist f).node after x q own.place (parent-old x old other)
                (hoist-live q own.alive)
                (level-old q (λ e. other (sym e)) (vacant q own.alive)
                  ∙ own.above
                  ∙ ap suc (sym (level-old x (λ e'. ne (sym e')) old)))
                (rw same own.within) (rw same own.leads)
        ]
  ]

  hoist-Held : (k : ℕ) → Held f.node l k → Held (hoist f).node after k
  hoist-Held k h = elim (ℕ_discrete 0 h.leaf) [
    | yes e ↦ record {
      leaf = last;
      alive = update-same l.live last true;
      ground_level = level-last ∙ ap l.level e ∙ h.ground_level;
      place = h.place;
      within = rw hoist-last (subst (λ y. h.place < (f.node y).key_total) (sym e) h.within);
      there = rw hoist-last (subst (λ y. (f.node y).key h.place ≡ k) (sym e) h.there);
    }
    | no other ↦
        let old = vacant h.leaf h.alive in
        let same = hoist-rest h.leaf other old in
        record {
          leaf = h.leaf;
          alive = hoist-live h.leaf h.alive;
          ground_level = level-old h.leaf other old ∙ h.ground_level;
          place = h.place;
          within = rw same h.within;
          there = rw same h.there;
        }
  ]

  pub hoist-Shape : Shape (hoist f) (hoist_labels l f.size) m
  hoist-Shape = record {
    root = hoist-live 0 s.root;
    lowest = low-old 0 moved ∙ s.lowest;
    highest = high-old 0 moved ∙ s.highest;
    placed = λ x alive. elim (ℕ_discrete last x) [
      | yes e ↦ omega arith
      | no old ↦ omega (arith, s.placed x (was_live x alive old))
    ];
    fits = hoist-Fits;
    owned = hoist-Owned;
    held = λ k q e. hoist-Held k (s.held k q e);
  }

  pub hoist_below : ((hoist f).node 0).pointer 0 ≡ f.size
  unfolding hoist_node
  hoist_below = rw hoist-root (update-same new_node.pointer 0 last)

  pub hoist-IsCrowded :
      (f.node 0).key_total ≡ max_key → IsCrowded (hoist f) (hoist_labels l f.size) 0 0
  unfolding hoist_node
  hoist-IsCrowded full = record {
    alive = hoist-live 0 s.root;
    inner = λ e. absurd (omega (arith, level-root));
    room = rw hoist-root (omega arith);
    within = omega arith;
    full = rw (hoist_below, hoist-last) full;
  }
