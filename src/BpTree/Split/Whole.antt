-- ===== src/BpTree/Split/Whole.antt =====
-- bptree.cpp: the file after `split`, node by node.
use computer_science_notes.Base.{
  ℕ, suc, ◌+◌, ◌-◌, ◌≤◌, ◌<◌, ◌≡◌, ◌≢◌, refl, sym, ap, ◌∙◌, subst, true, ◌==◌, ◌&&◌, ltb,
  if◌then◌else◌, arith, ℕ_discrete, dec_lt,
}
use computer_science_notes.BpTree.Node.{Node, File, node_size, max_key}
use computer_science_notes.BpTree.Insert.{split_parent, split_child, split_right}
use computer_science_notes.BpTree.Shape.{Labels, Index, Child, Fits, Owned, Held, Shape}
use computer_science_notes.BpTree.Relabel.{
  update-same, update-other, Child-at, Owned-at, Fits-relabel,
}
use computer_science_notes.BpTree.Split.Marks.{
  split_labels, Vacant, split-live, split-level, split-low, split-high, split-parent_elsewhere,
  split-parent_stays, split-parent_moves,
}
use computer_science_notes.BpTree.Split.Halves
use computer_science_notes.BpTree.Split.Above

-- A full child, below a node that is not full.
pub record IsCrowded (f : File) (l : Labels) (o i : ℕ) : Type 0 where
  pub alive : l.live o ≡ true
  pub inner : l.level o ≢ 0
  pub room : (f.node o).key_total < max_key
  pub within : i ≤ (f.node o).key_total
  pub full : (f.node ((f.node o).pointer i)).key_total ≡ max_key

-- The nodes `g` that a split writes at the child, at the node above it and at the end of the file.
pub record IsSplit (f : File) (o i : ℕ) (g : ℕ → Node) : Type 0 where
  pub left : g ((f.node o).pointer i) ≡ split_child (f.node ((f.node o).pointer i)) f.size
  pub right : g f.size ≡ split_right (f.node ((f.node o).pointer i))
  pub above : g o ≡ split_parent (f.node o) (f.node ((f.node o).pointer i)) i f.size
  pub rest : (x : ℕ) → f.size ≢ x → o ≢ x → (f.node o).pointer i ≢ x → g x ≡ f.node x

pub end-Vacant : (f : File) (l : Labels) (m : Index) → Shape f l m → Vacant l f.size
end-Vacant f l m s x alive e = omega (arith, s.placed x alive)

module _ (f : File) (l : Labels) (m : Index) (s : Shape f l m) (o i : ℕ) (z : IsCrowded f l o i)
    (g : ℕ → Node) (w : IsSplit f o i g) where
  abbrev c : ℕ
  c = (f.node o).pointer i

  abbrev mid : ℕ
  mid = (f.node c).key 2

  abbrev after : Labels
  after = split_labels l o c f.size mid

  vacant : Vacant l f.size
  vacant = end-Vacant f l m s

  fit : Fits l m (f.node o) o
  fit = s.fits o z.alive

  the-Child : Child l (f.node o) o i
  the-Child = fit.child i z.within z.inner

  fit' : Fits l m (f.node c) c
  fit' = s.fits c the-Child.alive

  apart : o ≢ c
  apart e = omega (arith, ap l.level e, the-Child.below)

  -- A node that the split does not write.
  far_Fits : (x : ℕ) → l.live x ≡ true → o ≢ x → c ≢ x → Fits after m (f.node x) x
  far_Fits x alive other other' =
      let old = vacant x alive in
      Fits-relabel l after m (f.node x) x x (split-level l o c f.size mid x old)
        (split-low l o c f.size mid x old) (split-high l o c f.size mid x old other')
        (omega (arith, split-level l o c f.size mid 0 (vacant 0 s.root)))
        (λ j le inner b.
          let y = (f.node x).pointer j in
          let new = vacant y b.alive in
          let not_c : c ≢ y = λ e. other (sym the-Child.belongs ∙ ap l.parent e ∙ b.belongs) in
          Child-at after (f.node x) x j y refl (split-live l o c f.size mid y b.alive)
            (rw (split-level l o c f.size mid y new, split-level l o c f.size mid x old) b.below)
            (split-parent_elsewhere l o c f.size mid y new (λ e. other' (sym e ∙ b.belongs))
              ∙ b.belongs)
            (split-low l o c f.size mid y new ∙ b.from ∙ rw (split-low l o c f.size mid x old))
            (split-high l o c f.size mid y new not_c
              ∙ b.upto
              ∙ rw (split-high l o c f.size mid x old other')))
        (s.fits x alive)

  was_live : (x : ℕ) → after.live x ≡ true → f.size ≢ x → l.live x ≡ true
  was_live x alive old = sym (update-other l.live f.size true x old) ∙ alive

  split-Fits : (x : ℕ) → after.live x ≡ true → Fits after m (g x) x
  split-Fits x alive = elim (ℕ_discrete f.size x) [
    | yes e ↦
        subst (λ y. Fits after m (g y) y) e
          (rw w.right (
            Halves.split_right-Fits l m (f.node c) o c f.size fit' the-Child.alive s.root z.full
              vacant))
    | no old ↦ elim (ℕ_discrete o x) [
      | yes e ↦
          subst (λ y. Fits after m (g y) y) e
            (rw w.above (
              Above.split_parent-Fits l m (f.node o) (f.node c) o i f.size fit fit' z.alive s.root
                z.within z.inner z.room z.full vacant))
      | no other ↦ elim (ℕ_discrete c x) [
        | yes e ↦
            subst (λ y. Fits after m (g y) y) e
              (rw w.left (
                Halves.split_child-Fits l m (f.node c) o c f.size fit' the-Child.alive s.root z.full
                  vacant))
        | no other' ↦
            rw (w.rest x old other other') (far_Fits x (was_live x alive old) other other')
      ]
    ]
  ]

  right-Owned : Owned g after f.size
  right-Owned =
      Owned-at g after f.size o (i + 1)
        (update-same (λ x. if l.parent x == c && ltb mid (l.low x) then f.size else l.parent x)
          f.size o)
        (split-live l o c f.size mid o z.alive)
        (split-level l o c f.size mid o (vacant o z.alive)
          ∙ sym the-Child.below
          ∙ ap suc (sym (update-same l.level f.size (l.level c))))
        (rw (w.above, Above.above_total (f.node o) (f.node c) i f.size z.within)
          (omega (arith, z.within)))
        (rw w.above (
          Above.above_pointer (f.node o) (f.node c) i f.size z.within (i + 1)
            (omega (arith, z.within))
          ∙ ground arith))

  module _ (x : ℕ) (alive : l.live x ≡ true) (own : Owned f.node l x) where
    old : f.size ≢ x
    old = vacant x alive

    old' : f.size ≢ l.parent x
    old' = vacant (l.parent x) own.alive

    above' : after.level (l.parent x) ≡ suc (after.level x)
    above' =
        rw (split-level l o c f.size mid x old, split-level l o c f.size mid (l.parent x) old')
          own.above

    alive' : after.live (l.parent x) ≡ true
    alive' = split-live l o c f.size mid (l.parent x) own.alive

    -- The children of the full node go to the left half or to the right half.
    moved-Owned : l.parent x ≡ c → Owned g after x
    moved-Owned e =
        let inner : l.level c ≢ 0 = λ e'. omega (arith, own.above, ap l.level e) in
        let leads : (f.node c).pointer own.place ≡ x =
          subst (λ y. (f.node y).pointer own.place ≡ x) e own.leads in
        let within : own.place ≤ max_key =
          omega (arith, subst (λ y. own.place ≤ (f.node y).key_total) e own.within, z.full) in
        elim (dec_lt own.place 3) [
          | yes low ↦
              let bound =
                Halves.goes_left_low l m (f.node c) o c f.size fit' the-Child.alive s.root z.full
                  vacant own.place within inner low in
              let total =
                (Halves.left_total l m (f.node c) o c f.size fit' the-Child.alive s.root z.full
                  vacant).0 in
              Owned-at g after x (l.parent x) own.place
                (split-parent_stays l o c f.size mid x old (rw leads at bound)) alive' above'
                (rw (e, w.left) (omega (arith, total)))
                (rw (e, w.left)
                  (Halves.left_pointer l m (f.node c) o c f.size fit' the-Child.alive s.root z.full
                      vacant own.place (omega arith)
                    ∙ leads))
          | no high ↦
              let bound =
                Halves.goes_right_low l m (f.node c) o c f.size fit' the-Child.alive s.root z.full
                  vacant own.place within inner (omega arith) in
              let back : own.place - 3 + 3 ≡ own.place = omega arith in
              let total =
                Halves.right_total l m (f.node c) o c f.size fit' the-Child.alive s.root z.full
                  vacant in
              Owned-at g after x f.size (own.place - 3)
                (split-parent_moves l o c f.size mid x old e (rw leads at bound))
                (update-same l.live f.size true)
                (update-same l.level f.size (l.level c)
                  ∙ ap l.level (sym e)
                  ∙ own.above
                  ∙ ap suc (sym (split-level l o c f.size mid x old)))
                (rw w.right (omega (arith, total)))
                (rw w.right (
                  Halves.split_right_pointer l m (f.node c) o c f.size fit' the-Child.alive s.root
                    z.full vacant (own.place - 3) (omega arith)
                  ∙ ap (f.node c).pointer back
                  ∙ leads))
        ]

    above-Owned : l.parent x ≡ o → Owned g after x
    above-Owned e =
        let n = f.node o in
        let leads : n.pointer own.place ≡ x =
          subst (λ y. (f.node y).pointer own.place ≡ x) e own.leads in
        let within : own.place ≤ n.key_total =
          subst (λ y. own.place ≤ (f.node y).key_total) e own.within in
        let total = Above.above_total n (f.node c) i f.size z.within in
        let stays = split-parent_elsewhere l o c f.size mid x old (λ e'. apart (sym e ∙ e')) in
        let pointer_at = Above.above_pointer n (f.node c) i f.size z.within in
        elim (dec_lt own.place (i + 1)) [
          | yes low ↦
              Owned-at g after x (l.parent x) own.place stays alive' above'
                (rw (e, w.above) (omega (arith, total)))
                (rw (e, w.above) (pointer_at own.place (omega arith) ∙ ground arith))
          | no high ↦
              Owned-at g after x (l.parent x) (own.place + 1) stays alive' above'
                (rw (e, w.above) (omega (arith, total)))
                (rw (e, w.above) (pointer_at (own.place + 1) (omega arith) ∙ ground arith))
        ]

    far-Owned : l.parent x ≢ c → l.parent x ≢ o → Owned g after x
    far-Owned ne ne' =
        let same = w.rest (l.parent x) old' (λ e. ne' (sym e)) (λ e. ne (sym e)) in
        Owned-at g after x (l.parent x) own.place (split-parent_elsewhere l o c f.size mid x old ne)
          alive' above' (rw same own.within) (rw same own.leads)

  split-Owned : (x : ℕ) → after.live x ≡ true → x ≢ 0 → Owned g after x
  split-Owned x alive ne = elim (ℕ_discrete f.size x) [
    | yes e ↦ subst (Owned g after) e right-Owned
    | no old ↦
        let was = was_live x alive old in
        let own = s.owned x was ne in
        elim (ℕ_discrete (l.parent x) c) [
          | yes e ↦ moved-Owned x was own e
          | no other ↦ elim (ℕ_discrete (l.parent x) o) [
            | yes e ↦ above-Owned x was own e
            | no other' ↦ far-Owned x was own other other'
          ]
        ]
  ]

  split-Held : (k : ℕ) → Held f.node l k → Held g after k
  split-Held k h = elim (ℕ_discrete c h.leaf) [
    | yes e ↦
        let place : (f.node c).key h.place ≡ k =
          subst (λ y. (f.node y).key h.place ≡ k) (sym e) h.there in
        let within : h.place < max_key =
          omega (arith, subst (λ y. h.place < (f.node y).key_total) (sym e) h.within, z.full) in
        let bottom : l.level c ≡ 0 = ap l.level e ∙ h.ground_level in
        let kind : (f.node c).is_leaf ≡ true = ground (arith, fit'.kind) in
        elim (dec_lt h.place 3) [
          | yes low ↦ record {
            leaf = c;
            alive = split-live l o c f.size mid c the-Child.alive;
            ground_level = split-level l o c f.size mid c (vacant c the-Child.alive) ∙ bottom;
            place = h.place;
            within = rw w.left (
                omega (
                  arith,
                  (Halves.left_total l m (f.node c) o c f.size fit' the-Child.alive s.root z.full
                        vacant).3
                      kind,
                ));
            there = rw w.left (
                Halves.left_key l m (f.node c) o c f.size fit' the-Child.alive s.root z.full vacant
                  h.place
                ∙ place);
          }
          | no high ↦
              let back : h.place - 3 + 3 ≡ h.place = omega arith in
              record {
                leaf = f.size;
                alive = update-same l.live f.size true;
                ground_level = update-same l.level f.size (l.level c) ∙ bottom;
                place = h.place - 3;
                within = rw w.right (
                    omega (
                      arith,
                      Halves.right_total l m (f.node c) o c f.size fit' the-Child.alive s.root
                          z.full vacant,
                    ));
                there = rw w.right (
                    Halves.split_right_key l m (f.node c) o c f.size fit' the-Child.alive s.root
                      z.full vacant (h.place - 3) (omega arith)
                    ∙ ap (f.node c).key back
                    ∙ place);
              }
        ]
    | no other ↦
        let old = vacant h.leaf h.alive in
        let same = w.rest h.leaf old (λ e. z.inner (ap l.level e ∙ h.ground_level)) other in
        record {
          leaf = h.leaf;
          alive = split-live l o c f.size mid h.leaf h.alive;
          ground_level = split-level l o c f.size mid h.leaf old ∙ h.ground_level;
          place = h.place;
          within = rw same h.within;
          there = rw same h.there;
        }
  ]

  pub split-Shape : Shape (record { node = g; size = f.size + node_size }) after m
  split-Shape = record {
    root = split-live l o c f.size mid 0 s.root;
    lowest = split-low l o c f.size mid 0 (vacant 0 s.root) ∙ s.lowest;
    highest =
        split-high l o c f.size mid 0 (vacant 0 s.root)
          (λ e. omega (arith, ap l.level e, the-Child.below, fit.under))
        ∙ s.highest;
    placed = λ x alive. elim (ℕ_discrete f.size x) [
      | yes e ↦ omega arith
      | no old ↦ omega (arith, s.placed x (was_live x alive old))
    ];
    fits = split-Fits;
    owned = split-Owned;
    held = λ k q e. split-Held k (s.held k q e);
  }
