-- ===== src/BpTree/Relabel.antt =====
-- bptree.cpp: what a change to some nodes, or to what the index maps, leaves as it was.
use computer_science_notes.Base.{
  ℕ, suc, ◌+◌, ◌-◌, ◌≤◌, ◌≡◌, ◌≢◌, refl, sym, ap, ◌∙◌, true, ◌==◌, if◌then◌else◌, some, update,
  arith, ℕ_discrete,
}
use mathlib.Core.Logic.{if_pos, if_neg}
use computer_science_notes.BpTree.Node.{Node}
use computer_science_notes.BpTree.Shape.{Labels, Index, Child, Fits, Owned}

-- What holds of the value that is written, and of each other entry, holds of every entry.
pub update-each {ℓ κ} :
    {A : Type ℓ} (P : ℕ → A → Type κ) (f : ℕ → A) (i : ℕ) (a : A) (j : ℕ)
    → (i ≡ j → P j a)
    → (i ≢ j → P j (f j))
    → P j (update f i a j)
update-each P f i a j here there = elim (ℕ_discrete i j) [
  | yes e ↦ rw (if_pos (ℕ_discrete i j) e) (here e)
  | no ne ↦ rw (if_neg (ℕ_discrete i j) ne) (there ne)
]

-- The second index maps all that the first maps.
abbrev pub Extends : Index → Index → Type 0
Extends m m' = (k q : ℕ) → m k ≡ some q → m' k ≡ some q

pub Fits-Extends :
    (l : Labels) (m m' : Index) (n : Node) (o : ℕ) → Extends m m' → Fits l m n o → Fits l m' n o
Fits-Extends l m m' n o more fit = record {
  small = fit.small;
  kind = fit.kind;
  under = fit.under;
  nonempty = fit.nonempty;
  ascending = fit.ascending;
  ranged = fit.ranged;
  known = λ i lt. let (q, e) = fit.known i lt in (q, more (n.key i) q e);
  filed = λ i lt low. more (n.key i) (n.pointer i) (fit.filed i lt low);
  child = fit.child;
}

-- A node under new labels, perhaps at a new offset, where the labels agree with the old ones and
-- the children are children of the node there too.
pub Fits-relabel :
    (l l' : Labels) (m : Index) (n : Node) (o o' : ℕ)
    → l'.level o' ≡ l.level o
    → l'.low o' ≡ l.low o
    → l'.high o' ≡ l.high o
    → l.level 0 ≤ l'.level 0
    → ((i : ℕ) → i ≤ n.key_total → l.level o ≢ 0 → Child l n o i → Child l' n o' i)
    → Fits l m n o
    → Fits l' m n o'
Fits-relabel l l' m n o o' level low high taller children fit = record {
  small = fit.small;
  kind = fit.kind ∙ ap (λ x. x == 0) (sym level);
  under = omega (arith, fit.under);
  nonempty = omega (arith, fit.nonempty);
  ascending = fit.ascending;
  ranged = λ i lt. omega (arith, fit.ranged i lt);
  known = fit.known;
  filed = λ i lt bottom. fit.filed i lt (omega arith);
  child = λ i le inner.
      let inner' : l.level o ≢ 0 = λ e. inner (level ∙ e) in
      children i le inner' (fit.child i le inner');
}

pub update-same {ℓ} : {A : Type ℓ} (f : ℕ → A) (i : ℕ) (a : A) → update f i a i ≡ a
update-same f i a = if_pos (ℕ_discrete i i) refl a (f i)

pub update-other {ℓ} :
    {A : Type ℓ} (f : ℕ → A) (i : ℕ) (a : A) (j : ℕ) → i ≢ j → update f i a j ≡ f j
update-other f i a j ne = if_neg (ℕ_discrete i j) ne a (f j)

-- `Child`, from what is known of the offset that the pointer is equal to.
pub Child-at :
    (l : Labels) (n : Node) (o i c : ℕ)
    → n.pointer i ≡ c
    → l.live c ≡ true
    → suc (l.level c) ≡ l.level o
    → l.parent c ≡ o
    → l.low c ≡ (if i == 0 then l.low o else n.key (i - 1) + 1)
    → l.high c ≡ (if i == n.key_total then l.high o else n.key i + 1)
    → Child l n o i
Child-at l n o i c e alive below belongs from upto = record {
  alive = ap l.live e ∙ alive;
  below = ap (λ x. suc (l.level x)) e ∙ below;
  belongs = ap l.parent e ∙ belongs;
  from = ap l.low e ∙ from;
  upto = ap l.high e ∙ upto;
}

pub Owned-at :
    (node : ℕ → Node) (l : Labels) (o q j : ℕ)
    → l.parent o ≡ q
    → l.live q ≡ true
    → l.level q ≡ suc (l.level o)
    → j ≤ (node q).key_total
    → (node q).pointer j ≡ o
    → Owned node l o
Owned-at node l o q j e alive above within leads = record {
  alive = ap l.live e ∙ alive;
  above = ap l.level e ∙ above;
  place = j;
  within = rw e within;
  leads = rw e leads;
}
