-- ===== src/BpTree/Remove/Entry.antt =====
-- bptree.cpp: case G of `remove_pos`, where a leaf loses an entry.
use computer_science_notes.Base.{
  ℕ, ◌+◌, ◌-◌, ◌<◌, ◌≡◌, ◌≢◌, refl, sym, ap, ◌∙◌, subst, true, ltb, if◌then◌else◌, none, some,
  update, arith, ℕ_discrete, dec_lt,
}
use computer_science_notes.BpTree.Node.{Node, File, write_node}
use computer_science_notes.BpTree.Remove.Down.{remove_entry}
use computer_science_notes.BpTree.Arrays.{
  dropped, shift_down-dropped, kept_index, dropped-kept_index,
}
use computer_science_notes.BpTree.Shape.{Labels, Index, Fits, Held, Shape}
use computer_science_notes.BpTree.Relabel.{update-each, update-same, update-other}

abbrev pub erase : Index → ℕ → Index
erase m k = update m k none

pub erase-other : (m : Index) (k x : ℕ) → k ≢ x → erase m k x ≡ m x
erase-other m k x ne = update-other m k none x ne

pub erase-some : (m : Index) (k x q : ℕ) → erase m k x ≡ some q → (k ≢ x) × (m x ≡ some q)
erase-some m k x q e = elim (ℕ_discrete k x) [
  | yes same ↦ absurd (cc (sym (update-same m k none) ∙ ap (erase m k) same ∙ e))
  | no other ↦ (other, sym (erase-other m k x other) ∙ e)
]

-- A node that does not have the key fits what is left.
pub Fits-erase :
    (l : Labels) (m : Index) (n : Node) (o k : ℕ)
    → ((j : ℕ) → j < n.key_total → k ≢ n.key j)
    → Fits l m n o
    → Fits l (erase m k) n o
Fits-erase l m n o k without fit = record {
  small = fit.small;
  kind = fit.kind;
  under = fit.under;
  nonempty = fit.nonempty;
  ascending = fit.ascending;
  ranged = fit.ranged;
  known = λ j lt. let (q, e) = fit.known j lt in (q, erase-other m k (n.key j) (without j lt) ∙ e);
  filed = λ j lt low. erase-other m k (n.key j) (without j lt) ∙ fit.filed j lt low;
  child = fit.child;
}

module _ (l : Labels) (m : Index) (n : Node) (o k i : ℕ) (fit : Fits l m n o)
    (bottom : l.level o ≡ 0) (within : i < n.key_total) (at : n.key i ≡ k) where
  entry_key : (j : ℕ) → j < n.key_total - 1 → (remove_entry n i).key j ≡ dropped n.key i j
  unfolding remove_entry
  entry_key j lt = shift_down-dropped n.key i n.key_total j within lt

  entry_pointer :
      (j : ℕ) → j < n.key_total - 1 → (remove_entry n i).pointer j ≡ dropped n.pointer i j
  unfolding remove_entry
  entry_pointer j lt = shift_down-dropped n.pointer i n.key_total j within lt

  entry_total : (remove_entry n i).key_total ≡ n.key_total - 1
  unfolding remove_entry
  entry_total = refl

  entry_kind : (remove_entry n i).is_leaf ≡ n.is_leaf
  unfolding remove_entry
  entry_kind = refl

  -- An entry of the new node is an entry of the old one with another key.
  source : ℕ → ℕ
  source j = if ltb j i then j else j + 1

  source_lem :
      (j : ℕ)
      → j < n.key_total - 1
      → (source j < n.key_total)
        × (k ≢ n.key (source j))
        × ((remove_entry n i).key j ≡ n.key (source j))
        × ((remove_entry n i).pointer j ≡ n.pointer (source j))
  unfolding source
  source_lem j lt = elim (dec_lt j i) [
    | yes before ↦
        let e : source j ≡ j = ground arith in
        rw e (
          omega arith,
          λ same. omega (arith, fit.ascending j i before within),
          entry_key j lt ∙ ground arith,
          entry_pointer j lt ∙ ground arith,
        )
    | no after ↦
        let e : source j ≡ j + 1 = ground arith in
        rw e (
          omega arith,
          λ same. omega (arith, fit.ascending i (j + 1) (omega arith) (omega arith)),
          entry_key j lt ∙ ground arith,
          entry_pointer j lt ∙ ground arith,
        )
  ]

  source_ascending : (a b : ℕ) → a < b → source a < source b
  unfolding source
  source_ascending a b lt = ground arith

  pub remove_entry-Fits : Fits l (erase m k) (remove_entry n i) o
  remove_entry-Fits = record {
    small = omega (arith, entry_total, fit.small);
    kind = entry_kind ∙ fit.kind;
    under = fit.under;
    nonempty = fit.nonempty;
    ascending = λ a b lt lt'.
        let (_, _, e, _) = source_lem a (omega (arith, entry_total)) in
        let (bound, _, e', _) = source_lem b (omega (arith, entry_total)) in
        rw (e, e') (fit.ascending (source a) (source b) (source_ascending a b lt) bound);
    ranged = λ j lt.
        let (bound, _, e, _) = source_lem j (omega (arith, entry_total)) in
        rw e (fit.ranged (source j) bound);
    known = λ j lt.
        let (bound, ne, e, _) = source_lem j (omega (arith, entry_total)) in
        let (q, known) = fit.known (source j) bound in
        (q, ap (erase m k) e ∙ erase-other m k (n.key (source j)) ne ∙ known);
    filed = λ j lt low.
        let (bound, ne, e, e') = source_lem j (omega (arith, entry_total)) in
        ap (erase m k) e
        ∙ erase-other m k (n.key (source j)) ne
        ∙ fit.filed (source j) bound low
        ∙ ap some (sym e');
    child = λ j le inner. absurd (inner bottom);
  }

  pub entry_kept :
      (j : ℕ)
      → j < n.key_total
      → j ≢ i
      → (kept_index i j < (remove_entry n i).key_total)
        × ((remove_entry n i).key (kept_index i j) ≡ n.key j)
  entry_kept j lt ne =
      let (bound, e) = dropped-kept_index n.key i n.key_total j within lt ne in
      (omega (arith, entry_total, bound), entry_key (kept_index i j) bound ∙ e)

-- The key stands in no node but the leaf `o`.
abbrev pub OnlyIn : File → Labels → ℕ → ℕ → Type 0
OnlyIn f l o k =
    (x : ℕ) → l.live x ≡ true → o ≢ x → (j : ℕ) → j < (f.node x).key_total → k ≢ (f.node x).key j

module _ (f : File) (l : Labels) (m : Index) (s : Shape f l m) (o k i : ℕ) (alive : l.live o ≡ true)
    (bottom : l.level o ≡ 0) (within : i < (f.node o).key_total) (at : (f.node o).key i ≡ k)
    (only : OnlyIn f l o k) where
  shorter : Node
  shorter = remove_entry (f.node o) i

  shorter-Held : (x q : ℕ) → erase m k x ≡ some q → Held (update f.node o shorter) l x
  unfolding shorter
  shorter-Held x q e =
      let (ne, known) = erase-some m k x q e in
      let h = s.held x q known in
      elim (ℕ_discrete o h.leaf) [
        | yes same ↦
            let lt : h.place < (f.node o).key_total =
              subst (λ y. h.place < (f.node y).key_total) (sym same) h.within in
            let there : (f.node o).key h.place ≡ x =
              subst (λ y. (f.node y).key h.place ≡ x) (sym same) h.there in
            let (bound, keeps) =
              entry_kept l m (f.node o) o k i (s.fits o alive) bottom within at h.place lt
                (λ e'. ne (sym at ∙ ap (f.node o).key (sym e') ∙ there)) in
            record {
              leaf = o;
              alive = alive;
              ground_level = bottom;
              place = kept_index i h.place;
              within = rw (update-same f.node o shorter) bound;
              there = rw (update-same f.node o shorter) (keeps ∙ there);
            }
        | no other ↦ record {
          leaf = h.leaf;
          alive = h.alive;
          ground_level = h.ground_level;
          place = h.place;
          within = rw (update-other f.node o shorter h.leaf other) h.within;
          there = rw (update-other f.node o shorter h.leaf other) h.there;
        }
      ]

  pub remove_entry-Shape : Shape (write_node f o (remove_entry (f.node o) i)) l (erase m k)
  unfolding write_node shorter
  remove_entry-Shape = record {
    root = s.root;
    lowest = s.lowest;
    highest = s.highest;
    placed = λ x live. ground (arith, s.placed x live);
    fits = λ x live.
        update-each (λ y n. Fits l (erase m k) n y) f.node o shorter x
          (λ same.
            subst (Fits l (erase m k) shorter) same
              (remove_entry-Fits l m (f.node o) o k i (s.fits o alive) bottom within at))
          (λ other. Fits-erase l m (f.node x) x k (only x live other) (s.fits x live));
    owned = λ x live ne.
        let own = s.owned x live ne in
        let other : o ≢ l.parent x = λ e. omega (arith, ap l.level e, own.above) in
        let same = update-other f.node o shorter (l.parent x) other in
        record {
          alive = own.alive;
          above = own.above;
          place = own.place;
          within = rw same own.within;
          leads = rw same own.leads;
        };
    held = shorter-Held;
  }
