-- ===== src/BpTree/Lookup.antt =====
-- bptree.cpp: what `query` answers.
use computer_science_notes.Base.{
  ℕ, zero, suc, ◌<◌, ◌≡◌, ◌≢◌, sym, ap, ◌∙◌, subst, inl, inr, Bool, Option-cases, true, false,
  if◌then◌else◌, none, some, Run, done, arith, ℕ_discrete, dec_lt,
}
use computer_science_notes.BpTree.Node.{Node, File, no_pointer}
use computer_science_notes.BpTree.Search.{seek, leaf_answer, query_node, query_pos, query}
use computer_science_notes.BpTree.Shape.{Labels, Index, Child, Shape, key_limit}
use computer_science_notes.BpTree.Descent.{
  Covers, seek-le, seek-Covers, seek_found, read_node-live, leaf_has,
}

-- A leaf that the search can end at, and what it has read there.
record Reached (f : File) (l : Labels) (k : ℕ) (get_bpos : Bool) (r : Run ℕ) : Type 0 where
  pub leaf : ℕ
  pub alive : l.live leaf ≡ true
  pub bottom : l.level leaf ≡ 0
  pub covers : Covers l leaf k
  pub result : r ≡ done (leaf_answer (f.node leaf) k get_bpos leaf)

-- A node with no keys is left by its only pointer, as any other is by the one `seek` finds.
query_node-inner :
    (go : ℕ → Run ℕ) (n : Node) (k : ℕ) (get_bpos : Bool) (curr : ℕ)
    → n.is_leaf ≡ false
    → query_node go n k get_bpos curr ≡ go (n.pointer (seek n.key k n.key_total 0))
unfolding query_node
query_node-inner go n k get_bpos curr kind = elim (ℕ_discrete n.key_total 0) [
  | yes empty ↦
      let first : seek n.key k n.key_total 0 ≡ 0 = omega (arith, seek-le n.key k n.key_total) in
      rw first (ground arith)
  | no some_keys ↦ ground arith
]

query_node-leaf :
    (go : ℕ → Run ℕ) (n : Node) (k : ℕ) (get_bpos : Bool) (curr : ℕ)
    → n.is_leaf ≡ true
    → query_node go n k get_bpos curr ≡ done (leaf_answer n k get_bpos curr)
unfolding query_node
query_node-leaf go n k get_bpos curr kind = ground arith

module _ (f : File) (l : Labels) (m : Index) (s : Shape f l m) where
  inner-Child :
      (o k : ℕ)
      → l.live o ≡ true
      → l.level o ≢ 0
      → Child l (f.node o) o (seek (f.node o).key k (f.node o).key_total 0)
  inner-Child o k alive inner =
      (s.fits o alive).child (seek (f.node o).key k (f.node o).key_total 0)
        (seek-le (f.node o).key k (f.node o).key_total) inner

  one_level :
      (fuel o k : ℕ) (get_bpos : Bool)
      → l.live o ≡ true
      → l.level o ≢ 0
      → query_pos (suc fuel) f k o get_bpos
        ≡ query_pos fuel f k
            ((f.node o).pointer (seek (f.node o).key k (f.node o).key_total 0))
            get_bpos
  unfolding query_pos
  one_level fuel o k get_bpos alive inner =
      let fit = s.fits o alive in
      let go : ℕ → Run ℕ = λ next. query_pos fuel f k next get_bpos in
      ap (λ n. query_node go n k get_bpos o) (read_node-live f l m o s alive)
      ∙ query_node-inner go (f.node o) k get_bpos o (ground (arith, fit.kind))

  last_level :
      (fuel o k : ℕ) (get_bpos : Bool)
      → l.live o ≡ true
      → l.level o ≡ 0
      → query_pos (suc fuel) f k o get_bpos ≡ done (leaf_answer (f.node o) k get_bpos o)
  unfolding query_pos
  last_level fuel o k get_bpos alive bottom =
      let fit = s.fits o alive in
      let go : ℕ → Run ℕ = λ next. query_pos fuel f k next get_bpos in
      ap (λ n. query_node go n k get_bpos o) (read_node-live f l m o s alive)
      ∙ query_node-leaf go (f.node o) k get_bpos o (ground (arith, fit.kind))

  query_pos-Reached :
      (fuel o k : ℕ) (get_bpos : Bool)
      → l.level o < fuel
      → l.live o ≡ true
      → Covers l o k
      → Reached f l k get_bpos (query_pos fuel f k o get_bpos)
  query_pos-Reached zero o k b enough alive cover = absurd (omega arith)
  query_pos-Reached (suc fuel) o k b enough alive cover = elim (ℕ_discrete (l.level o) 0) [
    | yes bottom ↦ record {
      leaf = o;
      alive = alive;
      bottom = bottom;
      covers = cover;
      result = last_level fuel o k b alive bottom;
    }
    | no inner ↦
        let c = inner-Child o k alive inner in
        let next = (f.node o).pointer (seek (f.node o).key k (f.node o).key_total 0) in
        subst (Reached f l k b) (sym (one_level fuel o k b alive inner)) (
          query_pos-Reached fuel next k b (omega (arith, c.below)) c.alive
            (seek-Covers l (f.node o) o k c cover))
  ]

  query-Reached :
      (fuel k : ℕ) (get_bpos : Bool)
      → l.level 0 < fuel
      → k < key_limit
      → Reached f l k get_bpos (query fuel f k get_bpos)
  unfolding query
  query-Reached fuel k b enough lt =
      query_pos-Reached fuel 0 k b enough s.root (omega (arith, s.lowest), omega (arith, s.highest))

  leaf_answer-some :
      (o k q : ℕ)
      → l.live o ≡ true
      → l.level o ≡ 0
      → Covers l o k
      → m k ≡ some q
      → (get_bpos : Bool) → leaf_answer (f.node o) k get_bpos o ≡ (if get_bpos then o else q)
  unfolding leaf_answer
  leaf_answer-some o k q alive low cover e b =
      let (j, lt, at) = leaf_has f l m s o k q alive low cover e in
      let fit = s.fits o alive in
      let found = seek_found (f.node o).key k (f.node o).key_total j fit.ascending lt at in
      rw found (ground (arith, fit.filed j lt low, ap m at, e))

  leaf_answer-none :
      (o k : ℕ)
      → l.live o ≡ true
      → m k ≡ none
      → (get_bpos : Bool) → leaf_answer (f.node o) k get_bpos o ≡ no_pointer
  unfolding leaf_answer
  leaf_answer-none o k alive e get_bpos =
      let fit = s.fits o alive in
      elim (dec_lt (seek (f.node o).key k (f.node o).key_total 0) (f.node o).key_total) [
        | yes lt ↦
            let (q, known) = fit.known (seek (f.node o).key k (f.node o).key_total 0) lt in
            elim (ℕ_discrete ((f.node o).key (seek (f.node o).key k (f.node o).key_total 0)) k) [
              | yes at ↦ absurd (cc (ap m at))
              | no other ↦ ground arith
            ]
        | no past ↦ ground arith
      ]

  -- With more fuel than the tree has levels below its root, `query` returns: the pointer that the
  -- index maps the key to, and -1 for a key that it does not map.
  pub query_lem :
      (fuel k : ℕ)
      → l.level 0 < fuel
      → k < key_limit
      → query fuel f k false ≡ done (elim (m k) [ some q ↦ q | none ↦ no_pointer ])
  query_lem fuel k enough lt =
      let r = query-Reached fuel k false enough lt in
      elim (Option-cases (m k)) [
        | inl e ↦ r.result ∙ rw e (ap done (leaf_answer-none r.leaf k r.alive e false))
        | inr (q, e) ↦
            r.result
            ∙ rw e (ap done (leaf_answer-some r.leaf k q r.alive r.bottom r.covers e false))
      ]

  -- The offset of the leaf that has the key.
  pub query_place :
      (fuel k q : ℕ)
      → l.level 0 < fuel
      → k < key_limit
      → m k ≡ some q
      → (leaf : ℕ) × (query fuel f k true ≡ done leaf)
        × ((f.node leaf).is_leaf ≡ true)
        × (j : ℕ) × (j < (f.node leaf).key_total)
        × ((f.node leaf).key j ≡ k)
        × ((f.node leaf).pointer j ≡ q)
  query_place fuel k q enough lt e =
      let r = query-Reached fuel k true enough lt in
      let (j, within, at) = leaf_has f l m s r.leaf k q r.alive r.bottom r.covers e in
      let fit = s.fits r.leaf r.alive in
      (
        r.leaf,
        r.result ∙ ap done (leaf_answer-some r.leaf k q r.alive r.bottom r.covers e true),
        fit.kind ∙ rw r.bottom,
        j,
        within,
        at,
        ground (arith, fit.filed j within r.bottom, ap m at, e),
      )
