-- ===== src/Warehouse/Invariant.antt =====
-- What the semaphores count where the products are, and the steps of one thread.
use native.Mathlib.Nat.{mod-add-mod}
use mathlib.Core.Option.{some-injective}
use computer_science_notes.Base.{
  ℕ, ◌+◌, ◌%◌, ◌≤◌, ◌<◌, ◌≡◌, sym, ap, ◌∙◌, subst, inl, inr, pos, negsuc, Bool, true, false,
  Bool-cases, some, update, sum_below, sum_below-update, le-sum_below, arith, ℕ_discrete, mod_apart,
}
use computer_science_notes.Warehouse.Threads.{
  Warehouse, Pc, wants_place, locks_to_produce, produces, unlocks_produced, posts_product,
  wants_product, locks_to_consume, consumes, unlocks_consumed, posts_place, take_product,
  put_product, handle_consume, handle_produce, threads,
}

abbrev pub locked : Bool → ℕ
locked true = 1
locked false = 0

-- Holds the mutex.
abbrev pub holds : Pc → ℕ
holds produces = 1
holds unlocks_produced = 1
holds consumes = 1
holds unlocks_consumed = 1
holds pc = 0

-- Owns a place that it has not yet filled, or has emptied and not yet posted.
abbrev pub owns_place : Pc → ℕ
owns_place locks_to_produce = 1
owns_place produces = 1
owns_place unlocks_consumed = 1
owns_place posts_place = 1
owns_place pc = 0

-- The same for products.
abbrev pub owns_product : Pc → ℕ
owns_product locks_to_consume = 1
owns_product consumes = 1
owns_product unlocks_produced = 1
owns_product posts_product = 1
owns_product pc = 0

pub record Inv (w : Warehouse) (pc : ℕ → Pc) : Type 0 where
  pub one_holder : locked w.mutex ≡ sum_below (λ i. holds (pc i)) threads
  pub places :
      w.sem_produce + sum_below (λ i. owns_place (pc i)) threads + w.produce_id ≡ 10 + w.consumed
  pub products :
      w.sem_consume + sum_below (λ i. owns_product (pc i)) threads + w.consumed ≡ w.produce_id
  pub writes : w.wr_index ≡ w.produce_id % 10
  pub reads : w.rd_index ≡ w.consumed % 10
  pub stored : (k : ℕ) → w.consumed ≤ k → k < w.produce_id → w.buf (k % 10) ≡ pos k
  pub empty : (k : ℕ) → w.produce_id ≤ k → k < w.consumed + 10 → w.buf (k % 10) ≡ negsuc 0

next_lem : (k : ℕ) → (k % 10 + 1) % 10 ≡ (k + 1) % 10
next_lem k = mod-add-mod k 10 1

module _ {w : Warehouse} {pc : ℕ → Pc} (v : Inv w pc) (i : ℕ) (lt : i < threads) where
  -- What a step of thread `i` from `pc i` to `pc'` has to show.
  pub record Effect (w' : Warehouse) (pc' : Pc) : Type 0 where
    pub mutex : locked w'.mutex + holds (pc i) ≡ locked w.mutex + holds pc'
    pub places :
        w'.sem_produce + owns_place pc' + w'.produce_id + w.consumed
        ≡ w.sem_produce + owns_place (pc i) + w.produce_id + w'.consumed
    pub products :
        w'.sem_consume + owns_product pc' + w'.consumed + w.produce_id
        ≡ w.sem_consume + owns_product (pc i) + w.consumed + w'.produce_id
    pub writes : w'.wr_index ≡ w'.produce_id % 10
    pub reads : w'.rd_index ≡ w'.consumed % 10
    pub stored : (k : ℕ) → w'.consumed ≤ k → k < w'.produce_id → w'.buf (k % 10) ≡ pos k
    pub empty : (k : ℕ) → w'.produce_id ≤ k → k < w'.consumed + 10 → w'.buf (k % 10) ≡ negsuc 0

  pub Effect-Inv : (w' : Warehouse) (pc' : Pc) → Effect w' pc' → Inv w' (update pc i pc')
  Effect-Inv w' pc' e = record {
    one_holder = omega (arith, e.mutex, v.one_holder, sum_below-update holds pc i threads pc' lt);
    places = omega (arith, e.places, v.places, sum_below-update owns_place pc i threads pc' lt);
    products =
        omega (arith, e.products, v.products, sum_below-update owns_product pc i threads pc' lt);
    writes = e.writes;
    reads = e.reads;
    stored = e.stored;
    empty = e.empty;
  }

  -- A step that leaves the buffer and the indices alone.
  record Quiet (w' : Warehouse) (pc' : Pc) : Type 0 where
    mutex : locked w'.mutex + holds (pc i) ≡ locked w.mutex + holds pc'
    places : w'.sem_produce + owns_place pc' ≡ w.sem_produce + owns_place (pc i)
    products : w'.sem_consume + owns_product pc' ≡ w.sem_consume + owns_product (pc i)
    buf : w'.buf ≡ w.buf
    wr : w'.wr_index ≡ w.wr_index
    rd : w'.rd_index ≡ w.rd_index
    made : w'.produce_id ≡ w.produce_id
    taken : w'.consumed ≡ w.consumed

  Quiet-Effect : (w' : Warehouse) (pc' : Pc) → Quiet w' pc' → Effect w' pc'
  Quiet-Effect w' pc' q = record {
    mutex = q.mutex;
    places = omega (arith, q.places, q.made, q.taken);
    products = omega (arith, q.products, q.made, q.taken);
    writes = q.wr ∙ v.writes ∙ ap (λ k. k % 10) (sym q.made);
    reads = q.rd ∙ v.reads ∙ ap (λ k. k % 10) (sym q.taken);
    stored = λ k from to.
        ap (λ f. f (k % 10)) q.buf ∙ v.stored k (omega (arith, q.taken)) (omega (arith, q.made));
    empty = λ k from to.
        ap (λ f. f (k % 10)) q.buf ∙ v.empty k (omega (arith, q.made)) (omega (arith, q.taken));
  }

  -- Who is about to fill a place has one, who is about to take a product has one.
  pub has_place : owns_place (pc i) ≡ 1 → w.produce_id < w.consumed + 10
  has_place r = omega (arith, v.places, r, le-sum_below (λ j. owns_place (pc j)) i threads lt)

  pub has_product : owns_product (pc i) ≡ 1 → w.consumed < w.produce_id
  has_product r = omega (arith, v.products, r, le-sum_below (λ j. owns_product (pc j)) i threads lt)

  held : holds (pc i) ≡ 1 → w.mutex ≡ true
  held inside = elim (Bool-cases w.mutex) [
    | inl taken ↦ taken
    | inr free ↦ absurd (
        omega (
          arith,
          ap locked free,
          v.one_holder,
          inside,
          le-sum_below (λ j. holds (pc j)) i threads lt,
        ))
  ]

  put_product-Effect : pc i ≡ produces → Effect (put_product w) unlocks_produced
  unfolding put_product
  put_product-Effect at =
      let n = w.produce_id in
      let room = has_place (ap owns_place at) in
      let order : w.consumed ≤ w.produce_id = omega (arith, v.products) in
      record {
        mutex = ground (arith, at);
        places = ground (arith, at);
        products = ground (arith, at);
        writes = rw v.writes (next_lem n);
        reads = v.reads;
        stored = λ k from to. elim (ℕ_discrete k n) [
          | yes here ↦ ground (arith, v.writes, here)
          | no old ↦
              ground (arith, v.writes, v.stored k, mod_apart k n 10 (omega arith) (omega arith))
        ];
        empty = λ k from to.
            ground (arith, v.writes, v.empty k, mod_apart n k 10 (omega arith) (omega arith));
      }

  take_product-Effect : pc i ≡ consumes → Effect (take_product w) unlocks_consumed
  unfolding take_product
  take_product-Effect at =
      let n = w.consumed in
      let some_there = has_product (ap owns_product at) in
      let order : w.produce_id ≤ w.consumed + 10 = omega (arith, v.places) in
      record {
        mutex = ground (arith, at);
        places = ground (arith, at);
        products = ground (arith, at);
        writes = v.writes;
        reads = rw v.reads (next_lem n);
        stored = λ k from to.
            ground (arith, v.reads, v.stored k, mod_apart n k 10 (omega arith) (omega arith));
        empty = λ k from to. elim (ℕ_discrete k (n + 10)) [
          | yes here ↦ let wraps : k % 10 ≡ n % 10 = omega arith in ground (arith, v.reads, wraps)
          | no old ↦
              ground (arith, v.reads, v.empty k, mod_apart n k 10 (omega arith) (omega arith))
        ];
      }

  pub handle_produce-Effect :
      (q : Pc) (w' : Warehouse) (pc' : Pc)
      → pc i ≡ q
      → handle_produce w q ≡ some (w', pc')
      → Effect w' pc'
  unfolding handle_produce
  handle_produce-Effect wants_place w' pc' at h = Quiet-Effect w' pc' (ground arith)
  handle_produce-Effect locks_to_produce w' pc' at h = Quiet-Effect w' pc' (ground arith)
  handle_produce-Effect produces w' pc' at h =
      subst (λ r. Effect r.0 r.1) (some-injective _ _ h) (put_product-Effect at)
  handle_produce-Effect unlocks_produced w' pc' at h =
      let taken = held (ap holds at) in Quiet-Effect w' pc' (ground arith)
  handle_produce-Effect posts_product w' pc' at h = Quiet-Effect w' pc' (ground arith)
  handle_produce-Effect q w' pc' at h = absurd (ground arith)

  pub handle_consume-Effect :
      (q : Pc) (w' : Warehouse) (pc' : Pc)
      → pc i ≡ q
      → handle_consume w q ≡ some (w', pc')
      → Effect w' pc'
  unfolding handle_consume
  handle_consume-Effect wants_product w' pc' at h = Quiet-Effect w' pc' (ground arith)
  handle_consume-Effect locks_to_consume w' pc' at h = Quiet-Effect w' pc' (ground arith)
  handle_consume-Effect consumes w' pc' at h =
      subst (λ r. Effect r.0 r.1) (some-injective _ _ h) (take_product-Effect at)
  handle_consume-Effect unlocks_consumed w' pc' at h =
      let taken = held (ap holds at) in Quiet-Effect w' pc' (ground arith)
  handle_consume-Effect posts_place w' pc' at h = Quiet-Effect w' pc' (ground arith)
  handle_consume-Effect q w' pc' at h = absurd (ground arith)
