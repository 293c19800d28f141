-- ===== src/Warehouse/Places.antt =====
-- What the threads find in the warehouse, in every interleaving.
use computer_science_notes.Base.{
  ℕ, ◌≤◌, ◌<◌, ◌≡◌, refl, ap, pos, negsuc, Bool, true, false, sum_below, add-le-sum_below, arith,
  ℕ_discrete,
}
use computer_science_notes.Warehouse.Threads.{
  setup, produces, consumes, threads, System, init, consumer_moves, producer_moves, Reach, start,
  later,
}
use computer_science_notes.Warehouse.Invariant.{
  locked, holds, owns_place, owns_product, Inv, Effect-Inv, has_place, has_product,
  handle_produce-Effect, handle_consume-Effect,
}

locked_le : (b : Bool) → locked b ≤ 1
locked_le true = omega arith
locked_le false = omega arith

init-Inv : Inv init.store init.pc
unfolding setup sum_below
init-Inv = record {
  one_holder = refl;
  places = refl;
  products = refl;
  writes = refl;
  reads = refl;
  stored = λ k from to. absurd (omega arith);
  empty = λ k from to. refl;
}

-- In every state that the threads reach, in any order of their steps, the semaphores count the
-- places and the products that nobody owns, the mutex is locked exactly while a thread is in the
-- section it guards, the products made and not yet taken lie in order from the reading index on, and
-- all other places are empty.
pub warehouse_Reach-Inv : {s : System} → Reach s → Inv s.store s.pc
warehouse_Reach-Inv start = init-Inv
warehouse_Reach-Inv (later {s} r (consumer_moves i {w} {pc} lt h)) =
    let v = warehouse_Reach-Inv r in
    let below : i < threads = omega arith in
    Effect-Inv v i below w pc (handle_consume-Effect v i below (s.pc i) w pc refl h)
warehouse_Reach-Inv (later {s} r (producer_moves i {w} {pc} high lt h)) =
    let v = warehouse_Reach-Inv r in
    Effect-Inv v i lt w pc (handle_produce-Effect v i lt (s.pc i) w pc refl h)

-- A thread about to fill a place always finds it empty, so no product is overwritten.
pub nothing_overwritten :
    {s : System}
    → Reach s
    → (i : ℕ) → i < threads
    → s.pc i ≡ produces
    → s.store.buf s.store.wr_index ≡ negsuc 0
nothing_overwritten {s} r i lt at =
    let v = warehouse_Reach-Inv r in
    let room = has_place v i lt (ap owns_place at) in
    rw v.writes (v.empty s.store.produce_id (omega arith) room)

-- A thread about to take a product finds the one whose id is the number of those taken before: none
-- is lost, none is taken twice, and they leave in the order in which they were made.
pub taken_in_order :
    {s : System}
    → Reach s
    → (i : ℕ) → i < threads
    → s.pc i ≡ consumes
    → s.store.buf s.store.rd_index ≡ pos s.store.consumed
taken_in_order {s} r i lt at =
    let v = warehouse_Reach-Inv r in
    let there = has_product v i lt (ap owns_product at) in
    rw v.reads (v.stored s.store.consumed (omega arith) there)

-- Two threads are never both in the section that the mutex guards.
pub one_in_section :
    {s : System}
    → Reach s
    → (i j : ℕ) → i < threads
    → j < threads
    → holds (s.pc i) ≡ 1
    → holds (s.pc j) ≡ 1
    → i ≡ j
one_in_section {s} r i j lt lt' in_i in_j = elim (ℕ_discrete i j) [
  | yes same ↦ same
  | no other ↦
      let v = warehouse_Reach-Inv r in
      absurd (
        omega (
          arith,
          v.one_holder,
          locked_le s.store.mutex,
          in_i,
          in_j,
          add-le-sum_below (λ k. holds (s.pc k)) i j threads lt lt' other,
        ))
]
