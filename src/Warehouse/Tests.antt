-- ===== src/Warehouse/Tests.antt =====
-- A run in which the thread 2 makes a product and the thread 0 takes it.
use computer_science_notes.Base.{◌≡◌, refl, pos, negsuc, arith, ℕ_discrete}
use computer_science_notes.Warehouse.Threads.{
  setup, produces, consumes, take_product, put_product, handle_consume, handle_produce, System,
  consumer_moves, producer_moves, Reach, start, later,
}
use computer_science_notes.Warehouse.Invariant.{Inv}
use computer_science_notes.Warehouse.Places.{
  warehouse_Reach-Inv, nothing_overwritten, taken_in_order,
}

abbrev producing : (s : System) × Reach s × (s.pc 2 ≡ produces)
unfolding setup handle_consume handle_produce take_product put_product ℕ_discrete
producing =
    let r1 = later start (producer_moves 2 (omega arith) (omega arith) refl) in
    let r2 = later r1 (producer_moves 2 (omega arith) (omega arith) refl) in (_, r2, refl)

abbrev consuming : (s : System) × Reach s × (s.pc 0 ≡ consumes)
unfolding setup handle_consume handle_produce take_product put_product ℕ_discrete
consuming =
    let r1 = later start (producer_moves 2 (omega arith) (omega arith) refl) in
    let r2 = later r1 (producer_moves 2 (omega arith) (omega arith) refl) in
    let r3 = later r2 (producer_moves 2 (omega arith) (omega arith) refl) in
    let r4 = later r3 (producer_moves 2 (omega arith) (omega arith) refl) in
    let r5 = later r4 (producer_moves 2 (omega arith) (omega arith) refl) in
    let r6 = later r5 (consumer_moves 0 (omega arith) refl) in
    let r7 = later r6 (consumer_moves 0 (omega arith) refl) in (_, r7, refl)

warehouse_Reach-Inv_example : Inv (consuming.0).store (consuming.0).pc
warehouse_Reach-Inv_example = warehouse_Reach-Inv consuming.1

nothing_overwritten_example : (producing.0).store.buf (producing.0).store.wr_index ≡ negsuc 0
nothing_overwritten_example = nothing_overwritten producing.1 2 (omega arith) producing.2

taken_in_order_example :
    (consuming.0).store.buf (consuming.0).store.rd_index ≡ pos (consuming.0).store.consumed
taken_in_order_example = taken_in_order consuming.1 0 (omega arith) consuming.2
