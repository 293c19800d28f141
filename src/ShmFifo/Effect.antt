-- ===== src/ShmFifo/Effect.antt =====
-- What a step of one process has to show for the invariant to be kept.
use native.Mathlib.Nat.{mod-eq_of_lt, mod-add-mod, mod-lt}
use mathlib.Core.Logic.{if_pos, if_neg}
use computer_science_notes.Base.{
  ℕ, ◌+◌, ◌%◌, ◌^◌, ◌≤◌, ◌<◌, ◌≡◌, ◌≢◌, refl, ap, ◌∙◌, ◌⊎◌, inl, inr, [], length, get_or, take,
  update, sum_below-update, add-le-sum_below, arith, ℕ_discrete,
}
use computer_science_notes.ShmFifo.Fifo.{
  Shm, Pc, outside, wants_room, enters_to_write, copies_in, advances_wr, leaves_write, posts_block,
  wants_block, enters_to_read, copies_out, advances_rd, leaves_read, posts_room, next_index,
}
use computer_science_notes.ShmFifo.Invariant.{holds, reserves_room, reserves_block, Fresh, Inv}

-- The next index is the position of the next block.
pub next_index_lem : (k n : ℕ) → 0 < n → n < 2 ^ 32 → next_index (k % n) n ≡ (k + 1) % n
next_index_lem k n some_room fits =
    ap (λ x. x % n) (mod-eq_of_lt {n = k % n + 1} {m = 2 ^ 32} (omega (arith, mod-lt k some_room)))
    ∙ mod-add-mod k n 1

module _ {n total : ℕ} {m : Shm} {pc : ℕ → Pc} (v : Inv n total m pc) (i : ℕ) (lt : i < n) where
  -- What a step of process `i` from `pc i` to `pc'` has to show.
  pub record Effect (m' : Shm) (pc' : Pc) : Type 0 where
    pub size : m'.block_size ≡ m.block_size
    pub total_same : m'.block_total ≡ m.block_total
    pub mutex : m'.sem_mutex + holds pc' ≡ m.sem_mutex + holds (pc i)
    pub room :
        m'.sem_produce + reserves_room pc' + length m'.produced + length m.consumed
        ≡ m.sem_produce + reserves_room (pc i) + length m.produced + length m'.consumed
    pub blocks :
        m'.sem_consume + reserves_block pc' + length m'.consumed + length m.produced
        ≡ m.sem_consume + reserves_block (pc i) + length m.consumed + length m'.produced
    pub wr : m'.wr_index ≡ length m'.produced % total
    pub rd : m'.rd_index ≡ length m'.consumed % total
    pub order : take (length m'.consumed) m'.produced ≡ m'.consumed
    pub stored :
        (k : ℕ)
        → length m'.consumed ≤ k
        → k < length m'.produced
        → m'.payload (k % total) ≡ get_or m'.produced k []
    pub fresh : Fresh m' pc'
    pub alone :
        (holds (pc i) ≡ 1)
        ⊎ ((m'.payload ≡ m.payload) × (m'.wr_index ≡ m.wr_index) × (m'.rd_index ≡ m.rd_index))

  Fresh-other :
      (m' : Shm) (pc' : Pc)
      → Effect m' pc'
      → (q : Pc) (j : ℕ) → pc j ≡ q
      → j < n
      → i ≢ j
      → Fresh m q
      → Fresh m' q
  Fresh-other m' pc' e (advances_wr buf) j at jn ne f = elim e.alone [
    | inl inside ↦ absurd (
        omega (
          arith,
          v.mutex,
          inside,
          ap holds at,
          add-le-sum_below (λ k. holds (pc k)) i j n lt jn ne,
        ))
    | inr (same, same_wr, same_rd) ↦ ground (arith, e.size)
  ]
  Fresh-other m' pc' e (advances_rd buf) j at jn ne f = elim e.alone [
    | inl inside ↦ absurd (
        omega (
          arith,
          v.mutex,
          inside,
          ap holds at,
          add-le-sum_below (λ k. holds (pc k)) i j n lt jn ne,
        ))
    | inr (same, same_wr, same_rd) ↦ ground (arith, e.size)
  ]
  Fresh-other m' pc' e outside j at jn ne f = tt
  Fresh-other m' pc' e (wants_room buf) j at jn ne f = tt
  Fresh-other m' pc' e (enters_to_write buf) j at jn ne f = tt
  Fresh-other m' pc' e (copies_in buf) j at jn ne f = tt
  Fresh-other m' pc' e leaves_write j at jn ne f = tt
  Fresh-other m' pc' e posts_block j at jn ne f = tt
  Fresh-other m' pc' e wants_block j at jn ne f = tt
  Fresh-other m' pc' e enters_to_read j at jn ne f = tt
  Fresh-other m' pc' e copies_out j at jn ne f = tt
  Fresh-other m' pc' e (leaves_read buf) j at jn ne f = tt
  Fresh-other m' pc' e (posts_room buf) j at jn ne f = tt

  pub Effect-Inv : (m' : Shm) (pc' : Pc) → Effect m' pc' → Inv n total m' (update pc i pc')
  Effect-Inv m' pc' e = record {
    total = omega (arith, e.total_same, v.total);
    some_room = v.some_room;
    fits = v.fits;
    mutex = omega (arith, e.mutex, v.mutex, sum_below-update holds pc i n pc' lt);
    room = omega (arith, e.room, v.room, sum_below-update reserves_room pc i n pc' lt);
    blocks = omega (arith, e.blocks, v.blocks, sum_below-update reserves_block pc i n pc' lt);
    wr = e.wr;
    rd = e.rd;
    order = e.order;
    stored = e.stored;
    fresh = λ j jn. elim (ℕ_discrete i j) [
      | yes same ↦ rw (if_pos (ℕ_discrete i j) same pc' (pc j)) e.fresh
      | no ne ↦
          rw (if_neg (ℕ_discrete i j) ne pc' (pc j))
            (Fresh-other m' pc' e (pc j) j refl jn ne (v.fresh j jn))
    ];
  }
