-- ===== src/ShmFifo/Moves.antt =====
-- The steps of a process, and the invariant of the shared memory.
use mathlib.Core.Logic.{if_pos, if_neg}
use computer_science_notes.Base.{
  mod_apart, ℕ, suc, ◌+◌, ◌%◌, ◌≤◌, ◌<◌, ◌≡◌, refl, sym, ap, ◌∙◌, subst, inl, inr, List, [], ◌∷◌,
  ◌++◌, some, length, get_or, take, update, le-sum_below, length-append, take-append_of_le,
  take-suc, get_or-append_left, get_or-append_length, arith, ℕ_discrete, dec_lt,
}
use mathlib.Core.Option.{some-injective}
use computer_science_notes.ShmFifo.Effect.{next_index_lem, Effect, Effect-Inv}
use computer_science_notes.ShmFifo.System.{System, Step, calls, moves}
use computer_science_notes.ShmFifo.Fifo.{
  Shm, Pc, outside, wants_room, enters_to_write, copies_in, advances_wr, leaves_write, posts_block,
  wants_block, enters_to_read, copies_out, advances_rd, leaves_read, posts_room, Call, produce,
  consume, begin, advance, next_index,
}
use computer_science_notes.ShmFifo.Invariant.{holds, reserves_room, reserves_block, Fresh, Inv}

module _ {n total : ℕ} {m : Shm} {pc : ℕ → Pc} (v : Inv n total m pc) (i : ℕ) (lt : i < n) where
  -- A step that moves no block and no index.
  record Quiet (m' : Shm) (pc' : Pc) : Type 0 where
    size : m'.block_size ≡ m.block_size
    total_same : m'.block_total ≡ m.block_total
    mutex : m'.sem_mutex + holds pc' ≡ m.sem_mutex + holds (pc i)
    room : m'.sem_produce + reserves_room pc' ≡ m.sem_produce + reserves_room (pc i)
    blocks : m'.sem_consume + reserves_block pc' ≡ m.sem_consume + reserves_block (pc i)
    payload : m'.payload ≡ m.payload
    wr : m'.wr_index ≡ m.wr_index
    rd : m'.rd_index ≡ m.rd_index
    produced : m'.produced ≡ m.produced
    consumed : m'.consumed ≡ m.consumed
    fresh : Fresh m' pc'

  Quiet-Effect : (m' : Shm) (pc' : Pc) → Quiet m' pc' → Effect v i lt m' pc'
  Quiet-Effect m' pc' q = record {
    size = q.size;
    total_same = q.total_same;
    mutex = q.mutex;
    room = omega (arith, q.room, ap length q.produced, ap length q.consumed);
    blocks = omega (arith, q.blocks, ap length q.produced, ap length q.consumed);
    wr = q.wr ∙ v.wr ∙ ap (λ l. length l % total) (sym q.produced);
    rd = q.rd ∙ v.rd ∙ ap (λ l. length l % total) (sym q.consumed);
    order =
        ap (λ l. take (length l) m'.produced) q.consumed
        ∙ ap (take (length m.consumed)) q.produced
        ∙ v.order
        ∙ sym q.consumed;
    stored = λ k from to.
        ap (λ f. f (k % total)) q.payload
        ∙ v.stored k (omega (arith, ap length q.consumed)) (omega (arith, ap length q.produced))
        ∙ ap (λ l. get_or l k []) (sym q.produced);
    fresh = q.fresh;
    alone = inr (q.payload, q.wr, q.rd);
  }

  -- The bounds that the reservations give.
  unfilled : reserves_room (pc i) ≡ 1 → length m.produced < total + length m.consumed
  unfilled r = omega (arith, v.room, r, le-sum_below (λ j. reserves_room (pc j)) i n lt)

  filled : reserves_block (pc i) ≡ 1 → length m.consumed < length m.produced
  filled r = omega (arith, v.blocks, r, le-sum_below (λ j. reserves_block (pc j)) i n lt)

  consumed_le : length m.consumed ≤ length m.produced
  consumed_le = omega (arith, v.blocks)

  copies_in-Effect :
      (buf : List ℕ)
      → pc i ≡ copies_in buf
      → Effect v i lt
          (record m { payload = update m.payload m.wr_index (take m.block_size buf) })
          (advances_wr buf)
  copies_in-Effect buf at = record {
    size = refl;
    total_same = refl;
    mutex = ground (arith, at);
    room = ground (arith, at);
    blocks = ground (arith, at);
    wr = v.wr;
    rd = v.rd;
    order = v.order;
    stored = λ k from to.
        if_neg (ℕ_discrete m.wr_index (k % total))
          (λ e.
            mod_apart k (length m.produced) total to (omega (arith, unfilled (ap reserves_room at)))
              (sym (sym v.wr ∙ e)))
          (take m.block_size buf) (m.payload (k % total))
        ∙ v.stored k from to;
    fresh =
        if_pos (ℕ_discrete m.wr_index m.wr_index) refl (take m.block_size buf)
          (m.payload m.wr_index);
    alone = inl (ap holds at);
  }

  advances_wr-Effect :
      (buf : List ℕ)
      → pc i ≡ advances_wr buf
      → Effect v i lt
          (record m {
            wr_index = next_index m.wr_index m.block_total;
            produced = m.produced ++ take m.block_size buf ∷ [];
          })
          leaves_write
  advances_wr-Effect buf at =
      let block = take m.block_size buf in
      let longer : length (m.produced ++ block ∷ []) ≡ length m.produced + 1 =
        length-append m.produced (block ∷ []) ∙ omega arith in
      record {
        size = refl;
        total_same = refl;
        mutex = ground (arith, at);
        room = ground (arith, at, longer);
        blocks = ground (arith, at, longer);
        wr =
            rw (longer, v.total, v.wr)
              (next_index_lem (length m.produced) total v.some_room v.fits);
        rd = v.rd;
        order = take-append_of_le (length m.consumed) m.produced (block ∷ []) consumed_le ∙ v.order;
        stored = λ k from to. elim (dec_lt k (length m.produced)) [
          | yes old ↦
              v.stored k from old ∙ sym (get_or-append_left m.produced (block ∷ []) k [] old)
          | no new ↦
              let here : k ≡ length m.produced = omega (arith, longer) in
              rw (here, get_or-append_length m.produced block [], ← v.wr)
                (subst (Fresh m) at (v.fresh i lt))
        ];
        fresh = tt;
        alone = inl (ap holds at);
      }

  advances_rd-Effect :
      (buf : List ℕ)
      → pc i ≡ advances_rd buf
      → Effect v i lt
          (record m {
            rd_index = next_index m.rd_index m.block_total;
            consumed = m.consumed ++ buf ∷ [];
          })
          (leaves_read buf)
  advances_rd-Effect buf at =
      let r = length m.consumed in
      let longer : length (m.consumed ++ buf ∷ []) ≡ suc r =
        length-append m.consumed (buf ∷ []) ∙ omega arith in
      let below = filled (ap reserves_block at) in
      let seen : m.payload m.rd_index ≡ buf = subst (Fresh m) at (v.fresh i lt) in
      let block : get_or m.produced r [] ≡ buf =
        sym (v.stored r (omega arith) below) ∙ ap m.payload (sym v.rd) ∙ seen in
      record {
        size = refl;
        total_same = refl;
        mutex = ground (arith, at);
        room = ground (arith, at, longer);
        blocks = ground (arith, at, longer);
        wr = v.wr;
        rd =
            rw (longer, v.total, v.rd)
              (next_index_lem r total v.some_room v.fits ∙ ap (λ x. x % total) (omega arith));
        order =
            ap (λ l. take l m.produced) longer
            ∙ take-suc r m.produced [] below
            ∙ ap (λ b. take r m.produced ++ b ∷ []) block
            ∙ ap (λ l. l ++ buf ∷ []) v.order;
        stored = λ k from to. v.stored k (omega (arith, longer)) to;
        fresh = tt;
        alone = inl (ap holds at);
      }

  advance-Effect :
      (q : Pc) (m' : Shm) (pc' : Pc)
      → pc i ≡ q
      → advance m q ≡ some (m', pc')
      → Effect v i lt m' pc'
  unfolding advance
  advance-Effect outside m' pc' at h = cc
  advance-Effect (wants_room buf) m' pc' at h = Quiet-Effect m' pc' (ground arith)
  advance-Effect (enters_to_write buf) m' pc' at h = Quiet-Effect m' pc' (ground arith)
  advance-Effect (copies_in buf) m' pc' at h =
      subst (λ r. Effect v i lt r.0 r.1) (some-injective _ _ h) (copies_in-Effect buf at)
  advance-Effect (advances_wr buf) m' pc' at h =
      subst (λ r. Effect v i lt r.0 r.1) (some-injective _ _ h) (advances_wr-Effect buf at)
  advance-Effect leaves_write m' pc' at h = Quiet-Effect m' pc' (ground arith)
  advance-Effect posts_block m' pc' at h = Quiet-Effect m' pc' (ground arith)
  advance-Effect wants_block m' pc' at h = Quiet-Effect m' pc' (ground arith)
  advance-Effect enters_to_read m' pc' at h = Quiet-Effect m' pc' (ground arith)
  advance-Effect copies_out m' pc' at h = Quiet-Effect m' pc' (ground arith)
  advance-Effect (advances_rd buf) m' pc' at h =
      subst (λ r. Effect v i lt r.0 r.1) (some-injective _ _ h) (advances_rd-Effect buf at)
  advance-Effect (leaves_read buf) m' pc' at h = Quiet-Effect m' pc' (ground arith)
  advance-Effect (posts_room buf) m' pc' at h = Quiet-Effect m' pc' (ground arith)

-- A call begins outside the critical section and reserves nothing.
begin-Effect :
    {n total : ℕ} {m : Shm} {pc : ℕ → Pc} (v : Inv n total m pc) (i : ℕ) (lt : i < n) (c : Call)
    → pc i ≡ outside
    → Effect v i lt m (begin c)
begin-Effect v i lt (produce buf) at = Quiet-Effect v i lt _ _ (ground arith)
begin-Effect v i lt consume at = Quiet-Effect v i lt _ _ (ground arith)

-- Every step of every process keeps the invariant.
pub Step-Inv :
    {n total : ℕ} {s t : System} → Step n s t → Inv n total s.shm s.pc → Inv n total t.shm t.pc
Step-Inv (calls i c lt out) v = Effect-Inv v i lt _ (begin c) (begin-Effect v i lt c out)
Step-Inv {s} (moves i {m} {pc} lt h) v =
    Effect-Inv v i lt m pc (advance-Effect v i lt (s.pc i) m pc refl h)
