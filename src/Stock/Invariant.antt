-- ===== src/Stock/Invariant.antt =====
-- cond-produce-consume.c: who holds the mutex and who is alert, and the steps of one thread.
use computer_science_notes.Base.{
  ℕ, ◌+◌, ◌≤◌, ◌<◌, ◌≡◌, ap, ◌⊎◌, inl, inr, Bool, Bool-cases, true, false, some, update, sum_below,
  sum_below-update, le-sum_below, add-le-sum_below, arith, ℕ_discrete,
}
use computer_science_notes.Stock.Threads.{
  Stock, Pc, locks, tests, waits, woken, takes, unlocks, locks_to_make, makes, signals,
  unlocks_made, consume, make,
}

abbrev pub locked : Bool → ℕ
locked true = 1
locked false = 0

locked_le : (b : Bool) → locked b ≤ 1
locked_le true = omega arith
locked_le false = omega arith

-- Has the mutex.
abbrev pub holds : Pc → ℕ
holds tests = 1
holds takes = 1
holds unlocks = 1
holds makes = 1
holds signals = 1
holds unlocks_made = 1
holds pc = 0

-- A consumer that does not sleep, or a producer about to wake one.
abbrev pub alert : Pc → ℕ
alert locks = 1
alert tests = 1
alert woken = 1
alert takes = 1
alert unlocks = 1
alert signals = 1
alert pc = 0

abbrev pub buys : Pc → ℕ
buys locks = 1
buys tests = 1
buys waits = 1
buys woken = 1
buys takes = 1
buys unlocks = 1
buys pc = 0

pub record Inv (s : Stock) (pc : ℕ → Pc) : Type 0 where
  pub one_holder : locked s.mutex ≡ sum_below (λ i. holds (pc i)) 3
  pub in_stock : (i : ℕ) → i < 3 → pc i ≡ takes → 0 < s.total
  pub attended : 0 < s.total → 0 < sum_below (λ i. alert (pc i)) 3
  pub first_buys : buys (pc 0) ≡ 1
  pub last_sells : buys (pc 2) ≡ 0

module _ {s : Stock} {pc : ℕ → Pc} (v : Inv s pc) (i : ℕ) (lt : i < 3) where
  -- What a step of thread `i` to `pc'` has to show.
  pub record Effect (s' : Stock) (pc' : Pc) : Type 0 where
    mutex : locked s'.mutex + holds (pc i) ≡ locked s.mutex + holds pc'
    kept : (s.total ≤ s'.total) ⊎ (holds (pc i) ≡ 1)
    taking : pc' ≡ takes → 0 < s'.total
    alerted : 0 < s'.total → (0 < alert pc') ⊎ ((0 < s.total) × (alert (pc i) ≤ alert pc'))
    role : i ≡ 0 → buys pc' ≡ 1
    seller : i ≡ 2 → buys pc' ≡ 0

  pub Effect-Inv : (s' : Stock) (pc' : Pc) → Effect s' pc' → Inv s' (update pc i pc')
  Effect-Inv s' pc' e = record {
    one_holder = omega (arith, e.mutex, v.one_holder, sum_below-update holds pc i 3 pc' lt);
    in_stock = λ j low at. elim (ℕ_discrete i j) [
      | yes same ↦ e.taking (ground arith)
      | no other ↦
          let at' : pc j ≡ takes = ground arith in
          elim e.kept [
            | inl more ↦ omega (arith, more, v.in_stock j low at')
            | inr inside ↦ absurd (
                omega (
                  arith,
                  v.one_holder,
                  locked_le s.mutex,
                  inside,
                  ap holds at',
                  add-le-sum_below (λ k. holds (pc k)) i j 3 lt low other,
                ))
          ]
    ];
    attended = λ some_there. elim (e.alerted some_there) [
      | inl up ↦
          omega (
            arith,
            up,
            sum_below-update alert pc i 3 pc' lt,
            le-sum_below (λ k. alert (pc k)) i 3 lt,
          )
      | inr (was, stays) ↦
          omega (arith, stays, v.attended was, sum_below-update alert pc i 3 pc' lt)
    ];
    first_buys = elim (ℕ_discrete i 0) [
      | yes same ↦ ground (arith, e.role)
      | no other ↦ ground (arith, v.first_buys)
    ];
    last_sells = elim (ℕ_discrete i 2) [
      | yes same ↦ ground (arith, e.seller)
      | no other ↦ ground (arith, v.last_sells)
    ];
  }

  held : holds (pc i) ≡ 1 → s.mutex ≡ true
  held inside = elim (Bool-cases s.mutex) [
    | inl taken ↦ taken
    | inr free ↦ absurd (
        omega
          (arith, ap locked free, v.one_holder, inside, le-sum_below (λ j. holds (pc j)) i 3 lt))
  ]

  pub consume-Effect :
      i < 2
      → (q : Pc) (s' : Stock) (pc' : Pc) → pc i ≡ q
      → consume s q ≡ some (s', pc')
      → Effect s' pc'
  unfolding consume
  consume-Effect low locks s' pc' at h = ground arith
  consume-Effect low tests s' pc' at h = let taken = held (ap holds at) in ground arith
  consume-Effect low woken s' pc' at h = ground arith
  consume-Effect low takes s' pc' at h = let there = v.in_stock i lt at in ground arith
  consume-Effect low unlocks s' pc' at h = let taken = held (ap holds at) in ground arith
  consume-Effect low q s' pc' at h = absurd (ground arith)

  pub make-Effect :
      2 ≤ i
      → (q : Pc) (s' : Stock) (pc' : Pc) → pc i ≡ q
      → make s q ≡ some (s', pc')
      → Effect s' pc'
  unfolding make
  make-Effect high locks_to_make s' pc' at h = ground arith
  make-Effect high makes s' pc' at h = ground arith
  make-Effect high unlocks_made s' pc' at h = let taken = held (ap holds at) in ground arith
  make-Effect high q s' pc' at h = absurd (ground arith)

  pub woken-Effect : i < 2 → pc i ≡ waits → Effect s woken
  woken-Effect low at = ground arith
