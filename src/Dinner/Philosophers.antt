-- ===== src/Dinner/Philosophers.antt =====
-- dinner.c: the semaphore set and the philosophers' processes.
use computer_science_notes.Base.{
  ℕ, ◌+◌, ◌-◌, ◌%◌, ◌<◌, ◌≡◌, ◌&&◌, ltb, if◌then◌else◌, Option, none, some, update,
}

-- A semaphore's value for each of the five forks.
abbrev pub Set : Type 0
Set = ℕ → ℕ

abbrev pub right : ℕ → ℕ
right who = (who + 1) % 5

-- One `semop` with two operations: both or none.
unfoldable pub wait_for_forks : Set → ℕ → Option Set
wait_for_forks sem who =
    let taken = update (update sem who (sem who - 1)) (right who) (sem (right who) - 1) in
    if ltb 0 (sem who) && ltb 0 (sem (right who)) then some taken else none

unfoldable pub return_forks : Set → ℕ → Set
return_forks sem who = update (update sem who (sem who + 1)) (right who) (sem (right who) + 1)

-- `main`: every fork is there.
abbrev pub set_up : Set
set_up i = 1

pub data Pc : Type 0 where
  thinking hungry eating : Pc

-- One step of a philosopher's loop, none while it waits for its forks.
unfoldable pub have_dinner : Set → Pc → ℕ → Option (Set × Pc)
have_dinner sem thinking who = some (sem, hungry)
have_dinner sem hungry who = elim (wait_for_forks sem who) [
  | none ↦ none
  | some sem' ↦ some (sem', eating)
]
have_dinner sem eating who = some (return_forks sem who, thinking)

pub record Table : Type 0 where
  pub sem : Set
  pub pc : ℕ → Pc

abbrev pub init : Table
init = record { sem = set_up; pc = λ who. thinking }

-- The processes' steps in any order.
pub data Step (t : Table) : Table → Type 0 where
  dines :
      (who : ℕ) {sem : Set} {pc : Pc}
      → who < 5
      → have_dinner t.sem (t.pc who) who ≡ some (sem, pc)
      → Step t (record { sem = sem; pc = update t.pc who pc })

pub data Reach : Table → Type 0 where
  start : Reach init
  later : {s t : Table} → Reach s → Step s t → Reach t
