-- ===== src/Pairs/Print.antt =====
-- print.c: the parent prints `p` and the child `c`, twice each under one semaphore.
use computer_science_notes.Base.{ℕ, zero, suc, ◌≡◌, List, [], ◌∷◌, ◌++◌, Option, none, some}

-- Where a process stands in its loop: before `sem_p`, before each `printf`, before `sem_v`.
pub data Pc : Type 0 where
  wants prints_first prints_second gives_back : Pc

-- The semaphore's value and what stands on the terminal.
pub record Terminal : Type 0 where
  pub sem : ℕ
  pub shown : List ℕ

-- The next step of a process, none while it has to wait.
unfoldable pub print : Terminal → Pc → ℕ → Option (Terminal × Pc)
print t wants ch = elim t.sem [ zero ↦ none | suc v ↦ some (record t { sem = v }, prints_first) ]
print t prints_first ch = some (record t { shown = t.shown ++ ch ∷ [] }, prints_second)
print t prints_second ch = some (record t { shown = t.shown ++ ch ∷ [] }, gives_back)
print t gives_back ch = some (record t { sem = suc t.sem }, wants)

pub record System : Type 0 where
  pub terminal : Terminal
  pub parent : Pc
  pub child : Pc

abbrev pub init : System
init = record { terminal = record { sem = 1; shown = [] }; parent = wants; child = wants }

-- The two processes' steps in any order.
pub data Step (s : System) : System → Type 0 where
  parent_prints :
      {t : Terminal} {pc : Pc}
      → print s.terminal s.parent 112 ≡ some (t, pc)
      → Step s (record s { terminal = t; parent = pc })
  child_prints :
      {t : Terminal} {pc : Pc}
      → print s.terminal s.child 99 ≡ some (t, pc)
      → Step s (record s { terminal = t; child = pc })

pub data Reach : System → Type 0 where
  start : Reach init
  later : {s t : System} → Reach s → Step s t → Reach t
