-- ===== src/Reactor/Sweep.antt =====
-- Which connections the search for idle ones closes.
use computer_science_notes.Base.{
  ℕ, zero, suc, ◌+◌, ◌-◌, ◌≤◌, ◌<◌, ◌≡◌, ◌≢◌, refl, sym, ap, ◌∙◌, subst, ◌⊎◌, inl, inr, Bool-cases,
  none, false, ◌==◌, ==_iff, leb, if◌then◌else◌, arith, ℕ_discrete,
}
use computer_science_notes.Reactor.Table.{max_events, Entry, Reactor, eventdel, close}
use computer_science_notes.Reactor.Handlers.{check_idle, sweep}

-- Idle for a minute and in use.
abbrev pub IsIdle : Entry → ℕ → Type 0
IsIdle ev now = (ev.status ≡ 1) × (60 ≤ now - ev.last_active)

-- Left as it was, or idle before and taken out.
abbrev pub Spared : Entry → Entry → ℕ → Type 0
Spared before after now = (after ≡ before) ⊎ (IsIdle before now × (after.status ≡ 0))

-- Out of use, with the descriptor closed and unregistered.
abbrev pub IsClosed : Reactor → ℕ → ℕ → Type 0
IsClosed r j fd = ((r.g_events j).status ≡ 0) × (r.is_open fd ≡ false) × (r.interest fd ≡ none)

check_idle_self :
    (r : Reactor) (i now : ℕ)
    → IsIdle (r.g_events i) now
    → IsClosed (check_idle r i now) i (r.g_events i).fd
unfolding check_idle eventdel close
check_idle_self r i now h = (ground arith, ground arith, ground arith)

check_idle_other :
    (r : Reactor) (i j now : ℕ) → i ≢ j → (check_idle r i now).g_events j ≡ r.g_events j
unfolding check_idle eventdel close
check_idle_other r i j now other = ground arith

check_idle_recent :
    (r : Reactor) (i now : ℕ)
    → ((r.g_events i).status == 1 ≡ false) ⊎ (leb 60 (now - (r.g_events i).last_active) ≡ false)
    → check_idle r i now ≡ r
unfolding check_idle
check_idle_recent r i now h = ground arith

check_idle_spares :
    (r : Reactor) (i j now : ℕ) → Spared (r.g_events j) ((check_idle r i now).g_events j) now
check_idle_spares r i j now = elim (ℕ_discrete i j) [
  | no other ↦ inl (check_idle_other r i j now other)
  | yes same ↦ elim (Bool-cases ((r.g_events i).status == 1)) [
    | inr off ↦ inl (ap (λ s. s.g_events j) (check_idle_recent r i now (inl off)))
    | inl on ↦ elim (Bool-cases (leb 60 (now - (r.g_events i).last_active))) [
      | inr recent ↦ inl (ap (λ s. s.g_events j) (check_idle_recent r i now (inr recent)))
      | inl old ↦
          let idle : IsIdle (r.g_events i) now = ((==_iff _ _).0 on, ground arith) in
          inr (
            subst (λ k. IsIdle (r.g_events k) now) same idle,
            subst (λ k. ((check_idle r i now).g_events k).status ≡ 0) same
                (check_idle_self r i now idle).0,
          )
    ]
  ]
]

Spared-trans : {a b c : Entry} → (now : ℕ) → Spared a b now → Spared b c now → Spared a c now
Spared-trans now (inl e) (inl e') = inl (e' ∙ e)
Spared-trans {a} {b} {c} now (inl e) (inr (idle, off)) = inr (subst (λ x. IsIdle x now) e idle, off)
Spared-trans now (inr (idle, off)) (inl e') = inr (idle, ap (λ x. x.status) e' ∙ off)
Spared-trans now (inr (idle, off)) (inr ((on, late), off')) = inr (idle, off')

-- Whatever the search does to an entry, it leaves it as it was, or the entry was in use and had
-- been idle for a minute and is out of use afterwards.
pub sweep_spares :
    (k : ℕ) (r : Reactor) (checkpos j now : ℕ)
    → Spared (r.g_events j) ((sweep k r checkpos now).0.g_events j) now
unfolding sweep
sweep_spares zero r checkpos j now = inl refl
sweep_spares (suc k) r checkpos j now =
    let i : ℕ = if checkpos == max_events then 0 else checkpos in
    Spared-trans now (check_idle_spares r i j now)
      (sweep_spares k (check_idle r i now) (i + 1) j now)

-- The search opens nothing and registers nothing.
check_idle_shut :
    (r : Reactor) (i fd now : ℕ)
    → (r.is_open fd ≡ false) × (r.interest fd ≡ none)
    → ((check_idle r i now).is_open fd ≡ false) × ((check_idle r i now).interest fd ≡ none)
unfolding check_idle eventdel close
check_idle_shut r i fd now (shut, gone) = (ground arith, ground arith)

sweep_shut :
    (k : ℕ) (r : Reactor) (checkpos fd now : ℕ)
    → (r.is_open fd ≡ false) × (r.interest fd ≡ none)
    → let r' = (sweep k r checkpos now).0 in (r'.is_open fd ≡ false) × (r'.interest fd ≡ none)
unfolding sweep
sweep_shut zero r checkpos fd now h = h
sweep_shut (suc k) r checkpos fd now h =
    let i : ℕ = if checkpos == max_events then 0 else checkpos in
    sweep_shut k (check_idle r i now) (i + 1) fd now (check_idle_shut r i fd now h)

-- Once closed, it stays closed.
stays-IsClosed :
    (k : ℕ) (r : Reactor) (checkpos j fd now : ℕ)
    → IsClosed r j fd
    → IsClosed (sweep k r checkpos now).0 j fd
stays-IsClosed k r checkpos j fd now (off, shut, gone) =
    let off' : ((sweep k r checkpos now).0.g_events j).status ≡ 0 =
      elim (sweep_spares k r checkpos j now) [
        | inl same ↦ ap (λ x. x.status) same ∙ off
        | inr (idle, out) ↦ out
      ] in
    let (shut', gone') = sweep_shut k r checkpos fd now (shut, gone) in (off', shut', gone')

still-IsIdle :
    (r : Reactor) (i j now : ℕ)
    → i ≢ j
    → IsIdle (r.g_events j) now
    → IsIdle ((check_idle r i now).g_events j) now
still-IsIdle r i j now other idle =
    subst (λ x. IsIdle x now) (sym (check_idle_other r i j now other)) idle

-- The entry `j` is among the `k` that the search passes from `checkpos` on, which goes on with the
-- first entry behind the last one.
abbrev pub IsPassed : ℕ → ℕ → ℕ → Type 0
IsPassed k checkpos j = ((checkpos ≤ j) × (j < checkpos + k)) ⊎ (j + max_events < checkpos + k)

-- The index that the search looks at, and what is left to pass after it.
IsPassed-next :
    (k checkpos j : ℕ)
    → checkpos ≤ max_events
    → j < max_events
    → IsPassed (suc k) checkpos j
    → let i : ℕ = if checkpos == max_events then 0 else checkpos in
      (i < max_events) × ((i ≡ j) ⊎ IsPassed k (i + 1) j)
IsPassed-next k checkpos j here inside passed = elim (ℕ_discrete checkpos max_events) [
  | yes end ↦ elim (ℕ_discrete 0 j) [
    | yes first ↦ (ground arith, inl (ground arith))
    | no other ↦ (ground arith, inr (inl (ground arith)))
  ]
  | no middle ↦ elim (ℕ_discrete checkpos j) [
    | yes now ↦ (ground arith, inl (ground arith))
    | no other ↦ (
      ground arith,
      inr (elim passed [ inl (low, high) ↦ inl (ground arith) | inr around ↦ inr (ground arith) ]),
    )
  ]
]

-- A search of `k` entries from `checkpos` on takes every idle entry that it passes out of use,
-- closes its descriptor and takes that off the interest list; at the table's end it goes on with
-- the first entry.
pub sweep_closes_idle :
    (k : ℕ) (r : Reactor) (checkpos j now : ℕ)
    → checkpos ≤ max_events
    → j < max_events
    → IsPassed k checkpos j
    → IsIdle (r.g_events j) now
    → IsClosed (sweep k r checkpos now).0 j (r.g_events j).fd
unfolding sweep
sweep_closes_idle zero r checkpos j now here inside passed idle = absurd (omega arith)
sweep_closes_idle (suc k) r checkpos j now here inside passed idle =
    let i : ℕ = if checkpos == max_events then 0 else checkpos in
    let (below, rest) = IsPassed-next k checkpos j here inside passed in
    let later : i ≢ j
        → IsPassed k (i + 1) j
        → IsClosed (sweep (suc k) r checkpos now).0 j (r.g_events j).fd =
      λ other passed'.
        subst (λ e. IsClosed (sweep k (check_idle r i now) (i + 1) now).0 j e.fd)
          (check_idle_other r i j now other)
          (sweep_closes_idle k (check_idle r i now) (i + 1) j now (omega (arith, below)) inside
            passed' (still-IsIdle r i j now other idle)) in
    elim (ℕ_discrete i j) [
      | yes same ↦ stays-IsClosed k (check_idle r i now) (i + 1) j (r.g_events j).fd now (
          subst (λ n. IsClosed (check_idle r i now) n (r.g_events n).fd) same
            (check_idle_self r i now (subst (λ n. IsIdle (r.g_events n) now) (sym same) idle)))
      | no other ↦ elim rest [ inl same ↦ absurd (other same) | inr passed' ↦ later other passed' ]
    ]
