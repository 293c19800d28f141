-- ===== src/Multiplex/PollRoom.antt =====
-- poll_server.c: as many slots as descriptors, so that there is a slot for every client.
use computer_science_notes.Base.{
  ℕ, zero, suc, ◌+◌, ◌≤◌, ◌<◌, ◌≡◌, ◌≢◌, refl, sym, ap, subst, ◌∙◌, inl, inr, Option, Option-cases,
  none, some, true, false, ◌==◌, if◌then◌else◌, arith, ℕ_discrete, done,
}
use computer_science_notes.Multiplex.Slots.{find_slot, find_slot-free, find_slot-below}
use computer_science_notes.Multiplex.Poll.{max_total, PollServer, accept_poll}
use computer_science_notes.Multiplex.PollTable.{PollKept, poll_seated}

-- `n` different numbers below `m`: then `n` is at most `m`.
pigeonhole :
    (n m : ℕ) (f : ℕ → ℕ)
    → ((i : ℕ) → i < n → f i < m)
    → ((i j : ℕ) → i < n → j < n → f i ≡ f j → i ≡ j)
    → n ≤ m
pigeonhole zero m f below single = omega arith
pigeonhole (suc n) zero f below single =
    let none_below : f 0 < 0 = below 0 (omega arith) in absurd (omega arith)
pigeonhole (suc n) (suc m) f below single =
    let rest : n ≤ m =
      pigeonhole n m (λ i. if f i == m then f n else f i)
        (λ i low. ground (arith, below i, below n, single i n))
        (λ i j low low' e. ground (arith, single i j, single i n, single j n)) in
    omega arith

-- `n` different numbers below `n` leave none out.
none_left_out :
    (n c : ℕ) (f : ℕ → ℕ)
    → ((i : ℕ) → i < n → f i < n)
    → ((i j : ℕ) → i < n → j < n → f i ≡ f j → i ≡ j)
    → c < n
    → ¬ ((i : ℕ) → i < n → f i ≢ c)
none_left_out n c f below single low missed =
    let too_many : suc n ≤ n =
      pigeonhole (suc n) n (λ i. if i == n then c else f i) (λ i less. ground (arith, below i))
        (λ i j less less' e. ground (arith, missed i, missed j, single i j)) in
    omega arith

-- Where there is no free slot, every slot has a descriptor.
find_slot-none :
    (slots : ℕ → Option ℕ) (k i j : ℕ)
    → find_slot slots k i ≡ none
    → i ≤ j
    → j < i + k
    → (fd : ℕ) × (slots j ≡ some fd)
unfolding find_slot
find_slot-none slots zero i j e low high = absurd (omega arith)
find_slot-none slots (suc k) i j e low high = elim (ℕ_discrete i j) [
  | no later ↦ find_slot-none slots k (i + 1) j (ground arith) (omega arith) (omega arith)
  | yes here ↦ elim (Option-cases (slots j)) [
    | inr taken ↦ taken
    | inl free ↦ absurd (ground arith)
  ]
]

abbrev descriptor : Option ℕ → ℕ
descriptor none = 0
descriptor (some fd) = fd

-- The slots cannot all be taken while a descriptor below the limit is not in use.
never_full :
    (sockfd : ℕ) (s : PollServer) (cfd : ℕ)
    → PollKept sockfd s
    → cfd < max_total
    → s.is_open cfd ≡ false
    → find_slot s.fds max_total 0 ≢ none
never_full sockfd s cfd v low new full =
    let taken = λ (j : ℕ) (below : j < max_total).
      find_slot-none s.fds max_total 0 j full (omega arith) (omega arith) in
    let held = λ (j : ℕ) (below : j < max_total).
      (let (fd, at) = taken j below in subst (λ o. (o ≡ some (descriptor o))) (sym at) refl) in
    none_left_out max_total cfd (λ j. descriptor (s.fds j))
      (λ j below. v.limited j (descriptor (s.fds j)) (held j below))
      (λ i j low low' e.
        v.once i j (descriptor (s.fds i)) (held i low) (held j low' ∙ ap some (sym e)))
      low (λ j below e. ground (arith, v.live j (descriptor (s.fds j)) (held j below)))

-- An accepted client always finds a slot: there are as many slots as the process may have
-- descriptors, so that the loop over the slots ends with one that `poll` is given, in which the
-- descriptor stands. The table is as the rounds keep it, and `accept` returns a descriptor that was
-- not open, below the limit.
pub accepted_is_served :
    (sockfd : ℕ) (s : PollServer) (cfd : ℕ)
    → PollKept sockfd s
    → cfd < max_total
    → s.is_open cfd ≡ false
    → (s' : PollServer) × (i : ℕ) × (accept_poll s (some cfd) ≡ done s')
      × (s.fds i ≡ none)
      × (s'.fds i ≡ some cfd)
      × (1 ≤ i)
      × (i ≤ s'.max_pos)
      × (s'.max_pos < max_total)
      × (s'.is_open cfd ≡ true)
unfolding accept_poll poll_seated
accepted_is_served sockfd s cfd v low new = elim (Option-cases (find_slot s.fds max_total 0)) [
  | inl full ↦ absurd (never_full sockfd s cfd v low new full)
  | inr (i, room) ↦
      let (bottom, below) = find_slot-below s.fds max_total 0 i room in
      let free = find_slot-free s.fds max_total 0 i room in
      (
        poll_seated s i cfd,
        i,
        ground arith,
        free,
        ground arith,
        ground (arith, v.listener),
        ground arith,
        ground (arith, v.inside),
        ground arith,
      )
]
