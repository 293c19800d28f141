-- ===== src/BpTree/Demo.antt =====
-- bptree.cpp: the runs of `main`, which inserts keys into an empty file and queries them.
use computer_science_notes.Base.{
  ℕ, zero, suc, ◌+◌, ◌*◌, ◌≤◌, ◌<◌, ◌≡◌, refl, ap, ◌∙◌, false, ◌==◌, if◌then◌else◌, none, some,
  Option-cases, inl, inr, List, [], ◌∷◌, length, Run, done, ◌>>=◌, arith, ℕ_discrete,
}
use computer_science_notes.BpTree.Node.{File, no_pointer}
use computer_science_notes.BpTree.Search.{query}
use computer_science_notes.BpTree.Insert.{build, insert}
use computer_science_notes.BpTree.Shape.{Index, key_limit}
use computer_science_notes.BpTree.Insertion.{insert_absent}
use computer_science_notes.BpTree.Refinement.{
  IsIndex, answer, query-answer, insert-IsIndex, build-IsIndex,
}

-- The key `i` of the source, counted from the least `int`.
abbrev pub int_key : ℕ → ℕ
int_key i = i + 2147483648

-- The pairs that `main` inserts, in its order.
unfoldable pub countdown : ℕ → List (ℕ × ℕ)
countdown zero = []
countdown (suc i) = (int_key i, i * 100) ∷ countdown i

unfoldable pub insert_each : ℕ → List (ℕ × ℕ) → File → Run File
insert_each fuel [] f = done f
insert_each fuel ((k, p) ∷ pairs) f = insert fuel f k p >>= insert_each fuel pairs

abbrev pub AreKeys : List (ℕ × ℕ) → Type 0
AreKeys [] = Unit {0}
AreKeys ((k, p) ∷ pairs) = (k < key_limit) × AreKeys pairs

-- The pointer that a list of pairs has for a key: that of the first pair with the key.
abbrev pub first_pointer : List (ℕ × ℕ) → Index
first_pointer [] k = none
first_pointer ((k', p) ∷ pairs) k = if k' == k then some p else first_pointer pairs k

unfoldable pub insert_index : Index → List (ℕ × ℕ) → Index
insert_index m [] = m
insert_index m ((k, p) ∷ pairs) = insert_index (insert_absent m k p) pairs

pub insert_each-IsIndex :
    (fuel : ℕ) (pairs : List (ℕ × ℕ)) (f : File) (m : Index) (height : ℕ)
    → IsIndex f m height
    → height + length pairs < fuel
    → AreKeys pairs
    → (f' : File) × (height' : ℕ) × (insert_each fuel pairs f ≡ done f')
      × IsIndex f' (insert_index m pairs) height'
      × (height' < fuel)
unfolding insert_each insert_index
insert_each-IsIndex fuel [] f m height is enough keys = (f, height, refl, is, omega arith)
insert_each-IsIndex fuel ((k, p) ∷ pairs) f m height is enough (key, keys) =
    let (f1, height1, runs, is1, grows) = insert-IsIndex f m height fuel k p is (omega arith) key in
    let (f2, height2, runs2, is2, low) =
      insert_each-IsIndex fuel pairs f1 (insert_absent m k p) height1 is1 (omega arith) keys in
    (f2, height2, rw runs runs2, is2, low)

insert_absent-some : (m : Index) (k p x q : ℕ) → m x ≡ some q → insert_absent m k p x ≡ some q
insert_absent-some m k p x q e = elim (Option-cases (m k)) [
  | inl new ↦ elim (ℕ_discrete k x) [
    | yes same ↦ absurd (cc (ap m same))
    | no other ↦ rw (new, insert_absent) (ground arith)
  ]
  | inr (q', old) ↦ rw (old, insert_absent) e
]

insert_absent-none :
    (m : Index) (k p x : ℕ) → m x ≡ none → insert_absent m k p x ≡ (if k == x then some p else none)
insert_absent-none m k p x e = elim (Option-cases (m k)) [
  | inl new ↦ rw (new, insert_absent) (ground arith)
  | inr (q', old) ↦ elim (ℕ_discrete k x) [
    | yes same ↦ absurd (cc (ap m same))
    | no other ↦ rw (old, insert_absent) (ground arith)
  ]
]

insert_index-some :
    (pairs : List (ℕ × ℕ)) (m : Index) (k q : ℕ) → m k ≡ some q → insert_index m pairs k ≡ some q
unfolding insert_index
insert_index-some [] m k q e = e
insert_index-some ((k', p) ∷ pairs) m k q e =
    insert_index-some pairs (insert_absent m k' p) k q (insert_absent-some m k' p k q e)

insert_index-none :
    (pairs : List (ℕ × ℕ)) (m : Index) (k : ℕ)
    → m k ≡ none
    → insert_index m pairs k ≡ first_pointer pairs k
unfolding insert_index
insert_index-none [] m k e = e
insert_index-none ((k', p) ∷ pairs) m k e = elim (ℕ_discrete k' k) [
  | yes same ↦
      insert_index-some pairs (insert_absent m k' p) k p
        (insert_absent-none m k' p k e ∙ ground arith)
      ∙ ground arith
  | no other ↦
      insert_index-none pairs (insert_absent m k' p) k
        (insert_absent-none m k' p k e ∙ ground arith)
      ∙ ground arith
]

-- Insertion of any pairs into an empty file, with fuel above their number, returns a file on which
-- `query` answers for every key with the pointer of the first pair that has it, and with -1 if none
-- has.
pub query-insert_each :
    (f : File) (pairs : List (ℕ × ℕ)) (fuel : ℕ)
    → f.size ≡ 0
    → length pairs < fuel
    → AreKeys pairs
    → (f' : File) × (insert_each fuel pairs (build f) ≡ done f')
      × ((k : ℕ) → k < key_limit → query fuel f' k false ≡ done (answer (first_pointer pairs) k))
query-insert_each f pairs fuel empty enough keys =
    let (f', height, runs, is, low) =
      insert_each-IsIndex fuel pairs (build f) (λ k. none) 0 (build-IsIndex f empty) (omega arith)
        keys in
    (
      f',
      runs,
      λ k lt.
          query-answer f' (insert_index (λ x. none) pairs) height fuel k is low lt
          ∙ ap (λ o. done (elim o as (λ _. ℕ) [ some q ↦ q | none ↦ no_pointer ]))
              (insert_index-none pairs (λ x. none) k refl),
    )

countdown-AreKeys : (total : ℕ) → total ≤ 2147483648 → AreKeys (countdown total)
unfolding countdown
countdown-AreKeys zero le = tt
countdown-AreKeys (suc i) le = (omega arith, countdown-AreKeys i (omega arith))

length-countdown : (total : ℕ) → length (countdown total) ≡ total
unfolding countdown
length-countdown zero = refl
length-countdown (suc i) = omega (arith, length-countdown i)

countdown-pointer :
    (total i : ℕ) → i < total → first_pointer (countdown total) (int_key i) ≡ some (i * 100)
unfolding countdown
countdown-pointer zero i lt = absurd (omega arith)
countdown-pointer (suc n) i lt = elim (ℕ_discrete n i) [
  | yes same ↦ ground arith
  | no other ↦ ground (arith, countdown-pointer n i (omega arith))
]

-- What `main` prints of its keys after it has inserted them, for any number of them such that
-- `i * 100` stays an `int`: the key `i` has the pointer `i * 100`.
pub main_prints :
    (f : File) (total : ℕ)
    → f.size ≡ 0
    → total ≤ 21474837
    → (f' : File) × (insert_each (suc total) (countdown total) (build f) ≡ done f')
      × ((i : ℕ) → i < total → query (suc total) f' (int_key i) false ≡ done (i * 100))
main_prints f total empty le =
    let (f', runs, answers) =
      query-insert_each f (countdown total) (suc total) empty
        (omega (arith, length-countdown total)) (countdown-AreKeys total (omega arith)) in
    (
      f',
      runs,
      λ i lt.
          answers (int_key i) (omega arith)
          ∙ ap (λ o. done (elim o as (λ _. ℕ) [ some q ↦ q | none ↦ no_pointer ]))
              (countdown-pointer total i lt),
    )
