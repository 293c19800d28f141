-- ===== src/Pairs/Order.antt =====
-- print.c: what the terminal shows.
use mathlib.Core.Option.{some-injective}
use computer_science_notes.Base.{
  ℕ, ◌+◌, ◌<◌, ◌≡◌, ◌≢◌, refl, sym, ap, ◌∙◌, subst, List, [], ◌∷◌, ◌++◌, append_assoc, some, arith,
}
use computer_science_notes.Pairs.Print.{
  Pc, wants, prints_first, prints_second, gives_back, Terminal, print, System, parent_prints,
  child_prints, Reach, start, later,
}

abbrev holds : Pc → ℕ
holds wants = 0
holds pc = 1

-- Each letter twice.
abbrev pub IsPaired : List ℕ → Type 0
IsPaired [] = Unit
IsPaired (x ∷ []) = ⊥
IsPaired (x ∷ y ∷ zs) = (x ≡ y) × IsPaired zs

IsPaired-append : (xs : List ℕ) (c : ℕ) → IsPaired xs → IsPaired (xs ++ c ∷ c ∷ [])
IsPaired-append [] c h = (refl, tt)
IsPaired-append (x ∷ []) c h = absurd h
IsPaired-append (x ∷ y ∷ zs) c h = (h.0, IsPaired-append zs c h.1)

-- Pairs and one letter more.
abbrev Half : ℕ → List ℕ → Type 0
Half c shown = (xs : List ℕ) × IsPaired xs × (shown ≡ xs ++ c ∷ [])

-- What is shown while one process is at `p` with the letter `a`, and the other does not hold the
-- semaphore.
abbrev Shown : Pc → ℕ → List ℕ → Type 0
Shown prints_second a shown = Half a shown
Shown pc a shown = IsPaired shown

-- One process, at `p` with the letter `a`, may be in the section, or the other.
pub data Fits (t : Terminal) (p : Pc) (a : ℕ) (q : Pc) (b : ℕ) : Type 0 where
  left_in : q ≡ wants → t.sem + holds p ≡ 1 → Shown p a t.shown → Fits t p a q b
  right_in : p ≡ wants → t.sem + holds q ≡ 1 → Shown q b t.shown → Fits t p a q b

moves_Shown :
    (t t' : Terminal) (p p' : Pc) (a : ℕ)
    → t.sem + holds p ≡ 1
    → Shown p a t.shown
    → print t p a ≡ some (t', p')
    → (t'.sem + holds p' ≡ 1) × Shown p' a t'.shown
unfolding print
moves_Shown t t' wants p' a one h e =
    let at : p' ≡ prints_first = ground arith in
    let same : t'.shown ≡ t.shown = ground arith in
    let less : t'.sem + 1 ≡ t.sem = ground arith in
    (
      omega (arith, ap holds at),
      subst (λ q. Shown q a t'.shown) (sym at) (subst IsPaired (sym same) h),
    )
moves_Shown t t' prints_first p' a one h e =
    subst (λ r. (r.0.sem + holds r.1 ≡ 1) × Shown r.1 a r.0.shown) (some-injective _ _ e)
      (one, (t.shown, h, refl))
moves_Shown t t' prints_second p' a one (xs, paired, is) e =
    subst (λ r. (r.0.sem + holds r.1 ≡ 1) × Shown r.1 a r.0.shown) (some-injective _ _ e)
      (
        one,
        subst IsPaired (sym (append_assoc xs (a ∷ []) (a ∷ [])) ∙ ap (λ l. l ++ a ∷ []) (sym is))
            (IsPaired-append xs a paired),
      )
moves_Shown t t' gives_back p' a one h e =
    subst (λ r. (r.0.sem + holds r.1 ≡ 1) × Shown r.1 a r.0.shown) (some-injective _ _ e)
      (omega (arith, one), h)

-- While the other process holds the semaphore, one at `wants` cannot move.
blocked :
    (t t' : Terminal) (p p' : Pc) (a : ℕ) → p ≡ wants → t.sem ≡ 0 → print t p a ≡ some (t', p') → ⊥
unfolding print
blocked t t' p p' a at gone e = ground arith

Pc-holds : (q : Pc) (n : ℕ) → n + holds q ≡ 1 → q ≢ wants → n ≡ 0
Pc-holds wants n one away = absurd (away refl)
Pc-holds prints_first n one away = omega arith
Pc-holds prints_second n one away = omega arith
Pc-holds gives_back n one away = omega arith

-- Who moves has the section, or may have it.
turn :
    (t t' : Terminal) (p p' : Pc) (a : ℕ) (q : Pc) (b : ℕ)
    → Fits t p a q b
    → print t p a ≡ some (t', p')
    → (q ≡ wants) × (t.sem + holds p ≡ 1) × Shown p a t.shown
turn t t' p p' a q b (left_in at one h) e = (at, one, h)
turn t t' p p' a wants b (right_in at one h) e =
    (refl, omega (arith, ap holds at), subst (λ r. Shown r a t.shown) (sym at) h)
turn t t' p p' a prints_first b (right_in at one h) e =
    absurd (blocked t t' p p' a at (Pc-holds prints_first t.sem one (λ x. cc)) e)
turn t t' p p' a prints_second b (right_in at one h) e =
    absurd (blocked t t' p p' a at (Pc-holds prints_second t.sem one (λ x. cc)) e)
turn t t' p p' a gives_back b (right_in at one h) e =
    absurd (blocked t t' p p' a at (Pc-holds gives_back t.sem one (λ x. cc)) e)

Fits-swap : (t : Terminal) (p : Pc) (a : ℕ) (q : Pc) (b : ℕ) → Fits t p a q b → Fits t q b p a
Fits-swap t p a q b (left_in at one h) = right_in at one h
Fits-swap t p a q b (right_in at one h) = left_in at one h

print-Fits :
    (t t' : Terminal) (p p' : Pc) (a : ℕ) (q : Pc) (b : ℕ)
    → Fits t p a q b
    → print t p a ≡ some (t', p')
    → Fits t' p' a q b
print-Fits t t' p p' a q b f e =
    let (at, one, h) = turn t t' p p' a q b f e in
    let (one', h') = moves_Shown t t' p p' a one h e in left_in at one' h'

Reach-Fits : {s : System} → Reach s → Fits s.terminal s.parent 112 s.child 99
Reach-Fits start = left_in refl refl tt
Reach-Fits (later {s} r (parent_prints {t} {pc} e)) =
    print-Fits s.terminal t s.parent pc 112 s.child 99 (Reach-Fits r) e
Reach-Fits (later {s} r (child_prints {t} {pc} e)) = Fits-swap t pc 99 s.parent 112 (
    print-Fits s.terminal t s.child pc 99 s.parent 112
      (Fits-swap s.terminal s.parent 112 s.child 99 (Reach-Fits r)) e)

free-IsPaired :
    (p : Pc) (n a : ℕ) (shown : List ℕ) → n + holds p ≡ 1 → 0 < n → Shown p a shown → IsPaired shown
free-IsPaired wants n a shown one free h = h
free-IsPaired prints_first n a shown one free h = absurd (omega arith)
free-IsPaired prints_second n a shown one free h = absurd (omega arith)
free-IsPaired gives_back n a shown one free h = absurd (omega arith)

-- In whatever order the two processes' steps run, whenever the semaphore is free the terminal shows
-- each letter twice in a row: the processes never print between each other's letters.
pub letters_in_pairs : {s : System} → Reach s → 0 < s.terminal.sem → IsPaired s.terminal.shown
letters_in_pairs {s} r free = elim (Reach-Fits r) [
  | left_in at one h ↦ free-IsPaired s.parent s.terminal.sem 112 s.terminal.shown one free h
  | right_in at one h ↦ free-IsPaired s.child s.terminal.sem 99 s.terminal.shown one free h
]
