-- ===== src/ThreadPool/Tasks.antt =====
-- The task queue of threadpool.c: `first`, `last` and the `next` fields of the nodes.
-- A node is named by its address, which stands for the task in it.
use computer_science_notes.Base.{
  ℕ, ◌≡◌, ◌≢◌, refl, ap₂, sym, subst, List, [], ◌∷◌, ◌++◌, Option, none, some, Bool, true, false,
  All, ◌==◌, if◌then◌else◌, update, arith, All-append,
}

pub record Tasks : Type 0 where
  pub first : Option ℕ
  pub last : Option ℕ
  pub next : ℕ → Option ℕ

abbrev pub no_tasks : Tasks
no_tasks = record { first = none; last = none; next = λ t. none }

-- `pool->first == pool->last`
abbrev pub same : Option ℕ → Option ℕ → Bool
same none none = true
same none (some b) = false
same (some a) none = false
same (some a) (some b) = a == b

abbrev pub is_null : Option ℕ → Bool
is_null none = true
is_null (some t) = false

-- The part of `threadpool_add_task` that links the new node in. A write through a null `last` is
-- left out: `Linked` excludes it.
unfoldable pub enqueue : Tasks → ℕ → Tasks
enqueue q t = elim q.first [
  | none ↦ record { first = some t; last = some t; next = update q.next t none }
  | some f ↦ record {
    first = some f;
    last = some t;
    next = elim q.last [
      | none ↦ update q.next t none
      | some l ↦ update (update q.next t none) l (some t)
    ];
  }
]

-- The part of `handle_thread` that takes the head node `t` out.
unfoldable pub dequeue : Tasks → ℕ → Tasks
dequeue q t =
    if same q.first q.last
    then record q { first = none; last = none }
    else record q { first = q.next t }

-- The nodes from `first` to `last` by way of `next`.
abbrev pub IsChain : (ℕ → Option ℕ) → Option ℕ → Option ℕ → List ℕ → Type 0
IsChain next first last [] = (first ≡ none) × (last ≡ none)
IsChain next first last (t ∷ []) = (first ≡ some t) × (last ≡ some t) × (next t ≡ none)
IsChain next first last (t ∷ u ∷ ts) =
    (first ≡ some t) × (next t ≡ some u) × IsChain next (some u) last (u ∷ ts)

abbrev pub Absent : ℕ → List ℕ → Type 0
Absent t = All (λ u. t ≢ u)

abbrev pub AllDistinct : List ℕ → Type 0
AllDistinct [] = Unit
AllDistinct (t ∷ ts) = Absent t ts × AllDistinct ts

-- The queue holds the tasks of the list, in its order.
pub record Linked (q : Tasks) (ts : List ℕ) : Type 0 where
  pub chain : IsChain q.next q.first q.last ts
  pub distinct : AllDistinct ts

last_of_chain :
    (next : ℕ → Option ℕ) (first last : Option ℕ) (t : ℕ) (ts : List ℕ)
    → IsChain next first last (t ∷ ts)
    → (l : ℕ) × (last ≡ some l)
last_of_chain next first last t [] c = (t, c.1)
last_of_chain next first last t (u ∷ ts) c = last_of_chain next (some u) last u ts c.2

pub first_of_chain :
    (next : ℕ → Option ℕ) (first last : Option ℕ) (t : ℕ) (ts : List ℕ)
    → IsChain next first last (t ∷ ts)
    → first ≡ some t
first_of_chain next first last t [] c = c.0
first_of_chain next first last t (u ∷ ts) c = c.0

last_present :
    (next : ℕ → Option ℕ) (first last : Option ℕ) (x l t : ℕ) (ts : List ℕ)
    → IsChain next first last (t ∷ ts)
    → last ≡ some l
    → Absent x (t ∷ ts)
    → x ≢ l
last_present next first last x l t [] c e a = λ same. a.0 (ground arith)
last_present next first last x l t (u ∷ ts) c e a =
    last_present next (some u) last x l u ts c.2 e a.1

IsChain-snoc :
    (next : ℕ → Option ℕ) (first last : Option ℕ) (l new t : ℕ) (ts : List ℕ)
    → IsChain next first last (t ∷ ts)
    → last ≡ some l
    → AllDistinct (t ∷ ts)
    → Absent new (t ∷ ts)
    → IsChain (update (update next new none) l (some new)) first (some new) ((t ∷ ts) ++ new ∷ [])
IsChain-snoc next first last l new t [] c e d a = ground arith
IsChain-snoc next first last l new t (u ∷ ts) c e d a =
    let ne = last_present next (some u) last t l u ts c.2 e d.0 in
    let rest = IsChain-snoc next (some u) last l new u ts c.2 e d.1 a.1 in (c.0, ground arith, rest)

distinct-snoc :
    (new : ℕ) (ts : List ℕ) → AllDistinct ts → Absent new ts → AllDistinct (ts ++ new ∷ [])
distinct-snoc new [] d a = (tt, tt)
distinct-snoc new (t ∷ ts) d a = (
  All-append (λ u. t ≢ u) ts (new ∷ []) d.0 ((λ e. a.0 (ground arith)), tt),
  distinct-snoc new ts d.1 a.1,
)

-- Adding a task whose node is new puts it at the end.
pub enqueue-Linked :
    (q : Tasks) (ts : List ℕ) (t : ℕ)
    → Linked q ts
    → Absent t ts
    → Linked (enqueue q t) (ts ++ t ∷ [])
unfolding enqueue
enqueue-Linked q [] t v a = record { chain = ground arith; distinct = (tt, tt) }
enqueue-Linked q (u ∷ ts) t v a =
    let c = v.chain in
    let head = first_of_chain q.next q.first q.last u ts c in
    let (l, tail) = last_of_chain q.next q.first q.last u ts c in
    record {
      chain =
          ground
            (arith, head, tail, IsChain-snoc q.next q.first q.last l t u ts c tail v.distinct a);
      distinct = distinct-snoc t (u ∷ ts) v.distinct a;
    }

-- Taking the head out leaves the others, and `first == last` tells when there are none.
pub dequeue-Linked : (q : Tasks) (t : ℕ) (ts : List ℕ) → Linked q (t ∷ ts) → Linked (dequeue q t) ts
unfolding dequeue
dequeue-Linked q t [] v = record { chain = ground arith; distinct = tt }
dequeue-Linked q t (u ∷ ts) v =
    let c = v.chain in
    let (l, tail) = last_of_chain q.next (some u) q.last u ts c.2 in
    let ne = last_present q.next (some u) q.last t l u ts c.2 tail v.distinct.0 in
    record { chain = ground (arith, c.2, tail, ne); distinct = v.distinct.1 }

clash : {o : Option ℕ} {t : ℕ} → o ≡ none → o ≡ some t → ⊥
clash e f = ground arith

chain_unique :
    (next : ℕ → Option ℕ) (first last : Option ℕ) (ts us : List ℕ)
    → IsChain next first last ts
    → IsChain next first last us
    → ts ≡ us
chain_unique next first last [] [] c d = refl
chain_unique next first last [] (u ∷ us) c d =
    absurd (clash (c.0) (first_of_chain next first last u us d))
chain_unique next first last (t ∷ ts) [] c d =
    absurd (clash (d.0) (first_of_chain next first last t ts c))
chain_unique next first last (t ∷ []) (u ∷ []) c d = ground arith
chain_unique next first last (t ∷ []) (u ∷ u' ∷ us) c d = ground arith
chain_unique next first last (t ∷ t' ∷ ts) (u ∷ []) c d = ground arith
chain_unique next first last (t ∷ t' ∷ ts) (u ∷ u' ∷ us) c d =
    let head : t ≡ u = ground arith in
    let second : some t' ≡ some u' = ground arith in
    ap₂ ◌∷◌ head (
      chain_unique next (some t') last (t' ∷ ts) (u' ∷ us) c.2
        (subst (λ o. IsChain next o last (u' ∷ us)) (sym second) d.2))

-- A queue holds one list only.
pub Linked-unique : (q : Tasks) (ts us : List ℕ) → Linked q ts → Linked q us → ts ≡ us
Linked-unique q ts us v w = chain_unique q.next q.first q.last ts us v.chain w.chain
