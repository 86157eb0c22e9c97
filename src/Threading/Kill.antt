-- ===== src/Threading/Kill.antt =====
-- `Scheduler::pkill`, `pkillall` and `create_process`.
use navi_os.Base.{
  ℕ, zero, suc, ◌+◌, ◌<◌, ◌≤◌, ◌≡◌, ◌≢◌, refl, sym, ◌∙◌, ap, subst, ◌⊎◌, inl, inr, Bool, true,
  false, Option, none, some, List, [], ◌∷◌, ◌++◌, length, get_elem?, modify, ◌==◌, ==_iff,
  if◌then◌else◌, Bool-cases, Option-cases, arith, get_elem?-modify_ne, ltb, returns, panics,
}
use navi_os.Memory.{usize_mod}
use navi_os.Threading.{
  Process, waiting_for_burying, Scheduler, Resources, set_status, search_pairs, search_all, pkill,
  pkillall, has_name, init, create, create_process,
}
use navi_os.Threading.Loop.{At}

-- The outcome of a search for the first process of a list, numbered from `i`, that passes a test.
abbrev First : (Process → Bool) → List Process → ℕ → Option ℕ → Type 0
First test ps i none = (k : ℕ) (p : Process) → get_elem? ps k ≡ some p → test p ≡ false
First test ps i (some n) =
    (k : ℕ) × (n ≡ k + i)
    × ((p : Process) × (get_elem? ps k ≡ some p) × (test p ≡ true))
    × ((j : ℕ) (p : Process) → j < k → get_elem? ps j ≡ some p → test p ≡ false)

First-here :
    (test : Process → Bool) (p : Process) (ps : List Process) (i : ℕ)
    → test p ≡ true
    → First test (p ∷ ps) i (some i)
First-here test p ps i e = (0, omega arith, (p, refl, e), λ j q lt. absurd (omega arith))

same_some :
    (test : Process → Bool) (p q : Process) (b : Bool) → some p ≡ some q → test p ≡ b → test q ≡ b
same_some test p q b e h = ap test (sym (some_inj e)) ∙ h
  where
    some_inj : some p ≡ some q → p ≡ q
    some_inj e = cc

First-later :
    (test : Process → Bool) (p : Process) (ps : List Process) (i : ℕ) (r : Option ℕ)
    → test p ≡ false
    → First test ps (suc i) r
    → First test (p ∷ ps) i r
First-later test p ps i none e f = all
  where
    all : (k : ℕ) (q : Process) → get_elem? (p ∷ ps) k ≡ some q → test q ≡ false
    all zero q a = same_some test p q false a e
    all (suc k) q a = f k q a
First-later test p ps i (some n) e (k, at, hit, before) = (suc k, omega arith, hit, below)
  where
    below : (j : ℕ) (q : Process) → j < suc k → get_elem? (p ∷ ps) j ≡ some q → test q ≡ false
    below zero q lt a = same_some test p q false a e
    below (suc j) q lt a = before j q (omega arith) a

next_First :
    (test : Process → Bool) (q : Process) (ps : List Process) (i : ℕ) (r : Option ℕ)
    → (test q ≡ false → First test (q ∷ ps) i r)
    → First test (q ∷ ps) i (if test q then some i else r)
next_First test q ps i r f = elim (Bool-cases (test q)) [
  | inl e ↦ rw e (First-here test q ps i e)
  | inr e ↦ rw e (f e)
]

search_pairs-First :
    (test : Process → Bool) (p q : Process) (ps : List Process) (i : ℕ)
    → First test (p ∷ q ∷ ps) i (search_pairs test p (q ∷ ps) i)
unfolding search_pairs
search_pairs-First test p q [] i = next_First test p (q ∷ []) i _ λ e.
    First-later test p (q ∷ []) i _ e (
      next_First test q [] (suc i) none
        λ h. First-later test q [] (suc i) none h (λ k r a. ground (arith, a)))
search_pairs-First test p q (r ∷ ps) i = next_First test p (q ∷ r ∷ ps) i _ λ e.
    First-later test p (q ∷ r ∷ ps) i _ e
      (next_First test q (r ∷ ps) (suc i) _ λ h. search_pairs-First test q r ps (suc i))

search_all-First :
    (test : Process → Bool) (ps : List Process)
    → 2 ≤ length ps
    → First test ps 0 (search_all test ps)
search_all-First test [] h = elim h [ ]
search_all-First test (p ∷ []) h = absurd (omega arith)
search_all-First test (p ∷ q ∷ ps) h = search_pairs-First test p q ps 0

-- What `pkill` does to a scheduler: the first process with the pid is to be buried and nothing
-- else changes, or no process has the pid and the call fails.
pub data Kills (s : Scheduler) (pid : ℕ) : Option Scheduler → Type 0 where
  killed :
      (i : ℕ) (p : Process)
      → At s i p
      → p.pid ≡ pid
      → ((j : ℕ) (q : Process) → j < i → At s j q → q.pid ≢ pid)
      → Kills s pid
          (some (record s { processes = modify i (set_status waiting_for_burying) s.processes }))
  unknown : ((i : ℕ) (p : Process) → At s i p → p.pid ≢ pid) → Kills s pid none

==_false : (a b : ℕ) → (a == b) ≡ false → a ≢ b
==_false a b e = ground arith

-- With two processes or more, `pkill` marks the first process that has the pid and changes
-- nothing else, and it fails only when no process has that pid.
pub pkill-Kills : (s : Scheduler) (pid : ℕ) → 2 ≤ length s.processes → Kills s pid (pkill s pid)
unfolding pkill
pkill-Kills s pid h =
    let test : Process → Bool = λ p. p.pid == pid in
    let first = search_all-First test s.processes h in
    elim (Option-cases (search_all test s.processes)) [
      | inl e ↦
          let none_has = subst (First test s.processes 0) e first in
          rw (e, pkill) (unknown (λ i p a. ==_false p.pid pid (none_has i p a)))
      | inr (n, e) ↦
          let (k, at, (p, a, hit), before) = subst (First test s.processes 0) e first in
          let here : n ≡ k = omega arith in
          rw (e, pkill, here)
            (killed k p a ((==_iff p.pid pid).0 hit)
              (λ j q lt b. ==_false q.pid pid (before j q lt b)))
    ]

-- With a single process `pkill` fails, also for that process's own pid.
pub pkill_single : (s : Scheduler) (p : Process) → s.processes ≡ p ∷ [] → pkill s p.pid ≡ none
unfolding pkill search_pairs
pkill_single s p e = rw e refl

pkill-some :
    (s t : Scheduler) (pid : ℕ)
    → pkill s pid ≡ some t
    → (i : ℕ) × (t ≡ record s { processes = modify i (set_status waiting_for_burying) s.processes })
unfolding pkill
pkill-some s t pid e = elim (Option-cases (search_all (λ p. p.pid == pid) s.processes)) [
  | inl n ↦ ground (arith, rw (n, pkill) at e)
  | inr (i, f) ↦ (i, found i (rw (f, pkill) at e))
]
  where
    found :
        (i : ℕ)
        → some (record s { processes = modify i (set_status waiting_for_burying) s.processes })
          ≡ some t
        → t ≡ record s { processes = modify i (set_status waiting_for_burying) s.processes }
    found i h = cc

pkillall-some :
    (s t : Scheduler) (name : List ℕ)
    → pkillall s name ≡ some t
    → (pid : ℕ) × (pkill s pid ≡ some t)
unfolding pkillall
pkillall-some s t name e = elim (Option-cases (search_all (has_name name) s.processes)) [
  | inl n ↦ ground (arith, rw (n, pkillall) at e)
  | inr (i, f) ↦ elim (Option-cases (get_elem? s.processes i)) [
    | inl n ↦ ground (arith, rw (f, pkillall, n) at e)
    | inr (p, a) ↦ (p.pid, rw (f, pkillall, a) at e)
  ]
]

-- When `pkillall` succeeds it has marked at most one process: all but one index hold the process
-- that they held before.
pub pkillall_one :
    (s t : Scheduler) (name : List ℕ)
    → pkillall s name ≡ some t
    → (i : ℕ) × ((j : ℕ) → i ≢ j → get_elem? t.processes j ≡ get_elem? s.processes j)
pkillall_one s t name e =
    let (pid, h) = pkillall-some s t name e in
    let (i, same) = pkill-some s t pid h in
    (
      i,
      λ j ne.
          ap (λ (u : Scheduler). get_elem? u.processes j) same
          ∙ get_elem?-modify_ne i j (set_status waiting_for_burying) s.processes ne,
    )

-- The pids are below the next one, which is a word of 64 bits, and distinct.
pub record IsFresh (s : Scheduler) : Type 0 where
  pub word : s.next_pid < usize_mod
  pub below : (i : ℕ) (p : Process) → At s i p → p.pid < s.next_pid
  pub distinct : (i j : ℕ) (p q : Process) → At s i p → At s j q → p.pid ≡ q.pid → i ≡ j

get_elem?-snoc :
    (ps : List Process) (new p : Process) (i : ℕ)
    → get_elem? (ps ++ new ∷ []) i ≡ some p
    → (get_elem? ps i ≡ some p) ⊎ ((i ≡ length ps) × (new ≡ p))
get_elem?-snoc [] new p zero e = inr (refl, cc)
get_elem?-snoc [] new p (suc i) e = ground (arith, e)
get_elem?-snoc (q ∷ ps) new p zero e = inl e
get_elem?-snoc (q ∷ ps) new p (suc i) e = elim (get_elem?-snoc ps new p i e) [
  | inl h ↦ inl h
  | inr (h, same) ↦ inr (ap suc h, same)
]

module _ (s : Scheduler) (function : ℕ) (name : List ℕ) (r : Resources) (f : IsFresh s) where
  abbrev created : Process
  created = create function s.next_pid name r

  pid_of : (p : Process) → created ≡ p → p.pid ≡ s.next_pid
  unfolding create
  pid_of p e = ap (λ (q : Process). q.pid) (sym e)

  -- The new process stands behind the others, and the next pid is one more.
  abbrev grown : Scheduler
  grown = record s { processes = s.processes ++ created ∷ []; next_pid = s.next_pid + 1 }

  grown-IsFresh : s.next_pid + 1 < usize_mod → IsFresh grown
  unfolding create
  grown-IsFresh more = record {
    word = more;
    below = λ i p a. elim (get_elem?-snoc s.processes created p i a) [
      | inl h ↦ omega (arith, f.below i p h)
      | inr (_, same) ↦ omega (arith, pid_of p same)
    ];
    distinct = λ i j p q a b e. elim (get_elem?-snoc s.processes created p i a) [
      | inl h ↦ elim (get_elem?-snoc s.processes created q j b) [
        | inl k ↦ f.distinct i j p q h k e
        | inr (_, same) ↦ absurd (omega (arith, f.below i p h, pid_of q same, e))
      ]
      | inr (at, same) ↦ elim (get_elem?-snoc s.processes created q j b) [
        | inl k ↦ absurd (omega (arith, f.below j q k, pid_of p same, e))
        | inr (at', _) ↦ at ∙ sym at'
      ]
    ];
  }

  -- Once the stack and the page table of the new process are allocated, and while the next pid is not
  -- the last word of 64 bits, `create_process` returns, adds the new process at the end, and keeps the
  -- pids of the processes distinct and below the next one. At the last word it panics.
  pub create_process-IsFresh :
      ((next : Scheduler) × (create_process s function name r ≡ returns next)
        × (next.processes ≡ s.processes ++ create function s.next_pid name r ∷ [])
        × IsFresh next)
      ⊎ ((s.next_pid + 1 ≡ usize_mod) × (create_process s function name r ≡ panics))
  unfolding create_process
  create_process-IsFresh = elim (Bool-cases (ltb (s.next_pid + 1) usize_mod)) [
    | inl more ↦ inl (grown, rw (create_process, more) refl, refl, grown-IsFresh (ground arith))
    | inr last ↦ inr (ground (arith, f.word), rw (create_process, last) refl)
  ]

only_one : (p q : Process) (i : ℕ) → get_elem? (p ∷ []) i ≡ some q → (i ≡ 0) × (p ≡ q)
only_one p q zero e = (refl, cc)
only_one p q (suc i) e = ground (arith, e)

pub init-IsFresh : (function : ℕ) (name : List ℕ) (r : Resources) → IsFresh (init function name r)
unfolding init
init-IsFresh function name r = record {
  word = omega arith;
  below = λ i p a. omega (arith, ap (λ (q : Process). q.pid) (only_one _ p i a).1);
  distinct = λ i j p q a b _. (only_one _ p i a).0 ∙ sym (only_one _ q j b).0;
}
