-- ===== src/Threading/Loop.antt =====
-- The loop of `Scheduler::switch`: it ends while some process waits, and what it leaves.
use navi_os.Base.{
  ℕ, zero, suc, ◌+◌, ◌-◌, ◌<◌, ◌≤◌, ◌≡◌, ◌≢◌, refl, sym, ◌∙◌, ap, ◌⊎◌, inl, inr, true, false,
  Option, some, List, [], ◌∷◌, length, get_elem?, modify, remove_at, ltb, if◌then◌else◌, Bool-cases,
  Option-cases, arith, length-remove_at, get_elem?-remove_at_lt, get_elem?-remove_at_ge,
  get_elem?-modify_self, get_elem?-modify_ne, lt-length_of_some, Outcome, returns, panics, ◌>>=◌,
}
use native.Mathlib.Decide.{dec_lt, ℕ_discrete}
use navi_os.Threading.{
  Process, waiting, running, is_waiting, is_dying, Scheduler, System, free, status_is, bury_next,
  advance, set_status, go_on, switch_loop,
}

-- The processes that are not to be buried, in their order, with their status left out.
abbrev pub live : List Process → List Process
live [] = []
live (p ∷ ps) = if is_dying p.status then live ps else set_status waiting p ∷ live ps

pub live-remove_at :
    (i : ℕ) (ps : List Process) (p : Process)
    → get_elem? ps i ≡ some p
    → is_dying p.status ≡ true
    → live (remove_at i ps) ≡ live ps
live-remove_at i [] p e d = refl
live-remove_at zero (q ∷ ps) p e d = ground arith
live-remove_at (suc i) (q ∷ ps) p e d = ground (arith, live-remove_at i ps p e d)

-- What two changes of a process leave, when they differ in a status at most.
pub live-modify :
    (i : ℕ) (f g : Process → Process) (ps : List Process)
    → ((p : Process) → get_elem? ps i ≡ some p → is_dying (f p).status ≡ is_dying (g p).status)
    → ((p : Process) → set_status waiting (f p) ≡ set_status waiting (g p))
    → live (modify i f ps) ≡ live (modify i g ps)
live-modify i f g [] d k = refl
live-modify zero f g (q ∷ ps) d k = rw (d q refl, k q) refl
live-modify (suc i) f g (q ∷ ps) d k = rw (live-modify i f g ps d k) refl

pub modify_self : (i : ℕ) (ps : List Process) → modify i (λ p. p) ps ≡ ps
modify_self i [] = refl
modify_self zero (q ∷ ps) = refl
modify_self (suc i) (q ∷ ps) = rw (modify_self i ps) refl

abbrev pub At : Scheduler → ℕ → Process → Type 0
At s i p = get_elem? s.processes i ≡ some p

-- How many moves of the pointer it takes to come to index `w`, at most `n` of them.
abbrev pub distance : ℕ → ℕ → ℕ → ℕ
distance n cur w = if ltb cur w then w - cur else n - cur + w

-- A process waits at `w`, and the pointer is `d` moves away from it.
pub record Waits (s : Scheduler) (d : ℕ) : Type 0 where
  pub inside : s.current_process < length s.processes
  pub target : ℕ
  pub process : Process
  pub at : At s target process
  pub waits : process.status ≡ waiting
  pub near : distance (length s.processes) s.current_process target ≤ d

-- No process is marked as running: the state between two time slices.
abbrev pub Stopped : Scheduler → Type 0
Stopped s = (i : ℕ) (p : Process) → At s i p → p.status ≢ running

-- What `bury_next` and `advance` keep: the live processes, and where each process came from.
pub record Keeps (s t : Scheduler) : Type 0 where
  pub survivors : live t.processes ≡ live s.processes
  pub origin : (i : ℕ) (p : Process) → At t i p → (j : ℕ) × At s j p
  pub pids : t.next_pid ≡ s.next_pid

Keeps-refl : (s : Scheduler) → Keeps s s
Keeps-refl s = record { survivors = refl; origin = λ i p a. (i, a); pids = refl }

pub Keeps-trans : {s t u : Scheduler} → Keeps s t → Keeps t u → Keeps s u
Keeps-trans k l = record {
  survivors = l.survivors ∙ k.survivors;
  origin = λ i p a. let (j, b) = l.origin i p a in k.origin j p b;
  pids = l.pids ∙ k.pids;
}

origin-remove_at :
    (k : ℕ) (ps : List Process) (i : ℕ) (p : Process)
    → get_elem? (remove_at k ps) i ≡ some p
    → (j : ℕ) × (get_elem? ps j ≡ some p)
origin-remove_at k ps i p e = elim (Bool-cases (ltb i k)) [
  | inl lt ↦ (i, sym (get_elem?-remove_at_lt k i ps (ground arith)) ∙ e)
  | inr ge ↦ (suc i, sym (get_elem?-remove_at_ge k i ps (ground arith)) ∙ e)
]

removed-Keeps :
    (s : Scheduler) (k : ℕ) (p : Process)
    → At s k p
    → is_dying p.status ≡ true
    → Keeps s (record s { processes = remove_at k s.processes })
removed-Keeps s k p a d = record {
  survivors = live-remove_at k s.processes p a d;
  origin = λ i q b. origin-remove_at k s.processes i q b;
  pids = refl;
}

distance_below :
    (m n cur w d : ℕ) → m + 1 ≡ n → cur < m → w ≤ cur → distance n cur w ≤ d → distance m cur w ≤ d
distance_below m n cur w d e inside le h = ground arith

distance_above :
    (m n cur w d : ℕ) → m + 1 ≡ n → suc cur < w → distance n cur w ≤ d → distance m cur (w - 1) ≤ d
distance_above m n cur w d e lt h = ground arith

waiting_not_dying :
    (s : Scheduler) (k j : ℕ) (p q : Process)
    → At s k p
    → At s j q
    → is_dying p.status ≡ true
    → q.status ≡ waiting
    → j ≢ k
waiting_not_dying s k j p q a b dead w e =
    let same : p ≡ q = cc (ap (get_elem? s.processes) e) in
    ground (arith, ap (λ (r : Process). is_dying r.status) same, ap is_dying w)

-- Removing the process next to the pointer brings no waiting process further away.
removed-Waits :
    (s : Scheduler) (d : ℕ) (p : Process)
    → At s (suc s.current_process) p
    → is_dying p.status ≡ true
    → Waits s d
    → Waits (record s { processes = remove_at (suc s.current_process) s.processes }) d
removed-Waits s d p a dead w =
    let k : ℕ = suc s.current_process in
    let n : ℕ = length s.processes in
    let m : ℕ = length (remove_at k s.processes) in
    let within : k < n = lt-length_of_some s.processes k p a in
    let shorter : m + 1 ≡ n = length-remove_at k s.processes within in
    let other = waiting_not_dying s k w.target p w.process a w.at dead w.waits in
    elim (dec_lt w.target k) [
      | yes lt ↦ record {
        inside = omega arith;
        target = w.target;
        process = w.process;
        at = get_elem?-remove_at_lt k w.target s.processes lt ∙ w.at;
        waits = w.waits;
        near =
            distance_below m n s.current_process w.target d shorter (omega arith) (omega arith)
              w.near;
      }
      | no ge ↦
          let back : suc (w.target - 1) ≡ w.target = omega arith in
          record {
            inside = omega arith;
            target = w.target - 1;
            process = w.process;
            at =
                get_elem?-remove_at_ge k (w.target - 1) s.processes (omega arith)
                ∙ ap (get_elem? s.processes) back
                ∙ w.at;
            waits = w.waits;
            near = distance_above m n s.current_process w.target d shorter (omega arith) w.near;
          }
    ]

-- The allocators on the way from one state to another: processes of `s` that are to be buried are
-- freed, one after the other.
pub data Frees (s : Scheduler) : System → System → Type 0 where
  done : (x : System) → Frees s x x
  frees :
      (i : ℕ) (p : Process) (x y z : System)
      → At s i p
      → is_dying p.status ≡ true
      → free p x ≡ returns y
      → Frees s y z
      → Frees s x z

-- The allocators refuse a process that is to be buried.
pub record Fails (s : Scheduler) (x : System) : Type 0 where
  pub last : System
  pub freed : Frees s x last
  pub index : ℕ
  pub process : Process
  pub at : At s index process
  pub dying : is_dying process.status ≡ true
  pub refused : free process last ≡ panics

Frees-Keeps : (s t : Scheduler) (x y : System) → Keeps s t → Frees t x y → Frees s x y
Frees-Keeps s t _ _ k (done x) = done x
Frees-Keeps s t _ _ k (frees i p x y z a d e rest) =
    let (j, b) = k.origin i p a in frees j p x y z b d e (Frees-Keeps s t y z k rest)

Frees-trans : (s : Scheduler) (x y z : System) → Frees s x y → Frees s y z → Frees s x z
Frees-trans s _ _ z (done x) g = g
Frees-trans s _ _ z (frees i p x w y a d e rest) g =
    frees i p x w z a d e (Frees-trans s w y z rest g)

Fails-Keeps : (s t : Scheduler) (x y : System) → Keeps s t → Frees s x y → Fails t y → Fails s x
Fails-Keeps s t x y k f r =
    let (j, b) = k.origin r.index r.process r.at in
    record {
      last = r.last;
      freed = Frees-trans s x y r.last f (Frees-Keeps s t y r.last k r.freed);
      index = j;
      process = r.process;
      at = b;
      dying = r.dying;
      refused = r.refused;
    }

data Buries (s : Scheduler) (x : System) (d : ℕ) : Outcome (Scheduler × System) → Type 0 where
  buries :
      (t : Scheduler) (y : System)
      → Waits t d
      → Keeps s t
      → Frees s x y
      → Buries s x d (returns (t, y))
  refuses : Fails s x → Buries s x d panics

freed_next :
    (s : Scheduler) (x : System) (d : ℕ) (p : Process) (r : Outcome System)
    → At s (suc s.current_process) p
    → is_dying p.status ≡ true
    → Waits s d
    → free p x ≡ r
    → Buries s x d (
        r >>= λ y.
        returns (record s { processes = remove_at (suc s.current_process) s.processes }, y))
freed_next s x d p (returns y) a dead w e =
    buries _ y (removed-Waits s d p a dead w) (removed-Keeps s _ p a dead)
      (frees _ p x y y a dead e (done y))
freed_next s x d p panics a dead w e = refuses (record {
  last = x;
  freed = done x;
  index = suc s.current_process;
  process = p;
  at = a;
  dying = dead;
  refused = e;
})

bury_next-Buries : (s : Scheduler) (x : System) (d : ℕ) → Waits s d → Buries s x d (bury_next s x)
unfolding bury_next
bury_next-Buries s x d w = elim (Option-cases (get_elem? s.processes (suc s.current_process))) [
  | inl e ↦ rw (e, bury_next) (buries s x w (Keeps-refl s) (done x))
  | inr (p, e) ↦ elim (Bool-cases (is_dying p.status)) [
    | inl dead ↦ rw (e, bury_next, dead) (freed_next s x d p (free p x) e dead w refl)
    | inr lives ↦ rw (e, bury_next, lives) (buries s x w (Keeps-refl s) (done x))
  ]
]

advance-Keeps : (s : Scheduler) → Keeps s (advance s)
unfolding advance
advance-Keeps s = record { survivors = refl; origin = λ i p a. (i, a); pids = refl }

abbrev moved : ℕ → ℕ → ℕ
moved n cur = if ltb (suc cur) n then suc cur else 0

moved-lt : (n cur : ℕ) → cur < n → moved n cur < n
moved-lt n cur h = ground arith

distance-moved :
    (n cur w d : ℕ)
    → cur < n
    → w < n
    → moved n cur ≢ w
    → distance n cur w ≤ suc d
    → distance n (moved n cur) w ≤ d
distance-moved n cur w d inside target other near = ground arith

-- The pointer comes to the waiting process, or one move closer.
advance-Waits :
    (s : Scheduler) (d : ℕ)
    → Waits s (suc d)
    → (status_is is_waiting (get_elem? (advance s).processes (advance s).current_process) ≡ true)
      ⊎ Waits (advance s) d
unfolding advance
advance-Waits s d w =
    let n : ℕ = length s.processes in
    let cur : ℕ = s.current_process in
    elim (ℕ_discrete (moved n cur) w.target) [
      | yes e ↦ inl (
          ap (λ i. status_is is_waiting (get_elem? s.processes i)) e
          ∙ ap (status_is is_waiting) w.at
          ∙ ap is_waiting w.waits)
      | no e ↦ inr (record {
        inside = moved-lt n cur w.inside;
        target = w.target;
        process = w.process;
        at = w.at;
        waits = w.waits;
        near =
            distance-moved n cur w.target d w.inside
              (lt-length_of_some s.processes w.target w.process w.at) e w.near;
      })
    ]

Keeps-Stopped : (s t : Scheduler) → Keeps s t → Stopped s → Stopped t
Keeps-Stopped s t k stop i p a = let (j, b) = k.origin i p a in stop j p b

-- What the loop leaves: the current process runs and is the only one to run, and the live
-- processes are those from before, in their order.
pub record Picked (s next : Scheduler) : Type 0 where
  pub process : Process
  pub at : At next next.current_process process
  pub runs : process.status ≡ running
  pub alone : (i : ℕ) (p : Process) → At next i p → p.status ≡ running → i ≡ next.current_process
  pub survivors : live next.processes ≡ live s.processes
  pub pids : next.next_pid ≡ s.next_pid

pub data Picks (s : Scheduler) (x : System) : Option (Outcome (Scheduler × System)) → Type 0 where
  picks :
      (next : Scheduler) (y : System)
      → Picked s next
      → Frees s x y
      → Picks s x (some (returns (next, y)))
  fails : Fails s x → Picks s x (some panics)

Picks-Keeps :
    (s t : Scheduler) (x y : System) (r : Option (Outcome (Scheduler × System)))
    → Keeps s t
    → Frees s x y
    → Picks t y r
    → Picks s x r
Picks-Keeps s t x y _ k f (picks next z p g) =
    picks next z
      (record {
        process = p.process;
        at = p.at;
        runs = p.runs;
        alone = p.alone;
        survivors = p.survivors ∙ k.survivors;
        pids = p.pids ∙ k.pids;
      })
      (Frees-trans s x y z f (Frees-Keeps s t y z k g))
Picks-Keeps s t x y _ k f (fails r) = fails (Fails-Keeps s t x y k f r)

started_alone :
    (s : Scheduler)
    → Stopped s
    → (i : ℕ) (q : Process)
    → get_elem? (modify s.current_process (set_status running) s.processes) i ≡ some q
    → q.status ≡ running
    → i ≡ s.current_process
started_alone s stop i q a run = elim (ℕ_discrete i s.current_process) [
  | yes e ↦ e
  | no e ↦ absurd (
      stop i q
        (sym (
            get_elem?-modify_ne s.current_process i (set_status running) s.processes
              (λ h. e (sym h)))
          ∙ a)
        run)
]

some-path : (p q : Process) {o : Option Process} → o ≡ some p → o ≡ some q → p ≡ q
some-path p q e b = cc

still_live : (p q : Process) → p ≡ q → is_waiting p.status ≡ true → false ≡ is_dying q.status
still_live p q e h = ground (arith, ap (λ (r : Process). is_waiting r.status) e)

-- The step that ends the loop.
start-Picked :
    (s : Scheduler)
    → Stopped s
    → status_is is_waiting (get_elem? s.processes s.current_process) ≡ true
    → Picked s (record s { processes = modify s.current_process (set_status running) s.processes })
start-Picked s stop ready = elim (Option-cases (get_elem? s.processes s.current_process)) [
  | inl e ↦ ground (arith, ap (status_is is_waiting) e)
  | inr (p, e) ↦
      let waits : is_waiting p.status ≡ true = sym (ap (status_is is_waiting) e) ∙ ready in
      record {
        process = set_status running p;
        at = get_elem?-modify_self s.current_process (set_status running) s.processes p e;
        runs = refl;
        alone = λ i q a run. started_alone s stop i q a run;
        survivors =
            live-modify s.current_process (set_status running) (λ q. q) s.processes
              (λ q b. still_live p q (some-path p q e b) waits) (λ q. refl)
            ∙ ap live (modify_self s.current_process s.processes);
        pids = refl;
      }
]

no_distance : (n cur w : ℕ) → cur < n → distance n cur w ≤ 0 → ⊥
no_distance n cur w inside h = ground arith

not_yet :
    (t : Scheduler) (d : ℕ)
    → status_is is_waiting (get_elem? t.processes t.current_process) ≡ false
    → (status_is is_waiting (get_elem? t.processes t.current_process) ≡ true) ⊎ Waits t d
    → Waits t d
not_yet t d e (inl h) = absurd (ground arith)
not_yet t d e (inr w) = w

-- With a waiting process at most `d` moves away, `d` rounds are enough.
pub switch_loop-Picks :
    (fuel d : ℕ) (s : Scheduler) (x : System)
    → d ≤ fuel
    → Waits s d
    → Stopped s
    → Picks s x (switch_loop fuel s x)
unfolding switch_loop
switch_loop-Picks fuel zero s x le w stop =
    absurd (no_distance (length s.processes) s.current_process w.target w.inside w.near)
switch_loop-Picks zero (suc d) s x le w stop = elim le [ ]
switch_loop-Picks (suc fuel) (suc d) s x le w stop =
    go (λ t y near idle. switch_loop-Picks fuel d t y (omega arith) near idle) (bury_next s x)
      (bury_next-Buries s x (suc d) w)
  where
    go :
        ((t : Scheduler) (y : System) → Waits t d → Stopped t → Picks t y (switch_loop fuel t y))
        → (r : Outcome (Scheduler × System)) → Buries s x (suc d) r
        → Picks s x (
            go_on r λ buried.
              let next = advance buried.0 in
              elim (status_is is_waiting (get_elem? next.processes next.current_process)) [
                | true ↦ some (
                    returns (
                      record next {
                        processes = modify next.current_process (set_status running) next.processes;
                      },
                      buried.1,
                    ))
                | false ↦ switch_loop fuel next buried.1
              ])
    go again _ (refuses f) = fails f
    go again _ (buries t y near kept f) =
        let next : Scheduler = advance t in
        let keeps : Keeps s next = Keeps-trans kept (advance-Keeps t) in
        let idle : Stopped next = Keeps-Stopped s next keeps stop in
        elim (Bool-cases (status_is is_waiting (get_elem? next.processes next.current_process))) [
          | inl e ↦
              rw (e, go_on)
                (Picks-Keeps s next x y _ keeps f (picks _ y (start-Picked next idle e) (done y)))
          | inr e ↦
              rw (e, go_on)
                (Picks-Keeps s next x y _ keeps f
                  (again next y (not_yet next d e (advance-Waits t d near)) idle))
        ]
