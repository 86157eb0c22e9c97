-- ===== src/Threading/Switch.antt =====
-- `Scheduler::switch` as a whole.
use native.Mathlib.Decide.{ℕ_discrete}
use navi_os.Base.{
  ℕ, ◌<◌, ◌≤◌, ◌≡◌, ◌≢◌, refl, sym, ◌∙◌, ap, ◌⊎◌, inl, inr, false, Option, some, length, get_elem?,
  modify, Bool-cases, arith, get_elem?-modify_self, get_elem?-modify_ne, get_elem?-some,
  lt-length_of_some, length-modify, none, Outcome, returns, panics, ◌>>=◌,
}
use navi_os.Threading.{
  Process, CpuStatus, waiting, running, is_dying, Scheduler, System, free, suspend, switch_loop,
  context_at, switch,
}
use navi_os.Threading.Loop.{
  At, live, live-modify, Waits, Stopped, distance, Frees, done, frees, Fails, Picks, picks,
  switch_loop-Picks,
}
use navi_os.Threading.Loop

-- The pointer is in the list, and no process but the current one is marked as running.
pub record IsValid (s : Scheduler) : Type 0 where
  pub inside : s.current_process < length s.processes
  pub single : (i : ℕ) (p : Process) → At s i p → p.status ≡ running → i ≡ s.current_process

-- A process that the scheduler may go on with: it waits, or it is the current one and lives on.
abbrev pub CanRun : Scheduler → ℕ → Process → Type 0
CanRun s w q =
    At s w q × ((q.status ≡ waiting) ⊎ ((w ≡ s.current_process) × (is_dying q.status ≡ false)))

abbrev stopped : Scheduler → CpuStatus → Scheduler
stopped s context = record s { processes = modify s.current_process (suspend context) s.processes }

suspend_waits :
    (context : CpuStatus) (q : Process)
    → is_dying q.status ≡ false
    → (suspend context q).status ≡ waiting
suspend_waits context q e = rw e refl

suspend-ne-running : (context : CpuStatus) (q : Process) → (suspend context q).status ≢ running
suspend-ne-running context q e = elim (Bool-cases (is_dying q.status)) [
  | inl d ↦ ground (arith)
  | inr l ↦ ground (arith)
]

suspend_dying :
    (context : CpuStatus) (q : Process) → is_dying (suspend context q).status ≡ is_dying q.status
suspend_dying context q = elim (Bool-cases (is_dying q.status)) [
  | inl d ↦ rw (d, d) refl
  | inr l ↦ rw l refl
]

stopped-Stopped : (s : Scheduler) (context : CpuStatus) → IsValid s → Stopped (stopped s context)
stopped-Stopped s context v i p a run = elim (ℕ_discrete i s.current_process) [
  | yes e ↦
      let (q, b) = get_elem?-some s.processes s.current_process v.inside in
      let c = get_elem?-modify_self s.current_process (suspend context) s.processes q b in
      let same : p ≡ suspend context q =
        cc (a, c, ap (get_elem? (stopped s context).processes) e) in
      suspend-ne-running context q (ap (λ (r : Process). r.status) (sym same) ∙ run)
  | no e ↦ e (
      v.single i p
        (sym
            (get_elem?-modify_ne s.current_process i (suspend context) s.processes (λ h. e (sym h)))
          ∙ a)
        run)
]

distance-le : (n cur w : ℕ) → cur < n → w < n → distance n cur w ≤ n
distance-le n cur w h k = ground arith

stopped-Waits :
    (s : Scheduler) (context : CpuStatus) (w : ℕ) (q : Process)
    → IsValid s
    → CanRun s w q
    → Waits (stopped s context) (length s.processes)
stopped-Waits s context w q v (a, can) =
    let size = length-modify s.current_process (suspend context) s.processes in
    let near =
      distance-le (length s.processes) s.current_process w v.inside
        (lt-length_of_some s.processes w q a) in
    elim (ℕ_discrete w s.current_process) [
      | yes e ↦ record {
        inside = rw size v.inside;
        target = w;
        process = suspend context q;
        at =
            ap (get_elem? (stopped s context).processes) e
            ∙ get_elem?-modify_self s.current_process (suspend context) s.processes q
                (ap (get_elem? s.processes) (sym e) ∙ a);
        waits = suspend_waits context q (elim can [ inl h ↦ ap is_dying h | inr (_, h) ↦ h ]);
        near = rw size near;
      }
      | no e ↦ record {
        inside = rw size v.inside;
        target = w;
        process = q;
        at =
            get_elem?-modify_ne s.current_process w (suspend context) s.processes (λ h. e (sym h))
            ∙ a;
        waits = elim can [ inl h ↦ h | inr (h, _) ↦ absurd (e h) ];
        near = rw size near;
      }
    ]

-- The process has its context, and all else as it was.
abbrev pub with_context : CpuStatus → Process → Process
with_context context p = record p { context = context }

stopped-live :
    (s : Scheduler) (context : CpuStatus)
    → live (stopped s context).processes
      ≡ live (modify s.current_process (with_context context) s.processes)
stopped-live s context =
    live-modify s.current_process (suspend context) (with_context context) s.processes
      (λ q _. suspend_dying context q) (λ q. refl)

-- A process of the stopped list is one of the old list, which has the same resources.
module _ (s : Scheduler) (context : CpuStatus) (i : ℕ) (p : Process) (v : IsValid s)
    (a : At (stopped s context) i p) where
  pub record Was : Type 0 where
    pub old : Process
    pub at : At s i old
    pub dying : is_dying p.status ≡ is_dying old.status
    pub resources : (y : System) → free p y ≡ free old y

  was : Was
  unfolding free
  was = elim (ℕ_discrete i s.current_process) [
    | yes e ↦
        let (q, b) = get_elem?-some s.processes s.current_process v.inside in
        let c = get_elem?-modify_self s.current_process (suspend context) s.processes q b in
        let same : p ≡ suspend context q =
          cc (a, c, ap (get_elem? (stopped s context).processes) e) in
        record {
          old = q;
          at = ap (get_elem? s.processes) e ∙ b;
          dying = ap (λ (r : Process). is_dying r.status) same ∙ suspend_dying context q;
          resources = λ y. ap (λ r. free r y) same;
        }
    | no e ↦ record {
      old = p;
      at =
          sym
            (get_elem?-modify_ne s.current_process i (suspend context) s.processes (λ h. e (sym h)))
          ∙ a;
      dying = refl;
      resources = λ y. refl;
    }
  ]

Frees-stopped :
    (s : Scheduler) (context : CpuStatus) (x y : System)
    → IsValid s
    → Frees (stopped s context) x y
    → Frees s x y
Frees-stopped s context _ _ v (done x) = done x
Frees-stopped s context _ _ v (frees i p x y z a d e rest) =
    let w = was s context i p v a in
    frees i w.old x y z w.at (sym w.dying ∙ d) (sym (w.resources x) ∙ e)
      (Frees-stopped s context y z v rest)

Fails-stopped :
    (s : Scheduler) (context : CpuStatus) (x : System)
    → IsValid s
    → Fails (stopped s context) x
    → Fails s x
Fails-stopped s context x v f =
    let w = was s context f.index f.process v f.at in
    record {
      last = f.last;
      freed = Frees-stopped s context x f.last v f.freed;
      index = f.index;
      process = w.old;
      at = w.at;
      dying = sym w.dying ∙ f.dying;
      refused = sym (w.resources f.last) ∙ f.refused;
    }

-- The state behind a context switch: the current process is the only one marked as running, and the
-- processes not to be buried are those from before, of which the interrupted one has its context.
pub record Switched (s : Scheduler) (context : CpuStatus) (next : Scheduler) (process : Process)
    : Type 0 where
  pub at : At next next.current_process process
  pub runs : process.status ≡ running
  pub valid : IsValid next
  pub survivors :
      live next.processes ≡ live (modify s.current_process (with_context context) s.processes)
  pub pids : next.next_pid ≡ s.next_pid

-- It returns the context of the process that runs now, or freeing a process has panicked.
pub data Switches (s : Scheduler) (context : CpuStatus) (x : System)
    : Option (Outcome (Scheduler × System × Option CpuStatus)) → Type 0 where
  switches :
      (next : Scheduler) (y : System) (process : Process)
      → Switched s context next process
      → Frees s x y
      → Switches s context x (some (returns (next, y, some process.context)))
  fails : Fails s x → Switches s context x (some panics)

-- In a scheduler whose current index is in the list and is the only one that may be marked as
-- running, whenever some process can run, `switch` ends after at most as many rounds as there are
-- processes. It panics only when freeing a process that is to be buried panics, after others of them
-- have been freed. Otherwise such processes are all that it has freed, the current process is the
-- only one marked as running, its saved context is the result, and `next_pid` is kept. The processes
-- not to be buried are the same in the same order, in all but their status, and the process that was
-- interrupted has the context that it was interrupted with.
pub switch-Switches :
    (fuel : ℕ) (s : Scheduler) (context : CpuStatus) (x : System) (w : ℕ) (q : Process)
    → IsValid s
    → CanRun s w q
    → length s.processes ≤ fuel
    → Switches s context x (switch fuel s context x)
unfolding switch
switch-Switches fuel s context x w q v can enough = go (switch_loop fuel (stopped s context) x) (
    switch_loop-Picks fuel (length s.processes) (stopped s context) x enough
      (stopped-Waits s context w q v can) (stopped-Stopped s context v))
  where
    go :
        (r : Option (Outcome (Scheduler × System)))
        → Picks (stopped s context) x r
        → Switches s context x (elim r [
          | none ↦ none
          | some ended ↦ some (ended >>= λ r. returns (r.0, r.1, context_at r.0))
        ])
    go _ (Loop.fails f) = fails (Fails-stopped s context x v f)
    go _ (picks next y p f) =
        rw (p.at, context_at)
          (switches next y p.process
            (record {
              at = p.at;
              runs = p.runs;
              valid = record {
                inside = lt-length_of_some next.processes next.current_process p.process p.at;
                single = p.alone;
              };
              survivors = p.survivors ∙ stopped-live s context;
              pids = p.pids;
            })
            (Frees-stopped s context x y v f))
