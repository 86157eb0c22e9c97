-- ===== src/Threading.antt =====
-- kernel/src/threading/mod.rs and the saved registers of kernel/src/arch/x86_64/threading/mod.rs:
-- the list of processes and the round-robin scheduler over it. The boxes linked by `next` from
-- `head` are the list `processes`; the raw pointer `current_process` is an index into it.
-- A stack and a page table come from the allocators, so `create` takes them as arguments; `free`
-- gives them back to the heap and to the frame allocator, and panics where these do.
pub mod Loop
pub mod Switch
pub mod Kill
pub mod Tests
use navi_os.Base.{
  ℕ, zero, suc, ◌+◌, ◌-◌, Bool, true, false, Option, none, some, List, [], ◌∷◌, ◌++◌, length,
  get_elem?, take, replicate, min, modify, remove_at, bytes_eq, ltb, ◌==◌, if◌then◌else◌, Outcome,
  returns, panics, ◌>>=◌,
}
use navi_os.Memory.{usize_mod, usize_sub}
use navi_os.Memory.Heap.{Layout, LinkedListAllocator, dealloc_mut}
use navi_os.Memory.Paging.{Machine, free_table}

pub record CpuStatus : Type 0 where
  pub rsp : ℕ
  pub rflags : ℕ
  pub ss : ℕ
  pub cs : ℕ
  pub rip : ℕ
  pub r15 : ℕ
  pub r14 : ℕ
  pub r13 : ℕ
  pub r12 : ℕ
  pub r11 : ℕ
  pub r10 : ℕ
  pub r9 : ℕ
  pub r8 : ℕ
  pub rbp : ℕ
  pub rdi : ℕ
  pub rsi : ℕ
  pub rdx : ℕ
  pub rcx : ℕ
  pub rbx : ℕ
  pub cr3 : ℕ
  pub rax : ℕ

-- The derived `Default`.
abbrev pub default_status : CpuStatus
default_status = record {
  rsp = 0;
  rflags = 0;
  ss = 0;
  cs = 0;
  rip = 0;
  r15 = 0;
  r14 = 0;
  r13 = 0;
  r12 = 0;
  r11 = 0;
  r10 = 0;
  r9 = 0;
  r8 = 0;
  rbp = 0;
  rdi = 0;
  rsi = 0;
  rdx = 0;
  rcx = 0;
  rbx = 0;
  cr3 = 0;
  rax = 0;
}

abbrev pub stack_size : ℕ
stack_size = 16384

pub data ProcessStatus : Type 0 where
  waiting running waiting_for_burying : ProcessStatus

abbrev pub is_waiting : ProcessStatus → Bool
is_waiting waiting = true
is_waiting running = false
is_waiting waiting_for_burying = false

abbrev pub is_dying : ProcessStatus → Bool
is_dying waiting = false
is_dying running = false
is_dying waiting_for_burying = true

-- `name` is the 64 bytes of the name, padded with zeros.
pub record Process : Type 0 where
  pub pid : ℕ
  pub name : List ℕ
  pub status : ProcessStatus
  pub context : CpuStatus
  pub root_page_table : ℕ
  pub stack_end : ℕ

-- What the allocators return for a new process, and the offset of physical memory.
pub record Resources : Type 0 where
  pub stack_end : ℕ
  pub pml4 : ℕ
  pub phy_offset : ℕ

abbrev pub pad_name : List ℕ → List ℕ
pad_name bytes = let len = min (length bytes) 64 in take len bytes ++ replicate (64 - len) 0

pub create : ℕ → ℕ → List ℕ → Resources → Process
create function pid name r = record {
  pid = pid;
  name = pad_name name;
  status = waiting;
  context = record default_status {
    rsp = r.stack_end;
    rip = function;
    rflags = 0x202;
    ss = 0x10;
    cs = 0x8;
    cr3 = r.pml4;
  };
  root_page_table = r.pml4 + r.phy_offset;
  stack_end = r.stack_end;
}

abbrev pub stack_layout : Layout
stack_layout = record { size = stack_size; align = 1 }

-- The heap, the memory with the frame allocator, and the offset at which the kernel sees it.
pub record System : Type 0 where
  pub heap : LinkedListAllocator
  pub machine : Machine
  pub phy_offset : ℕ

-- The stack goes back to the heap, the page table and all below it to the frame allocator.
pub free : Process → System → Outcome System
unfolding dealloc_mut free_table
free p sys = dealloc_mut sys.heap (usize_sub p.stack_end stack_size) stack_layout >>= λ heap.
    free_table 4 sys.machine (usize_sub p.root_page_table sys.phy_offset) >>= λ machine.
    returns (record sys { heap = heap; machine = machine })

pub record Scheduler : Type 0 where
  pub processes : List Process
  pub current_process : ℕ
  pub next_pid : ℕ

pub init : ℕ → List ℕ → Resources → Scheduler
unfolding create
init function name r = record {
  processes = create function 0 name r ∷ [];
  current_process = 0;
  next_pid = 1;
}

-- Whether there is a process at an index, and it passes a test of its status.
abbrev pub status_is : (ProcessStatus → Bool) → Option Process → Bool
status_is test none = false
status_is test (some p) = test p.status

-- The process next to the current one is freed if it is to be buried.
pub bury_next : Scheduler → System → Outcome (Scheduler × System)
unfolding free
bury_next s sys = elim (get_elem? s.processes (suc s.current_process)) [
  | none ↦ returns (s, sys)
  | some p ↦
      if is_dying p.status
      then (free p sys >>= λ sys'.
          returns (record s { processes = remove_at (suc s.current_process) s.processes }, sys'))
      else returns (s, sys)
]

-- The pointer moves to the next process, or from the last one to the head.
pub advance : Scheduler → Scheduler
advance s = record s {
  current_process =
      if ltb (suc s.current_process) (length s.processes) then suc s.current_process else 0;
}

abbrev pub set_status : ProcessStatus → Process → Process
set_status status p = record p { status = status }

-- What follows a call that may panic, where the loop may not have ended.
abbrev pub go_on {ℓ κ} :
    {A : Type ℓ} {B : Type κ} → Outcome A → (A → Option (Outcome B)) → Option (Outcome B)
go_on panics f = some panics
go_on (returns a) f = f a

-- The loop of `switch`; `none` means that the fuel ran out.
pub switch_loop : ℕ → Scheduler → System → Option (Outcome (Scheduler × System))
unfolding bury_next advance
switch_loop zero s sys = none
switch_loop (suc fuel) s sys = go_on (bury_next s sys) λ buried.
    let next = advance buried.0 in
    elim (status_is is_waiting (get_elem? next.processes next.current_process)) [
      | true ↦ some (
          returns (
            record next {
              processes = modify next.current_process (set_status running) next.processes;
            },
            buried.1,
          ))
      | false ↦ switch_loop fuel next buried.1
    ]

-- The current process keeps the interrupted context, and waits unless it is to be buried.
abbrev pub suspend : CpuStatus → Process → Process
suspend context p = record p {
  context = context;
  status = if is_dying p.status then p.status else waiting;
}

abbrev pub context_at : Scheduler → Option CpuStatus
context_at s = elim (get_elem? s.processes s.current_process) [
  | none ↦ none
  | some p ↦ some p.context
]

-- Returns the new state, the allocators and the context to go on with.
pub switch :
    ℕ → Scheduler → CpuStatus → System → Option (Outcome (Scheduler × System × Option CpuStatus))
unfolding switch_loop
switch fuel s context sys =
    let stopped = record s { processes = modify s.current_process (suspend context) s.processes } in
    elim (switch_loop fuel stopped sys) [
      | none ↦ none
      | some ended ↦ some (ended >>= λ r. returns (r.0, r.1, context_at r.0))
    ]

pub add_process : Scheduler → Process → Scheduler
add_process s p = record s { processes = s.processes ++ p ∷ [] }

-- The next pid is a word of 64 bits, and its overflow is a panic.
pub create_process : Scheduler → ℕ → List ℕ → Resources → Outcome Scheduler
unfolding add_process create
create_process s function name r =
    let s' = add_process s (create function s.next_pid name r) in
    if ltb (s'.next_pid + 1) usize_mod
    then returns (record s' { next_pid = s'.next_pid + 1 })
    else panics

-- The loops of `pkill` and `pkillall` over `current` and its `next`s: the index of the first
-- process that passes the test, looked for only where there is a next process.
pub search_pairs : (Process → Bool) → Process → List Process → ℕ → Option ℕ
search_pairs test current [] i = none
search_pairs test current (process ∷ rest) i =
    if test current
    then some i
    else if test process
    then some (suc i)
    else search_pairs test process rest (suc i)

abbrev pub search_all : (Process → Bool) → List Process → Option ℕ
search_all test [] = none
search_all test (head ∷ rest) = search_pairs test head rest 0

-- `none` is the error.
pub pkill : Scheduler → ℕ → Option Scheduler
unfolding search_pairs
pkill s pid = elim (search_all (λ p. p.pid == pid) s.processes) [
  | none ↦ none
  | some i ↦ some (record s { processes = modify i (set_status waiting_for_burying) s.processes })
]

pub trim_trailing_zeros : List ℕ → List ℕ
trim_trailing_zeros [] = []
trim_trailing_zeros (x ∷ xs) = elim (trim_trailing_zeros xs) [
  | [] ↦ if x == 0 then [] else x ∷ []
  | y ∷ ys ↦ x ∷ y ∷ ys
]

pub has_name : List ℕ → Process → Bool
unfolding trim_trailing_zeros
has_name name p = bytes_eq (trim_trailing_zeros p.name) name

-- The list of pids that the loop collects has one entry at most, since each `push` is followed by
-- a `break`.
pub pkillall : Scheduler → List ℕ → Option Scheduler
unfolding search_pairs has_name pkill
pkillall s name = elim (search_all (has_name name) s.processes) [
  | none ↦ none
  | some i ↦ elim (get_elem? s.processes i) [ none ↦ none | some p ↦ pkill s p.pid ]
]
