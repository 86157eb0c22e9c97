-- ===== src/Threading/Tests.antt =====
-- Runs of the scheduler on small inputs.
use navi_os.Base.{
  ℕ, zero, suc, ◌≡◌, ◌≢◌, refl, [], ◌∷◌, some, none, inl, get_elem?, arith, ◌⊎◌, ◌++◌, returns,
  panics,
}
use navi_os.Memory.{usize_mod}
use navi_os.Memory.Heap.{dealloc_mut}
use navi_os.Memory.Paging.{free_table, free_with, free_entry, entry_frame}
use navi_os.Memory.Frames.{deallocate_frame, bitmap_loc_from_addr}
use navi_os.Threading.{
  Process, Scheduler, System, create, Resources, default_status, waiting, running,
  waiting_for_burying, init, switch, pkill, pkillall, create_process, trim_trailing_zeros,
  set_status,
}
use navi_os.Threading.Switch.{IsValid, Switches, switch-Switches}
use navi_os.Threading.Kill.{
  Kills, pkill-Kills, pkillall_one, IsFresh, init-IsFresh, create_process-IsFresh,
}
use navi_os.Threading.Loop.{At}

abbrev res : Resources
res = record { stack_end = 0x20000; pml4 = 0x5000; phy_offset = 0x100000 }

abbrev proc : ℕ → ℕ → Process
proc pid first = record {
  pid = pid;
  name = first ∷ 0 ∷ 0 ∷ [];
  status = waiting;
  context = default_status;
  root_page_table = 0x105000;
  stack_end = 0x20000;
}

-- Process 0 runs, process 1 is to be buried, process 2 waits; 1 and 2 have the same name.
abbrev three : Scheduler
three = record {
  processes =
      set_status running (proc 0 97) ∷ set_status waiting_for_burying (proc 1 98) ∷ proc 2 98 ∷ [];
  current_process = 0;
  next_pid = 3;
}

trimmed : trim_trailing_zeros (97 ∷ 0 ∷ 98 ∷ 0 ∷ 0 ∷ []) ≡ 97 ∷ 0 ∷ 98 ∷ []
unfolding trim_trailing_zeros
trimmed = refl

-- The frames 0 to 5 are in use, and all tables are empty; the table of a process is frame 5.
abbrev system : System
system = record {
  heap = record { nodes = []; heap_end = 0x200000 };
  machine = record {
    memory = λ t i. 0;
    frame_allocator = record { bitmap = 0x3F ∷ []; search_from = 0 };
  };
  phy_offset = 0x100000;
}

abbrev freed : System
freed = record {
  heap = record { nodes = record { start_addr = 0x1C000; size = 16384 } ∷ []; heap_end = 0x200000 };
  machine = record {
    memory = λ t i. 0;
    frame_allocator = record { bitmap = 0x1F ∷ []; search_from = 0 };
  };
  phy_offset = 0x100000;
}

switched :
    switch 3 three (record default_status { rip = 7 }) system
    ≡ some (
        returns (
          record {
            processes =
                record (proc 0 97) { context = record default_status { rip = 7 } }
                ∷ set_status running (proc 2 98)
                ∷ [];
            current_process = 1;
            next_pid = 3;
          },
          freed,
          some default_status,
        ))
unfolding switch dealloc_mut free_table free_with deallocate_frame bitmap_loc_from_addr
switched = refl

-- A table with an entry of level 0 whose frame is not empty.
refused :
    switch 3 three default_status
      (record system { machine = record (system.machine) { memory = λ t i. 0x3001 } })
    ≡ some panics
unfolding switch dealloc_mut free_table free_with free_entry entry_frame deallocate_frame
    bitmap_loc_from_addr
refused = refl

-- With one process that is to be buried the loop never ends.
no_way_out :
    switch 50
      (record three { processes = set_status waiting_for_burying (proc 0 97) ∷ [] })
      default_status
      system
    ≡ none
unfolding switch
no_way_out = refl

killed_one :
    pkillall (record three { processes = proc 0 97 ∷ proc 1 98 ∷ proc 2 98 ∷ [] }) (98 ∷ [])
    ≡ some (record three {
      processes = proc 0 97 ∷ set_status waiting_for_burying (proc 1 98) ∷ proc 2 98 ∷ [];
    })
unfolding pkillall
killed_one = refl

three-IsValid : IsValid three
three-IsValid = record { inside = omega arith; single = single }
  where
    single : (i : ℕ) (p : Process) → At three i p → p.status ≡ running → i ≡ 0
    single zero p a e = refl
    single (suc zero) p a e = ground (arith, a, e)
    single (suc (suc zero)) p a e = ground (arith, a, e)
    single (suc (suc (suc i))) p a e = ground (arith, a)

switch-Switches_example :
    Switches three default_status system (switch 3 three default_status system)
switch-Switches_example =
    switch-Switches 3 three default_status system 2 (proc 2 98) three-IsValid (refl, inl refl)
      (omega arith)

pkill-Kills_example : Kills three 2 (pkill three 2)
pkill-Kills_example = pkill-Kills three 2 (omega arith)

pkillall_one_example :
    (i : ℕ) × ((j : ℕ)
      → i ≢ j
      → get_elem? (proc 0 97 ∷ set_status waiting_for_burying (proc 1 98) ∷ proc 2 98 ∷ []) j
        ≡ get_elem? (proc 0 97 ∷ proc 1 98 ∷ proc 2 98 ∷ []) j)
pkillall_one_example =
    pkillall_one (record three { processes = proc 0 97 ∷ proc 1 98 ∷ proc 2 98 ∷ [] }) _ (98 ∷ [])
      killed_one

create_process-IsFresh_example :
    ((next : Scheduler) × (create_process (init 0x1000 (97 ∷ []) res) 0x2000 (99 ∷ []) res
        ≡ returns next)
      × (next.processes
          ≡ (init 0x1000 (97 ∷ []) res).processes ++ create 0x2000 1 (99 ∷ []) res ∷ [])
      × IsFresh next)
    ⊎ ((2 ≡ usize_mod) × (create_process (init 0x1000 (97 ∷ []) res) 0x2000 (99 ∷ []) res ≡ panics))
unfolding init
create_process-IsFresh_example =
    create_process-IsFresh (init 0x1000 (97 ∷ []) res) 0x2000 (99 ∷ []) res
      (init-IsFresh 0x1000 (97 ∷ []) res)
