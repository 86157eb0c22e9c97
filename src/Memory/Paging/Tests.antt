-- ===== src/Memory/Paging/Tests.antt =====
-- Page tables on a memory of eight frames: the root table is frame 1, frames 2 to 7 are free.
use navi_os.Base.{
  ℕ, ◌*◌, ◌≡◌, refl, sym, ◌∙◌, ap, arith, Bool, true, false, Bool-cases, inl, inr, none, some, List,
  [], ◌∷◌, ◌==◌, ◌&&◌, ==_iff, if◌then◌else◌, Outcome, returns, panics, ◌>>=◌,
}
use navi_os.Memory.{PhysAddr, page_size, translate}
use navi_os.Memory.Frames.{allocate_frame, bitmap_loc_from_addr}
use navi_os.Memory.Frames.Bitmap.{is_free}
use navi_os.Memory.Frames.Allocate.{frame_at}
use navi_os.Memory.Paging.{
  Machine, Page, Call, entry_flags, entry_frame, entry_new, new_frame, map_entry, mapped_to, map_to,
  is_mapped,
}
use navi_os.Memory.Paging.Entries.{entry_frame-none}
use navi_os.Memory.Paging.Tree.{address_of, IsTree, Places, some-ne-none}
use navi_os.Memory.Paging.MapTo.{MapsTo, map_to-MapsTo}
use navi_os.Memory.Paging.Mapped.{is_some, is_mapped-processor}
use navi_os.Memory.Paging.Processor.{processor}
use navi_os.Memory.Paging.Free.{FreesTwice, free_entry-FreesTwice}

abbrev pub eight : Machine
eight = record { memory = λ t i. 0; frame_allocator = record { bitmap = 3 ∷ []; search_from = 0 } }

abbrev pub root : PhysAddr
root = 4096

abbrev pub root_place : Places
root_place t = if t == root then some [] else none

pub eight-IsTree : IsTree eight root root_place
eight-IsTree = record {
  root_at = refl;
  valid = record { bytes = omega arith; fits = omega arith };
  within = omega arith;
  entries = λ t i p h. omega arith;
  below = λ t i u p h lt e.
      absurd (some-ne-none u _ e (ap address_of (entry_frame-none 0 (omega arith) (omega arith))));
  unused = unused_at;
}
  where
    in_use : (k : ℕ) → k ≡ 1 → is_free (3 ∷ []) k ≡ true → ⊥
    in_use k e h = false-ne-true (sym (ap (is_free (3 ∷ [])) e) ∙ h)
      where
        false-ne-true : false ≡ true → ⊥
        false-ne-true e = cc

    unused_at : (k : ℕ) → is_free (3 ∷ []) k ≡ true → root_place (k * page_size) ≡ none
    unused_at k h = elim (Bool-cases (k * page_size == root)) [
      | inr other ↦ rw other refl
      | inl here ↦
          let place : k * page_size ≡ root = (==_iff _ _).0 here in
          absurd (in_use k (omega arith) h)
    ]

abbrev page : Page
page = record { start_address = 0x8000000000 }

map_to-MapsTo_example : MapsTo eight root page 7 (map_to eight root page (frame_at 7) 3)
map_to-MapsTo_example =
    map_to-MapsTo eight root root_place page 3 7 eight-IsTree (omega arith) refl (omega arith)

-- A page in the table at 0x4000, and a huge page that is no table to the processor.
abbrev mapping : Machine
mapping = record eight {
  memory = λ t i.
      if t == 0x1000 && i == 1
      then 0x2003
      else if t == 0x2000 && i == 0
      then 0x3003
      else if t == 0x3000 && i == 0
      then 0x4003
      else if t == 0x3000 && i == 1
      then 0x200083
      else if t == 0x4000 && i == 5
      then 0x7003
      else 0;
}

translated : processor mapping root 0x8000005123 ≡ some 0x7123
unfolding processor
translated = refl

translated_huge : processor mapping root 0x8000234567 ≡ some 0x234567
unfolding processor
translated_huge = refl

is_mapped-processor_example :
    is_mapped eight root page ≡ returns (is_some (processor eight root page.start_address))
is_mapped-processor_example =
    is_mapped-processor eight root root_place page eight-IsTree (λ t i p h lt. refl)

free_entry-FreesTwice_example : FreesTwice eight 8195
free_entry-FreesTwice_example =
    free_entry-FreesTwice eight 8195 (record { bytes = omega arith; fits = omega arith })
      (omega arith) refl (omega arith)

-- The page is mapped afterwards, and three frames are taken for its tables.
abbrev then_mapped : Call (Unit {0}) → Outcome (Bool × List ℕ)
then_mapped (returns (r, m)) =
    is_mapped m root page >>= λ there. returns (there, m.frame_allocator.bitmap)
then_mapped panics = panics

map_to_run : then_mapped (map_to eight root page (frame_at 7) 3) ≡ returns (true, 0x1F ∷ [])
unfolding map_to translate map_entry new_frame allocate_frame entry_flags entry_frame entry_new
    mapped_to is_mapped bitmap_loc_from_addr
map_to_run = refl
