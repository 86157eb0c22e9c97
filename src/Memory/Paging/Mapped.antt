-- ===== src/Memory/Paging/Mapped.antt =====
-- `PageTable::is_mapped` against the translation of the processor.
use navi_os.Base.{
  ℕ, ◌+◌, sym, ◌%◌, ◌<◌, ◌≡◌, refl, ◌∙◌, ap, arith, Bool, true, false, Option, none, some, List, [],
  ◌∷◌, length, ◌==◌, ==_iff, Bool-cases, inl, inr, Outcome, returns,
}
use navi_os.Memory.{PhysAddr, translate}
use navi_os.Memory.Paging.{
  Machine, Page, Entry, entry_frame, entry_is_mapped, mapped_to, or_false, is_mapped,
}
use navi_os.Memory.Paging.Entries.{Small, entry_is_mapped-eq, entry_frame-eq, entry_frame-none}
use navi_os.Memory.Paging.Tree.{address_of, leads, bind, walk, Places, IsTree}
use navi_os.Memory.Paging.Address.{path_of}
use navi_os.Memory.Paging.Processor.{processor, NoHuge, processor-resolve}

abbrev pub is_some {ℓ} : {A : Type ℓ} → Option A → Bool
is_some none = false
is_some (some a) = true

mapped_to-eq : (e : Entry) → Small e → mapped_to e ≡ returns (address_of (entry_frame e))
unfolding mapped_to
mapped_to-eq e small = elim (Bool-cases (e % 2 == 1)) [
  | inl odd ↦
      rw (entry_is_mapped-eq e small ∙ odd, entry_frame-eq e small ((==_iff _ _).0 odd)) refl
  | inr even ↦ rw (entry_is_mapped-eq e small ∙ even, entry_frame-none e small (ground arith)) refl
]

last-eq :
    (e : Entry)
    → Small e
    → entry_is_mapped e ≡ is_some (bind (address_of (entry_frame e)) (λ t. some t))
last-eq e small = elim (Bool-cases (e % 2 == 1)) [
  | inl odd ↦
      rw (entry_is_mapped-eq e small ∙ odd, entry_frame-eq e small ((==_iff _ _).0 odd)) refl
  | inr even ↦ rw (entry_is_mapped-eq e small ∙ even, entry_frame-none e small (ground arith)) refl
]

-- One level: what holds behind the table that the entry leads to holds here.
level :
    (m : Machine) (root : PhysAddr) (place : Places) (t i : ℕ) (p : List ℕ)
    (rest : PhysAddr → Outcome Bool) (found : PhysAddr → Option PhysAddr)
    → IsTree m root place
    → place t ≡ some p
    → length p < 3
    → ((u : ℕ) → place u ≡ some (i ∷ p) → rest u ≡ returns (is_some (found u)))
    → or_false (mapped_to (m.memory t i)) rest ≡ returns (is_some (bind (leads m t i) found))
level m root place t i p rest found tree at lt behind =
    rw (mapped_to-eq (m.memory t i) (tree.entries t i p at))
      (go (leads m t i) (λ u e. behind u (tree.below t i u p at lt e)))
  where
    go :
        (o : Option PhysAddr)
        → ((u : ℕ) → o ≡ some u → rest u ≡ returns (is_some (found u)))
        → or_false (returns o) rest ≡ returns (is_some (bind o found))
    go none h = refl
    go (some u) h = h u refl

-- `is_mapped` says whether the entries lead to a frame.
is_mapped-walk :
    (m : Machine) (root : PhysAddr) (place : Places) (page : Page)
    → IsTree m root place
    → is_mapped m root page ≡ returns (is_some (walk m root (path_of page.start_address)))
unfolding is_mapped walk
is_mapped-walk m root place page tree =
    level m root place root (translate page.start_address).4 [] _ _ tree tree.root_at (omega arith)
      λ t3 at3.
        level m root place t3 (translate page.start_address).3 _ _ _ tree at3 (omega arith)
          λ t2 at2.
            level m root place t2 (translate page.start_address).2 _ _ _ tree at2 (omega arith)
              λ t1 at1.
                ap returns
                  (last-eq (m.memory t1 (translate page.start_address).1) (tree.entries t1 _ _ at1))

is_some-bind :
    (o : Option PhysAddr) (f : PhysAddr → PhysAddr) → is_some (bind o (λ n. some (f n))) ≡ is_some o
is_some-bind none f = refl
is_some-bind (some n) f = refl

-- On tables that are a tree and have no huge pages, `is_mapped` does not panic, and returns whether the
-- processor translates the address of the page.
pub is_mapped-processor :
    (m : Machine) (root : PhysAddr) (place : Places) (page : Page)
    → IsTree m root place
    → NoHuge m place
    → is_mapped m root page ≡ returns (is_some (processor m root page.start_address))
is_mapped-processor m root place page tree plain =
    is_mapped-walk m root place page tree
    ∙ ap returns (
        sym (
          is_some-bind (walk m root (path_of page.start_address))
            (λ frame. frame + (translate page.start_address).0))
        ∙ ap is_some (sym (processor-resolve m root place page.start_address tree plain)))
