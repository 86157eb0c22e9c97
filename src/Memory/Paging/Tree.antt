-- ===== src/Memory/Paging/Tree.antt =====
-- The page tables below a root: where the entries lead, and what keeps the tables apart.
use navi_os.Base.{
  ℕ, ◌*◌, ◌^◌, ◌≤◌, ◌<◌, ◌≡◌, refl, sym, ◌∙◌, ap, arith, true, false, ◌&&◌, Option, none, some,
  List, [], ◌∷◌, length, ◌==◌, ==_iff, Bool-cases, inl, inr,
}
use navi_os.Memory.{PhysAddr, page_size}
use navi_os.Memory.Frames.{Frame}
use navi_os.Memory.Frames.Bitmap.{is_free, IsValid}
use navi_os.Memory.Paging.{Machine, entry_frame}
use navi_os.Memory.Paging.Entries.{Small}

-- The address that an entry leads to: a table, or at the last level the frame of a page.
abbrev pub address_of : Option Frame → Option PhysAddr
address_of none = none
address_of (some frame) = some frame.start_address

abbrev pub leads : Machine → PhysAddr → ℕ → Option PhysAddr
leads m t i = address_of (entry_frame (m.memory t i))

abbrev pub bind {ℓ κ} : {A : Type ℓ} {B : Type κ} → Option A → (A → Option B) → Option B
bind none f = none
bind (some a) f = f a

-- Where the entries lead by the indices of an address, from the table `t` on. It reads each entry as the
-- code does: what is behind a huge page is read as a table.
unfoldable pub walk : Machine → PhysAddr → List ℕ → Option PhysAddr
walk m t [] = some t
walk m t (i ∷ is) = bind (leads m t i) (λ t'. walk m t' is)

-- The indices that lead to a table, the last one first; `none` for what is no table.
abbrev pub Places : Type 0
Places = PhysAddr → Option (List ℕ)

-- The tables below `root` are a tree: no table is reached in two ways, and no free frame is a table.
pub record IsTree (m : Machine) (root : PhysAddr) (place : Places) : Type 0 where
  pub root_at : place root ≡ some []
  pub valid : IsValid m.frame_allocator
  pub within : length m.frame_allocator.bitmap * 8 ≤ 2 ^ 40
  pub entries : (t i : ℕ) (p : List ℕ) → place t ≡ some p → Small (m.memory t i)
  pub below :
      (t i t' : ℕ) (p : List ℕ)
      → place t ≡ some p
      → length p < 3
      → leads m t i ≡ some t'
      → place t' ≡ some (i ∷ p)
  pub unused : (k : ℕ) → is_free m.frame_allocator.bitmap k ≡ true → place (k * page_size) ≡ none

pub bind-cong {ℓ κ} :
    {A : Type ℓ} {B : Type κ} {f g : A → Option B} (o : Option A)
    → ((a : A) → o ≡ some a → f a ≡ g a)
    → bind o f ≡ bind o g
bind-cong none h = refl
bind-cong (some a) h = h a refl

-- Machines whose entries lead to the same addresses.
pub walk-cong :
    (m m' : Machine)
    → ((t i : ℕ) → leads m' t i ≡ leads m t i)
    → (t : ℕ) (is : List ℕ) → walk m' t is ≡ walk m t is
unfolding walk
walk-cong m m' h t [] = refl
walk-cong m m' h t (i ∷ is) = rw (h t i) (bind-cong (leads m t i) (λ u _. walk-cong m m' h u is))

pub some-ne-none {ℓ} : {A : Type ℓ} (a : A) (o : Option A) → o ≡ some a → o ≡ none → ⊥
some-ne-none a o h e = cc

-- What has a place is no other than what has none.
pub placed_ne :
    (place : Places) (t u : ℕ) (p : List ℕ) → place t ≡ some p → place u ≡ none → (t == u) ≡ false
placed_ne place t u p h e = elim (Bool-cases (t == u)) [
  | inl same ↦ absurd (some-ne-none p (place u) (ap place (sym ((==_iff t u).0 same)) ∙ h) e)
  | inr other ↦ other
]

pub same_entry : (t u i j : ℕ) → (u == t && j == i) ≡ true → (u ≡ t) × (j ≡ i)
same_entry t u i j h = ground arith

pub other_table : (t u i j : ℕ) → (u == t) ≡ false → (u == t && j == i) ≡ false
other_table t u i j h = ground arith
