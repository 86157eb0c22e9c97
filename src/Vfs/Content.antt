-- ===== src/Vfs/Content.antt =====
-- What `read`, `write`, `create` and `createdir` of `RamFS` do to the contents of the tree.
use native.Mathlib.Nat.{add-zero}
use navi_os.Base.{
  ℕ, ◌+◌, ◌-◌, ◌≤◌, ◌<◌, ◌≡◌, ◌≢◌, refl, sym, ◌∙◌, ap, true, false, some, List, [], ◌∷◌, ◌++◌, inl,
  inr, if◌then◌else◌, Bool-cases, Option-cases, arith, bytes_eq, bytes_lt, bytes_eq_refl,
  bytes_eq_path, length, replicate, take, drop, leb, ltb, ◌==◌, ◌&&◌, length-take, length-drop,
  length-append, length-replicate, take-length, drop-all,
}
use navi_os.Vfs.{Name, Location, InodeType, ok, panic, FileDescriptor}
use navi_os.Vfs.Inode
use navi_os.Vfs.Inode.{
  Inode, RamInode, Entries, inode, content, children, link, nil, entry, slice, copy_into, grow,
}
use navi_os.Vfs.RamFs
use navi_os.Vfs.RamFs.{RamFs, read_count}
use navi_os.Vfs.Resolve.{none-ne-some, at-child, at-missing}

-- The map: a name that was put is found, and the other names are found as before.
pub find-put :
    (k j : Name) (node : Inode) (tree : Entries)
    → Inode.find j (Inode.put k node tree) ≡ (if bytes_eq k j then some node else Inode.find j tree)
unfolding Inode.find Inode.put
find-put k j node nil = refl
find-put k j node (entry i old rest) = elim (Bool-cases (bytes_eq i k)) [
  | inl e ↦ rw e (same_key i k j node old rest e)
  | inr e ↦ elim (Bool-cases (bytes_lt k i)) [
    | inl l ↦ rw (e, l) refl
    | inr l ↦ rw (e, l) (later i k j node old rest e (find-put k j node rest))
  ]
]
  where
    same_key :
        (i k j : Name) (node old : Inode) (rest : Entries)
        → bytes_eq i k ≡ true
        → (if bytes_eq i j then some node else Inode.find j rest) ≡ (
            if bytes_eq k j
            then some node
            else if bytes_eq i j
            then some old
            else Inode.find j rest)
    same_key i k j node old rest e =
        let same : i ≡ k = bytes_eq_path i k e in rw (← same) (ground arith)

    later :
        (i k j : Name) (node old : Inode) (rest : Entries)
        → bytes_eq i k ≡ false
        → Inode.find j (Inode.put k node rest)
          ≡ (if bytes_eq k j then some node else Inode.find j rest)
        → (if bytes_eq i j then some old else Inode.find j (Inode.put k node rest)) ≡ (
            if bytes_eq k j
            then some node
            else if bytes_eq i j
            then some old
            else Inode.find j rest)
    later i k j node old rest e ih = elim (Bool-cases (bytes_eq k j)) [
      | inr f ↦ rw (ih, f) refl
      | inl f ↦ let same : k ≡ j = bytes_eq_path k j f in rw (ih, f, ← same, e) refl
    ]

copy_into_misfit :
    (xs src : List ℕ) (from to : ℕ)
    → (from ≤ to → length src ≢ to - from)
    → copy_into xs from to src ≡ panic
copy_into_misfit xs src from to wrong = elim (Bool-cases (leb from to && leb to (length xs))) [
  | inr out ↦ rw out refl
  | inl inside ↦
      let size = length-take (to - from) (drop from xs) in
      let rest = length-drop from xs in
      let ordered : from ≤ to = ground arith in
      let within : to ≤ length xs = ground arith in
      let misfit : length src ≢ to - from = wrong ordered in
      let differ : (length (take (to - from) (drop from xs)) == length src) ≡ false =
        ground arith in
      rw (inside, differ) refl
]

slice_in : (xs : List ℕ) (n : ℕ) → n ≤ length xs → slice xs 0 n ≡ ok (take n xs)
slice_in xs n h = ground arith

copy_into_fits :
    (xs src : List ℕ) (n : ℕ)
    → length src ≡ n
    → n ≤ length xs
    → copy_into xs 0 n src ≡ ok (src ++ drop n xs)
copy_into_fits xs src n e h =
    let same : (length (take n xs) == length src) ≡ true = ground (arith, length-take n xs) in
    rw (slice_in xs n h, same) refl

-- A write past the start of a file, and a read past it, always panic: the range of the copy ends
-- at the count and not at the position plus the count.
pub write_past_start :
    (bytes buffer : List ℕ) (offset : ℕ)
    → 0 < offset
    → Inode.write (content bytes) buffer offset ≡ panic
unfolding Inode.write
write_past_start bytes buffer offset h =
    rw
      (copy_into_misfit (grow bytes (length buffer + offset)) buffer offset (length buffer)
        (λ le e. absurd (omega arith)))
      refl

pub read_past_start :
    (bytes buffer : List ℕ) (offset count : ℕ)
    → 0 < offset
    → Inode.read (content bytes) buffer offset count ≡ panic
unfolding Inode.read
read_past_start bytes buffer offset count h =
    elim (Bool-cases (leb offset count && leb count (length bytes))) [
      | inr out ↦ rw out refl
      | inl inside ↦
          let ordered : offset ≤ count = ground arith in
          rw inside (
            copy_into_misfit buffer (take (count - offset) (drop offset bytes)) 0 count
              λ le e. absurd (omega (arith, length-take (count - offset) (drop offset bytes))))
    ]

length-grown :
    (bytes : List ℕ) (n : ℕ)
    → length (bytes ++ replicate (n - length bytes) 0) ≡ length bytes + (n - length bytes)
length-grown bytes n = omega (
  arith,
  length-append bytes (replicate (n - length bytes) 0),
  length-replicate {A = ℕ} (n - length bytes) 0,
)

drop-grow : (bytes : List ℕ) (n : ℕ) → drop n (grow bytes n) ≡ drop n bytes
drop-grow bytes n = elim (Bool-cases (ltb (length bytes) n)) [
  | inr out ↦ rw out refl
  | inl short ↦
      let le : length bytes < n = ground arith in
      rw short
        (drop-all n _ (omega (arith, length-grown bytes n)) ∙ sym (drop-all n bytes (omega arith)))
]

length-grow : (bytes : List ℕ) (n : ℕ) → n ≤ length (grow bytes n)
length-grow bytes n = ground (arith, length-grown bytes n)

pub write_start :
    (bytes buffer : List ℕ)
    → Inode.write (content bytes) buffer 0 ≡ ok (content (buffer ++ drop (length buffer) bytes))
unfolding Inode.write
write_start bytes buffer =
    let n : ℕ = length buffer in
    rw
      (
        add-zero n,
        copy_into_fits (grow bytes n) buffer n refl (length-grow bytes n),
        drop-grow bytes n,
      )
      refl

pub read_start :
    (bytes buffer : List ℕ)
    → length bytes ≤ length buffer
    → Inode.read (content bytes) buffer 0 (length bytes) ≡ ok (bytes ++ drop (length bytes) buffer)
unfolding Inode.read
read_start bytes buffer h =
    rw
      (
        slice_in bytes (length bytes) (omega arith),
        take-length bytes,
        copy_into_fits buffer bytes (length bytes) refl h,
      )
      refl

pub find-put_self :
    (k : Name) (node : Inode) (tree : Entries) → Inode.find k (Inode.put k node tree) ≡ some node
find-put_self k node tree = find-put k k node tree ∙ rw (bytes_eq_refl k) refl

-- An inode with its operations replaced is found where it was.
pub at-replace_at :
    (loc : Location) (o : RamInode) (root : Inode) (n : Name) (t : InodeType) (old : RamInode)
    → Inode.at loc root ≡ some (inode n t old)
    → Inode.at loc (Inode.replace_at loc o root) ≡ some (inode n t o)
unfolding Inode.at Inode.replace_at
at-replace_at [] o (inode n' t' o') n t old e = cc
at-replace_at (k ∷ ks) o (inode n' t' (children tree)) n t old e =
    elim (Option-cases (Inode.find k tree)) [
      | inl f ↦ absurd (none-ne-some (inode n t old) (sym (at-missing k n' t' tree ks f) ∙ e))
      | inr (child, f) ↦
          rw (f, Inode.replace_at)
            (at-child k n' t' (Inode.put k (Inode.replace_at ks o child) tree)
                (Inode.replace_at ks o child) ks
                (find-put_self k (Inode.replace_at ks o child) tree)
              ∙ at-replace_at ks o child n t old (sym (at-child k n' t' tree child ks f) ∙ e))
    ]
at-replace_at (k ∷ ks) o (inode n' t' (content b)) n t old e =
    absurd (none-ne-some (inode n t old) e)
at-replace_at (k ∷ ks) o (inode n' t' link) n t old e = absurd (none-ne-some (inode n t old) e)

-- The inode of a descriptor is a file with the given bytes.
pub record IsFile (fs : RamFs) (loc : Location) (bytes : List ℕ) : Type 0 where
  pub name : Name
  pub kind : InodeType
  pub at : Inode.at loc fs.root_inode ≡ some (inode name kind (content bytes))

module _ (fs : RamFs) (fd : FileDescriptor) (bytes : List ℕ) (f : IsFile fs fd.node bytes) where
  abbrev pub written : List ℕ → RamFs
  written b = record {
    root_inode = Inode.replace_at fd.node (content (b ++ drop (length b) bytes)) fs.root_inode;
  }

  pub write_at_start :
      (b : List ℕ)
      → fd.write_pos ≡ 0
      → RamFs.write fs fd b ≡ ok (written b, record fd { write_pos = fd.write_pos + length b })
  unfolding RamFs.write
  write_at_start b z =
      let here : Inode.write (content bytes) b fd.write_pos
          ≡ ok (content (b ++ drop (length b) bytes)) =
        ap (Inode.write (content bytes) b) z ∙ write_start bytes b in
      rw (f.at, RamFs.write, here) refl

  pub write_later : (b : List ℕ) → 0 < fd.write_pos → RamFs.write fs fd b ≡ panic
  unfolding RamFs.write
  write_later b h = rw (f.at, RamFs.write, write_past_start bytes b fd.write_pos h) refl

  pub written-IsFile : (b : List ℕ) → IsFile (written b) fd.node (b ++ drop (length b) bytes)
  written-IsFile b = record {
    name = f.name;
    kind = f.kind;
    at =
        at-replace_at fd.node (content (b ++ drop (length b) bytes)) fs.root_inode f.name f.kind
          (content bytes) f.at;
  }

  pub read_whole :
      (b : List ℕ)
      → fd.read_pos ≡ 0
      → length bytes ≤ length b
      → RamFs.read fs fd b
        ≡ ok (
          length bytes,
          record fd { read_pos = fd.read_pos + length bytes },
          bytes ++ drop (length bytes) b,
        )
  unfolding RamFs.read Inode.size
  read_whole b z h =
      let count : read_count fd.read_pos (length b) (length bytes) ≡ ok (length bytes) =
        rw z (ground arith) in
      let here : Inode.read (content bytes) b fd.read_pos (length bytes)
          ≡ ok (bytes ++ drop (length bytes) b) =
        ap (λ p. Inode.read (content bytes) b p (length bytes)) z ∙ read_start bytes b h in
      rw (f.at, RamFs.read, count, here) refl
