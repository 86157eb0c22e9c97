-- ===== src/Vfs/Files.antt =====
-- What a client of `RamFS` sees of the files: writing, reading and creating them.
use navi_os.Base.{
  ℕ, ◌+◌, ◌≤◌, ◌<◌, ◌≡◌, refl, sym, ◌∙◌, ap, List, ◌++◌, inl, inr, Bool-cases, Option-cases, arith,
  length, drop, ltb,
}
use navi_os.Vfs.{Location, ok, err, panic, FileDescriptor, FsError, not_a_file}
use navi_os.Vfs.Inode
use navi_os.Vfs.Inode.{Inode, RamInode, Entries, inode, content, children, link}
use navi_os.Vfs.RamFs
use navi_os.Vfs.RamFs.{RamFs, read_count, is_directory, reslove_path, insert_at}
use navi_os.Vfs.Content.{IsFile, written, write_at_start, write_later, written-IsFile, read_whole}

panic-ne-ok {ℓ} : {A : Type ℓ} (a : A) → panic ≡ ok a → ⊥
panic-ne-ok a e = cc

err-ne-ok {ℓ} : {A : Type ℓ} (x : FsError) (a : A) → err x ≡ ok a → ⊥
err-ne-ok x a e = cc

ok-inj {ℓ} : {A : Type ℓ} (a b : A) → ok a ≡ ok b → a ≡ b
ok-inj a b e = cc

-- The bytes of a file after `buffer` was written at its start.
abbrev pub overwritten : List ℕ → List ℕ → List ℕ
overwritten bytes buffer = buffer ++ drop (length buffer) bytes

-- The file at `loc` is read whole by a descriptor that is fresh for reading, into any buffer that
-- is long enough.
pub record ReadsBack (fs : RamFs) (loc : Location) (bytes : List ℕ) : Type 0 where
  pub reads :
      (fd : FileDescriptor) (buffer : List ℕ)
      → fd.node ≡ loc
      → fd.read_pos ≡ 0
      → length bytes ≤ length buffer
      → RamFs.read fs fd buffer
        ≡ ok (
          length bytes,
          record fd { read_pos = fd.read_pos + length bytes },
          bytes ++ drop (length bytes) buffer,
        )

-- A write succeeded, the tree now has `bytes` at the descriptor's file, and whoever reads the file
-- gets them.
pub record Written (fd : FileDescriptor) (buffer bytes : List ℕ) (fs' : RamFs)
    (fd' : FileDescriptor) : Type 0 where
  pub moved : fd' ≡ record fd { write_pos = length buffer }
  pub now : IsFile fs' fd.node bytes
  pub reads_back : ReadsBack fs' fd.node bytes

IsFile-ReadsBack :
    (fs : RamFs) (loc : Location) (bytes : List ℕ) → IsFile fs loc bytes → ReadsBack fs loc bytes
IsFile-ReadsBack fs loc bytes f = record {
  reads = λ fd buffer e z le.
      read_whole fs fd bytes
        (record { name = f.name; kind = f.kind; at = ap (λ l. Inode.at l fs.root_inode) e ∙ f.at })
        buffer z le;
}

-- A write through a descriptor at position 0 of a file succeeds: it replaces the start of the file,
-- keeps what lies behind, and every fresh descriptor on the file reads exactly the new bytes into a
-- buffer that can hold them.
pub write-Written :
    (fs : RamFs) (fd : FileDescriptor) (bytes buffer : List ℕ)
    → IsFile fs fd.node bytes
    → fd.write_pos ≡ 0
    → (fs' : RamFs) × (fd' : FileDescriptor) × (RamFs.write fs fd buffer ≡ ok (fs', fd'))
      × Written fd buffer (overwritten bytes buffer) fs' fd'
write-Written fs fd bytes buffer f z =
    let now = written-IsFile fs fd bytes f buffer in
    let end : fd.write_pos + length buffer ≡ length buffer = omega (arith, z) in
    (
      written fs fd bytes f buffer,
      record fd { write_pos = fd.write_pos + length buffer },
      write_at_start fs fd bytes f buffer z,
      record {
        moved = ap (λ p. record fd { write_pos = p }) end;
        now = now;
        reads_back =
            IsFile-ReadsBack (written fs fd bytes f buffer) fd.node (overwritten bytes buffer) now;
      },
    )

-- A write that succeeded was one to a file, at position 0.
write_ok :
    (fs : RamFs) (fd : FileDescriptor) (buffer : List ℕ) (done : RamFs × FileDescriptor)
    → RamFs.write fs fd buffer ≡ ok done
    → (bytes : List ℕ) × IsFile fs fd.node bytes × (fd.write_pos ≡ 0)
unfolding RamFs.write
write_ok fs fd buffer done e = elim (Option-cases (Inode.at fd.node fs.root_inode)) [
  | inl h ↦ absurd (panic-ne-ok done (sym (rw h refl) ∙ e))
  | inr (inode n t (content bytes), h) ↦
      let f : IsFile fs fd.node bytes = record { name = n; kind = t; at = h } in
      elim (Bool-cases (ltb 0 fd.write_pos)) [
        | inl late ↦
            absurd (panic-ne-ok done (sym (write_later fs fd bytes f buffer (ground arith)) ∙ e))
        | inr start ↦ (bytes, f, ground arith)
      ]
  | inr (inode n t (children tree), h) ↦ absurd (err-ne-ok not_a_file done (sym (rw h refl) ∙ e))
  | inr (inode n t link, h) ↦ absurd (err-ne-ok not_a_file done (sym (rw h refl) ∙ e))
]

-- After a write of at least one byte that succeeded, every further write through the returned
-- descriptor panics.
pub second_write :
    (fs fs' : RamFs) (fd fd' : FileDescriptor) (buffer more : List ℕ)
    → RamFs.write fs fd buffer ≡ ok (fs', fd')
    → 0 < length buffer
    → RamFs.write fs' fd' more ≡ panic
second_write fs fs' fd fd' buffer more e some_bytes =
    let (bytes, f, z) = write_ok fs fd buffer (fs', fd') e in
    let late : 0 < fd.write_pos + length buffer = omega arith in
    let same = ok-inj _ (fs', fd') (sym (write_at_start fs fd bytes f buffer z) ∙ e) in
    let fs_same : written fs fd bytes f buffer ≡ fs' =
      ap (λ (p : RamFs × FileDescriptor). p.0) same in
    let fd_same : record fd { write_pos = fd.write_pos + length buffer } ≡ fd' =
      ap (λ (p : RamFs × FileDescriptor). p.1) same in
    rw (← fs_same, ← fd_same)
      (write_later (written fs fd bytes f buffer)
        (record fd { write_pos = fd.write_pos + length buffer }) (overwritten bytes buffer)
        (written-IsFile fs fd bytes f buffer) more late)
