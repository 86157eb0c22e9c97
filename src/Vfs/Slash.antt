-- ===== src/Vfs/Slash.antt =====
-- A slash behind a path, in `reslove_path` of kernel/src/drivers/vfs/mod.rs.
use mathlib.Core.Path.{fun_ext}
use navi_os.Base.{
  bytes_eq, ℕ, ◌==◌, ◌&&◌, ◌≡◌, refl, sym, ◌∙◌, ap, Bool, true, false, not, Bool-cases, inl, inr,
  List, [], ◌∷◌, ◌++◌, if◌then◌else◌,
}
use navi_os.Vfs.{
  Name, VfsPath, Location, FsError, FsResult, ok, err, panic, invaild_path, is_separator,
  split_path, FileDescriptor, onto_first,
}
use navi_os.Vfs
use navi_os.Vfs.Inode.{Inode}
use navi_os.Vfs.RamFs.{RamFs, part_of, enter, reslove_loop, reslove_path, rest_of}
use navi_os.Vfs.Resolve.{IsSplit, split_path-IsSplit, split_path-append}
use navi_os.Vfs.Open.{cons-inj}

-- Whether the last part of a path, if there is one, is not empty.
abbrev is_empty : Name → Bool
is_empty [] = true
is_empty (c ∷ cs) = false

abbrev solid : List Name → Bool
solid [] = true
solid (part ∷ []) = not (is_empty part)
solid (part ∷ next ∷ parts) = solid (next ∷ parts)

solid-cons : (c : ℕ) (cs : Name) (parts : List Name) → solid ((c ∷ cs) ∷ parts) ≡ solid parts
solid-cons c cs [] = refl
solid-cons c cs (next ∷ parts) = refl

abbrev is_dot : ℕ → Name → Bool
is_dot c cs = c == b'.' && bytes_eq cs []

abbrev is_dot_dot : ℕ → Name → Bool
is_dot_dot c cs = c == b'.' && bytes_eq cs (b'.' ∷ [])

-- The steps of the loop on a part that is not empty.
module _ (root : Inode) (c : ℕ) (cs : Name) (parts : List Name) (current prev : Location) where
  loop_dot :
      is_dot c cs ≡ true
      → reslove_loop root ((c ∷ cs) ∷ parts) current prev ≡ reslove_loop root parts current prev
  unfolding reslove_loop part_of
  loop_dot d = rw (reslove_loop, d) refl

  loop_dot_dot :
      is_dot c cs ≡ false
      → is_dot_dot c cs ≡ true
      → reslove_loop root ((c ∷ cs) ∷ parts) current prev ≡ reslove_loop root parts prev prev
  unfolding reslove_loop part_of
  loop_dot_dot nd dd = rw (reslove_loop, nd, dd) refl

  loop_named :
      is_dot c cs ≡ false
      → is_dot_dot c cs ≡ false
      → reslove_loop root ((c ∷ cs) ∷ parts) current prev
        ≡ Vfs.◌>>=◌ (enter root current (c ∷ cs)) (λ next. reslove_loop root parts next current)
  unfolding reslove_loop part_of
  loop_named nd name = rw (reslove_loop, nd, name) refl

-- A part that ends a path and is empty adds nothing behind a part that is not.
loop_slash :
    (root : Inode) (parts : List Name) (current prev : Location)
    → solid parts ≡ true
    → reslove_loop root (parts ++ [] ∷ []) current prev ≡ reslove_loop root parts current prev
unfolding reslove_loop part_of
loop_slash root [] current prev s = refl
loop_slash root ([] ∷ []) current prev s = cc
loop_slash root ([] ∷ next ∷ parts) current prev s = refl
loop_slash root ((c ∷ cs) ∷ parts) current prev s =
    let behind : solid parts ≡ true = sym (solid-cons c cs parts) ∙ s in
    elim (Bool-cases (is_dot c cs)) [
      | inl d ↦
          loop_dot root c cs (parts ++ [] ∷ []) current prev d
          ∙ loop_slash root parts current prev behind
          ∙ sym (loop_dot root c cs parts current prev d)
      | inr nd ↦ elim (Bool-cases (is_dot_dot c cs)) [
        | inl dd ↦
            loop_dot_dot root c cs (parts ++ [] ∷ []) current prev nd dd
            ∙ loop_slash root parts prev prev behind
            ∙ sym (loop_dot_dot root c cs parts current prev nd dd)
        | inr name ↦
            loop_named root c cs (parts ++ [] ∷ []) current prev nd name
            ∙ ap (λ f. Vfs.◌>>=◌ (enter root current (c ∷ cs)) f)
                (fun_ext (λ next. loop_slash root parts next current behind))
            ∙ sym (loop_named root c cs parts current prev nd name)
      ]
    ]

bind_invaild :
    (r : FsResult Location) (f g : Location → FsResult Location) (loc : Location)
    → Vfs.◌>>=◌ r f ≡ ok loc
    → ((next : Location) → f next ≡ ok loc → g next ≡ err invaild_path)
    → Vfs.◌>>=◌ r g ≡ err invaild_path
bind_invaild (ok next) f g loc e h = h next e
bind_invaild (err x) f g loc e h = cc
bind_invaild panic f g loc e h = cc

-- Behind an empty part it is an error.
loop_double :
    (root : Inode) (parts : List Name) (current prev loc : Location)
    → solid parts ≡ false
    → reslove_loop root parts current prev ≡ ok loc
    → reslove_loop root (parts ++ [] ∷ []) current prev ≡ err invaild_path
unfolding reslove_loop part_of
loop_double root [] current prev loc s e = cc
loop_double root ([] ∷ []) current prev loc s e = refl
loop_double root ([] ∷ next ∷ parts) current prev loc s e = cc
loop_double root ((c ∷ cs) ∷ parts) current prev loc s e =
    let behind : solid parts ≡ false = sym (solid-cons c cs parts) ∙ s in
    elim (Bool-cases (is_dot c cs)) [
      | inl d ↦
          loop_dot root c cs (parts ++ [] ∷ []) current prev d
          ∙ loop_double root parts current prev loc behind
              (sym (loop_dot root c cs parts current prev d) ∙ e)
      | inr nd ↦ elim (Bool-cases (is_dot_dot c cs)) [
        | inl dd ↦
            loop_dot_dot root c cs (parts ++ [] ∷ []) current prev nd dd
            ∙ loop_double root parts prev prev loc behind
                (sym (loop_dot_dot root c cs parts current prev nd dd) ∙ e)
        | inr name ↦
            loop_named root c cs (parts ++ [] ∷ []) current prev nd name
            ∙ bind_invaild (enter root current (c ∷ cs))
                (λ next. reslove_loop root parts next current)
                (λ next. reslove_loop root (parts ++ [] ∷ []) next current) loc
                (sym (loop_named root c cs parts current prev nd name) ∙ e)
                (λ next h. loop_double root parts next current loc behind h)
      ]
    ]

-- Whether a path ends in a separator.
abbrev pub ends_open : VfsPath → Bool
ends_open [] = false
ends_open (c ∷ []) = is_separator c
ends_open (c ∷ d ∷ ds) = ends_open (d ∷ ds)

two_parts : (cs : List ℕ) (q : Name) → [] ∷ split_path cs ≡ q ∷ [] → ⊥
unfolding IsSplit
two_parts cs q e = let (first, rest, f) = split_path-IsSplit cs in cc

one_part :
    (d : ℕ) (ds : List ℕ) (part : Name) → split_path (d ∷ ds) ≡ part ∷ [] → is_empty part ≡ false
unfolding split_path IsSplit
one_part d ds part e = elim (Bool-cases (is_separator d)) [
  | inl s ↦ absurd (two_parts ds part (sym (rw s refl) ∙ e))
  | inr s ↦
      let (first, rest, f) = split_path-IsSplit ds in
      let whole : (d ∷ first) ∷ rest ≡ part ∷ [] = sym (rw (s, f) refl) ∙ e in
      let named : d ∷ first ≡ part = cons-inj (d ∷ first) part rest [] whole in
      ap is_empty (sym named)
]

solid-onto :
    (c d : ℕ) (ds : List ℕ) (part : Name) (rest : List Name)
    → split_path (d ∷ ds) ≡ part ∷ rest
    → solid ((c ∷ part) ∷ rest) ≡ solid (part ∷ rest)
solid-onto c d ds part [] e = rw (one_part d ds part e) refl
solid-onto c d ds part (next ∷ rest) e = refl

solid-split_path : (c : ℕ) (cs : List ℕ) → solid (split_path (c ∷ cs)) ≡ not (ends_open (c ∷ cs))
unfolding split_path IsSplit
solid-split_path c [] = elim (Bool-cases (is_separator c)) [ inl s ↦ rw s refl | inr s ↦ rw s refl ]
solid-split_path c (d ∷ ds) =
    let (part, rest, f) = split_path-IsSplit (d ∷ ds) in
    let ih = solid-split_path d ds in
    elim (Bool-cases (is_separator c)) [
      | inl s ↦ rw (split_path, s, f) (sym (ap solid f) ∙ ih)
      | inr s ↦ rw (split_path, s, f) (solid-onto c d ds part rest f ∙ sym (ap solid f) ∙ ih)
    ]

-- What follows the first part.
solid-rest :
    (path : VfsPath) (part : Name) (rest : List Name)
    → split_path path ≡ part ∷ rest
    → solid rest ≡ not (ends_open path)
unfolding split_path
solid-rest [] part rest e = ap (λ ps. solid (rest_of ps)) (sym e)
solid-rest (c ∷ cs) part [] e =
    sym (ap not (one_part c cs part e)) ∙ sym (ap solid e) ∙ solid-split_path c cs
solid-rest (c ∷ cs) part (next ∷ rest) e = sym (ap solid e) ∙ solid-split_path c cs

-- When a path resolves, the path with a slash behind it resolves to the same inode, or, if the path
-- ends in a separator, to the error `InvaildPath`.
pub reslove_path-slash :
    (fs : RamFs) (path : VfsPath) (loc : Location)
    → reslove_path fs path ≡ ok loc
    → reslove_path fs (path ++ b'/' ∷ []) ≡ (if ends_open path then err invaild_path else ok loc)
unfolding reslove_path split_path IsSplit
reslove_path-slash fs path loc e =
    let (part, rest, f) = split_path-IsSplit path in
    let whole : split_path (path ++ b'/' ∷ []) ≡ part ∷ (rest ++ [] ∷ []) =
      split_path-append path [] ∙ ap (λ (ps : List Name). ps ++ [] ∷ []) f in
    let found : reslove_loop fs.root_inode rest [] [] ≡ ok loc =
      sym (ap (λ ps. reslove_loop fs.root_inode (rest_of ps) [] []) f) ∙ e in
    let s = solid-rest path part rest f in
    ap (λ ps. reslove_loop fs.root_inode (rest_of ps) [] []) whole
    ∙ elim (Bool-cases (ends_open path)) [
      | inl o ↦ rw o (loop_double fs.root_inode rest [] [] loc (s ∙ ap not o) found)
      | inr o ↦ rw o (loop_slash fs.root_inode rest [] [] (s ∙ ap not o) ∙ found)
    ]
