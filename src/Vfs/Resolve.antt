-- ===== src/Vfs/Resolve.antt =====
-- What `reslove_path` returns.
use mathlib.Core.Path.{fun_ext}
use navi_os.Base.{
  ◌≡◌, refl, sym, ◌∙◌, ap, Bool, true, false, not, none, some, List, [], ◌∷◌, ◌++◌, inl, inr,
  if◌then◌else◌, Bool-cases, Option-cases,
}
use navi_os.Vfs.{
  Name, VfsPath, Location, InodeType, FsResult, ok, err, panic, no_such_a_file_or_directory,
  invaild_path, ◌>>=◌, is_separator, split_path,
}
use navi_os.Vfs.Inode
use navi_os.Vfs.Inode.{Inode, RamInode, Entries, inode, content, children, link, nil, entry}
use navi_os.Vfs.RamFs.{
  RamFs, Part, empty, dot, dot_dot, named, part_of, enter, reslove_loop, reslove_path, rest_of,
  is_directory,
}

-- A call that does not panic, and whose success is a location of the tree.
abbrev pub Found : Inode → FsResult Location → Type 0
Found root (ok loc) = (node : Inode) × (Inode.at loc root ≡ some node)
Found root (err e) = Unit {0}
Found root panic = ⊥

pub some-inj {ℓ} : {A : Type ℓ} (a b : A) → some a ≡ some b → a ≡ b
some-inj a b e = cc

pub none-ne-some {ℓ} : {A : Type ℓ} (a : A) → none ≡ some a → ⊥
none-ne-some a e = cc

pub at-child :
    (n m : Name) (t : InodeType) (tree : Entries) (child : Inode) (ks : Location)
    → Inode.find n tree ≡ some child
    → Inode.at (n ∷ ks) (inode m t (children tree)) ≡ Inode.at ks child
unfolding Inode.at
at-child n m t tree child ks f = rw (f, Inode.at) refl

pub at-missing :
    (n m : Name) (t : InodeType) (tree : Entries) (ks : Location)
    → Inode.find n tree ≡ none
    → Inode.at (n ∷ ks) (inode m t (children tree)) ≡ none
unfolding Inode.at
at-missing n m t tree ks f = rw (f, Inode.at) refl

-- A location whose inode has the directory map `tree` goes on into each of its entries.
pub at-snoc :
    (loc : Location) (n m : Name) (t : InodeType) (root child : Inode) (tree : Entries)
    → Inode.at loc root ≡ some (inode m t (children tree))
    → Inode.find n tree ≡ some child
    → Inode.at (loc ++ n ∷ []) root ≡ some child
unfolding Inode.at
at-snoc [] n m t root child tree e f =
    rw (some-inj root (inode m t (children tree)) e) (at-child n m t tree child [] f)
at-snoc (k ∷ ks) n m t (inode m' t' (children tree')) child tree e f =
    elim (Option-cases (Inode.find k tree')) [
      | inl g ↦
          absurd
            (none-ne-some (inode m t (children tree)) (sym (at-missing k m' t' tree' ks g) ∙ e))
      | inr (c, g) ↦
          at-child k m' t' tree' c (ks ++ n ∷ []) g
          ∙ at-snoc ks n m t c child tree (sym (at-child k m' t' tree' c ks g) ∙ e) f
    ]
at-snoc (k ∷ ks) n m t (inode m' t' (content b)) child tree e f =
    absurd (none-ne-some (inode m t (children tree)) e)
at-snoc (k ∷ ks) n m t (inode m' t' link) child tree e f =
    absurd (none-ne-some (inode m t (children tree)) e)

-- The last steps of `enter`, at the inode of the current location.
enter_node-Found :
    (root : Inode) (current : Location) (n m : Name) (t : InodeType) (o : RamInode)
    → Inode.at current root ≡ some (inode m t o)
    → Found root (enter root current n)
unfolding enter
enter_node-Found root current n m t (content b) e = rw (e, enter) (both (is_directory t))
  where
    both :
        (d : Bool)
        → Found root
            (if not d then err no_such_a_file_or_directory else err no_such_a_file_or_directory)
    both true = tt
    both false = tt
enter_node-Found root current n m t link e = rw (e, enter) (both (is_directory t))
  where
    both :
        (d : Bool)
        → Found root
            (if not d then err no_such_a_file_or_directory else err no_such_a_file_or_directory)
    both true = tt
    both false = tt
enter_node-Found root current n m t (children tree) e = elim (Bool-cases (is_directory t)) [
  | inr d ↦ rw (e, enter, d) tt
  | inl d ↦ elim (Option-cases (Inode.find n tree)) [
    | inl g ↦ rw (e, enter, d, g) tt
    | inr (child, g) ↦ rw (e, enter, d, g) (child, at-snoc current n m t root child tree e g)
  ]
]

enter-Found :
    (root : Inode) (current : Location) (n : Name)
    → Found root (ok current)
    → Found root (enter root current n)
enter-Found root current n (inode m t o, e) = enter_node-Found root current n m t o e

next-Found :
    (root : Inode) (r : FsResult Location) (f : Location → FsResult Location)
    → Found root r
    → ((loc : Location) → Found root (ok loc) → Found root (f loc))
    → Found root (r >>= f)
next-Found root (ok loc) f h k = k loc h
next-Found root (err e) f h k = tt
next-Found root panic f h k = h

reslove_loop-Found :
    (root : Inode) (parts : List Name) (current prev : Location)
    → Found root (ok current)
    → Found root (ok prev)
    → Found root (reslove_loop root parts current prev)
unfolding reslove_loop
reslove_loop-Found root [] current prev c p = c
reslove_loop-Found root (depth ∷ rest) current prev c p =
    elim (part_of depth)
      as (λ part. Found root (elim part [
        | empty ↦ elim rest [ [] ↦ ok current | _ ∷ _ ↦ err invaild_path ]
        | dot ↦ reslove_loop root rest current prev
        | dot_dot ↦ reslove_loop root rest prev prev
        | named n ↦ enter root current n >>= λ next. reslove_loop root rest next current
      ])) [
        | empty ↦ last rest
        | dot ↦ reslove_loop-Found root rest current prev c p
        | dot_dot ↦ reslove_loop-Found root rest prev prev p p
        | named n ↦
            next-Found root (enter root current n) (λ next. reslove_loop root rest next current)
              (enter-Found root current n c)
              (λ next h. reslove_loop-Found root rest next current h c)
      ]
  where
    last :
        (rest : List Name) → Found root (elim rest [ [] ↦ ok current | _ ∷ _ ↦ err invaild_path ])
    last [] = c
    last (_ ∷ _) = tt

-- `reslove_path` never panics, and when it succeeds its result leads to an inode of the file
-- system.
pub reslove_path-Found : (fs : RamFs) (path : VfsPath) → Found fs.root_inode (reslove_path fs path)
unfolding reslove_path Inode.at
reslove_path-Found fs path =
    reslove_loop-Found fs.root_inode (rest_of (split_path path)) [] [] (fs.root_inode, refl)
      (fs.root_inode, refl)

-- The text of `/..`.
abbrev pub slash_up : VfsPath
slash_up = b'/' ∷ b'.' ∷ b'.' ∷ []

abbrev up : Name
up = b'.' ∷ b'.' ∷ []

unfoldable pub IsSplit : List Name → Type 0
IsSplit parts = (part : Name) × (rest : List Name) × (parts ≡ part ∷ rest)

pub split_path-IsSplit : (path : VfsPath) → IsSplit (split_path path)
unfolding IsSplit split_path
split_path-IsSplit [] = ([], [], refl)
split_path-IsSplit (c ∷ cs) = elim (Bool-cases (is_separator c)) [
  | inl e ↦ rw e ([], split_path cs, refl)
  | inr e ↦ let (part, rest, f) = split_path-IsSplit cs in rw (e, f) (c ∷ part, rest, refl)
]

pub split_path-append :
    (path more : VfsPath) → split_path (path ++ b'/' ∷ more) ≡ split_path path ++ split_path more
unfolding split_path IsSplit
split_path-append [] more = refl
split_path-append (c ∷ cs) more = elim (Bool-cases (is_separator c)) [
  | inl e ↦ rw (e, split_path-append cs more) refl
  | inr e ↦ let (part, rest, f) = split_path-IsSplit cs in rw (e, split_path-append cs more, f) refl
]

up_step :
    (root : Inode) (rest : List Name) (current prev : Location)
    → reslove_loop root (up ∷ rest) current prev ≡ reslove_loop root rest prev prev
unfolding reslove_loop
up_step root rest current prev = refl

loop_up_twice :
    (root : Inode) (parts : List Name) (current prev : Location)
    → reslove_loop root (parts ++ up ∷ up ∷ []) current prev
      ≡ reslove_loop root (parts ++ up ∷ []) current prev
unfolding reslove_loop
loop_up_twice root [] current prev = refl
loop_up_twice root (depth ∷ rest) current prev =
    elim (part_of depth) as (λ part. next_of part up2 ≡ next_of part up1) [
      | empty ↦ last rest
      | dot ↦ loop_up_twice root rest current prev
      | dot_dot ↦ loop_up_twice root rest prev prev
      | named n ↦
          ap (λ f. enter root current n >>= f)
            (fun_ext (λ next. loop_up_twice root rest next current))
    ]
  where
    up2 : List Name
    up2 = up ∷ up ∷ []

    up1 : List Name
    up1 = up ∷ []

    next_of : Part → List Name → FsResult Location
    next_of part ups = elim part [
      | empty ↦ elim (rest ++ ups) [ [] ↦ ok current | _ ∷ _ ↦ err invaild_path ]
      | dot ↦ reslove_loop root (rest ++ ups) current prev
      | dot_dot ↦ reslove_loop root (rest ++ ups) prev prev
      | named n ↦ enter root current n >>= λ next. reslove_loop root (rest ++ ups) next current
    ]

    last :
        (rest : List Name)
        → ◌≡◌ {A = FsResult Location}
            (elim (rest ++ up2) [ [] ↦ ok current | _ ∷ _ ↦ err invaild_path ])
            (elim (rest ++ up1) [ [] ↦ ok current | _ ∷ _ ↦ err invaild_path ])
    last [] = refl
    last (_ ∷ _) = refl

-- For every path, appending `/../..` resolves to the same inode or error as appending `/..`.
pub reslove_path_up_twice :
    (fs : RamFs) (path : VfsPath)
    → reslove_path fs (path ++ (slash_up ++ slash_up)) ≡ reslove_path fs (path ++ slash_up)
unfolding reslove_path IsSplit
reslove_path_up_twice fs path =
    let (part, rest, e) = split_path-IsSplit path in
    let twice : split_path (path ++ (slash_up ++ slash_up)) ≡ (part ∷ rest) ++ up ∷ up ∷ [] =
      split_path-append path (up ++ slash_up) ∙ ap (λ (ps : List Name). ps ++ up ∷ up ∷ []) e in
    let once : split_path (path ++ slash_up) ≡ (part ∷ rest) ++ up ∷ [] =
      split_path-append path up ∙ ap (λ (ps : List Name). ps ++ up ∷ []) e in
    ap (λ ps. reslove_loop fs.root_inode (rest_of ps) [] []) twice
    ∙ loop_up_twice fs.root_inode rest [] []
    ∙ sym (ap (λ ps. reslove_loop fs.root_inode (rest_of ps) [] []) once)
