-- ===== src/Tree/Node.antt =====
-- The operations of `Node` that need neither the device nor the cache (madbfs/src/tree/node.cpp). A
-- function of a node has the address of the node as its argument.
use adbfsm.Prelude.{
  ℕ, zero, suc, ℤ, pos, negsuc, Bool, true, false, ◌&&◌, reverse, Option, none, some, List, [], ◌∷◌,
  ◌++◌, ◌==◌, if◌then◌else◌,
}
use adbfsm.Split.{Text}
use adbfsm.FilePath.{FilePath, slash, is_slash, create_buf}
use adbfsm.Rpc.Request.{Timespec}
use adbfsm.Cache.State.{Expect, ok, err}
use adbfsm.Tree.Data.{
  Attributes, Stat, Regular, Children, Directory, File, regular, directory, link, other, error,
  find, insert, extract, not_a_directory, is_a_directory, invalid_argument, operation_not_supported,
  file_exists,
}
use adbfsm.Tree.Exec.{
  Remote, done, Op, ◌>>=◌, pure, fail, run_out, stray, lift, load, store, alloc, make_stat,
  next_node, destroy,
}

-- `as<node::Directory>` and `as<node::Regular>`.
unfoldable pub as_directory : File → Expect Directory
as_directory (directory d) = ok d
as_directory (regular r) = err not_a_directory
as_directory (link target) = err not_a_directory
as_directory other = err not_a_directory
as_directory (error errc) = err not_a_directory

unfoldable pub as_regular : File → Expect Regular
as_regular (regular r) = ok r
as_regular (directory d) = err invalid_argument
as_regular (link target) = err invalid_argument
as_regular other = err invalid_argument
as_regular (error errc) = err invalid_argument

-- The error of an error node, which most operations return at once.
unfoldable pub not_error : File → Expect (Unit {0})
not_error (error errc) = err errc
not_error (regular r) = ok tt
not_error (directory d) = ok tt
not_error (link target) = ok tt
not_error other = ok tt

unfoldable pub has_synced : File → Bool
has_synced (directory d) = d.has_readdir
has_synced (regular r) = true
has_synced (link target) = true
has_synced other = true
has_synced (error errc) = true

unfoldable pub synced : File → File
synced (directory d) = directory (record d { has_readdir = true })
synced (regular r) = regular r
synced (link target) = link target
synced other = other
synced (error errc) = error errc

-- `UTIME_NOW` and `UTIME_OMIT`.
abbrev pub utime_now : ℤ
utime_now = pos 1073741823

abbrev pub utime_omit : ℤ
utime_omit = pos 1073741822

unfoldable pub int_eq : ℤ → ℤ → Bool
int_eq (pos m) (pos n) = m == n
int_eq (negsuc m) (negsuc n) = m == n
int_eq (pos m) (negsuc n) = false
int_eq (negsuc m) (pos n) = false

-- A new time stamp, where `now` is the time.
unfoldable pub stamp : Timespec → Timespec → Timespec → Timespec
unfolding int_eq
stamp now old wanted =
    if int_eq wanted.tv_nsec utime_omit
    then old
    else if int_eq wanted.tv_nsec utime_now
    then now
    else wanted

-- `refresh_stat`, at the time `now`.
unfoldable pub refreshed : Timespec → Timespec → Timespec → Attributes → Attributes
unfolding stamp
refreshed now atime mtime s = record s {
  atime = stamp now s.atime atime;
  mtime = stamp now s.mtime mtime;
  ctime = now;
}

-- The tests of `regular_file_prelude` on the file behind the links.
unfoldable pub regular_kind : File → Expect Regular
unfolding as_regular
regular_kind (directory d) = err is_a_directory
regular_kind other = err operation_not_supported
regular_kind (regular r) = as_regular (regular r)
regular_kind (link target) = as_regular (link target)
regular_kind (error errc) = as_regular (error errc)

-- The last slash of a path whose last name is the root, seen from the front of the path.
unfoldable pub without_root : Text → Text
without_root [] = []
without_root (a ∷ []) = a ∷ []
without_root (a ∷ b ∷ []) = a ∷ b ∷ []
without_root (a ∷ b ∷ c ∷ cs) = if is_slash a && is_slash b then b ∷ c ∷ cs else a ∷ b ∷ c ∷ cs

module _ {R : Remote} where
  unfoldable pub clock : Op R Timespec
  clock t = (done (R.now t.cache.device), t)

  unfoldable pub stat_of : ℕ → Op R Stat
  unfolding load not_error
  stat_of a = do n ← load a; _ ← lift (not_error n.value); pure n.stat

  unfoldable pub set_stat : ℕ → Stat → Op R (Unit {0})
  unfolding load store
  set_stat a s = do n ← load a; store a (record n { stat = s })

  unfoldable pub set_value : ℕ → File → Op R (Unit {0})
  unfolding load store
  set_value a value = do n ← load a; store a (record n { value = value })

  unfoldable pub refresh_stat : ℕ → Timespec → Timespec → Op R (Unit {0})
  unfolding load store refreshed clock
  refresh_stat a atime mtime = do
    now ← clock
    n ← load a
    store a (record n {
      stat = record (n.stat) { attributes = refreshed now atime mtime n.stat.attributes };
    })

  unfoldable pub set_synced : ℕ → Op R (Unit {0})
  unfolding load set_value synced
  set_synced a = do n ← load a; set_value a (synced n.value)

  -- The directory that a node is; an error node returns its error.
  unfoldable pub directory_of : ℕ → Op R Directory
  unfolding load not_error as_directory
  directory_of a = do n ← load a; _ ← lift (not_error n.value); lift (as_directory n.value)

  unfoldable pub traverse : ℕ → Text → Op R ℕ
  unfolding directory_of find
  traverse a name = do d ← directory_of a; lift (find name d)

  -- The names of the children that are no error nodes.
  unfoldable pub names_of : Children → Op R (List Text)
  unfolding load not_error
  names_of [] = pure []
  names_of ((name, child) ∷ cs) = do
    n ← load child
    names ← names_of cs
    pure (elim n.value [ error errc ↦ names | _ ↦ n.name ∷ names ])

  unfoldable pub list : ℕ → Op R (List Text)
  unfolding directory_of names_of
  list a = do d ← directory_of a; names_of d.children

  -- `insert` of the node at the address `child`, whose name is `name`: the overwritten node.
  unfoldable pub insert_node : ℕ → Text → ℕ → Bool → Op R (Option ℕ)
  unfolding directory_of insert set_value
  insert_node a name child overwrite = do
    d ← directory_of a
    (released, d') ← lift (insert name child overwrite d)
    _ ← set_value a (directory d')
    pure released

  -- A new node is made and inserted. If it is refused it is gone again.
  unfoldable pub add_node : ℕ → Text → Stat → File → Bool → Op R ℕ
  unfolding insert_node next_node alloc destroy
  add_node a name s file overwrite = do
    c ← next_node
    released ← insert_node a name c overwrite
    _ ← destroy released
    _ ← alloc (record { parent = some a; name = name; stat = s; value = file })
    pure c

  unfoldable pub build : ℕ → Text → Stat → File → Op R ℕ
  unfolding add_node
  build a name s file = add_node a name s file false

  unfoldable pub extract_node : ℕ → Text → Op R ℕ
  unfolding directory_of extract set_value
  extract_node a name = do
    d ← directory_of a
    (child, d') ← lift (extract name d)
    _ ← set_value a (directory d')
    pure child

  -- `symlink`: a link that stands only in the tree. The mode is that of "lrw-r--r--".
  unfoldable pub symlink : ℕ → Text → ℕ → Op R ℕ
  unfolding directory_of find make_stat build clock
  symlink a name target = do
    d ← directory_of a
    now ← clock
    elim (find name d) [
      | ok child ↦ fail file_exists
      | err e ↦ do
        s ← make_stat (record {
          links = 1;
          size = pos 21;
          mtime = now;
          atime = now;
          ctime = now;
          mode = 41380;
          uid = 0;
          gid = 0;
        })
        build a name s (link target)
    ]

  -- `readlink`, with fuel for the links on the way.
  unfoldable pub readlink : ℕ → ℕ → Op R ℕ
  unfolding load
  readlink zero a = run_out
  readlink (suc hops) a =
      load a >>= λ n. elim n.value [ link target ↦ readlink hops target | _ ↦ pure a ]

  -- `regular_file_prelude`: the address of the file behind a link, and the file.
  unfoldable pub regular_of : ℕ → ℕ → Op R (ℕ × Regular)
  unfolding load readlink not_error regular_kind
  regular_of hops a = do
    n ← load a
    c ← readlink hops a
    _ ← lift (not_error n.value)
    m ← load c
    r ← lift (regular_kind m.value)
    pure (c, r)

  -- The names from a node up to the root, on the reversed text of the path.
  unfoldable pub climb : ℕ → Option ℕ → Text → Op R Text
  unfolding load
  climb zero parent path = run_out
  climb (suc depth) none path = pure path
  climb (suc depth) (some a) path =
      load a >>= λ n. climb depth n.parent (path ++ slash ∷ reverse n.name)

  -- `build_path`, with fuel for the depth of the node.
  unfoldable pub build_path : ℕ → ℕ → Op R FilePath
  unfolding load climb create_buf without_root
  build_path depth a = do
    n ← load a
    path ← climb depth n.parent (reverse n.name)
    elim (create_buf (without_root (reverse path))) [ none ↦ stray | some p ↦ pure p ]
