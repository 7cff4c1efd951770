-- ===== src/Tree/Calls.antt =====
-- The operations of `Node` that call the device or the cache (madbfs/src/tree/node.cpp). `hops` is fuel
-- for the links that `readlink` follows. The path of the context is `path`.
use adbfsm.Prelude.{
  ℕ, ◌+◌, ◌%◌, ◌^◌, ℤ, pos, negsuc, bits_of, int_of, Bool, true, false, List, leb, if◌then◌else◌,
}
use adbfsm.Split.{Text}
use adbfsm.FilePath.{FilePath, filename, fullpath}
use adbfsm.Rpc.Request.{Timespec}
use adbfsm.Cache.State.{Expect, ok, err}
use adbfsm.Cache.Access.{read as cache_read, write as cache_write}
use adbfsm.Cache.Flush.{flush as cache_flush, invalidate_one}
use adbfsm.Cache.Truncate.{truncate as cache_truncate}
use adbfsm.Tree.Data.{
  Stat, Regular, File, regular, directory, error, new_regular, new_directory, is_open, open_fd,
  close_fd, find, erase, bad_file_descriptor, is_a_directory, file_exists,
}
use adbfsm.Tree.Exec.{
  Remote, done, Op, ◌>>=◌, pure, fail, lift, in_cache, on_device, load, make_stat, destroy,
}
use adbfsm.Tree.Node.{
  as_directory, utime_now, utime_omit, set_stat, set_value, refresh_stat, directory_of, add_node,
  regular_of,
}

-- The arguments of `refresh_stat`: leave the time, or take the time of the clock.
abbrev keep : Timespec
keep = record { tv_sec = pos 0; tv_nsec = utime_omit }

abbrev at_once : Timespec
at_once = record { tv_sec = pos 0; tv_nsec = utime_now }

-- `std::max` of two sizes.
unfoldable pub max_size : ℤ → ℤ → ℤ
max_size (pos m) (pos n) = if leb m n then pos n else pos m
max_size (pos m) (negsuc n) = pos m
max_size (negsuc m) (pos n) = pos n
max_size (negsuc m) (negsuc n) = if leb m n then negsuc m else negsuc n

module _ {R : Remote} where
  -- `id()`.
  unfoldable pub id_of : ℕ → Op R ℕ
  unfolding load
  id_of a = do n ← load a; pure (n.stat.id)

  -- `Connection::stat`: the stat that the connection makes takes an id.
  unfoldable pub device_stat : FilePath → Op R Stat
  unfolding make_stat fullpath
  device_stat path = do attributes ← on_device (λ d. R.stat d (fullpath path)); make_stat attributes

  -- Whether `mknod` and `mkdir` overwrite: only an error node may have the name.
  unfoldable pub may_overwrite : Expect ℕ → Op R Bool
  unfolding load
  may_overwrite (err e) = pure false
  may_overwrite (ok child) = do
    n ← load child
    elim n.value [ error errc ↦ pure true | _ ↦ fail file_exists ]

  -- The common body of `mknod` and `mkdir`, around the call of the device.
  unfoldable pub make_child : ℕ → FilePath → File → Op R Unit → Op R ℕ
  unfolding directory_of find may_overwrite device_stat add_node filename
  make_child a path file call = do
    d ← directory_of a
    overwrite ← may_overwrite (find (filename path) d)
    _ ← call
    s ← device_stat path
    add_node a (filename path) s file overwrite

  unfoldable pub mknod : ℕ → FilePath → ℕ → ℕ → Op R ℕ
  unfolding make_child fullpath
  mknod a path mode dev =
      make_child a path (regular new_regular) (on_device (λ d. R.mknod d (fullpath path) mode dev))

  unfoldable pub mkdir : ℕ → FilePath → ℕ → Op R ℕ
  unfolding make_child fullpath
  mkdir a path mode =
      make_child a path (directory new_directory) (on_device (λ d. R.mkdir d (fullpath path) mode))

  -- `erase` of a child, with its destructor.
  unfoldable pub erase_child : ℕ → Text → Op R (Unit {0})
  unfolding directory_of erase set_value destroy
  erase_child a name = do
    d ← directory_of a
    (erased, d') ← pure (erase name d)
    _ ← set_value a (directory d')
    destroy erased

  -- The child goes before the device is asked; the id is that of the directory.
  unfoldable pub unlink : ℕ → FilePath → Op R (Unit {0})
  unfolding directory_of find load erase_child id_of invalidate_one filename fullpath
  unlink a path = do
    d ← directory_of a
    child ← lift (find (filename path) d)
    n ← load child
    _ ← elim n.value [ directory e ↦ fail is_a_directory | _ ↦ erase_child a (filename path) ]
    _ ← on_device (λ e. R.unlink e (fullpath path))
    id ← id_of a
    in_cache (λ c. (ok tt, invalidate_one id false c))

  -- The loop over the children of the target makes an error that nothing returns.
  unfoldable pub rmdir : ℕ → FilePath → Op R (Unit {0})
  unfolding directory_of find load as_directory erase_child filename fullpath
  rmdir a path = do
    d ← directory_of a
    child ← lift (find (filename path) d)
    n ← load child
    _ ← lift (as_directory n.value)
    _ ← on_device (λ e. R.rmdir e (fullpath path))
    erase_child a (filename path)

  unfoldable pub truncate : ℕ → ℕ → FilePath → ℤ → Op R (Unit {0})
  unfolding regular_of fullpath load cache_truncate bits_of set_stat refresh_stat
  truncate hops a path size = do
    _ ← regular_of hops a
    _ ← on_device (λ d. R.truncate d (fullpath path) size)
    n ← load a
    old ← pure (bits_of n.stat.attributes.size)
    _ ← in_cache (λ c. (ok tt, cache_truncate n.stat.id old (bits_of size) c))
    _ ← set_stat a (record (n.stat) { attributes = record (n.stat.attributes) { size = size } })
    refresh_stat a keep at_once

  -- `fd_counter.fetch_add(1) + 1`, in 64 bits.
  unfoldable pub next_fd : Op R ℕ
  next_fd t = let fd = (t.fd_counter + 1) % 2 ^ 64 in (done fd, record t { fd_counter = fd })

  -- `open`: the counter of the tree gives the descriptor.
  unfoldable pub open_file : ℕ → ℕ → ℤ → Op R ℕ
  unfolding regular_of next_fd set_value open_fd
  open_file hops a flags = do
    (c, r) ← regular_of hops a
    fd ← next_fd
    _ ← set_value c (regular (open_fd fd flags r).1)
    pure fd

  -- The file of a descriptor that is open.
  unfoldable pub opened : ℕ → ℕ → ℕ → Op R (ℕ × Regular)
  unfolding regular_of is_open
  opened hops a fd = do
    (c, r) ← regular_of hops a
    if is_open fd r then pure (c, r) else fail bad_file_descriptor

  -- `Cache::read`: how much was read, and the buffer.
  unfoldable pub read_cached : ℕ → FilePath → List ℕ → ℤ → Op R (ℕ × List ℕ)
  unfolding cache_read bits_of fullpath
  read_cached id path out offset = in_cache λ c.
      let (count, out', c') = cache_read id (fullpath path) out (bits_of offset) c in
      (elim count [ err e ↦ err e | ok n ↦ ok (n, out') ], c')

  unfoldable pub read : ℕ → ℕ → FilePath → ℕ → List ℕ → ℤ → Op R (ℕ × List ℕ)
  unfolding opened id_of read_cached refresh_stat
  read hops a path fd out offset = do
    _ ← opened hops a fd
    id ← id_of a
    result ← read_cached id path out offset
    _ ← refresh_stat a at_once keep
    pure result

  unfoldable pub write : ℕ → ℕ → FilePath → ℕ → List ℕ → ℤ → Op R ℕ
  unfolding opened id_of cache_write set_value load set_stat refresh_stat max_size int_of bits_of
      fullpath
  write hops a path fd input offset = do
    (c, r) ← opened hops a fd
    _ ← set_value c (regular (record r { dirty = true }))
    id ← id_of a
    count ← in_cache (cache_write id (fullpath path) input (bits_of offset))
    n ← load a
    end ← pure (int_of ((bits_of offset + count) % 2 ^ 64))
    size ← pure (max_size n.stat.attributes.size end)
    _ ← set_stat a (record (n.stat) { attributes = record (n.stat.attributes) { size = size } })
    _ ← refresh_stat a keep at_once
    pure count

  -- The common end of `flush` and `release`.
  unfoldable pub flush_dirty : ℕ → ℕ → Regular → Op R (Unit {0})
  unfolding set_value id_of cache_flush
  flush_dirty a c r =
      if r.dirty
      then (do
        _ ← set_value c (regular (record r { dirty = false }))
        id ← id_of a
        in_cache (cache_flush id))
      else pure tt

  unfoldable pub flush : ℕ → ℕ → ℕ → Op R (Unit {0})
  unfolding opened flush_dirty
  flush hops a fd = do (c, r) ← opened hops a fd; flush_dirty a c r

  unfoldable pub release : ℕ → ℕ → ℕ → Op R (Unit {0})
  unfolding regular_of close_fd set_value flush_dirty
  release hops a fd = do
    (c, r) ← regular_of hops a
    (closed, r') ← pure (close_fd fd r)
    _ ← if closed then set_value c (regular r') else fail bad_file_descriptor
    flush_dirty a c r'

  unfoldable pub utimens : ℕ → FilePath → Timespec → Timespec → Op R (Unit {0})
  unfolding device_stat set_stat fullpath
  utimens a path atime mtime = do
    _ ← on_device (λ d. R.utimens d (fullpath path) atime mtime)
    s ← device_stat path
    set_stat a s
