-- ===== src/Tree/Files.antt =====
-- The operations of `FileTree` that answer a FUSE call (madbfs/src/tree/file_tree.cpp).
use adbfsm.Prelude.{
  ℕ, ◌/◌, ◌%◌, ℤ, Bool, true, false, none, some, List, [], ◌∷◌, ◌==◌, if◌then◌else◌,
}
use adbfsm.Split.{Text}
use adbfsm.FilePath.{
  FilePath, is_root, filename, fullpath, parent_path, extend_copy_view, rename as rename_path,
}
use adbfsm.Rpc.Request.{Timespec}
use adbfsm.Cache.State.{ok, err}
use adbfsm.Cache.Flush.{rename as cache_rename, invalidate_one, shutdown as cache_shutdown}
use adbfsm.Tree.Data.{
  Stat, Attributes, regular, directory, link, other, error, new_regular, new_directory, file_exists,
  operation_not_supported,
}
use adbfsm.Tree.Exec.{
  Remote, Op, ◌>>=◌, pure, fail, stray, attempt, in_cache, on_device, make_stat, load, store,
  destroy,
}
use adbfsm.Tree.Node.{
  build, set_stat, list, has_synced, set_synced, stat_of, extract_node, insert_node,
  symlink as symlink_node, readlink as readlink_node,
}
use adbfsm.Tree.Calls
use adbfsm.Tree.Calls.{device_stat, id_of}
use adbfsm.Tree.Paths.{
  traverse, traverse_or_build, file_type, regular_type, directory_type, link_type,
}

-- `RENAME_NOREPLACE` and `RENAME_EXCHANGE`: whether the bit is set.
unfoldable pub no_replace : ℕ → Bool
no_replace flags = flags % 2 == 1

unfoldable pub exchange : ℕ → Bool
exchange flags = flags / 2 % 2 == 1

-- "dummy"
abbrev dummy : Text
dummy = b'd' ∷ b'u' ∷ b'm' ∷ b'm' ∷ b'y' ∷ []

module _ {R : Remote} where
  -- Whether a node could be built is not looked at.
  abbrev tried : Op R ℕ → Op R Bool
  tried m = attempt m >>= λ built. pure true

  -- The node gets a name and a parent.
  unfoldable pub adopt : ℕ → ℕ → Text → Op R (Unit {0})
  unfolding load store
  adopt a parent name = do n ← load a; store a (record n { parent = some parent; name = name })

  -- `value()` of what should not fail throws.
  abbrev expected : {A : Type 0} → Op R A → Op R A
  expected m = attempt m >>= λ found. elim found [ ok a ↦ pure a | err e ↦ stray ]

  unfoldable pub parent_of : ℕ → Op R ℕ
  unfolding load
  parent_of a = load a >>= λ n. elim n.parent [ none ↦ stray | some p ↦ pure p ]

  -- `rename` behind the call of the device. The second node of an exchange goes to the parent that the
  -- first one has by then.
  unfoldable pub move_node : ℕ → ℕ → FilePath → FilePath → ℕ → Op R (Unit {0})
  unfolding parent_of extract_node id_of cache_rename adopt insert_node exchange destroy
      invalidate_one filename fullpath
  move_node from_node to_parent from to flags = do
    old_parent ← parent_of from_node
    node ← expected (extract_node old_parent (filename from))
    id ← id_of node
    _ ← in_cache (λ c. (ok tt, cache_rename id (fullpath to) c))
    _ ← adopt node to_parent (filename to)
    overwritten ← expected (insert_node to_parent (filename to) node true)
    elim overwritten [
      | none ↦ if exchange flags then stray else pure tt
      | some second ↦ id_of second >>= λ second_id.
          if exchange flags
          then (do
            parent ← parent_of from_node
            _ ← in_cache (λ c. (ok tt, cache_rename second_id (fullpath from) c))
            _ ← adopt second parent (filename from)
            back ← attempt (insert_node parent (filename from) second false)
            elim back [ ok released ↦ pure tt | err e ↦ destroy (some second) ])
          else (do
            _ ← in_cache (λ c. (ok tt, invalidate_one second_id false c))
            destroy (some second))
    ]

module _ {R : Remote} (hops : ℕ) where
  -- The node of an entry that the device lists, in the directory `base`; whether its name is handed to
  -- the filler. A link whose target the device does not tell is left out.
  unfoldable pub build_entry : ℕ → FilePath → Text → Stat → Op R Bool
  unfolding build file_type traverse_or_build fullpath
  build_entry base path name s =
      let type = file_type s.attributes.mode in
      if type == regular_type
      then tried (build base name s (regular new_regular))
      else if type == directory_type
      then tried (build base name s (directory new_directory))
      else if type == link_type
      then (attempt (on_device (λ d. R.readlink d (fullpath path))) >>= λ found. elim found [
        | err e ↦ pure false
        | ok target ↦
            tried (traverse_or_build hops target >>= λ node. build base name s (link node))
      ])
      else tried (build base name s other)

  -- The loop over the entries, with the path that is renamed for each: the names for the filler. An
  -- entry whose name is no good name is left out.
  unfoldable pub build_entries : ℕ → FilePath → List (Attributes × Text) → Op R (List Text)
  unfolding build_entry rename_path make_stat
  build_entries base path [] = pure []
  build_entries base path ((attributes, name) ∷ entries) =
      let (path', renamed) = rename_path name path in
      make_stat attributes >>= λ s.
      if renamed
      then (build_entry base path' name s >>= λ kept.
          build_entries base path' entries >>= λ names. pure (if kept then name ∷ names else names))
      else build_entries base path entries

  unfoldable pub list_device : ℕ → FilePath → Op R (List Text)
  unfolding build_entries extend_copy_view set_synced fullpath
  list_device base path = do
    entries ← on_device (λ d. R.statdir d (fullpath path))
    start ← elim (extend_copy_view dummy path) [ none ↦ stray | some p ↦ pure p ]
    names ← build_entries base start entries
    _ ← set_synced base
    pure names

  unfoldable pub readdir : FilePath → Op R (List Text)
  unfolding is_root traverse_or_build load has_synced list list_device
  readdir path = do
    base ← if is_root path then pure 0 else traverse_or_build hops path
    n ← load base
    if has_synced n.value then list base else list_device base path

  unfoldable pub getattr : FilePath → Op R Stat
  unfolding traverse_or_build stat_of
  getattr path = traverse_or_build hops path >>= stat_of

  unfoldable pub readlink : FilePath → Op R ℕ
  unfolding traverse_or_build readlink_node
  readlink path = traverse_or_build hops path >>= readlink_node hops

  unfoldable pub mknod : FilePath → ℕ → ℕ → Op R ℕ
  unfolding traverse_or_build parent_path Calls.mknod
  mknod path mode dev =
      traverse_or_build hops (parent_path path) >>= λ a. Calls.mknod a path mode dev

  unfoldable pub mkdir : FilePath → ℕ → Op R ℕ
  unfolding traverse_or_build parent_path Calls.mkdir
  mkdir path mode = traverse_or_build hops (parent_path path) >>= λ a. Calls.mkdir a path mode

  unfoldable pub unlink : FilePath → Op R (Unit {0})
  unfolding traverse_or_build parent_path Calls.unlink
  unlink path = traverse_or_build hops (parent_path path) >>= λ a. Calls.unlink a path

  unfoldable pub rmdir : FilePath → Op R (Unit {0})
  unfolding traverse_or_build parent_path Calls.rmdir
  rmdir path = traverse_or_build hops (parent_path path) >>= λ a. Calls.rmdir a path

  -- The tests of `rename` before the device is asked.
  unfoldable pub may_rename : FilePath → ℕ → Op R (Unit {0})
  unfolding traverse_or_build load exchange no_replace
  may_rename to flags =
      if exchange flags
      then (do
        a ← traverse_or_build hops to
        n ← load a
        elim n.value [ error errc ↦ fail errc | _ ↦ pure tt ])
      else if no_replace flags
      then (attempt (traverse_or_build hops to) >>= λ found. elim found [
        | err e ↦ pure tt
        | ok a ↦ load a >>= λ n. elim n.value [ error errc ↦ pure tt | _ ↦ fail file_exists ]
      ])
      else pure tt

  unfoldable pub rename : FilePath → FilePath → ℕ → Op R (Unit {0})
  unfolding is_root traverse_or_build parent_path may_rename move_node fullpath
  rename from to flags = if is_root from then fail operation_not_supported else (do
    from_node ← traverse_or_build hops from
    to_parent ← traverse_or_build hops (parent_path to)
    _ ← may_rename to flags
    _ ← on_device (λ d. R.rename d (fullpath from) (fullpath to) flags)
    move_node from_node to_parent from to flags)

  unfoldable pub truncate : FilePath → ℤ → Op R (Unit {0})
  unfolding traverse_or_build Calls.truncate
  truncate path size = traverse_or_build hops path >>= λ a. Calls.truncate hops a path size

  unfoldable pub open_file : FilePath → ℤ → Op R ℕ
  unfolding traverse_or_build Calls.open_file
  open_file path flags = traverse_or_build hops path >>= λ a. Calls.open_file hops a flags

  unfoldable pub read : FilePath → ℕ → List ℕ → ℤ → Op R (ℕ × List ℕ)
  unfolding traverse_or_build Calls.read
  read path fd out offset =
      traverse_or_build hops path >>= λ a. Calls.read hops a path fd out offset

  unfoldable pub write : FilePath → ℕ → List ℕ → ℤ → Op R ℕ
  unfolding traverse_or_build Calls.write
  write path fd input offset =
      traverse_or_build hops path >>= λ a. Calls.write hops a path fd input offset

  unfoldable pub flush : FilePath → ℕ → Op R (Unit {0})
  unfolding traverse_or_build Calls.flush
  flush path fd = traverse_or_build hops path >>= λ a. Calls.flush hops a fd

  unfoldable pub release : FilePath → ℕ → Op R (Unit {0})
  unfolding traverse_or_build Calls.release
  release path fd = traverse_or_build hops path >>= λ a. Calls.release hops a fd

  -- The node of the target takes the stat, and with it the id, that the device gives.
  unfoldable pub copy_file_range : FilePath → ℕ → ℤ → FilePath → ℕ → ℤ → ℕ → Op R ℕ
  unfolding flush traverse device_stat set_stat fullpath
  copy_file_range in_path in_fd in_off out_path out_fd out_off size = do
    _ ← attempt (flush in_path in_fd)
    _ ← attempt (flush out_path out_fd)
    a ← traverse out_path
    copied ←
        on_device
          (λ d. R.copy_file_range d (fullpath in_path) in_off (fullpath out_path) out_off size)
    s ← device_stat out_path
    _ ← set_stat a s
    pure copied

  unfoldable pub utimens : FilePath → Timespec → Timespec → Op R (Unit {0})
  unfolding traverse_or_build Calls.utimens
  utimens path atime mtime = traverse_or_build hops path >>= λ a. Calls.utimens a path atime mtime

module _ {R : Remote} where
  unfoldable pub symlink : FilePath → FilePath → Op R (Unit {0})
  unfolding traverse parent_path symlink_node filename
  symlink path target = do
    node ← traverse target
    a ← traverse (parent_path path)
    _ ← symlink_node a (filename path) node
    pure tt

  unfoldable pub shutdown : Op R (Unit {0})
  unfolding cache_shutdown
  shutdown = in_cache (λ c. (ok tt, cache_shutdown c))
