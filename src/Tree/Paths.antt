-- ===== src/Tree/Paths.antt =====
-- `FileTree::traverse` and `FileTree::traverse_or_build` (madbfs/src/tree/file_tree.cpp). `hops` is fuel
-- for the links that lead from one path to another.
use adbfsm.Prelude.{
  ℕ, zero, suc, ◌/◌, ◌%◌, Bool, true, none, some, List, [], ◌∷◌, drop, ◌==◌, if◌then◌else◌,
}
use adbfsm.Split.{Text}
use adbfsm.FilePath.{FilePath, root, is_root, filename, fullpath, parent_path, extend}
use adbfsm.FilePath.Iter.{iter}
use adbfsm.Cache.State.{ok, err}
use adbfsm.Tree.Data.{
  Stat, regular, directory, link, other, error, new_regular, new_directory, no_attributes,
  not_a_directory,
}
use adbfsm.Tree.Exec.{Remote, done, Op, ◌>>=◌, pure, fail, run_out, attempt, on_device, make_stat}
use adbfsm.Tree.Node.{traverse as traverse_node, build, set_stat}
use adbfsm.Tree.Calls.{device_stat}

-- `path.iter() | drop(1)`.
unfoldable pub names_below : FilePath → List Text
unfolding iter
names_below path = elim (iter path) [ none ↦ [] | some names ↦ drop 1 names ]

-- The four bits of the type of a file, and the types that the code names.
unfoldable pub file_type : ℕ → ℕ
file_type mode = mode / 4096 % 16

abbrev pub regular_type : ℕ
regular_type = 8

abbrev pub directory_type : ℕ
directory_type = 4

abbrev pub link_type : ℕ
link_type = 10

module _ {R : Remote} where
  unfoldable pub walk : List Text → ℕ → Op R ℕ
  unfolding traverse_node
  walk [] a = pure a
  walk (name ∷ names) a = traverse_node a name >>= walk names

  unfoldable pub traverse : FilePath → Op R ℕ
  unfolding walk names_below is_root
  traverse path = if is_root path then pure 0 else walk (names_below path) 0

  -- A child that is there, or what is done if it is not.
  unfoldable pub child_or : ℕ → Text → Op R ℕ → Op R ℕ
  unfolding traverse_node
  child_or a name missing = attempt (traverse_node a name) >>= λ found. elim found [
    | ok child ↦ pure child
    | err e ↦ missing
  ]

  -- The stat of a path on the device; a failure is kept in an error node.
  unfoldable pub stat_or_error : ℕ → Text → FilePath → Op R Stat
  unfolding device_stat build make_stat
  stat_or_error a name path = attempt (device_stat path) >>= λ found. elim found [
    | ok s ↦ pure s
    | err e ↦ do s ← make_stat no_attributes; _ ← attempt (build a name s (error e)); fail e
  ]

  unfoldable pub build_directory : ℕ → Text → FilePath → Op R ℕ
  unfolding stat_or_error file_type build
  build_directory a name path = do
    s ← stat_or_error a name path
    if file_type s.attributes.mode == directory_type
        then build a name s (directory new_directory)
        else fail not_a_directory

  -- The loop over the names of the parent, with the path as far as the loop has come.
  unfoldable pub build_parents : List Text → ℕ → FilePath → Op R (ℕ × FilePath)
  unfolding child_or build_directory extend
  build_parents [] a path = pure (a, path)
  build_parents (name ∷ names) a path =
      let path' = (extend name path).0 in
      child_or a name (build_directory a name path') >>= λ child. build_parents names child path'

  -- The node of a new link: `target_of` finds the node of the target.
  unfoldable pub build_link : ℕ → Text → Stat → FilePath → (FilePath → Op R ℕ) → Op R ℕ
  unfolding build fullpath
  build_link a name s path target_of = do
    target ← on_device (λ d. R.readlink d (fullpath path))
    node ← target_of target
    build a name s (link node)

  -- The node of the last name, by the type of the file.
  unfoldable pub build_last : ℕ → Text → FilePath → FilePath → (FilePath → Op R ℕ) → Op R ℕ
  unfolding stat_or_error file_type build build_link
  build_last a name current path target_of = stat_or_error a name current >>= λ s.
      let type = file_type s.attributes.mode in
      if type == regular_type
      then build a name s (regular new_regular)
      else if type == directory_type
      then build a name s (directory new_directory)
      else if type == link_type
      then build_link a name s path target_of
      else build a name s other

  unfoldable pub mark_root : Op R ℕ
  mark_root t = (done 0, record t { root_initialized = true })

  unfoldable pub root_ready : Op R Bool
  root_ready t = (done (t.root_initialized), t)

  -- The first use of the root asks the device for its stat.
  unfoldable pub init_root : FilePath → Op R ℕ
  unfolding root_ready device_stat set_stat mark_root
  init_root path = do
    ready ← root_ready
    if ready then pure 0 else (do s ← device_stat path; _ ← set_stat 0 s; mark_root)

  -- The branch for a path that is not the root.
  unfoldable pub build_path_nodes : FilePath → (FilePath → Op R ℕ) → Op R ℕ
  unfolding names_below parent_path build_parents child_or build_last extend filename
  build_path_nodes path target_of = do
    (parent, current) ← build_parents (names_below (parent_path path)) 0 root
    child_or parent (filename path)
        (build_last parent (filename path) (extend (filename path) current).0 path target_of)

  unfoldable pub traverse_or_build : ℕ → FilePath → Op R ℕ
  unfolding is_root init_root build_path_nodes
  traverse_or_build zero path = run_out
  traverse_or_build (suc hops) path =
      let target_of = traverse_or_build hops in
      if is_root path then init_root path else build_path_nodes path target_of
