-- ===== src/Tree/Example.antt =====
-- A concrete tree over a concrete device, for runs of the operations.
use adbfsm.Prelude.{
  ℕ, zero, suc, pos, true, false, Option, none, some, List, [], ◌∷◌, length, text_eq, if◌then◌else◌,
  arith,
}
use adbfsm.Split.{Text}
use adbfsm.FilePath.{FilePath}
use adbfsm.Rpc.Request.{Timespec}
use adbfsm.Cache.State.{Expect, ok, err, Connection, Cache}
use adbfsm.Tree.Data.{
  Stat, Children, Directory, Regular, File, Node, regular, directory, no_attributes,
  no_such_file_or_directory,
}
use adbfsm.Tree.Exec.{Remote, Tree}
use adbfsm.Tree.Grows.{Fits}

abbrev d_text : Text
d_text = b'd' ∷ []

abbrev e_text : Text
e_text = b'e' ∷ []

abbrev pub f_text : Text
f_text = b'f' ∷ []

abbrev pub g_text : Text
g_text = b'g' ∷ []

-- The path with the directory and the name of one letter each.
abbrev pub short_path : ℕ → ℕ → FilePath
short_path dir name = record {
  buffer = b'/' ∷ dir ∷ b'/' ∷ name ∷ [];
  parent_size = 2;
  basename_size = 1;
  basename_offset = 3;
}

-- "/d"
abbrev pub d_path : FilePath
d_path = record {
  buffer = b'/' ∷ b'd' ∷ [];
  parent_size = 1;
  basename_size = 1;
  basename_offset = 1;
}

abbrev mode_of : Text → ℕ
mode_of path = if text_eq path (b'/' ∷ b'd' ∷ []) then 16384 else 32768

abbrev missing : Expect Unit
missing = err 38

abbrev pub zero_time : Timespec
zero_time = record { tv_sec = pos 0; tv_nsec = pos 0 }

-- A device with one byte sequence for all files.
abbrev disk : Connection
disk = record {
  Device = List ℕ;
  read = λ d path size offset. (ok d, d);
  write = λ d path input offset. (ok (length input), input);
}

-- A device on which "/d" is a directory and all else is a regular file, and that only sets times.
abbrev pub phone : Remote
phone = record {
  connection = disk;
  now = λ d. zero_time;
  stat = λ d path. (ok (record no_attributes { mode = mode_of path }), d);
  statdir = λ d path. (ok [], d);
  readlink = λ d path. (err no_such_file_or_directory, d);
  mknod = λ d path mode dev. (missing, d);
  mkdir = λ d path mode. (missing, d);
  unlink = λ d path. (missing, d);
  rmdir = λ d path. (missing, d);
  rename = λ d from to flags. (missing, d);
  truncate = λ d path size. (missing, d);
  utimens = λ d path atime mtime. (ok tt, d);
  copy_file_range = λ d from from_offset to to_offset size. (err 38, d);
}

abbrev pub empty : Cache disk
empty = record {
  lru = [];
  fresh = 0;
  table = [];
  page_size = 4;
  max_pages = 2;
  device = 7 ∷ [];
  faulted = false;
}

abbrev some_stat : ℕ → Stat
some_stat id = record { id = id; attributes = no_attributes }

abbrev with_children : Children → Directory
with_children cs = record { children = cs; has_readdir = false }

abbrev node_in : Option ℕ → Text → ℕ → File → Node
node_in parent name id file = record {
  parent = parent;
  name = name;
  stat = some_stat id;
  value = file;
}

-- A file with one open descriptor.
abbrev pub one_open : Regular
one_open = record { open_fds = (5, pos 0) ∷ []; dirty = true }

abbrev pub d_directory : Directory
d_directory = with_children ((f_text, 3) ∷ [])

abbrev pub e_directory : Directory
e_directory = with_children ((g_text, 4) ∷ [])

abbrev pub d_node : Node
d_node = node_in (some 0) d_text 1 (directory d_directory)

abbrev pub e_node : Node
e_node = node_in (some 0) e_text 2 (directory e_directory)

abbrev pub f_node : Node
f_node = node_in (some 1) f_text 3 (regular one_open)

abbrev pub g_node : Node
g_node = node_in (some 2) g_text 4 (regular (record { open_fds = []; dirty = false }))

-- The files "/d/f" and "/e/g".
abbrev small_nodes : ℕ → Option Node
small_nodes zero =
    some (node_in none [] 0 (directory (with_children ((d_text, 1) ∷ (e_text, 2) ∷ []))))
small_nodes (suc zero) = some d_node
small_nodes (suc (suc zero)) = some e_node
small_nodes (suc (suc (suc zero))) = some f_node
small_nodes (suc (suc (suc (suc zero)))) = some g_node
small_nodes (suc (suc (suc (suc (suc a))))) = none

abbrev pub small : Tree phone
small = record {
  nodes = small_nodes;
  next_address = 5;
  id_counter = 9;
  fd_counter = 5;
  root_initialized = true;
  cache = empty;
}

pub small-Fits : Fits small
unfolding Fits
small-Fits zero n h = omega arith
small-Fits (suc zero) n h = omega arith
small-Fits (suc (suc zero)) n h = omega arith
small-Fits (suc (suc (suc zero))) n h = omega arith
small-Fits (suc (suc (suc (suc zero)))) n h = omega arith
small-Fits (suc (suc (suc (suc (suc a))))) n h = grind arith
