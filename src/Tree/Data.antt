-- ===== src/Tree/Data.antt =====
-- The data of a node (madbfs/include/madbfs/tree/node.hpp, madbfs/include/madbfs/data/stat.hpp) and the
-- operations of `node::Regular` and `node::Directory`. A node is named by its address, a number.
pub mod Finite
use adbfsm.Prelude.{
  ℕ, zero, suc, ◌+◌, Bool, true, false, not, ◌||◌, Option, none, some, List, [], ◌∷◌, ℤ, pos, ◌==◌,
  if◌then◌else◌, text_eq,
}
use adbfsm.Split.{Text}
use adbfsm.Rpc.Request.{Timespec}
use adbfsm.Cache.State.{Expect, ok, err}

-- The numbers of `std::errc`.
abbrev pub no_such_file_or_directory : ℕ
no_such_file_or_directory = 2

abbrev pub bad_file_descriptor : ℕ
bad_file_descriptor = 9

abbrev pub file_exists : ℕ
file_exists = 17

abbrev pub not_a_directory : ℕ
not_a_directory = 20

abbrev pub is_a_directory : ℕ
is_a_directory = 21

abbrev pub invalid_argument : ℕ
invalid_argument = 22

abbrev pub operation_not_supported : ℕ
operation_not_supported = 95

-- `data::Stat` without its id, as a connection fills it in.
pub record Attributes : Type 0 where
  pub links : ℕ
  pub size : ℤ
  pub mtime : Timespec
  pub atime : Timespec
  pub ctime : Timespec
  pub mode : ℕ
  pub uid : ℕ
  pub gid : ℕ

-- Every `data::Stat` that is made takes the next id; a copy keeps it.
pub record Stat : Type 0 where
  pub id : ℕ
  pub attributes : Attributes

-- The attributes of `data::Stat{}`.
abbrev pub no_attributes : Attributes
no_attributes =
    let epoch : Timespec = record { tv_sec = pos 0; tv_nsec = pos 0 } in
    record {
      links = 1;
      size = pos 0;
      mtime = epoch;
      atime = epoch;
      ctime = epoch;
      mode = 0;
      uid = 0;
      gid = 0;
    }

-- `node::Regular`: the open descriptors with their flags, in any order.
pub record Regular : Type 0 where
  pub open_fds : List (ℕ × ℤ)
  pub dirty : Bool

abbrev pub new_regular : Regular
new_regular = record { open_fds = []; dirty = false }

unfoldable pub has_fd : ℕ → List (ℕ × ℤ) → Bool
has_fd fd [] = false
has_fd fd ((other, flags) ∷ fds) = if other == fd then true else has_fd fd fds

unfoldable pub drop_fd : ℕ → List (ℕ × ℤ) → List (ℕ × ℤ)
drop_fd fd [] = []
drop_fd fd ((other, flags) ∷ fds) =
    let rest = drop_fd fd fds in if other == fd then rest else (other, flags) ∷ rest

unfoldable pub is_open : ℕ → Regular → Bool
unfolding has_fd
is_open fd r = has_fd fd r.open_fds

unfoldable pub open_fd : ℕ → ℤ → Regular → Bool × Regular
unfolding is_open
open_fd fd flags r =
    if is_open fd r then (false, r) else (true, record r { open_fds = (fd, flags) ∷ r.open_fds })

unfoldable pub close_fd : ℕ → Regular → Bool × Regular
unfolding is_open drop_fd
close_fd fd r = (is_open fd r, record r { open_fds = drop_fd fd r.open_fds })

-- The set of the children of a directory, each under the name of its node.
abbrev pub Children : Type 0
Children = List (Text × ℕ)

unfoldable pub lookup : Text → Children → Option ℕ
lookup name [] = none
lookup name ((other, child) ∷ cs) = if text_eq other name then some child else lookup name cs

unfoldable pub remove : Text → Children → Children
remove name [] = []
remove name ((other, child) ∷ cs) =
    let rest = remove name cs in if text_eq other name then cs else (other, child) ∷ rest

pub record Directory : Type 0 where
  pub children : Children
  pub has_readdir : Bool

abbrev pub new_directory : Directory
new_directory = record { children = []; has_readdir = false }

unfoldable pub find : Text → Directory → Expect ℕ
unfolding lookup
find name d = elim (lookup name d.children) [
  | some child ↦ ok child
  | none ↦ err no_such_file_or_directory
]

-- `erase` and what it destroys.
unfoldable pub erase : Text → Directory → Option ℕ × Directory
unfolding lookup remove
erase name d = (lookup name d.children, record d { children = remove name d.children })

-- `insert` of the node at the address `child`, and the node that was overwritten.
unfoldable pub insert : Text → ℕ → Bool → Directory → Expect (Option ℕ × Directory)
unfolding lookup remove
insert name child overwrite d = elim (lookup name d.children) [
  | none ↦ ok (none, record d { children = (name, child) ∷ d.children })
  | some old ↦
      if overwrite
      then ok (some old, record d { children = (name, child) ∷ remove name d.children })
      else err file_exists
]

unfoldable pub extract : Text → Directory → Expect (ℕ × Directory)
unfolding lookup remove
extract name d = elim (lookup name d.children) [
  | none ↦ err no_such_file_or_directory
  | some child ↦ ok (child, record d { children = remove name d.children })
]

pub data File : Type 0 where
  regular : Regular → File
  directory : Directory → File
  link : (target : ℕ) → File
  other : File
  error : (errc : ℕ) → File

pub record Node : Type 0 where
  pub parent : Option ℕ
  pub name : Text
  pub stat : Stat
  pub value : File
