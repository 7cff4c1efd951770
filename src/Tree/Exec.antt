-- ===== src/Tree/Exec.antt =====
-- The state of the tree and the operations on it: they read and write nodes at addresses, call the
-- device and the cache, and may fail.
use adbfsm.Prelude.{ℕ, zero, suc, ℤ, Bool, Option, none, some, List, [], ◌∷◌, ◌==◌, if◌then◌else◌}
use adbfsm.Split.{Text}
use adbfsm.FilePath.{FilePath}
use adbfsm.Rpc.Request.{Timespec}
use adbfsm.Cache.State.{Expect, ok, err, Connection, Cache}
use adbfsm.Tree.Data.{Attributes, Stat, Node, Children, directory}

-- `connection::Connection`; a path is its text. `now` is the clock.
pub record Remote : Type 1 where
  pub connection : Connection
  pub now : connection.Device → Timespec
  pub stat : connection.Device → Text → Expect Attributes × connection.Device
  pub statdir : connection.Device → Text → Expect (List (Attributes × Text)) × connection.Device
  pub readlink : connection.Device → Text → Expect FilePath × connection.Device
  pub mknod : connection.Device → Text → ℕ → ℕ → Expect Unit × connection.Device
  pub mkdir : connection.Device → Text → ℕ → Expect Unit × connection.Device
  pub unlink : connection.Device → Text → Expect Unit × connection.Device
  pub rmdir : connection.Device → Text → Expect Unit × connection.Device
  pub rename : connection.Device → Text → Text → ℕ → Expect Unit × connection.Device
  pub truncate : connection.Device → Text → ℤ → Expect Unit × connection.Device
  pub utimens : connection.Device → Text → Timespec → Timespec → Expect Unit × connection.Device
  pub copy_file_range : connection.Device → Text → ℤ → Text → ℤ → ℕ → Expect ℕ × connection.Device

abbrev pub Nodes : Type 0
Nodes = ℕ → Option Node

unfoldable pub set_node : ℕ → Option Node → Nodes → Nodes
set_node a n nodes b = if b == a then n else nodes b

-- `FileTree`, with the counter of `data::Id`. The root is at the address 0.
pub record Tree (R : Remote) : Type 0 where
  pub nodes : Nodes
  pub next_address : ℕ
  pub id_counter : ℕ
  pub fd_counter : ℕ
  pub root_initialized : Bool
  pub cache : Cache (R.connection)

-- `undefined` is a node that is not there any more, `unfinished` is a loop that has run out of fuel.
pub data Answer (A : Type 0) : Type 0 where
  done : A → Answer A
  failed : ℕ → Answer A
  undefined : Answer A
  unfinished : Answer A

abbrev pub Op : Remote → Type 0 → Type 0
Op R A = Tree R → Answer A × Tree R

module _ {R : Remote} {A B : Type 0} where
  abbrev pub then_run : Answer A → Tree R → (A → Op R B) → Answer B × Tree R
  then_run (done a) t k = k a t
  then_run (failed e) t k = (failed e, t)
  then_run undefined t k = (undefined, t)
  then_run unfinished t k = (unfinished, t)

  infixl 5 ◌>>=◌ ◌>>◌
  abbrev pub ◌>>=◌ : Op R A → (A → Op R B) → Op R B
  ◌>>=◌ m k t = let (r, t') = m t in then_run r t' k

  abbrev pub ◌>>◌ : Op R A → Op R B → Op R B
  m >> n = m >>= λ _. n

module _ {R : Remote} {A : Type 0} where
  abbrev pub pure : A → Op R A
  pure a t = (done a, t)

  abbrev pub fail : ℕ → Op R A
  fail e t = (failed e, t)

  abbrev pub run_out : Op R A
  run_out t = (unfinished, t)

  abbrev pub stray : Op R A
  stray t = (undefined, t)

  abbrev pub lift : Expect A → Op R A
  lift (ok a) t = (done a, t)
  lift (err e) t = (failed e, t)

  -- A result whose error the caller looks at.
  abbrev pub caught : Answer A → Tree R → Answer (Expect A) × Tree R
  caught (done a) t = (done (ok a), t)
  caught (failed e) t = (done (err e), t)
  caught undefined t = (undefined, t)
  caught unfinished t = (unfinished, t)

  abbrev pub attempt : Op R A → Op R (Expect A)
  attempt m t = let (r, t') = m t in caught r t'

  -- A call of the cache.
  abbrev pub in_cache : (Cache (R.connection) → Expect A × Cache (R.connection)) → Op R A
  in_cache f t = let (r, c) = f t.cache in lift r (record t { cache = c })

  -- A call of the connection.
  abbrev pub on_device : (R.connection.Device → Expect A × R.connection.Device) → Op R A
  on_device f t =
      let (r, d) = f t.cache.device in lift r (record t { cache = record (t.cache) { device = d } })

module _ {R : Remote} where
  unfoldable pub load : ℕ → Op R Node
  load a t = elim (t.nodes a) [ none ↦ (undefined, t) | some n ↦ (done n, t) ]

  unfoldable pub store : ℕ → Node → Op R (Unit {0})
  unfolding set_node
  store a n t = (done tt, record t { nodes = set_node a (some n) t.nodes })

  -- The address that the next node will have.
  unfoldable pub next_node : Op R ℕ
  next_node t = (done (t.next_address), t)

  -- `std::make_unique<Node>`.
  unfoldable pub alloc : Node → Op R ℕ
  unfolding set_node
  alloc n t = (
    done (t.next_address),
    record t {
      nodes = set_node t.next_address (some n) t.nodes;
      next_address = suc t.next_address;
    },
  )

  -- The constructor of `data::Stat`.
  unfoldable pub make_stat : Attributes → Op R Stat
  make_stat attributes t = (
    done (record { id = suc t.id_counter; attributes = attributes }),
    record t { id_counter = suc t.id_counter },
  )

-- The destructor of a node, with the nodes below it; fuel for the depth.
abbrev destroy_each : (ℕ → Nodes → Nodes) → Children → Nodes → Nodes
destroy_each one [] nodes = nodes
destroy_each one ((name, child) ∷ cs) nodes = destroy_each one cs (one child nodes)

abbrev children_of : Option Node → Children
children_of none = []
children_of (some n) = elim n.value [ directory d ↦ d.children | _ ↦ [] ]

unfoldable pub destroy_nodes : ℕ → ℕ → Nodes → Nodes
unfolding set_node
destroy_nodes zero a nodes = nodes
destroy_nodes (suc depth) a nodes =
    set_node a none (destroy_each (destroy_nodes depth) (children_of (nodes a)) nodes)

-- No path has more nodes than there have been addresses.
module _ {R : Remote} where
  unfoldable pub destroy : Option ℕ → Op R (Unit {0})
  unfolding destroy_nodes
  destroy none t = (done tt, t)
  destroy (some a) t = (done tt, record t { nodes = destroy_nodes t.next_address a t.nodes })
