-- ===== src/Tree/Lookups.antt =====
-- What an operation finds at an address of the tree (madbfs/src/tree/node.cpp).
use adbfsm.Prelude.{
  ℕ, ◌≡◌, ◌≢◌, refl, Bool, true, false, Bool-cases, Option-cases, ◌⊎◌, inl, inr, Option, none, some,
  ◌∷◌, arith, ◌==◌, ==_iff,
}
use adbfsm.Split.{Text}
use adbfsm.Cache.State.{ok, err}
use adbfsm.Tree.Data.{
  Directory, File, Node, regular, directory, link, other, error, lookup, insert, find, file_exists,
  not_a_directory, no_such_file_or_directory,
}
use adbfsm.Tree.Exec.{Remote, Tree, Answer, Nodes, done, failed, undefined, set_node, load}
use adbfsm.Tree.Node.{directory_of, not_error, as_directory, traverse}
use adbfsm.Tree.Grows.{Post}

pub set_node_self : (a : ℕ) (v : Option Node) (f : Nodes) → set_node a v f a ≡ v
unfolding set_node
set_node_self a v f = let e : (a == a) ≡ true = (==_iff a a).1 refl in rw e refl

pub set_node_ne : (a b : ℕ) (v : Option Node) (f : Nodes) → b ≢ a → set_node a v f b ≡ f b
unfolding set_node
set_node_ne a b v f h = let e : (b == a) ≡ false = ground arith in rw e refl

pub set_node-cases :
    (a b : ℕ) (v : Option Node) (f : Nodes)
    → ((b ≡ a) × (set_node a v f b ≡ v)) ⊎ ((b ≢ a) × (set_node a v f b ≡ f b))
unfolding set_node
set_node-cases a b v f = elim (Bool-cases (b == a)) [
  | inl e ↦ inl ((==_iff b a).0 e, rw e refl)
  | inr e ↦ let ne : b ≢ a = ground arith in inr (ne, rw e refl)
]

pub find-some :
    (name : Text) (d : Directory) (c : ℕ) → lookup name d.children ≡ some c → find name d ≡ ok c
unfolding find
find-some name d c h = rw (h, find) refl

pub find-none :
    (name : Text) (d : Directory)
    → lookup name d.children ≡ none
    → find name d ≡ err no_such_file_or_directory
unfolding find
find-none name d h = rw (h, find) refl

pub insert-none :
    (name : Text) (c : ℕ) (overwrite : Bool) (d : Directory)
    → lookup name d.children ≡ none
    → insert name c overwrite d ≡ ok (none, record d { children = (name, c) ∷ d.children })
unfolding insert
insert-none name c overwrite d h = rw (h, insert) refl

pub insert_refused :
    (name : Text) (c old : ℕ) (d : Directory)
    → lookup name d.children ≡ some old
    → insert name c false d ≡ err file_exists
unfolding insert
insert_refused name c old d h = rw (h, insert) refl

module _ {R : Remote} where
  -- The node at `a` is a directory that has a child of this name.
  unfoldable pub HasChild : Tree R → ℕ → Text → ℕ → Type 0
  HasChild t a name c =
      (n : Node) × (d : Directory) × (t.nodes a ≡ some n)
      × (n.value ≡ directory d)
      × (lookup name d.children ≡ some c)

  pub load-eq : (t : Tree R) (a : ℕ) (n : Node) → t.nodes a ≡ some n → load a t ≡ (done n, t)
  unfolding load
  load-eq t a n h = rw (h, load) refl

  pub directory_of-eq :
      (t : Tree R) (a : ℕ) (n : Node) (d : Directory)
      → t.nodes a ≡ some n
      → n.value ≡ directory d
      → directory_of a t ≡ (done d, t)
  unfolding directory_of not_error as_directory
  directory_of-eq t a n d h v = rw (load-eq t a n h, v) refl

  pub traverse-HasChild :
      (t : Tree R) (a : ℕ) (name : Text) (c : ℕ)
      → HasChild t a name c
      → traverse a name t ≡ (done c, t)
  unfolding HasChild traverse
  traverse-HasChild t a name c (n, d, h, v, l) =
      rw (directory_of-eq t a n d h v) (rw (find-some name d c l) refl)

  -- What `directory_of` finds: it changes nothing.
  abbrev pub Looked : Tree R → ℕ → Answer Directory → Type 0
  Looked t a r =
      (directory_of a t ≡ (r, t))
      × Post (λ d u. (n : Node) × (t.nodes a ≡ some n) × (n.value ≡ directory d)) r t

  file-Looked :
      (t : Tree R) (a : ℕ) (n : Node) (f : File)
      → t.nodes a ≡ some n
      → n.value ≡ f
      → (r : Answer Directory) × Looked t a r
  unfolding directory_of not_error as_directory
  file-Looked t a n (directory d) h v = (done d, (directory_of-eq t a n d h v, (n, h, v)))
  file-Looked t a n (regular r) h v = (failed not_a_directory, (rw (load-eq t a n h, v) refl, tt))
  file-Looked t a n (link target) h v = (failed not_a_directory, (rw (load-eq t a n h, v) refl, tt))
  file-Looked t a n other h v = (failed not_a_directory, (rw (load-eq t a n h, v) refl, tt))
  file-Looked t a n (error errc) h v = (failed errc, (rw (load-eq t a n h, v) refl, tt))

  pub directory_of-Looked : (t : Tree R) (a : ℕ) → (r : Answer Directory) × Looked t a r
  unfolding directory_of
  directory_of-Looked t a = elim (Option-cases (t.nodes a)) [
    | inl e ↦
        let stuck : load a t ≡ (undefined, t) = unfold load in rw (e, load) refl in
        (undefined, (rw stuck refl, tt))
    | inr (n, e) ↦ file-Looked t a n n.value e refl
  ]
