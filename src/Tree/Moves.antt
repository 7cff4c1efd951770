-- ===== src/Tree/Moves.antt =====
-- What `rename` does to the tree, behind the call of the device.
use adbfsm.Prelude.{ℕ, ◌≡◌, ◌≢◌, refl, sym, ◌∙◌, true, false, Option, none, some, ◌∷◌, text_eq_refl}
use adbfsm.Split.{Text}
use adbfsm.FilePath.{FilePath, filename, fullpath}
use adbfsm.Cache.State.{ok}
use adbfsm.Cache.Flush.{rename as cache_rename}
use adbfsm.Tree.Data.{
  Directory, Node, directory, lookup, remove, insert, extract, no_such_file_or_directory,
}
use adbfsm.Tree.Data.Finite.{AreDistinct, lookup-remove}
use adbfsm.Tree.Exec.{Remote, Tree, done, failed, set_node, store}
use adbfsm.Tree.Node.{traverse, extract_node, insert_node}
use adbfsm.Tree.Calls.{id_of}
use adbfsm.Tree.Files.{move_node, adopt, parent_of, exchange}
use adbfsm.Tree.Lookups.{HasChild, load-eq, directory_of-eq, find-none, set_node_self, set_node_ne}
use adbfsm.Tree.Descriptors.{set_value-eq}

-- The directory behind an insertion that may overwrite.
abbrev pub overwritten_by : Option ℕ → Text → ℕ → Directory → Directory
overwritten_by none name c d = record d { children = (name, c) ∷ d.children }
overwritten_by (some old) name c d = record d { children = (name, c) ∷ remove name d.children }

insert_over-eq :
    (name : Text) (c : ℕ) (d : Directory) (o : Option ℕ)
    → lookup name d.children ≡ o
    → insert name c true d ≡ ok (o, overwritten_by o name c d)
unfolding insert
insert_over-eq name c d none l = rw (l, insert) refl
insert_over-eq name c d (some old) l = rw (l, insert) refl

pub lookup-overwritten_by :
    (o : Option ℕ) (name : Text) (c : ℕ) (d : Directory)
    → lookup name (overwritten_by o name c d).children ≡ some c
unfolding lookup
lookup-overwritten_by none name c d = rw (text_eq_refl name) refl
lookup-overwritten_by (some old) name c d = rw (text_eq_refl name) refl

module _ {R : Remote} where
  abbrev pub IsDirectory : Tree R → ℕ → Node → Directory → Type 0
  IsDirectory t a n d = (t.nodes a ≡ some n) × (n.value ≡ directory d)

  abbrev pub with_children : Tree R → ℕ → Node → Directory → Tree R
  with_children t a n d = record t {
    nodes = set_node a (some (record n { value = directory d })) t.nodes;
  }

  pub extract_node-eq :
      (t : Tree R) (a : ℕ) (n : Node) (d : Directory) (name : Text) (c : ℕ)
      → IsDirectory t a n d
      → lookup name d.children ≡ some c
      → extract_node a name t
        ≡ (done c, with_children t a n (record d { children = remove name d.children }))
  unfolding extract_node
  extract_node-eq t a n d name c (h, v) l =
      let d' : Directory = record d { children = remove name d.children } in
      let found : extract name d ≡ ok (c, d') = unfold extract in rw (l, extract) refl in
      rw (directory_of-eq t a n d h v) (rw found (rw (set_value-eq a n (directory d') t h) refl))

  pub insert_node-eq :
      (t : Tree R) (a : ℕ) (n : Node) (d : Directory) (name : Text) (c : ℕ) (o : Option ℕ)
      → IsDirectory t a n d
      → lookup name d.children ≡ o
      → insert_node a name c true t ≡ (done o, with_children t a n (overwritten_by o name c d))
  unfolding insert_node
  insert_node-eq t a n d name c o (h, v) l = rw (directory_of-eq t a n d h v) (
      rw (insert_over-eq name c d o l)
        (rw (set_value-eq a n (directory (overwritten_by o name c d)) t h) refl))

  pub adopt-eq :
      (t : Tree R) (a parent : ℕ) (n : Node) (name : Text)
      → t.nodes a ≡ some n
      → adopt a parent name t ≡ (
        done tt,
        record t {
          nodes = set_node a (some (record n { parent = some parent; name = name })) t.nodes;
        },
      )
  unfolding adopt store
  adopt-eq t a parent n name h = rw (load-eq t a n h) refl

  pub parent_of-eq :
      (t : Tree R) (a parent : ℕ) (n : Node)
      → t.nodes a ≡ some n
      → n.parent ≡ some parent
      → parent_of a t ≡ (done parent, t)
  unfolding parent_of
  parent_of-eq t a parent n h e = rw (load-eq t a n h) (rw e refl)

  pub id_of-eq :
      (t : Tree R) (a : ℕ) (n : Node) → t.nodes a ≡ some n → id_of a t ≡ (done (n.stat.id), t)
  unfolding id_of
  id_of-eq t a n h = rw (load-eq t a n h) refl

  -- A node that is moved from one directory to another.
  module _ (t : Tree R) (f op tp : ℕ) (n np nt : Node) (d dt : Directory) (from to : FilePath)
      (here : t.nodes f ≡ some n) (above : n.parent ≡ some op) (old : IsDirectory t op np d)
      (new : IsDirectory t tp nt dt) (listed : lookup (filename from) d.children ≡ some f)
      (distinct : AreDistinct d.children) (f-op : f ≢ op) (f-tp : f ≢ tp) (op-tp : op ≢ tp) where
    abbrev pub smaller : Directory
    smaller = record d { children = remove (filename from) d.children }

    abbrev pub moved : Node
    moved = record n { parent = some tp; name = filename to }

    abbrev pub without : Tree R
    without = with_children t op np smaller

    abbrev pub renamed : Tree R
    renamed = record without { cache = cache_rename n.stat.id (fullpath to) t.cache }

    abbrev pub adopted : Tree R
    adopted = record renamed { nodes = set_node f (some moved) without.nodes }

    abbrev pub placed : Option ℕ → Tree R
    placed o = with_children adopted tp nt (overwritten_by o (filename to) f dt)

    pub still_here : without.nodes f ≡ some n
    still_here =
        set_node_ne op f (some (record np { value = directory smaller })) t.nodes f-op ∙ here

    pub target_there : IsDirectory adopted tp nt dt
    target_there = (
      set_node_ne f tp (some moved) without.nodes (λ e. f-tp (sym e))
          ∙ (set_node_ne op tp (some (record np { value = directory smaller })) t.nodes
                (λ e. op-tp (sym e))
              ∙ new.0),
      new.1,
    )

    -- A name that is free is taken.
    move_node-free :
        (flags : ℕ)
        → lookup (filename to) dt.children ≡ none
        → exchange flags ≡ false
        → move_node f tp from to flags t ≡ (done tt, placed none)
    unfolding move_node
    move_node-free flags free plain = rw (parent_of-eq t f op n here above) (
        rw (extract_node-eq t op np d (filename from) f old listed) (
          rw (id_of-eq without f n still_here) (
            rw (adopt-eq renamed f tp n (filename to) still_here) (
              rw (insert_node-eq adopted tp nt dt (filename to) f none target_there free)
                (rw plain refl)))))

    -- Where the two directories are then.
    module _ (o : Option ℕ) where
      pub old_there : IsDirectory (placed o) op (record np { value = directory smaller }) smaller
      old_there = (
        set_node_ne tp op
              (some (record nt { value = directory (overwritten_by o (filename to) f dt) }))
              adopted.nodes op-tp
            ∙ (set_node_ne f op (some moved) without.nodes (λ e. f-op (sym e))
                ∙ set_node_self op (some (record np { value = directory smaller })) t.nodes),
        refl,
      )

      pub new_there :
          IsDirectory
            (placed o)
            tp
            (record nt { value = directory (overwritten_by o (filename to) f dt) })
            (overwritten_by o (filename to) f dt)
      new_there = (
        set_node_self tp
            (some (record nt { value = directory (overwritten_by o (filename to) f dt) }))
            adopted.nodes,
        refl,
      )

      pub moved_there : (placed o).nodes f ≡ some moved
      moved_there =
          set_node_ne tp f
            (some (record nt { value = directory (overwritten_by o (filename to) f dt) }))
            adopted.nodes f-tp
          ∙ set_node_self f (some moved) without.nodes

    pub gone : lookup (filename from) smaller.children ≡ none
    gone =
        lookup-remove (filename from) (filename from) d.children distinct
        ∙ rw (text_eq_refl (filename from)) refl

  pub traverse_absent :
      (t : Tree R) (a : ℕ) (n : Node) (d : Directory) (name : Text)
      → IsDirectory t a n d
      → lookup name d.children ≡ none
      → traverse a name t ≡ (failed no_such_file_or_directory, t)
  unfolding traverse
  traverse_absent t a n d name (h, v) l =
      rw (directory_of-eq t a n d h v) (rw (find-none name d l) refl)

  -- A node that is moved, without RENAME_EXCHANGE, from one directory, in which no name stands twice, to a
  -- free name in another: the move is done,
  -- the new name leads to the node, which has that name and the other directory as its parent, and the old
  -- name leads nowhere. The cache has the new path under the id of the node, and is not called otherwise.
  pub move_node_lem :
      (t : Tree R) (f op tp : ℕ) (n np nt : Node) (d dt : Directory) (from to : FilePath)
      (flags : ℕ)
      → t.nodes f ≡ some n
      → n.parent ≡ some op
      → IsDirectory t op np d
      → IsDirectory t tp nt dt
      → lookup (filename from) d.children ≡ some f
      → AreDistinct d.children
      → f ≢ op
      → f ≢ tp
      → op ≢ tp
      → lookup (filename to) dt.children ≡ none
      → exchange flags ≡ false
      → (u : Tree R) × (move_node f tp from to flags t ≡ (done tt, u))
        × HasChild u tp (filename to) f
        × (u.nodes f ≡ some (record n { parent = some tp; name = filename to }))
        × (traverse op (filename from) u ≡ (failed no_such_file_or_directory, u))
        × (u.cache ≡ cache_rename n.stat.id (fullpath to) t.cache)
  unfolding HasChild
  move_node_lem t f op tp n np nt d dt from to flags here above old new listed distinct f-op f-tp
        op-tp free plain =
      let run =
        move_node-free t f op tp n np nt d dt from to here above old new listed distinct f-op f-tp
          op-tp flags free plain in
      let there =
        new_there t f op tp n np nt d dt from to here above old new listed distinct f-op f-tp op-tp
          none in
      let left =
        old_there t f op tp n np nt d dt from to here above old new listed distinct f-op f-tp op-tp
          none in
      let now =
        moved_there t f op tp n np nt d dt from to here above old new listed distinct f-op f-tp
          op-tp none in
      let lost =
        gone t f op tp n np nt d dt from to here above old new listed distinct f-op f-tp op-tp in
      (
        _,
        run,
        (_, _, there.0, refl, lookup-overwritten_by none (filename to) f dt),
        now,
        traverse_absent _ op _ _ (filename from) left lost,
        refl,
      )
