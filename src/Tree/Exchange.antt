-- ===== src/Tree/Exchange.antt =====
-- What `rename` with RENAME_EXCHANGE does to the tree.
use adbfsm.Prelude.{ℕ, ◌≡◌, ◌≢◌, refl, sym, ◌∙◌, true, false, inl, inr, none, some, text_eq-cases}
use adbfsm.Split.{Text}
use adbfsm.FilePath.{FilePath, filename, fullpath}
use adbfsm.Cache.Flush.{rename as cache_rename}
use adbfsm.Tree.Data.{Directory, Node, directory, lookup, remove, no_such_file_or_directory}
use adbfsm.Tree.Data.Finite.{AreDistinct, lookup-remove}
use adbfsm.Tree.Exec.{Remote, Tree, done, failed, set_node}
use adbfsm.Tree.Node.{traverse, insert_node}
use adbfsm.Tree.Files.{move_node, exchange}
use adbfsm.Tree.Lookups.{HasChild, insert-none, directory_of-eq, set_node_self, set_node_ne}
use adbfsm.Tree.Descriptors.{set_value-eq}
use adbfsm.Tree.Moves.{
  IsDirectory, with_children, lookup-overwritten_by, overwritten_by, placed, without, renamed,
  adopted, still_here, target_there, old_there, new_there, moved_there, gone, extract_node-eq,
  insert_node-eq, adopt-eq, parent_of-eq, id_of-eq, traverse_absent,
}

lookup_beside :
    (from to : Text) (f s : ℕ) (d : Directory)
    → AreDistinct d.children
    → to ≢ from
    → lookup from d.children ≡ none
    → lookup from (overwritten_by (some s) to f d).children ≡ none
unfolding lookup
lookup_beside from to f s d distinct ne free = elim (text_eq-cases to from) [
  | inl (same, e) ↦ absurd (ne same)
  | inr (ne', e) ↦ rw e (lookup-remove to from d.children distinct ∙ rw e free)
]

module _ {R : Remote} where
  insert_new-eq :
      (t : Tree R) (a : ℕ) (n : Node) (d : Directory) (name : Text) (c : ℕ)
      → IsDirectory t a n d
      → lookup name d.children ≡ none
      → insert_node a name c false t
        ≡ (done none, with_children t a n (overwritten_by none name c d))
  unfolding insert_node
  insert_new-eq t a n d name c (h, v) l = rw (directory_of-eq t a n d h v) (
      rw (insert-none name c false d l)
        (rw (set_value-eq a n (directory (overwritten_by none name c d)) t h) refl))

  -- Two nodes in two directories, in which no name stands twice, are exchanged. The name of the first is not
  -- that of the second and is free in the directory of the second: the first goes to the place of the second, and the
  -- second, under the name of the first, to the same directory; the old name of the first leads nowhere.
  pub move_node-exchange :
      (t : Tree R) (f s op tp : ℕ) (n m np nt : Node) (d dt : Directory) (from to : FilePath)
      (flags : ℕ)
      → t.nodes f ≡ some n
      → t.nodes s ≡ some m
      → n.parent ≡ some op
      → IsDirectory t op np d
      → IsDirectory t tp nt dt
      → lookup (filename from) d.children ≡ some f
      → lookup (filename to) dt.children ≡ some s
      → lookup (filename from) dt.children ≡ none
      → AreDistinct d.children
      → AreDistinct dt.children
      → filename to ≢ filename from
      → f ≢ op
      → f ≢ tp
      → op ≢ tp
      → s ≢ f
      → s ≢ op
      → s ≢ tp
      → exchange flags ≡ true
      → (u : Tree R) × (move_node f tp from to flags t ≡ (done tt, u))
        × HasChild u tp (filename to) f
        × HasChild u tp (filename from) s
        × (traverse op (filename from) u ≡ (failed no_such_file_or_directory, u))
  unfolding move_node HasChild
  move_node-exchange t f s op tp n m np nt d dt from to flags here second above old new listed
        occupied free distinct distinct' differ f-op f-tp op-tp s-f s-op s-tp both =
      let P : Tree R =
        placed t f op tp n np nt d dt from to here above old new listed distinct f-op f-tp op-tp
          (some s) in
      let d' : Directory = overwritten_by (some s) (filename to) f dt in
      let n' : Node = record nt { value = directory d' } in
      let m' : Node = record m { parent = some tp; name = filename from } in
      let there =
        new_there t f op tp n np nt d dt from to here above old new listed distinct f-op f-tp op-tp
          (some s) in
      let left =
        old_there t f op tp n np nt d dt from to here above old new listed distinct f-op f-tp op-tp
          (some s) in
      let now =
        moved_there t f op tp n np nt d dt from to here above old new listed distinct f-op f-tp
          op-tp (some s) in
      let lost =
        gone t f op tp n np nt d dt from to here above old new listed distinct f-op f-tp op-tp in
      let P2 : Tree R = record P { cache = cache_rename m.stat.id (fullpath from) P.cache } in
      let P3 : Tree R = record P2 { nodes = set_node s (some m') P.nodes } in
      let d'' : Directory = overwritten_by none (filename from) s d' in
      let last : Node = record n' { value = directory d'' } in
      let u : Tree R = with_children P3 tp n' d'' in
      let W =
        without t f op tp n np nt d dt from to here above old new listed distinct f-op f-tp op-tp in
      let A =
        adopted t f op tp n np nt d dt from to here above old new listed distinct f-op f-tp op-tp in
      let N =
        renamed t f op tp n np nt d dt from to here above old new listed distinct f-op f-tp op-tp in
      let stays =
        still_here t f op tp n np nt d dt from to here above old new listed distinct f-op f-tp
          op-tp in
      let target =
        target_there t f op tp n np nt d dt from to here above old new listed distinct f-op f-tp
          op-tp in
      let small : Directory = record d { children = remove (filename from) d.children } in
      let shrunk : Node = record np { value = directory small } in
      let mine : Node = record n { parent = some tp; name = filename to } in
      let still_second : P.nodes s ≡ some m =
        set_node_ne tp s (some n') A.nodes s-tp
        ∙ (set_node_ne f s (some mine) W.nodes s-f
            ∙ (set_node_ne op s (some shrunk) t.nodes s-op ∙ second)) in
      let tp_there : P3.nodes tp ≡ some n' =
        set_node_ne s tp (some m') P.nodes (λ e. s-tp (sym e)) ∙ there.0 in
      let absent : lookup (filename from) d'.children ≡ none =
        lookup_beside (filename from) (filename to) f s dt distinct' differ free in
      let run : move_node f tp from to flags t ≡ (done tt, u) =
        rw (parent_of-eq t f op n here above) (
          rw (extract_node-eq t op np d (filename from) f old listed) (
            rw (id_of-eq W f n stays) (
              rw (adopt-eq N f tp n (filename to) stays) (
                rw (insert_node-eq A tp nt dt (filename to) f (some s) target occupied) (
                  rw both (
                    rw (id_of-eq P s m still_second) (
                      rw (parent_of-eq P f tp mine now refl) (
                        rw (adopt-eq P2 s tp m (filename from) still_second) (
                          rw (insert_new-eq P3 tp n' d' (filename from) s (tp_there, refl) absent)
                            refl))))))))) in
      let lookup_behind : lookup (filename to) d''.children ≡ some f =
        unfold lookup in
        elim (text_eq-cases (filename from) (filename to)) [
          | inl (same, e) ↦ absurd (differ (sym same))
          | inr (ne', e) ↦ rw e (lookup-overwritten_by (some s) (filename to) f dt)
        ] in
      let tp_now : u.nodes tp ≡ some last = set_node_self tp (some last) P3.nodes in
      let op_now : u.nodes op ≡ some shrunk =
        set_node_ne tp op (some last) P3.nodes op-tp
        ∙ (set_node_ne s op (some m') P.nodes (λ e. s-op (sym e)) ∙ left.0) in
      (
        u,
        run,
        (last, d'', tp_now, refl, lookup_behind),
        (last, d'', tp_now, refl, lookup-overwritten_by none (filename from) s d'),
        traverse_absent u op shrunk small (filename from) (op_now, refl) lost,
      )
