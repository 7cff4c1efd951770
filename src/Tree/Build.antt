-- ===== src/Tree/Build.antt =====
-- What `build` does to the tree.
use adbfsm.Prelude.{
  ℕ, suc, ◌≡◌, ◌≢◌, refl, sym, subst, ap, ◌∙◌, false, Bool-cases, Option-cases, inl, inr, Option,
  none, some, ◌∷◌, arith, text_eq, text_eq_lem, text_eq_refl,
}
use mathlib.Core.Option.{some-ne-none, some-injective}
use adbfsm.Split.{Text}
use adbfsm.Tree.Data.{Directory, File, Node, Stat, directory, lookup, file_exists}
use adbfsm.Tree.Exec.{
  Remote, Tree, Answer, done, failed, undefined, unfinished, set_node, store, alloc, next_node,
  destroy,
}
use adbfsm.Tree.Node.{set_value, insert_node, add_node, build, traverse}
use adbfsm.Tree.Grows.{
  Fits, Grows, Grows-refl, FileGrows-refl, Run, Anything, NodeGrows, FileGrows, Finds,
}
use adbfsm.Tree.Lookups.{
  set_node_self, set_node_ne, set_node-cases, find-some, find-none, insert-none, insert_refused,
  HasChild, load-eq, directory_of-eq, Looked, directory_of-Looked,
}

module _ {R : Remote} where
  -- The tree with a new child in the directory `n` at `a`.
  abbrev grown : Tree R → ℕ → Node → Directory → Text → Stat → File → Tree R
  grown t a n d name s file =
      let d' : Directory = record d { children = (name, t.next_address) ∷ d.children } in
      let new : Node = record { parent = some a; name = name; stat = s; value = file } in
      record t {
        nodes =
            set_node t.next_address (some new)
              (set_node a (some (record n { value = directory d' })) t.nodes);
        next_address = suc t.next_address;
      }

  build-eq :
      (t : Tree R) (a : ℕ) (n : Node) (d : Directory) (name : Text) (s : Stat) (file : File)
      → t.nodes a ≡ some n
      → n.value ≡ directory d
      → lookup name d.children ≡ none
      → build a name s file t ≡ (done (t.next_address), grown t a n d name s file)
  unfolding build add_node insert_node next_node set_value store alloc destroy
  build-eq t a n d name s file h v l =
      rw (directory_of-eq t a n d h v)
        (rw (insert-none name t.next_address false d l) (rw (load-eq t a n h) refl))

  build-exists :
      (t : Tree R) (a : ℕ) (n : Node) (d : Directory) (name : Text) (s : Stat) (file : File) (c : ℕ)
      → t.nodes a ≡ some n
      → n.value ≡ directory d
      → lookup name d.children ≡ some c
      → build a name s file t ≡ (failed file_exists, t)
  unfolding build add_node insert_node next_node
  build-exists t a n d name s file c h v l =
      rw (directory_of-eq t a n d h v) (rw (insert_refused name t.next_address c d l) refl)

  -- A node is written that has grown.
  pub store-Run :
      (a : ℕ) (n m : Node) (t : Tree R)
      → Fits t
      → t.nodes a ≡ some n
      → NodeGrows n m
      → Run t Anything (store a m t)
  unfolding store Fits Grows
  store-Run a n m t fits h g = (
    λ b x e. elim (set_node-cases a b (some m) t.nodes) [
      | inl (same, now) ↦ omega (arith, same, fits a n h)
      | inr (ne, old) ↦ fits b x (sym old ∙ e)
    ],
    λ b x e. elim (set_node-cases a b (some m) t.nodes) [
      | inl (same, now) ↦
          let was : n ≡ x = some-injective n x (sym h ∙ (ap t.nodes (sym same) ∙ e)) in
          (m, now, subst (λ y. NodeGrows y m) was g)
      | inr (ne, old) ↦ (x, old ∙ e, (refl, refl, FileGrows-refl x.value))
    ],
    tt,
  )

  -- A child that was not there is added.
  module _ (t : Tree R) (a : ℕ) (n : Node) (d : Directory) (name : Text) (s : Stat) (file : File)
      (fits : Fits t) (h : t.nodes a ≡ some n) (v : n.value ≡ directory d)
      (l : lookup name d.children ≡ none) where
    abbrev more : Directory
    more = record d { children = (name, t.next_address) ∷ d.children }

    abbrev changed : Option Node
    changed = some (record n { value = directory more })

    abbrev new : Option Node
    new = some (record { parent = some a; name = name; stat = s; value = file })

    abbrev after : Tree R
    after = grown t a n d name s file

    grown-Fits : Fits after
    unfolding Fits
    grown-Fits b m e = elim (set_node-cases t.next_address b new (set_node a changed t.nodes)) [
      | inl (same, _) ↦ omega (arith, same)
      | inr (ne, old) ↦ elim (set_node-cases a b changed t.nodes) [
        | inl (same, _) ↦ omega (arith, same, fits a n h)
        | inr (ne', old') ↦ omega (arith, fits b m (sym old' ∙ (sym old ∙ e)))
      ]
    ]

    more-Finds : Finds d.children more.children
    unfolding lookup
    more-Finds word c found = elim (Bool-cases (text_eq name word)) [
      | inl e ↦ absurd (
          some-ne-none c
            (sym found ∙ (ap (λ x. lookup x d.children) (sym (text_eq_lem name word e)) ∙ l)))
      | inr e ↦ rw e found
    ]

    directory_grows : FileGrows n.value (directory more)
    directory_grows = subst (λ f. FileGrows f (directory more)) (sym v) (more, refl, more-Finds)

    grown-Grows : Grows t after
    unfolding Grows Fits
    grown-Grows b m e =
        let ne : b ≢ t.next_address = λ same. absurd (omega (arith, same, fits b m e)) in
        let over : after.nodes b ≡ set_node a changed t.nodes b =
          set_node_ne t.next_address b new (set_node a changed t.nodes) ne in
        elim (set_node-cases a b changed t.nodes) [
          | inl (same, now) ↦
              let was : n ≡ m = some-injective n m (sym h ∙ (ap t.nodes (sym same) ∙ e)) in
              (
                record n { value = directory more },
                over ∙ now,
                subst (λ x. NodeGrows x (record n { value = directory more })) was
                    (refl, refl, directory_grows),
              )
          | inr (ne', old) ↦ (m, over ∙ (old ∙ e), (refl, refl, FileGrows-refl m.value))
        ]

    grown-HasChild : HasChild after a name t.next_address
    unfolding HasChild lookup Fits
    grown-HasChild =
        let ne : a ≢ t.next_address = λ same. absurd (omega (arith, same, fits a n h)) in
        (
          record n { value = directory more },
          more,
          set_node_ne t.next_address a new (set_node a changed t.nodes) ne
              ∙ set_node_self a changed t.nodes,
          refl,
          rw (text_eq_refl name) refl,
        )

  -- `build`, by what the address is.
  build-Looked :
      (a : ℕ) (name : Text) (s : Stat) (file : File) (t : Tree R) (r : Answer Directory)
      → Fits t
      → Looked t a r
      → Run t (λ c u. HasChild u a name c) (build a name s file t)
  unfolding build add_node insert_node next_node
  build-Looked a name s file t (failed e) fits (eq, p) = rw eq (fits, Grows-refl t, tt)
  build-Looked a name s file t undefined fits (eq, p) = rw eq (fits, Grows-refl t, tt)
  build-Looked a name s file t unfinished fits (eq, p) = rw eq (fits, Grows-refl t, tt)
  build-Looked a name s file t (done d) fits (eq, (n, h, v)) =
      elim (Option-cases (lookup name d.children)) [
        | inl l ↦ rw (build-eq t a n d name s file h v l) (
          grown-Fits t a n d name s file fits h v l,
          grown-Grows t a n d name s file fits h v l,
          grown-HasChild t a n d name s file fits h v l,
        )
        | inr (c, l) ↦ rw (build-exists t a n d name s file c h v l) (fits, Grows-refl t, tt)
      ]

  -- `build` adds the child or leaves the tree alone.
  pub build-Run :
      (a : ℕ) (name : Text) (s : Stat) (file : File) (t : Tree R)
      → Fits t
      → Run t (λ c u. HasChild u a name c) (build a name s file t)
  build-Run a name s file t fits =
      let (r, looked) = directory_of-Looked t a in build-Looked a name s file t r fits looked

  traverse-Looked :
      (a : ℕ) (name : Text) (t : Tree R) (r : Answer Directory)
      → Fits t
      → Looked t a r
      → Run t (λ c u. HasChild u a name c) (traverse a name t)
  unfolding traverse HasChild
  traverse-Looked a name t (failed e) fits (eq, p) = rw eq (fits, Grows-refl t, tt)
  traverse-Looked a name t undefined fits (eq, p) = rw eq (fits, Grows-refl t, tt)
  traverse-Looked a name t unfinished fits (eq, p) = rw eq (fits, Grows-refl t, tt)
  traverse-Looked a name t (done d) fits (eq, (n, h, v)) =
      elim (Option-cases (lookup name d.children)) [
        | inl l ↦ rw eq (rw (find-none name d l) (fits, Grows-refl t, tt))
        | inr (c, l) ↦ rw eq (rw (find-some name d c l) (fits, Grows-refl t, (n, d, h, v, l)))
      ]

  -- `traverse` of a node changes nothing, and finds children.
  pub traverse-Run :
      (a : ℕ) (name : Text) (t : Tree R)
      → Fits t
      → Run t (λ c u. HasChild u a name c) (traverse a name t)
  traverse-Run a name t fits =
      let (r, looked) = directory_of-Looked t a in traverse-Looked a name t r fits looked
