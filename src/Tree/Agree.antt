-- ===== src/Tree/Agree.antt =====
-- `traverse_or_build` agrees with `traverse`. A path that is not the root is a directory's path that was
-- extended by a name.
use adbfsm.Prelude.{
  ℕ, suc, ◌≡◌, refl, sym, subst, ap, ◌∙◌, true, false, Bool-cases, inl, inr, List, [], ◌∷◌, ◌++◌,
  drop, get_or, text_eq, text_eq_lem,
}
use mathlib.Core.Bool.{true≢false}
use adbfsm.Split.{Text, char_delim}
use adbfsm.Split.Join.{words-delim}
use adbfsm.FilePath.{
  FilePath, slash, is_slash, root_text, root, is_root, filename, parent, fullpath, parent_path,
  extend, bad_name,
}
use adbfsm.FilePath.Parts.{
  components, extend_lem, extend-HasName, HasName-fullpath, extended_dir, needs_slash, and_false,
}
use adbfsm.FilePath.Up.Texts.{parent_path_text}
use adbfsm.FilePath.Iter.{iter_lem}
use adbfsm.Tree.Exec.{Remote, Tree, Answer, done, failed, undefined, unfinished, Op}
use adbfsm.Tree.Node.{traverse as traverse_node}
use adbfsm.Tree.Grows.{Fits, Grows-refl, Run, bind-Run, weaken}
use adbfsm.Tree.Lookups.{HasChild, traverse-HasChild}
use adbfsm.Tree.Build.{traverse-Run}
use adbfsm.Tree.Paths.{
  walk, traverse, child_or, build_directory, build_parents, build_path_nodes, traverse_or_build,
  names_below,
}
use adbfsm.Tree.Reach.{
  Walks, Walks-Grows, walk-Walks, HasChild-Grows, Reaches, Target, names_of,
  traverse_or_build-Reaches,
}

words_absolute : (s : Text) → get_or s 0 0 ≡ slash → components (drop 1 s) ≡ components s
unfolding char_delim
words_absolute [] h = refl
words_absolute (c ∷ cs) h =
    let e : is_slash c ≡ true = rw h refl in sym (words-delim is_slash c cs e)

names_below_absolute :
    (p : FilePath) → get_or (fullpath p) 0 0 ≡ slash → names_below p ≡ components (fullpath p)
unfolding names_below
names_below_absolute p h = rw (iter_lem p, names_below) (words_absolute (fullpath p) h)

extended_absolute :
    (s name : Text) → get_or s 0 0 ≡ slash → get_or (extended_dir s ++ slash ∷ name) 0 0 ≡ slash
unfolding extended_dir
extended_absolute [] name h = refl
extended_absolute (c ∷ cs) name h = elim (Bool-cases (needs_slash (c ∷ cs))) [
  | inl e ↦ rw e h
  | inr e ↦ rw e refl
]

module _ (name : Text) (p : FilePath) (good : bad_name name ≡ false)
    (absolute : get_or p.buffer 0 0 ≡ slash) where
  abbrev longer : FilePath
  longer = (extend name p).0

  names_longer : names_below longer ≡ names_of longer
  names_longer =
      let (done_so, named, dir, all) = extend_lem name p good in
      let (done_so', up) = parent_path_text name p good absolute in
      let (done_so'', has_name, dir') = extend-HasName name p good in
      let whole : fullpath longer ≡ extended_dir p.buffer ++ slash ∷ name =
        HasName-fullpath longer (extended_dir p.buffer) name has_name in
      let above : names_below (parent_path longer) ≡ components p.buffer =
        names_below_absolute (parent_path longer) (rw up absolute) ∙ ap components up in
      names_below_absolute longer (rw whole (extended_absolute p.buffer name absolute))
      ∙ (all
          ∙ sym (
              ap (λ ns. ns ++ filename longer ∷ []) above
              ∙ ap (λ n. components p.buffer ++ n ∷ []) named))

  name_not_root : text_eq name root_text ≡ false
  name_not_root = elim (Bool-cases (text_eq name root_text)) [
    | inl e ↦
        let bad : bad_name root_text ≡ false =
          subst (λ n. bad_name n ≡ false) (text_eq_lem name root_text e) good in
        absurd (true≢false (unfold bad_name char_delim in bad))
    | inr e ↦ e
  ]

  longer_not_root : is_root longer ≡ false
  unfolding is_root
  longer_not_root =
      let (done_so, named, dir, all) = extend_lem name p good in
      rw (named, name_not_root) (and_false (text_eq (parent longer) root_text))

module _ {R : Remote} where
  -- A walk that succeeds has changed nothing and has found its nodes.
  walk-Run : (names : List Text) (a : ℕ) → Reaches {R = R} (λ b u. Walks u names a b) (walk names a)
  unfolding walk
  walk-Run [] a t fits = (fits, Grows-refl t, refl)
  walk-Run (name ∷ names) a t fits =
      bind-Run (λ c u. HasChild u a name c) (λ b u. Walks u (name ∷ names) a b) t
        (traverse_node a name) _ (traverse-Run a name t fits)
        (λ c u f g h.
          weaken (λ b w. Walks w names c b) (λ b w. Walks w (name ∷ names) a b) u (walk names c u)
            (λ b w g' walks. (c, HasChild-Grows u w a name c g' h, walks)) (walk-Run names c u f))

  Walks-of_walk :
      (t u : Tree R) (names : List Text) (a b : ℕ)
      → Fits t
      → walk names a t ≡ (done b, u)
      → Walks u names a b
  Walks-of_walk t u names a b fits e =
      (subst (λ s. Run t (λ x w. Walks w names a x) s) e (walk-Run names a t fits)).2

  Walks-split :
      (t : Tree R) (names : List Text) (a c : ℕ) (name : Text)
      → Walks t (names ++ name ∷ []) a c
      → (b : ℕ) × Walks t names a b × HasChild t b name c
  Walks-split t [] a c name (d, h, e) = (a, refl, subst (λ x. HasChild t a name x) e h)
  Walks-split t (n ∷ names) a c name (d, h, w) =
      let (b, walks, last) = Walks-split t names d c name w in (b, (d, h, walks), last)

  -- What is known is not asked for.
  child_or-known :
      (t : Tree R) (a : ℕ) (name : Text) (c : ℕ) (missing : Op R ℕ)
      → HasChild t a name c
      → child_or a name missing t ≡ (done c, t)
  unfolding child_or
  child_or-known t a name c missing h = rw (traverse-HasChild t a name c h) refl

  build_parents-known :
      (t : Tree R) (names : List Text) (a b : ℕ) (path : FilePath)
      → Walks t names a b
      → (path' : FilePath) × (build_parents names a path t ≡ (done (b, path'), t))
  unfolding build_parents
  build_parents-known t [] a b path w = (path, ap (λ x. (done (x, path), t)) w)
  build_parents-known t (name ∷ names) a b path (c, h, w) =
      let longer_path = (extend name path).0 in
      let (path', e) = build_parents-known t names c b longer_path w in
      (path', rw (child_or-known t a name c (build_directory a name longer_path) h) e)

  nodes_known :
      (t : Tree R) (path : FilePath) (target_of : FilePath → Op R ℕ) (c : ℕ)
      → Walks t (names_of path) 0 c
      → build_path_nodes path target_of t ≡ (done c, t)
  unfolding build_path_nodes
  nodes_known t path target_of c w =
      let (b, walks, last) = Walks-split t (names_below (parent_path path)) 0 c (filename path) w in
      let (path', e) = build_parents-known t (names_below (parent_path path)) 0 b root walks in
      rw e (child_or-known t b (filename path) c _ last)

module _ {R : Remote} (name : Text) (p : FilePath) (good : bad_name name ≡ false)
    (absolute : get_or p.buffer 0 0 ≡ slash) where
  built_Walks :
      (hops : ℕ) (t u : Tree R) (c : ℕ)
      → Fits t
      → traverse_or_build hops (extend name p).0 t ≡ (done c, u)
      → Walks u (names_of (extend name p).0) 0 c
  built_Walks hops t u c fits e =
      let path = (extend name p).0 in
      let found : Target path c u =
        (subst (λ s. Run t (Target path) s) e (traverse_or_build-Reaches hops path t fits)).2 in
      rw (longer_not_root name p good absolute) at found

  -- For an absolute path that is extended by a good name, in a tree whose nodes have addresses below the next one: if `traverse` finds a node, then
  -- `traverse_or_build` returns it, with nothing changed and the device not asked.
  pub traverse_or_build-known :
      (hops : ℕ) (t : Tree R) (c : ℕ)
      → Fits t
      → traverse (extend name p).0 t ≡ (done c, t)
      → traverse_or_build (suc hops) (extend name p).0 t ≡ (done c, t)
  unfolding traverse traverse_or_build
  traverse_or_build-known hops t c fits e =
      let path = (extend name p).0 in
      let found : walk (names_below path) 0 t ≡ (done c, t) =
        rw (longer_not_root name p good absolute) at e in
      let walks : Walks t (names_of path) 0 c =
        subst (λ names. Walks t names 0 c) (names_longer name p good absolute)
          (Walks-of_walk t t (names_below path) 0 c fits found) in
      rw (longer_not_root name p good absolute)
        (nodes_known t path (traverse_or_build hops) c walks)

  -- For such a path and such a tree: a node that `traverse_or_build` returns is the node that `traverse` finds
  -- in the state it leaves, and the one that a second call there returns, with nothing changed and the
  -- device not asked.
  pub traverse-traverse_or_build :
      (hops again : ℕ) (t u : Tree R) (c : ℕ)
      → Fits t
      → traverse_or_build hops (extend name p).0 t ≡ (done c, u)
      → (traverse (extend name p).0 u ≡ (done c, u))
        × (traverse_or_build (suc again) (extend name p).0 u ≡ (done c, u))
  unfolding traverse traverse_or_build
  traverse-traverse_or_build hops again t u c fits e =
      let path = (extend name p).0 in
      let walks : Walks u (names_of path) 0 c = built_Walks hops t u c fits e in
      let below : Walks u (names_below path) 0 c =
        subst (λ names. Walks u names 0 c) (sym (names_longer name p good absolute)) walks in
      (
        rw (longer_not_root name p good absolute) (walk-Walks u (names_below path) 0 c below),
        rw (longer_not_root name p good absolute)
            (nodes_known u path (traverse_or_build again) c walks),
      )

abbrev found_or_zero : Answer ℕ → ℕ
found_or_zero (done a) = a
found_or_zero (failed e) = 0
found_or_zero undefined = 0
found_or_zero unfinished = 0

module _ {R : Remote} where
  -- In a tree whose nodes have addresses below the next one: whatever `traverse_or_build` is asked for and
  -- returns, the nodes that `traverse` found before it still
  -- finds, at the same addresses.
  pub traverse_or_build_keeps :
      (hops : ℕ) (path q : FilePath) (t : Tree R) (b : ℕ)
      → Fits t
      → traverse q t ≡ (done b, t)
      → traverse q (traverse_or_build hops path t).1 ≡ (done b, (traverse_or_build hops path t).1)
  unfolding traverse
  traverse_or_build_keeps hops path q t b fits e = elim (Bool-cases (is_root q)) [
    | inl r ↦
        let zero_found : 0 ≡ b = ap (λ s. found_or_zero s.0) (rw r at e) in
        rw r (ap (λ x. (done x, (traverse_or_build hops path t).1)) zero_found)
    | inr r ↦
        let found : walk (names_below q) 0 t ≡ (done b, t) = rw r at e in
        let after = (traverse_or_build hops path t).1 in
        let (fits', grows, target) = traverse_or_build-Reaches hops path t fits in
        rw r (
          walk-Walks after (names_below q) 0 b (
            Walks-Grows t after (names_below q) 0 b grows
              (Walks-of_walk t t (names_below q) 0 b fits found)))
  ]
