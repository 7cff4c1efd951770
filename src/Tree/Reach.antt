-- ===== src/Tree/Reach.antt =====
-- What `traverse_or_build` does to the tree, and how it agrees with `traverse`.
use adbfsm.Prelude.{
  ℕ, zero, suc, ◌≡◌, refl, sym, subst, ap, Bool, true, false, Bool-cases, Option-cases, inl, inr,
  List, [], ◌∷◌, ◌++◌, ◌==◌, if◌then◌else◌,
}
use adbfsm.Split.{Text}
use adbfsm.FilePath.{FilePath, root, is_root, filename, fullpath, parent_path, extend}
use adbfsm.Cache.State.{Expect, ok, err}
use adbfsm.Tree.Data.{
  Stat, File, regular, directory, link, other, error, new_regular, new_directory, no_attributes,
}
use adbfsm.Tree.Exec.{
  Remote, Tree, done, undefined, Op, ◌>>=◌, pure, fail, attempt, on_device, load, make_stat,
}
use adbfsm.Tree.Node.{traverse as traverse_node, build, set_stat}
use adbfsm.Tree.Calls.{device_stat}
use adbfsm.Tree.Grows.{
  Fits, Grows, Grows-refl, FileGrows-refl, Run, Anything, Caught, FileGrows, bind-Run, attempt-Run,
  weaken, on_device-Run, make_stat-Run,
}
use adbfsm.Tree.Lookups.{HasChild, traverse-HasChild, load-eq}
use adbfsm.Tree.Build.{build-Run, traverse-Run, store-Run}
use adbfsm.Tree.Paths.{
  walk, child_or, stat_or_error, build_directory, build_parents, build_link, build_last,
  build_path_nodes, init_root, mark_root, root_ready, traverse_or_build, names_below, file_type,
  regular_type, directory_type, link_type,
}

-- The names of a path: those of its parent, and its last one.
abbrev pub names_of : FilePath → List Text
names_of path = names_below (parent_path path) ++ filename path ∷ []

module _ {R : Remote} where
  pub HasChild-Grows :
      (t u : Tree R) (a : ℕ) (name : Text) (c : ℕ)
      → Grows t u
      → HasChild t a name c
      → HasChild u a name c
  unfolding HasChild Grows
  HasChild-Grows t u a name c g (n, d, h, v, l) =
      let (n', h', (same, parent, file)) = g a n h in
      let (d', v', finds) = subst (λ f. FileGrows f n'.value) v file in
      (n', d', h', v', finds name c l)

  -- The names lead from `a` to `b`.
  abbrev pub Walks : Tree R → List Text → ℕ → ℕ → Type 0
  Walks t [] a b = a ≡ b
  Walks t (name ∷ names) a b = (c : ℕ) × HasChild t a name c × Walks t names c b

  pub Walks-Grows :
      (t u : Tree R) (names : List Text) (a b : ℕ)
      → Grows t u
      → Walks t names a b
      → Walks u names a b
  Walks-Grows t u [] a b g w = w
  Walks-Grows t u (name ∷ names) a b g (c, h, w) =
      (c, HasChild-Grows t u a name c g h, Walks-Grows t u names c b g w)

  Walks-last :
      (t : Tree R) (names : List Text) (a b c : ℕ) (name : Text)
      → Walks t names a b
      → HasChild t b name c
      → Walks t (names ++ name ∷ []) a c
  Walks-last t [] a b c name w h = (c, subst (λ x. HasChild t x name c) (sym w) h, refl)
  Walks-last t (n ∷ names) a b c name (d, h', w) h = (d, h', Walks-last t names d b c name w h)

  pub walk-Walks :
      (t : Tree R) (names : List Text) (a b : ℕ) → Walks t names a b → walk names a t ≡ (done b, t)
  unfolding walk
  walk-Walks t [] a b w = ap (λ x. (done x, t)) w
  walk-Walks t (name ∷ names) a b (c, h, w) =
      rw (traverse-HasChild t a name c h) (walk-Walks t names c b w)

  abbrev pub Reaches : {A : Type 0} → (A → Tree R → Type 0) → Op R A → Type 0
  Reaches Q m = (t : Tree R) → Fits t → Run t Q (m t)

  found_child :
      (a : ℕ) (name : Text) (missing : Op R ℕ) (r : Expect ℕ) (t : Tree R)
      → Fits t
      → Caught (λ c u. HasChild u a name c) r t
      → Reaches (λ c u. HasChild u a name c) missing
      → Run t
          (λ c u. HasChild u a name c)
          ((elim r as (λ x. Op R ℕ) [ ok child ↦ pure child | err e ↦ missing ]) t)
  found_child a name missing (ok c) t fits p q = (fits, Grows-refl t, p)
  found_child a name missing (err e) t fits p q = q t fits

  child_or-Reaches :
      (a : ℕ) (name : Text) (missing : Op R ℕ)
      → Reaches (λ c u. HasChild u a name c) missing
      → Reaches (λ c u. HasChild u a name c) (child_or a name missing)
  unfolding child_or
  child_or-Reaches a name missing q t fits =
      bind-Run (Caught (λ c u. HasChild u a name c)) (λ c u. HasChild u a name c) t
        (attempt (traverse_node a name)) _
        (attempt-Run (λ c u. HasChild u a name c) t (traverse_node a name)
          (traverse-Run a name t fits))
        (λ r u f g p. found_child a name missing r u f p q)

  device_stat-Reaches : (path : FilePath) → Reaches Anything (device_stat path)
  unfolding device_stat
  device_stat-Reaches path t fits =
      bind-Run Anything Anything t (on_device (λ d. R.stat d (fullpath path))) make_stat
        (on_device-Run (λ d. R.stat d (fullpath path)) t fits) (λ s u f g p. make_stat-Run s u f)

  build-Reaches :
      (a : ℕ) (name : Text) (s : Stat) (file : File)
      → Reaches (λ c u. HasChild u a name c) (build a name s file)
  build-Reaches a name s file t fits = build-Run a name s file t fits

  -- A failure of the device is kept in an error node, if there is room for it.
  keep_error :
      (a : ℕ) (name : Text) (e : ℕ)
      → Reaches {A = Stat} Anything
          (make_stat no_attributes >>= λ s. attempt (build a name s (error e)) >>= λ built. fail e)
  keep_error a name e t fits =
      bind-Run Anything Anything t (make_stat no_attributes) _ (make_stat-Run no_attributes t fits)
        (λ s u f g p.
          bind-Run (Caught (λ c w. HasChild w a name c)) Anything u
            (attempt (build a name s (error e))) _
            (attempt-Run (λ c w. HasChild w a name c) u (build a name s (error e))
              (build-Run a name s (error e) u f))
            (λ r w f' g' q. (f', Grows-refl w, tt)))

  found_stat :
      (a : ℕ) (name : Text) (r : Expect Stat)
      → Reaches {A = Stat} Anything (elim r as (λ x. Op R Stat) [
        | ok s ↦ pure s
        | err e ↦
            make_stat no_attributes >>= λ s. attempt (build a name s (error e)) >>= λ built. fail e
      ])
  found_stat a name (ok s) t fits = (fits, Grows-refl t, tt)
  found_stat a name (err e) t fits = keep_error a name e t fits

  stat_or_error-Reaches :
      (a : ℕ) (name : Text) (path : FilePath) → Reaches Anything (stat_or_error a name path)
  unfolding stat_or_error
  stat_or_error-Reaches a name path t fits =
      bind-Run (Caught Anything) Anything t (attempt (device_stat path)) _
        (attempt-Run Anything t (device_stat path) (device_stat-Reaches path t fits))
        (λ r u f g p. found_stat a name r u f)

  build_directory-Reaches :
      (a : ℕ) (name : Text) (path : FilePath)
      → Reaches (λ c u. HasChild u a name c) (build_directory a name path)
  unfolding build_directory
  build_directory-Reaches a name path t fits =
      bind-Run Anything (λ c u. HasChild u a name c) t (stat_or_error a name path) _
        (stat_or_error-Reaches a name path t fits)
        (λ s u f g p. elim (Bool-cases (file_type s.attributes.mode == directory_type)) [
          | inl e ↦ rw e (build-Run a name s (directory new_directory) u f)
          | inr e ↦ rw e (f, Grows-refl u, tt)
        ])

  build_parents-Reaches :
      (names : List Text) (a : ℕ) (path : FilePath)
      → Reaches (λ r u. Walks u names a r.0) (build_parents names a path)
  unfolding build_parents
  build_parents-Reaches [] a path t fits = (fits, Grows-refl t, refl)
  build_parents-Reaches (name ∷ names) a path t fits =
      let path' = (extend name path).0 in
      bind-Run (λ c u. HasChild u a name c) (λ r u. Walks u (name ∷ names) a r.0) t
        (child_or a name (build_directory a name path')) _
        (child_or-Reaches a name (build_directory a name path')
          (build_directory-Reaches a name path') t fits)
        (λ c u f g h.
          weaken (λ r w. Walks w names c r.0) (λ r w. Walks w (name ∷ names) a r.0) u
            (build_parents names c path' u)
            (λ r w g' walks. (c, HasChild-Grows u w a name c g' h, walks))
            (build_parents-Reaches names c path' u f))

  build_link-Reaches :
      (a : ℕ) (name : Text) (s : Stat) (path : FilePath) (target_of : FilePath → Op R ℕ)
      → ((p : FilePath) → Reaches Anything (target_of p))
      → Reaches (λ c u. HasChild u a name c) (build_link a name s path target_of)
  unfolding build_link
  build_link-Reaches a name s path target_of targets t fits =
      bind-Run Anything (λ c u. HasChild u a name c) t
        (on_device (λ d. R.readlink d (fullpath path))) _
        (on_device-Run (λ d. R.readlink d (fullpath path)) t fits)
        (λ target u f g p.
          bind-Run Anything (λ c w. HasChild w a name c) u (target_of target) _ (targets target u f)
            (λ node w f' g' q. build-Run a name s (link node) w f'))

  last_by_type :
      (a : ℕ) (name : Text) (path : FilePath) (target_of : FilePath → Op R ℕ) (s : Stat)
      (t : Tree R)
      → ((p : FilePath) → Reaches Anything (target_of p))
      → Fits t
      → Run t
          (λ c u. HasChild u a name c)
          ((let type = file_type s.attributes.mode in
              if type == regular_type
              then build a name s (regular new_regular)
              else if type == directory_type
              then build a name s (directory new_directory)
              else if type == link_type
              then build_link a name s path target_of
              else build a name s other)
            t)
  last_by_type a name path target_of s t targets fits =
      let type = file_type s.attributes.mode in
      elim (Bool-cases (type == regular_type)) [
        | inl e ↦ rw e (build-Run a name s (regular new_regular) t fits)
        | inr e ↦ elim (Bool-cases (type == directory_type)) [
          | inl e' ↦ rw (e, e') (build-Run a name s (directory new_directory) t fits)
          | inr e' ↦ elim (Bool-cases (type == link_type)) [
            | inl e'' ↦ rw (e, e', e'') (build_link-Reaches a name s path target_of targets t fits)
            | inr e'' ↦ rw (e, e', e'') (build-Run a name s other t fits)
          ]
        ]
      ]

  build_last-Reaches :
      (a : ℕ) (name : Text) (current path : FilePath) (target_of : FilePath → Op R ℕ)
      → ((p : FilePath) → Reaches Anything (target_of p))
      → Reaches (λ c u. HasChild u a name c) (build_last a name current path target_of)
  unfolding build_last
  build_last-Reaches a name current path target_of targets t fits =
      bind-Run Anything (λ c u. HasChild u a name c) t (stat_or_error a name current) _
        (stat_or_error-Reaches a name current t fits)
        (λ s u f g p. last_by_type a name path target_of s u targets f)

  set_stat-Reaches : (a : ℕ) (s : Stat) → Reaches Anything (set_stat a s)
  unfolding set_stat
  set_stat-Reaches a s t fits = elim (Option-cases (t.nodes a)) [
    | inl e ↦
        let stuck : load a t ≡ (undefined, t) = unfold load in rw (e, load) refl in
        rw stuck (fits, Grows-refl t, tt)
    | inr (n, e) ↦
        rw (load-eq t a n e)
          (store-Run a n (record n { stat = s }) t fits e (refl, refl, FileGrows-refl n.value))
  ]

  mark_root-Reaches : Reaches Anything mark_root
  unfolding mark_root Fits Grows
  mark_root-Reaches t fits = (fits, Grows-refl t, tt)

  root_branch :
      (path : FilePath) (ready : Bool)
      → Reaches Anything (
          if ready
          then pure 0
          else (device_stat path >>= λ s. set_stat 0 s >>= λ done_so. mark_root))
  root_branch path true t fits = (fits, Grows-refl t, tt)
  root_branch path false t fits =
      bind-Run Anything Anything t (device_stat path) _ (device_stat-Reaches path t fits)
        (λ s u f g p.
          bind-Run Anything Anything u (set_stat 0 s) _ (set_stat-Reaches 0 s u f)
            (λ x w f' g' q. mark_root-Reaches w f'))

  init_root-Reaches : (path : FilePath) → Reaches Anything (init_root path)
  unfolding init_root root_ready Fits Grows
  init_root-Reaches path t fits = root_branch path t.root_initialized t fits

  build_path_nodes-Reaches :
      (path : FilePath) (target_of : FilePath → Op R ℕ)
      → ((p : FilePath) → Reaches Anything (target_of p))
      → Reaches (λ c u. Walks u (names_of path) 0 c) (build_path_nodes path target_of)
  unfolding build_path_nodes
  build_path_nodes-Reaches path target_of targets t fits =
      bind-Run (λ r u. Walks u (names_below (parent_path path)) 0 r.0)
        (λ c u. Walks u (names_of path) 0 c) t
        (build_parents (names_below (parent_path path)) 0 root) _
        (build_parents-Reaches (names_below (parent_path path)) 0 root t fits)
        (λ r u f g walks.
          let missing : Op R ℕ =
            build_last r.0 (filename path) (extend (filename path) r.1).0 path target_of in
          weaken (λ c w. HasChild w r.0 (filename path) c) (λ c w. Walks w (names_of path) 0 c) u
            (child_or r.0 (filename path) missing u)
            (λ c w g' h.
              Walks-last w (names_below (parent_path path)) 0 r.0 c (filename path)
                (Walks-Grows u w (names_below (parent_path path)) 0 r.0 g' walks) h)
            (child_or-Reaches r.0 (filename path) missing
              (build_last-Reaches r.0 (filename path) (extend (filename path) r.1).0 path target_of
                targets)
              u f))

  -- What `traverse_or_build` returns for a path that is not the root.
  abbrev pub Target : FilePath → ℕ → Tree R → Type 0
  Target path c u = if is_root path then Unit {0} else Walks u (names_of path) 0 c

  pub traverse_or_build-Reaches :
      (hops : ℕ) (path : FilePath) → Reaches (Target path) (traverse_or_build hops path)
  unfolding traverse_or_build
  traverse_or_build-Reaches zero path t fits = (fits, Grows-refl t, tt)
  traverse_or_build-Reaches (suc hops) path t fits =
      let targets : (p : FilePath) → Reaches Anything (traverse_or_build hops p) = λ p u f.
        weaken (Target p) Anything u (traverse_or_build hops p u) (λ c w g q. tt)
          (traverse_or_build-Reaches hops p u f) in
      elim (Bool-cases (is_root path)) [
        | inl e ↦
            rw (e, traverse_or_build)
              (weaken Anything (Target path) t (init_root path t) (λ c w g q. rw e tt)
                (init_root-Reaches path t fits))
        | inr e ↦
            let nodes = build_path_nodes path (traverse_or_build hops) in
            rw (e, traverse_or_build)
              (weaken (λ c u. Walks u (names_of path) 0 c) (Target path) t (nodes t)
                (λ c w g q. rw e q)
                (build_path_nodes-Reaches path (traverse_or_build hops) targets t fits))
      ]
