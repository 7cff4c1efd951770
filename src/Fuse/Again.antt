-- ===== src/Fuse/Again.antt =====
-- What a second `getattr` of a file answers.
use adbfsm.Prelude.{
  ℕ, suc, ℤ, pos, ◌≡◌, ◌≢◌, refl, sym, ap, subst, ◌∙◌, Bool, true, false, Option, none, some,
  Option-cases, inl, inr, get_or,
}
use mathlib.Core.Bool.{true≢false}
use mathlib.Core.Option.{some-ne-none}
use adbfsm.Split.{Text}
use adbfsm.FilePath.{FilePath, slash, create, extend, bad_name}
use adbfsm.Tree.Data.{Stat, Node, File, regular, directory, link, other, error}
use adbfsm.Tree.Exec.{Remote, Tree, Answer, done, failed, undefined, unfinished, Op, load, then_run}
use adbfsm.Tree.Node.{stat_of, not_error}
use adbfsm.Tree.Paths.{traverse_or_build}
use adbfsm.Tree.Files
use adbfsm.Tree.Grows.{Fits}
use adbfsm.Tree.Lookups.{load-eq}
use adbfsm.Tree.Agree.{traverse-traverse_or_build}
use adbfsm.Fuse.{fuse_err, on_path, hands_out, error_or_0, value_of}
use adbfsm.Fuse.Stat.{FileStat, file_stat}
use adbfsm.Fuse.Calls.{getattr, page_size}

abbrev stat_in : Answer (ℤ × Option FileStat) → Option FileStat
stat_in (done (code, st)) = st
stat_in (failed e) = none
stat_in undefined = none
stat_in unfinished = none

abbrev is_done : Answer ℕ → Bool
is_done r = elim r [ done c ↦ true | _ ↦ false ]

module _ {R : Remote} where
  -- The stat of a node is told without a change.
  file-stat_of :
      (v : Tree R) (c : ℕ) (n : Node) (f : File)
      → v.nodes c ≡ some n
      → n.value ≡ f
      → (x : Answer Stat) × (stat_of c v ≡ (x, v))
  unfolding stat_of not_error
  file-stat_of v c n (regular r) h e = (done (n.stat), rw (load-eq v c n h, e) refl)
  file-stat_of v c n (directory d) h e = (done (n.stat), rw (load-eq v c n h, e) refl)
  file-stat_of v c n (link target) h e = (done (n.stat), rw (load-eq v c n h, e) refl)
  file-stat_of v c n other h e = (done (n.stat), rw (load-eq v c n h, e) refl)
  file-stat_of v c n (error errc) h e = (failed errc, rw (load-eq v c n h, e) refl)

  stat_of-cases : (v : Tree R) (c : ℕ) → (x : Answer Stat) × (stat_of c v ≡ (x, v))
  unfolding stat_of
  stat_of-cases v c = elim (Option-cases (v.nodes c)) [
    | inl e ↦
        let stuck : load c v ≡ (undefined, v) = unfold load in rw (e, load) refl in
        (undefined, rw stuck refl)
    | inr (n, e) ↦ file-stat_of v c n n.value e refl
  ]

  -- What `getattr` makes of the stat of the node.
  abbrev told : Answer Stat → Tree R → Answer (ℤ × Option FileStat) × Tree R
  told (done s) v = (done (pos 0, some (file_stat v.cache.page_size s)), v)
  told (failed e) v = (done (fuse_err e, none), v)
  told undefined v = (undefined, v)
  told unfinished v = (unfinished, v)

  on_path-eq :
      {A : Type 0} (text : Text) (path : FilePath) (f : FilePath → Op R A) (t : Tree R)
      → create text ≡ some path
      → on_path text f t ≡ f path t
  unfolding on_path
  on_path-eq text path f t made = rw (made, on_path) refl

  getattr-found :
      (hops : ℕ) (text : Text) (path : FilePath) (t v : Tree R) (c : ℕ) (x : Answer Stat)
      → create text ≡ some path
      → traverse_or_build hops path t ≡ (done c, v)
      → stat_of c v ≡ (x, v)
      → getattr hops text t ≡ told x v
  unfolding getattr hands_out error_or_0 value_of page_size
  getattr-found hops text path t v c x made found told_so =
      let asked : on_path text (Files.getattr hops) t ≡ (x, v) =
        on_path-eq text path (Files.getattr hops) t made
        ∙ unfold Files.getattr in rw found told_so in
      elim x
          as (λ y. on_path text (Files.getattr hops) t ≡ (y, v) → getattr hops text t ≡ told y v) [
            | done s ↦ λ e. rw e refl
            | failed n ↦ λ e. rw e refl
            | undefined ↦ λ e. rw e refl
            | unfinished ↦ λ e. rw e refl
          ]
        asked

  -- Only a node and its stat give an answer with a stat in it.
  abbrev Answers : FileStat → Tree R → Answer (ℤ × Option FileStat) × Tree R → Type 0
  Answers st u s = s ≡ (done (pos 0, some st), u)

  not_found :
      (hops : ℕ) (text : Text) (path : FilePath) (t v : Tree R) (r : Answer ℕ)
      → create text ≡ some path
      → traverse_or_build hops path t ≡ (r, v)
      → ((c : ℕ) → r ≢ done c)
      → stat_in (getattr hops text t).0 ≡ none
  unfolding getattr hands_out error_or_0 value_of page_size
  not_found hops text path t v r made found missing =
      let asked : on_path text (Files.getattr hops) t ≡ then_run r v (λ c. stat_of c) =
        on_path-eq text path (Files.getattr hops) t made ∙ unfold Files.getattr in rw found refl in
      elim r
          as (λ y.
            ((c : ℕ) → y ≢ done c)
            → on_path text (Files.getattr hops) t ≡ then_run y v (λ c. stat_of c)
            → stat_in (getattr hops text t).0 ≡ none) [
              | done c ↦ λ m e. absurd (m c refl)
              | failed n ↦ λ m e. rw e refl
              | undefined ↦ λ m e. rw e refl
              | unfinished ↦ λ m e. rw e refl
            ]
        missing asked

  no_stat :
      {A : Type 0} (hops : ℕ) (text : Text) (t u : Tree R) (st : FileStat)
      → Answers st u (getattr hops text t)
      → stat_in (getattr hops text t).0 ≡ none
      → A
  no_stat hops text t u st h e = absurd (some-ne-none st (sym (ap (λ s. stat_in s.0) h) ∙ e))

  found_node :
      (hops : ℕ) (text : Text) (path : FilePath) (t u v : Tree R) (r : Answer ℕ) (st : FileStat)
      → create text ≡ some path
      → traverse_or_build hops path t ≡ (r, v)
      → Answers st u (getattr hops text t)
      → (c : ℕ) × (traverse_or_build hops path t ≡ (done c, v))
  found_node hops text path t u v (done c) st made found h = (c, found)
  found_node hops text path t u v (failed n) st made found h = no_stat hops text t u st h (
      not_found hops text path t v (failed n) made found
        (λ c e. absurd (true≢false (sym (ap is_done e)))))
  found_node hops text path t u v undefined st made found h = no_stat hops text t u st h (
      not_found hops text path t v undefined made found
        (λ c e. absurd (true≢false (sym (ap is_done e)))))
  found_node hops text path t u v unfinished st made found h = no_stat hops text t u st h (
      not_found hops text path t v unfinished made found
        (λ c e. absurd (true≢false (sym (ap is_done e)))))

  told_state : (x : Answer Stat) (v : Tree R) → (told x v).1 ≡ v
  told_state (done s) v = refl
  told_state (failed e) v = refl
  told_state undefined v = refl
  told_state unfinished v = refl

  -- A `getattr` that is done for a text that names an absolute path extended by a good name, in a tree whose
  -- nodes have addresses below the next one: another `getattr` of the text in the very state that the
  -- first one left answers the same, with nothing changed and the device not asked.
  pub getattr_again :
      (name : Text) (p : FilePath)
      → bad_name name ≡ false
      → get_or p.buffer 0 0 ≡ slash
      → (hops again : ℕ) (text : Text) (t u : Tree R) (st : FileStat) → Fits t
      → create text ≡ some (extend name p).0
      → getattr hops text t ≡ (done (pos 0, some st), u)
      → getattr (suc again) text u ≡ (done (pos 0, some st), u)
  getattr_again name p good absolute hops again text t u st fits made h =
      let path = (extend name p).0 in
      let v = (traverse_or_build hops path t).1 in
      let (c, found) =
        found_node hops text path t u v (traverse_or_build hops path t).0 st made refl h in
      let (x, stats) = stat_of-cases v c in
      let answered : told x v ≡ (done (pos 0, some st), u) =
        sym (getattr-found hops text path t v c x made found stats) ∙ h in
      let (finds, later) =
        traverse-traverse_or_build name p good absolute hops again t v c fits found in
      let same : getattr (suc again) text v ≡ (done (pos 0, some st), u) =
        getattr-found (suc again) text path v v c x made later stats ∙ answered in
      let stayed : v ≡ u = sym (told_state x v) ∙ ap (λ s. s.1) answered in
      subst (λ w. getattr (suc again) text w ≡ (done (pos 0, some st), u)) stayed same
