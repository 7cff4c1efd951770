-- ===== src/Tree/Grows.antt =====
-- Operations that add nodes and take none away.
use adbfsm.Prelude.{ℕ, ◌<◌, ◌≡◌, refl, subst, ◌∙◌, some}
use adbfsm.Split.{Text}
use adbfsm.Cache.State.{Expect, ok, err}
use adbfsm.Tree.Data.{
  Children, Directory, File, Node, Attributes, regular, directory, link, other, error, lookup,
}
use adbfsm.Tree.Exec.{
  Remote, Tree, Answer, done, failed, undefined, unfinished, Op, then_run, caught, ◌>>=◌, lift,
  attempt, on_device, make_stat,
}

-- What is found in a directory stays, and other files stay as they are.
abbrev pub Finds : Children → Children → Type 0
Finds cs cs' = (name : Text) (c : ℕ) → lookup name cs ≡ some c → lookup name cs' ≡ some c

abbrev pub FileGrows : File → File → Type 0
FileGrows (directory d) f = (d' : Directory) × (f ≡ directory d') × Finds d.children d'.children
FileGrows (regular r) f = f ≡ regular r
FileGrows (link target) f = f ≡ link target
FileGrows other f = f ≡ other
FileGrows (error errc) f = f ≡ error errc

abbrev pub NodeGrows : Node → Node → Type 0
NodeGrows n n' = (n'.name ≡ n.name) × (n'.parent ≡ n.parent) × FileGrows n.value n'.value

pub FileGrows-refl : (f : File) → FileGrows f f
FileGrows-refl (directory d) = (d, refl, λ name c h. h)
FileGrows-refl (regular r) = refl
FileGrows-refl (link target) = refl
FileGrows-refl other = refl
FileGrows-refl (error errc) = refl

FileGrows-trans : (f g h : File) → FileGrows f g → FileGrows g h → FileGrows f h
FileGrows-trans (directory d) g h (d', e, k) q =
    let (d'', e', k') = subst (λ x. FileGrows x h) e q in
    (d'', e', λ name c found. k' name c (k name c found))
FileGrows-trans (regular r) g h p q = subst (λ x. FileGrows x h) p q
FileGrows-trans (link target) g h p q = subst (λ x. FileGrows x h) p q
FileGrows-trans other g h p q = subst (λ x. FileGrows x h) p q
FileGrows-trans (error errc) g h p q = subst (λ x. FileGrows x h) p q

pub NodeGrows-refl : (n : Node) → NodeGrows n n
NodeGrows-refl n = (refl, refl, FileGrows-refl n.value)

module _ {R : Remote} where
  -- The nodes have addresses that have been given out.
  unfoldable pub Fits : Tree R → Type 0
  Fits t = (a : ℕ) (n : Node) → t.nodes a ≡ some n → a < t.next_address

  unfoldable pub Grows : Tree R → Tree R → Type 0
  Grows t t' =
      (a : ℕ) (n : Node)
      → t.nodes a ≡ some n
      → (n' : Node) × (t'.nodes a ≡ some n') × NodeGrows n n'

  pub Grows-refl : (t : Tree R) → Grows t t
  unfolding Grows
  Grows-refl t a n h = (n, h, NodeGrows-refl n)

  pub Grows-trans : (t u v : Tree R) → Grows t u → Grows u v → Grows t v
  unfolding Grows
  Grows-trans t u v p q a n h =
      let (n', h', (name, parent, file)) = p a n h in
      let (n'', h'', (name', parent', file')) = q a n' h' in
      (
        n'',
        h'',
        (name' ∙ name, parent' ∙ parent, FileGrows-trans n.value n'.value n''.value file file'),
      )

  -- A run from `t` that grows the tree, and whose result, if there is one, satisfies `Q`.
  abbrev pub Post : {A : Type 0} → (A → Tree R → Type 0) → Answer A → Tree R → Type 0
  Post Q (done a) t = Q a t
  Post Q (failed e) t = Unit {0}
  Post Q undefined t = Unit {0}
  Post Q unfinished t = Unit {0}

  abbrev pub Run : {A : Type 0} → Tree R → (A → Tree R → Type 0) → Answer A × Tree R → Type 0
  Run t Q (r, t') = Fits t' × Grows t t' × Post Q r t'

  after :
      {B : Type 0} (Q : B → Tree R → Type 0) (t t' : Tree R) (s : Answer B × Tree R)
      → Grows t t'
      → Run t' Q s
      → Run t Q s
  after Q t t' (r, u) g (fits, g', q) = (fits, Grows-trans t t' u g g', q)

  module _ {A B : Type 0} where
    then_run-Run :
        (P : A → Tree R → Type 0) (Q : B → Tree R → Type 0) (t t' : Tree R) (r : Answer A)
        (k : A → Op R B)
        → Run t P (r, t')
        → ((a : A) (u : Tree R) → Fits u → Grows t u → P a u → Run u Q (k a u))
        → Run t Q (then_run r t' k)
    then_run-Run P Q t t' (done a) k (fits, g, p) next =
        after Q t t' (k a t') g (next a t' fits g p)
    then_run-Run P Q t t' (failed e) k (fits, g, p) next = (fits, g, tt)
    then_run-Run P Q t t' undefined k (fits, g, p) next = (fits, g, tt)
    then_run-Run P Q t t' unfinished k (fits, g, p) next = (fits, g, tt)

    pub bind-Run :
        (P : A → Tree R → Type 0) (Q : B → Tree R → Type 0) (t : Tree R) (m : Op R A)
        (k : A → Op R B)
        → Run t P (m t)
        → ((a : A) (u : Tree R) → Fits u → Grows t u → P a u → Run u Q (k a u))
        → Run t Q ((m >>= k) t)
    bind-Run P Q t m k h next = then_run-Run P Q t (m t).1 (m t).0 k h next

  module _ {A : Type 0} where
    Post-weaken :
        (P Q : A → Tree R → Type 0) (r : Answer A) (t : Tree R)
        → ((a : A) → P a t → Q a t)
        → Post P r t
        → Post Q r t
    Post-weaken P Q (done a) t k p = k a p
    Post-weaken P Q (failed e) t k p = tt
    Post-weaken P Q undefined t k p = tt
    Post-weaken P Q unfinished t k p = tt

    pub weaken :
        (P Q : A → Tree R → Type 0) (t : Tree R) (s : Answer A × Tree R)
        → ((a : A) (u : Tree R) → Grows t u → P a u → Q a u)
        → Run t P s
        → Run t Q s
    weaken P Q t (r, u) k (fits, g, p) = (fits, g, Post-weaken P Q r u (λ a. k a u g) p)

    -- A result that may be an error.
    abbrev pub Caught : (A → Tree R → Type 0) → Expect A → Tree R → Type 0
    Caught P (ok a) t = P a t
    Caught P (err e) t = Unit {0}

    caught-Run :
        (P : A → Tree R → Type 0) (t t' : Tree R) (r : Answer A)
        → Run t P (r, t')
        → Run t (Caught P) (caught r t')
    caught-Run P t t' (done a) h = h
    caught-Run P t t' (failed e) h = h
    caught-Run P t t' undefined h = h
    caught-Run P t t' unfinished h = h

    pub attempt-Run :
        (P : A → Tree R → Type 0) (t : Tree R) (m : Op R A)
        → Run t P (m t)
        → Run t (Caught P) (attempt m t)
    attempt-Run P t m h = caught-Run P t (m t).1 (m t).0 h

    abbrev pub Anything : A → Tree R → Type 0
    Anything a t = Unit {0}

    -- A state with the same nodes.
    lift-Run : (t u : Tree R) (r : Expect A) → Fits u → Grows t u → Run t Anything (lift r u)
    lift-Run t u (ok a) f g = (f, g, tt)
    lift-Run t u (err e) f g = (f, g, tt)

    pub on_device-Run :
        (f : R.connection.Device → Expect A × R.connection.Device) (t : Tree R)
        → Fits t
        → Run t Anything (on_device f t)
    unfolding Fits Grows
    on_device-Run f t fits =
        let (r, d) = f t.cache.device in
        lift-Run t (record t { cache = record (t.cache) { device = d } }) r fits (Grows-refl t)

  pub make_stat-Run :
      (attributes : Attributes) (t : Tree R) → Fits t → Run t Anything (make_stat attributes t)
  unfolding make_stat Fits Grows
  make_stat-Run attributes t fits = (fits, Grows-refl t, tt)
