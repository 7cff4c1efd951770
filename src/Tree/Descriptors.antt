-- ===== src/Tree/Descriptors.antt =====
-- The descriptors of an open file.
use adbfsm.Prelude.{
  ℕ, suc, ◌+◌, ◌%◌, ◌^◌, ℤ, ◌≡◌, ◌≢◌, refl, ap, ◌∙◌, true, false, Bool-cases, inl, inr, some, List,
  [], ◌∷◌, ◌==◌, ==_iff, if◌then◌else◌, arith,
}
use adbfsm.Cache.State.{Expect, ok, err, Cache}
use adbfsm.FilePath.{FilePath}
use adbfsm.Cache.Flush.{flush as cache_flush}
use adbfsm.Tree.Data.{
  Regular, File, Node, regular, has_fd, drop_fd, is_open, open_fd, close_fd, bad_file_descriptor,
}
use adbfsm.Tree.Exec.{Remote, Tree, done, failed, lift, in_cache, set_node, store}
use adbfsm.Tree.Node.{set_value, regular_of, readlink, not_error, regular_kind, as_regular}
use adbfsm.Tree.Calls.{open_file, next_fd, opened, read, write, flush, release, flush_dirty, id_of}
use adbfsm.Tree.Lookups.{load-eq, set_node_self}

drop_fd_gone : (fd : ℕ) (fds : List (ℕ × ℤ)) → has_fd fd (drop_fd fd fds) ≡ false
unfolding has_fd drop_fd
drop_fd_gone fd [] = refl
drop_fd_gone fd ((x, flags) ∷ fds) = elim (Bool-cases (x == fd)) [
  | inl e ↦ rw e (drop_fd_gone fd fds)
  | inr e ↦ rw (e, has_fd) (rw e (drop_fd_gone fd fds))
]

drop_fd_others :
    (fd word : ℕ) (fds : List (ℕ × ℤ)) → word ≢ fd → has_fd word (drop_fd fd fds) ≡ has_fd word fds
unfolding has_fd drop_fd
drop_fd_others fd word [] ne = refl
drop_fd_others fd word ((x, flags) ∷ fds) ne = elim (Bool-cases (x == fd)) [
  | inl e ↦ let f : (x == word) ≡ false = ground arith in rw (e, f) (drop_fd_others fd word fds ne)
  | inr e ↦ elim (Bool-cases (x == word)) [
    | inl f ↦ rw (e, f) refl
    | inr f ↦ rw (e, f) (drop_fd_others fd word fds ne)
  ]
]

-- The descriptors of a file are a set: opening adds one and says whether it is new, closing removes one
-- and says whether it was there, and the others stay.
pub descriptors_lem :
    (fd word : ℕ) (flags : ℤ) (r : Regular)
    → word ≢ fd
    → (is_open fd (open_fd fd flags r).1 ≡ true)
      × ((open_fd fd flags r).0 ≡ (if is_open fd r then false else true))
      × (is_open word (open_fd fd flags r).1 ≡ is_open word r)
      × (is_open fd (close_fd fd r).1 ≡ false)
      × ((close_fd fd r).0 ≡ is_open fd r)
      × (is_open word (close_fd fd r).1 ≡ is_open word r)
unfolding is_open open_fd close_fd has_fd
descriptors_lem fd word flags r ne =
    let self : (fd == fd) ≡ true = (==_iff fd fd).1 refl in
    let apart : (fd == word) ≡ false = ground arith in
    (
      elim (Bool-cases (has_fd fd r.open_fds)) [ inl e ↦ rw e e | inr e ↦ rw (e, self) refl ],
      elim (Bool-cases (has_fd fd r.open_fds)) [ inl e ↦ rw e refl | inr e ↦ rw e refl ],
      elim (Bool-cases (has_fd fd r.open_fds)) [ inl e ↦ rw e refl | inr e ↦ rw (e, apart) refl ],
      drop_fd_gone fd r.open_fds,
      refl,
      drop_fd_others fd word r.open_fds ne,
    )

module _ {R : Remote} where
  -- The node at `a` is the regular file `r`.
  abbrev pub IsRegular : Tree R → ℕ → Node → Regular → Type 0
  IsRegular t a n r = (t.nodes a ≡ some n) × (n.value ≡ regular r)

  pub regular_of-eq :
      (hops a : ℕ) (n : Node) (r : Regular) (t : Tree R)
      → IsRegular t a n r
      → regular_of (suc hops) a t ≡ (done (a, r), t)
  unfolding regular_of readlink not_error regular_kind as_regular
  regular_of-eq hops a n r t (h, v) =
      rw (load-eq t a n h, v) (rw (load-eq t a n h, v) (rw (load-eq t a n h, v) refl))

  pub set_value-eq :
      (a : ℕ) (n : Node) (file : File) (t : Tree R)
      → t.nodes a ≡ some n
      → set_value a file t
        ≡ (done tt, record t { nodes = set_node a (some (record n { value = file })) t.nodes })
  unfolding set_value store
  set_value-eq a n file t h = rw (load-eq t a n h) refl

  pub opened-eq :
      (hops a fd : ℕ) (n : Node) (r : Regular) (t : Tree R)
      → IsRegular t a n r
      → is_open fd r ≡ true
      → opened (suc hops) a fd t ≡ (done (a, r), t)
  unfolding opened
  opened-eq hops a fd n r t h e = rw (regular_of-eq hops a n r t h) (rw e refl)

  pub opened_not :
      (hops a fd : ℕ) (n : Node) (r : Regular) (t : Tree R)
      → IsRegular t a n r
      → is_open fd r ≡ false
      → opened (suc hops) a fd t ≡ (failed bad_file_descriptor, t)
  unfolding opened
  opened_not hops a fd n r t h e = rw (regular_of-eq hops a n r t h) (rw e refl)

  lift-nodes : {A : Type 0} (x : Expect A) (t : Tree R) → (lift x t).1.nodes ≡ t.nodes
  lift-nodes (ok y) t = refl
  lift-nodes (err e) t = refl

  -- A call of the cache leaves the nodes alone.
  in_cache-nodes :
      {A : Type 0} (f : Cache (R.connection) → Expect A × Cache (R.connection)) (t : Tree R)
      → (in_cache f t).1.nodes ≡ t.nodes
  in_cache-nodes f t = let (r, c) = f t.cache in lift-nodes r (record t { cache = c })

  -- The tree with the file `r` at `a`.
  abbrev pub with_file : Tree R → ℕ → Node → Regular → Tree R
  with_file t a n r = record t {
    nodes = set_node a (some (record n { value = regular r })) t.nodes;
  }

  pub with_file-IsRegular :
      (t : Tree R) (a : ℕ) (n : Node) (r : Regular)
      → IsRegular (with_file t a n r) a (record n { value = regular r }) r
  with_file-IsRegular t a n r =
      (set_node_self a (some (record n { value = regular r })) t.nodes, refl)

  -- Behind the flush of a file the file is there, with the same descriptors.
  flush_dirty_leaves :
      (a : ℕ) (n : Node) (r : Regular) (t : Tree R)
      → IsRegular t a n r
      → (m : Node) × (r' : Regular) × IsRegular (flush_dirty a a r t).1 a m r'
        × (r'.open_fds ≡ r.open_fds)
  unfolding flush_dirty id_of
  flush_dirty_leaves a n r t (h, v) = elim (Bool-cases r.dirty) [
    | inl e ↦
        let clean : Regular = record { open_fds = r.open_fds; dirty = false } in
        let m : Node = record n { value = regular clean } in
        let t' = with_file t a n clean in
        let (h', v') = with_file-IsRegular t a n clean in
        (
          m,
          clean,
          (
            simp (e, set_value-eq a n (regular clean) t h, load-eq t' a m h')
                (ap (λ f. f a) (in_cache-nodes (cache_flush m.stat.id) t') ∙ h'),
            refl,
          ),
          refl,
        )
    | inr e ↦ (n, r, (simp e h, v), refl)
  ]

  -- The state behind `release` still has the file, without the descriptor.
  release_leaves :
      (hops a fd : ℕ) (n : Node) (r : Regular) (t : Tree R)
      → IsRegular t a n r
      → (m : Node) × (r' : Regular) × IsRegular (release (suc hops) a fd t).1 a m r'
        × (is_open fd r' ≡ false)
  unfolding release close_fd
  release_leaves hops a fd n r t (h, v) = elim (Bool-cases (is_open fd r)) [
    | inl e ↦
        let r' = (close_fd fd r).1 in
        let t' = with_file t a n r' in
        let (m, r'', (h'', v''), same) =
          flush_dirty_leaves a (record n { value = regular r' }) r' t'
            (with_file-IsRegular t a n r') in
        (
          m,
          r'',
          (
            rw (regular_of-eq hops a n r t (h, v))
                (rw e (rw (set_value-eq a n (regular r') t h) h'')),
            v'',
          ),
          unfold is_open in (ap (has_fd fd) same ∙ drop_fd_gone fd r.open_fds),
        )
    | inr e ↦ (n, r, (rw (regular_of-eq hops a n r t (h, v)) (rw e h), v), e)
  ]

  -- Behind `release` of a regular file, whatever it returned, `read`, `write`, `flush` and `release` refuse
  -- the descriptor and change nothing: neither the cache nor the device is called.
  pub release_closes :
      (hops again a fd : ℕ) (n : Node) (r : Regular) (t : Tree R) (path : FilePath) (bytes : List ℕ)
      (offset : ℤ)
      → IsRegular t a n r
      → (read (suc again) a path fd bytes offset (release (suc hops) a fd t).1
          ≡ (failed bad_file_descriptor, (release (suc hops) a fd t).1))
        × (write (suc again) a path fd bytes offset (release (suc hops) a fd t).1
            ≡ (failed bad_file_descriptor, (release (suc hops) a fd t).1))
        × (flush (suc again) a fd (release (suc hops) a fd t).1
            ≡ (failed bad_file_descriptor, (release (suc hops) a fd t).1))
        × ((release (suc again) a fd (release (suc hops) a fd t).1).0 ≡ failed bad_file_descriptor)
  unfolding read write flush
  release_closes hops again a fd n r t path bytes offset h =
      let u = (release (suc hops) a fd t).1 in
      let (m, r', h', shut) = release_leaves hops a fd n r t h in
      let refused = opened_not again a fd m r' u h' shut in
      let second : release (suc again) a fd u ≡ (failed bad_file_descriptor, u) =
        unfold release close_fd in (rw (regular_of-eq again a m r' u h') (rw shut refl)) in
      (rw refused refl, rw refused refl, rw refused refl, ap (λ s. s.0) second)

  -- Opening a regular file gives the next number of the counter, and the file is open under it.
  pub open_file_opens :
      (hops again a : ℕ) (flags : ℤ) (n : Node) (r : Regular) (t : Tree R)
      → IsRegular t a n r
      → (r' : Regular) × ((open_file (suc hops) a flags t).0 ≡ done ((t.fd_counter + 1) % 2 ^ 64))
        × (opened (suc again) a ((t.fd_counter + 1) % 2 ^ 64) (open_file (suc hops) a flags t).1
            ≡ (done (a, r'), (open_file (suc hops) a flags t).1))
  unfolding open_file next_fd
  open_file_opens hops again a flags n r t (h, v) =
      let fd = (t.fd_counter + 1) % 2 ^ 64 in
      let r' = (open_fd fd flags r).1 in
      let t' : Tree R = record t { fd_counter = fd } in
      let u = with_file t' a n r' in
      let is_now : is_open fd r' ≡ true =
        (descriptors_lem fd (suc fd) flags r (λ e. absurd (omega (arith, e)))).0 in
      let run : open_file (suc hops) a flags t ≡ (done fd, u) =
        rw (regular_of-eq hops a n r t (h, v)) (rw (set_value-eq a n (regular r') t' h) refl) in
      (
        r',
        ap (λ s. s.0) run,
        rw run (
            opened-eq again a fd (record n { value = regular r' }) r' u
              (with_file-IsRegular t' a n r') is_now),
      )
