-- ===== src/Tree/Times.antt =====
-- What `utimens` does to the dirty pages of a file.
use adbfsm.Prelude.{ℕ, suc, ◌≡◌, refl, true, false, Bool-cases, inl, inr, none, some}
use adbfsm.FilePath.{FilePath, fullpath}
use adbfsm.Rpc.Request.{Timespec}
use adbfsm.Cache.State.{Connection, ok, Cache, find}
use adbfsm.Cache.Flush.{flush as cache_flush}
use adbfsm.Tree.Data.{Attributes, Stat, Regular, Node, regular, is_open}
use adbfsm.Tree.Exec.{Remote, Tree, done, set_node, store, make_stat}
use adbfsm.Tree.Node.{set_stat}
use adbfsm.Tree.Calls.{utimens, device_stat, flush, flush_dirty, id_of}
use adbfsm.Tree.Lookups.{load-eq, set_node_self}
use adbfsm.Tree.Descriptors.{IsRegular, opened-eq, set_value-eq, with_file, with_file-IsRegular}

cache_flush_absent :
    {C : Connection} (id : ℕ) (c : Cache C) → find id c.table ≡ none → cache_flush id c ≡ (ok tt, c)
unfolding cache_flush
cache_flush_absent id c h = rw (h, cache_flush) refl

module _ {R : Remote} where
  set_stat-eq :
      (a : ℕ) (n : Node) (s : Stat) (t : Tree R)
      → t.nodes a ≡ some n
      → set_stat a s t
        ≡ (done tt, record t { nodes = set_node a (some (record n { stat = s })) t.nodes })
  unfolding set_stat store
  set_stat-eq a n s t h = rw (load-eq t a n h) refl

  -- The tree behind a `utimens` that the device has done.
  abbrev timed : Tree R → ℕ → Node → Attributes → R.connection.Device → Tree R
  timed t a n attributes d =
      let s : Stat = record { id = suc t.id_counter; attributes = attributes } in
      record t {
        nodes = set_node a (some (record n { stat = s })) t.nodes;
        id_counter = suc t.id_counter;
        cache = record (t.cache) { device = d };
      }

  utimens-eq :
      (a : ℕ) (n : Node) (path : FilePath) (atime mtime : Timespec) (attributes : Attributes)
      (t : Tree R) (d d' : R.connection.Device)
      → t.nodes a ≡ some n
      → R.utimens t.cache.device (fullpath path) atime mtime ≡ (ok tt, d)
      → R.stat d (fullpath path) ≡ (ok attributes, d')
      → utimens a path atime mtime t ≡ (done tt, timed t a n attributes d')
  unfolding utimens device_stat make_stat set_stat store
  utimens-eq a n path atime mtime attributes t d d' h e e' =
      let s : Stat = record { id = suc t.id_counter; attributes = attributes } in
      let t' : Tree R = record t {
        id_counter = suc t.id_counter;
        cache = record (t.cache) { device = d' };
      } in
      rw (e, e') (set_stat-eq a n s t' h)

  -- Nothing is flushed under an id that the cache does not know.
  flush_absent :
      (a : ℕ) (m : Node) (r : Regular) (u : Tree R)
      → IsRegular u a m r
      → find m.stat.id u.cache.table ≡ none
      → ((flush_dirty a a r u).0 ≡ done tt) × ((flush_dirty a a r u).1.cache ≡ u.cache)
  unfolding flush_dirty id_of
  flush_absent a m r u (h, v) absent = elim (Bool-cases r.dirty) [
    | inl dirty ↦
        let clean : Regular = record { open_fds = r.open_fds; dirty = false } in
        let u' = with_file u a m clean in
        let (h', v') = with_file-IsRegular u a m clean in
        simp
          (
            dirty,
            set_value-eq a m (regular clean) u h,
            load-eq u' a (record m { value = regular clean }) h',
            cache_flush_absent m.stat.id u.cache absent,
          )
          (refl, refl)
    | inr clean ↦ simp clean (refl, refl)
  ]

  -- A `utimens` that the device does gives the node of the file a new id. If the cache has no entry under
  -- that id, a `flush` of an open descriptor then succeeds and writes nothing: the pages stay in the cache
  -- as they were, dirty ones too.
  pub flush-utimens :
      (hops a fd : ℕ) (n : Node) (r : Regular) (path : FilePath) (atime mtime : Timespec)
      (attributes : Attributes) (t : Tree R) (d d' : R.connection.Device)
      → IsRegular t a n r
      → is_open fd r ≡ true
      → R.utimens t.cache.device (fullpath path) atime mtime ≡ (ok tt, d)
      → R.stat d (fullpath path) ≡ (ok attributes, d')
      → find (suc t.id_counter) t.cache.table ≡ none
      → ((flush (suc hops) a fd (utimens a path atime mtime t).1).0 ≡ done tt)
        × ((flush (suc hops) a fd (utimens a path atime mtime t).1).1.cache
            ≡ record (t.cache) { device = d' })
  unfolding flush flush_dirty id_of
  flush-utimens hops a fd n r path atime mtime attributes t d d' (h, v) is_now e e' fresh =
      let u = timed t a n attributes d' in
      let m : Node = record n {
        stat = record { id = suc t.id_counter; attributes = attributes };
      } in
      let here : IsRegular u a m r = (set_node_self a (some m) t.nodes, v) in
      let run = utimens-eq a n path atime mtime attributes t d d' h e e' in
      rw run (rw (opened-eq hops a fd m r u here is_now) (flush_absent a m r u here fresh))
