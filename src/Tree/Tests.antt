-- ===== src/Tree/Tests.antt =====
-- The file tree at a concrete tree over a concrete device.
use adbfsm.Prelude.{ℕ, ◌≡◌, ◌≢◌, refl, ap, pos, true, some, [], ◌∷◌, text_eq, arith}
use mathlib.Core.Bool.{true≢false}
use adbfsm.Split.{Text, char_delim}
use adbfsm.FilePath.{FilePath, extend, bad_name, filename, fullpath}
use adbfsm.Cache.State.{find as find_entry}
use adbfsm.Cache.Flush.{rename as cache_rename}
use adbfsm.Tree.Data.{
  Regular, no_attributes, is_open, find, erase, insert, extract, lookup, no_such_file_or_directory,
  bad_file_descriptor,
}
use adbfsm.Tree.Data.Finite.{
  Directory-Refines, AreDistinct, view, viewed, find_spec, erase_spec, insert_spec, extract_spec,
}
use adbfsm.Tree.Exec.{Tree, done, failed}
use adbfsm.Tree.Node.{traverse as traverse_node}
use adbfsm.Tree.Calls.{open_file, opened, read, write, flush, release, utimens}
use adbfsm.Tree.Paths.{traverse, traverse_or_build}
use adbfsm.Tree.Files.{move_node, exchange}
use adbfsm.Tree.Lookups.{HasChild}
use adbfsm.Tree.Agree.{traverse_or_build-known, traverse-traverse_or_build, traverse_or_build_keeps}
use adbfsm.Tree.Descriptors.{release_closes, open_file_opens}
use adbfsm.Tree.Times.{flush-utimens}
use adbfsm.Tree.Moves.{move_node_lem}
use adbfsm.Tree.Exchange.{move_node-exchange}
use adbfsm.Tree.Example.{
  f_text, g_text, short_path, d_path, zero_time, phone, empty, one_open, d_directory, e_directory,
  d_node, e_node, f_node, g_node, small, small-Fits,
}

-- "/d/k" is asked for: the device is asked for it, and its node is the next.
abbrev k_path : FilePath
k_path = (extend (b'k' ∷ []) d_path).0

abbrev built : Tree phone
built = (traverse_or_build 1 k_path small).1

build_k : (traverse_or_build 1 k_path small).0 ≡ done 5
unfolding traverse_or_build extend
build_k = refl

Directory-Refines_example :
    (find f_text d_directory ≡ find_spec f_text (view d_directory))
    × (((erase f_text d_directory).0, view (erase f_text d_directory).1)
        ≡ erase_spec f_text (view d_directory))
    × (viewed (insert f_text 9 true d_directory) ≡ insert_spec f_text 9 true (view d_directory))
    × (viewed (extract f_text d_directory) ≡ extract_spec f_text (view d_directory))
Directory-Refines_example =
    Directory-Refines f_text 9 true d_directory (unfold lookup in (refl, tt))

traverse_or_build-known_example :
    traverse_or_build 1 (extend f_text d_path).0 small ≡ (done 3, small)
traverse_or_build-known_example =
    traverse_or_build-known f_text d_path (unfold bad_name char_delim in refl) refl 0 small 3
      small-Fits (unfold traverse extend in refl)

traverse-traverse_or_build_example :
    (traverse k_path built ≡ (done 5, built)) × (traverse_or_build 1 k_path built ≡ (done 5, built))
traverse-traverse_or_build_example =
    traverse-traverse_or_build (b'k' ∷ []) d_path (unfold bad_name char_delim in refl) refl 1 0
      small built 5 small-Fits (unfold traverse_or_build extend in refl)

traverse_or_build_keeps_example : traverse (short_path b'e' b'g') built ≡ (done 4, built)
traverse_or_build_keeps_example =
    traverse_or_build_keeps 1 k_path (short_path b'e' b'g') small 4 small-Fits
      (unfold traverse in refl)

abbrev f_path : FilePath
f_path = short_path b'd' b'f'

abbrev released : Tree phone
released = (release 1 3 5 small).1

release_closes_example :
    (read 1 3 f_path 5 (0 ∷ []) (pos 0) released ≡ (failed bad_file_descriptor, released))
    × (write 1 3 f_path 5 (0 ∷ []) (pos 0) released ≡ (failed bad_file_descriptor, released))
    × (flush 1 3 5 released ≡ (failed bad_file_descriptor, released))
    × ((release 1 3 5 released).0 ≡ failed bad_file_descriptor)
release_closes_example =
    release_closes 0 0 3 5 f_node one_open small f_path (0 ∷ []) (pos 0) (refl, refl)

open_file_opens_example :
    (r : Regular) × ((open_file 1 3 (pos 0) small).0 ≡ done 6)
    × (opened 1 3 6 (open_file 1 3 (pos 0) small).1
        ≡ (done (3, r), (open_file 1 3 (pos 0) small).1))
open_file_opens_example = open_file_opens 0 0 3 (pos 0) f_node one_open small (refl, refl)

abbrev timed : Tree phone
timed = (utimens 3 f_path zero_time zero_time small).1

flush-utimens_example : ((flush 1 3 5 timed).0 ≡ done tt) × ((flush 1 3 5 timed).1.cache ≡ empty)
flush-utimens_example =
    flush-utimens 0 3 5 f_node one_open f_path zero_time zero_time
      (record no_attributes { mode = 32768 }) small (7 ∷ []) (7 ∷ []) (refl, refl)
      (unfold is_open in refl) refl (unfold fullpath in refl) (unfold find_entry in refl)

-- "/d/f" becomes "/e/h".
abbrev h_path : FilePath
h_path = short_path b'e' b'h'

abbrev distinct_ones : (name : Text) (child : ℕ) → AreDistinct ((name, child) ∷ [])
distinct_ones name child = unfold lookup in (refl, tt)

move_node_lem_example :
    (u : Tree phone) × (move_node 3 2 f_path h_path 0 small ≡ (done tt, u))
    × HasChild u 2 (filename h_path) 3
    × (u.nodes 3 ≡ some (record f_node { parent = some 2; name = filename h_path }))
    × (traverse_node 1 (filename f_path) u ≡ (failed no_such_file_or_directory, u))
    × (u.cache ≡ cache_rename 3 (fullpath h_path) empty)
move_node_lem_example =
    move_node_lem small 3 1 2 f_node d_node e_node d_directory e_directory f_path h_path 0 refl refl
      (refl, refl) (refl, refl) (unfold lookup filename in refl) (distinct_ones f_text 3)
      (λ e. absurd (omega (arith, e))) (λ e. absurd (omega (arith, e)))
      (λ e. absurd (omega (arith, e))) (unfold lookup filename in refl) (unfold exchange in refl)

abbrev g_path : FilePath
g_path = short_path b'e' b'g'

g_is_not_f : filename g_path ≢ filename f_path
unfolding filename
g_is_not_f e = true≢false (ap (text_eq g_text) e)

move_node-exchange_example :
    (u : Tree phone) × (move_node 3 2 f_path g_path 2 small ≡ (done tt, u))
    × HasChild u 2 (filename g_path) 3
    × HasChild u 2 (filename f_path) 4
    × (traverse_node 1 (filename f_path) u ≡ (failed no_such_file_or_directory, u))
move_node-exchange_example =
    move_node-exchange small 3 4 1 2 f_node g_node d_node e_node d_directory e_directory f_path
      g_path 2 refl refl refl (refl, refl) (refl, refl) (unfold lookup filename in refl)
      (unfold lookup filename in refl) (unfold lookup filename in refl) (distinct_ones f_text 3)
      (distinct_ones g_text 4) g_is_not_f (λ e. absurd (omega (arith, e)))
      (λ e. absurd (omega (arith, e))) (λ e. absurd (omega (arith, e)))
      (λ e. absurd (omega (arith, e))) (λ e. absurd (omega (arith, e)))
      (λ e. absurd (omega (arith, e))) (unfold exchange in refl)
