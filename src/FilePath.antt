-- ===== src/FilePath.antt =====
-- `path::Path` and `path::PathBuf` (madbfs/src/path.cpp, madbfs/include/madbfs/path.hpp). A `Path` is two
-- views into one buffer that starts where its dirname starts, a `PathBuf` owns the buffer and has the
-- offsets; one record stands for both. The two literals "/" of the root are one object.
mod Tests
pub mod Parts
pub mod Resolve
pub mod Up
pub mod Iter
use adbfsm.Prelude.{
  ℕ, zero, suc, ◌+◌, ◌-◌, Bool, true, false, ◌&&◌, ◌||◌, not, Option, none, some, List, [], ◌∷◌,
  ◌++◌, ltb, leb, ◌==◌, if◌then◌else◌, length, take, drop, get_or, reverse, text_eq,
}
use adbfsm.Split.{Text, char_delim, leading, find_delim, split}

pub record FilePath : Type 0 where
  pub buffer : Text
  pub parent_size : ℕ
  pub basename_size : ℕ
  pub basename_offset : ℕ

abbrev pub slash : ℕ
slash = b'/'

abbrev pub is_slash : ℕ → Bool
is_slash = char_delim slash

-- "/", "." and ".."
abbrev pub root_text : Text
root_text = b'/' ∷ []

abbrev pub dot : Text
dot = b'.' ∷ []

abbrev pub dot_dot : Text
dot_dot = b'.' ∷ b'.' ∷ []

abbrev pub root : FilePath
root = record { buffer = root_text; parent_size = 1; basename_size = 1; basename_offset = 0 }

unfoldable pub parent : FilePath → Text
parent p = take p.parent_size p.buffer

unfoldable pub filename : FilePath → Text
filename p = take p.basename_size (drop p.basename_offset p.buffer)

-- From the start of the dirname to the end of the basename.
unfoldable pub fullpath : FilePath → Text
fullpath p = take (p.basename_offset + p.basename_size) p.buffer

unfoldable pub is_root : FilePath → Bool
unfolding parent filename
is_root p = text_eq (parent p) root_text && text_eq (filename p) root_text

-- The loop that removes slashes at the end, on the reversed text.
unfoldable pub strip_back : Text → Text
strip_back [] = []
strip_back (c ∷ []) = c ∷ []
strip_back (c ∷ d ∷ cs) = let rest = strip_back (d ∷ cs) in if is_slash c then rest else c ∷ d ∷ cs

-- The loop that removes slashes before a slash, down to two characters.
unfoldable pub strip_front : Text → Text
strip_front [] = []
strip_front (c ∷ []) = c ∷ []
strip_front (c ∷ d ∷ []) = c ∷ d ∷ []
strip_front (c ∷ d ∷ e ∷ cs) =
    let rest = strip_front (d ∷ e ∷ cs) in if is_slash c && is_slash d then rest else c ∷ d ∷ e ∷ cs

-- The loop of `create`: where the last run of slashes starts. `prev` and `current` are equal at the
-- head of the loop, and each round moves them, so fuel for the length of the text is enough.
unfoldable pub last_run : ℕ → Text → ℕ → ℕ
last_run zero s prev = prev
last_run (suc fuel) s prev =
    let current = prev + leading is_slash (drop prev s) in
    let moved : ℕ = elim (find_delim is_slash (drop current s)) [
      | none ↦ prev
      | some k ↦ last_run fuel s (current + k)
    ] in
    if ltb prev (length s) then moved else prev

unfoldable pub create : Text → Option FilePath
unfolding strip_back strip_front last_run leading find_delim char_delim
create [] = none
create (c ∷ cs) =
    let s = strip_front (reverse (strip_back (reverse (c ∷ cs)))) in
    let prev = last_run (length s) s 1 in
    let basename_start = prev + leading is_slash (drop prev s) in
    if not (is_slash c)
    then none
    else if text_eq s root_text
    then some root
    else some (record {
      buffer = s;
      parent_size = prev;
      basename_size = length s - basename_start;
      basename_offset = basename_start;
    })

-- The loop that walks back to the last slash of a text, and the one that walks back over a run of
-- them.
unfoldable pub back_to_slash : ℕ → Text → ℕ
back_to_slash zero s = 0
back_to_slash (suc i) s =
    let rest = back_to_slash i s in if is_slash (get_or s i 0) then i else rest

unfoldable pub back_over_slashes : ℕ → Text → ℕ
back_over_slashes zero s = 0
back_over_slashes (suc i) s =
    let rest = back_over_slashes i s in if is_slash (get_or s (suc i) 0) then rest else suc i

unfoldable pub parent_path : FilePath → FilePath
unfolding parent back_to_slash back_over_slashes char_delim
parent_path p =
    let dir = parent p in
    let base_start = back_to_slash (length dir) dir in
    let dir_end = back_over_slashes base_start dir in
    if text_eq dir root_text then root else record {
      buffer = dir;
      parent_size = if dir_end == 0 then base_start + 1 else dir_end + 1;
      basename_size = length dir - (base_start + 1);
      basename_offset = base_start + 1;
    }

-- `name.contains('/')`.
unfoldable pub has_slash : Text → Bool
has_slash [] = false
has_slash (c ∷ cs) = if is_slash c then true else has_slash cs

unfoldable pub bad_name : Text → Bool
unfolding has_slash
bad_name name = text_eq name [] || (has_slash name || (text_eq name dot || text_eq name dot_dot))

unfoldable pub rename : Text → FilePath → FilePath × Bool
unfolding bad_name
rename name p =
    if bad_name name then (p, false) else if text_eq p.buffer root_text then (p, false) else (
      record p { buffer = take p.basename_offset p.buffer ++ name; basename_size = length name },
      true,
    )

unfoldable pub extend : Text → FilePath → FilePath × Bool
unfolding bad_name
extend name p =
    let size = length p.buffer in
    if bad_name name
    then (p, false)
    else if not (size == 1) || not (is_slash (get_or p.buffer 0 0))
    then (
      record {
        buffer = (p.buffer ++ slash ∷ []) ++ name;
        parent_size = size;
        basename_size = length name;
        basename_offset = size + 1;
      },
      true,
    )
    else (
      record {
        buffer = p.buffer ++ name;
        parent_size = size;
        basename_size = length name;
        basename_offset = size;
      },
      true,
    )

-- `PathBuf::extend_copy`.
unfoldable pub extend_copy : Text → FilePath → Option FilePath
unfolding extend
extend_copy name p = let (q, done) = extend name p in if done then some q else none

-- `Path::extend_copy`, which checks only for a slash.
unfoldable pub extend_copy_view : Text → FilePath → Option FilePath
unfolding has_slash fullpath is_root
extend_copy_view name p =
    let full = fullpath p in
    if has_slash name
    then none
    else if is_root p
    then some (record {
      buffer = full ++ name;
      parent_size = length full;
      basename_size = length name;
      basename_offset = length full;
    })
    else some (record {
      buffer = (full ++ slash ∷ []) ++ name;
      parent_size = length full;
      basename_size = length name;
      basename_offset = length full + 1;
    })

unfoldable pub into_buf : FilePath → FilePath
unfolding fullpath
into_buf p = record p { buffer = fullpath p }

-- The buffer is the whole text; the offsets are those of the view that `create` returned.
unfoldable pub create_buf : Text → Option FilePath
unfolding create
create_buf s = elim (create s) [ none ↦ none | some p ↦ some (record p { buffer = s }) ]
