-- ===== src/FilePath/Tests.antt =====
-- Paths at concrete texts.
use adbfsm.Prelude.{inr, reverse, ◌≡◌, refl, true, [], ◌∷◌, ◌++◌, some}
use adbfsm.Split.{Text, char_delim}
use adbfsm.Split.Words.{words}
use adbfsm.FilePath.{
  FilePath, create, create_buf, parent_path, filename, parent, fullpath, extend, rename, is_slash,
  bad_name, root_text,
}
use adbfsm.FilePath.Parts.{HasName, components, extend_lem, rename_lem}
use adbfsm.FilePath.Up.{parent_path-extend}
use adbfsm.FilePath.Iter.{iter, iter_lem}
use adbfsm.FilePath.Resolve.{resolve, AreEntries}
use adbfsm.FilePath.Resolve.Normal.{left, all_words, resolve_lem}

-- "/a/bc"
abbrev a_bc : Text
a_bc = b'/' ∷ b'a' ∷ b'/' ∷ b'b' ∷ b'c' ∷ []

abbrev a_bc_path : FilePath
a_bc_path = record { buffer = a_bc; parent_size = 2; basename_size = 2; basename_offset = 3 }

abbrev name_d : Text
name_d = b'd' ∷ []

create-a_bc : create a_bc ≡ some a_bc_path
unfolding create
create-a_bc = refl

parent_of_a_bc : filename (parent_path a_bc_path) ≡ b'a' ∷ []
unfolding parent_path filename
parent_of_a_bc = refl

-- Of "//a" the view has the base name "a"; the owned path has the offsets of the view in the text.
doubled_slash :
    create_buf (b'/' ∷ b'/' ∷ b'a' ∷ [])
    ≡ some (record {
      buffer = b'/' ∷ b'/' ∷ b'a' ∷ [];
      parent_size = 1;
      basename_size = 1;
      basename_offset = 1;
    })
unfolding create_buf
doubled_slash = refl

extend_lem_example :
    ((extend name_d a_bc_path).1 ≡ true)
    × (filename (extend name_d a_bc_path).0 ≡ name_d)
    × (parent (extend name_d a_bc_path).0 ≡ a_bc)
    × (components (fullpath (extend name_d a_bc_path).0) ≡ components a_bc ++ name_d ∷ [])
extend_lem_example = extend_lem name_d a_bc_path (unfold bad_name char_delim in refl)

rename_lem_example :
    ((rename name_d a_bc_path).1 ≡ true)
    × (filename (rename name_d a_bc_path).0 ≡ name_d)
    × (components (fullpath (rename name_d a_bc_path).0)
        ≡ components (b'/' ∷ b'a' ∷ []) ++ name_d ∷ [])
    × (components (fullpath a_bc_path) ≡ components (b'/' ∷ b'a' ∷ []) ++ (b'b' ∷ b'c' ∷ []) ∷ [])
rename_lem_example =
    rename_lem name_d a_bc_path (b'/' ∷ b'a' ∷ []) (b'b' ∷ b'c' ∷ [])
      (unfold HasName in (refl, refl, refl)) (unfold char_delim in (refl, refl))
      (unfold bad_name char_delim in refl)

-- "../d" against "/a/bc".
resolve_lem_example :
    (q : FilePath) × (resolve a_bc_path (b'.' ∷ b'.' ∷ b'/' ∷ b'd' ∷ []) ≡ some q)
    × (words is_slash q.buffer
        ≡ reverse (left 0 (all_words a_bc_path (b'.' ∷ b'.' ∷ b'/' ∷ b'd' ∷ []))))
    × AreEntries (words is_slash q.buffer)
resolve_lem_example =
    resolve_lem a_bc_path b'.' (b'.' ∷ b'/' ∷ b'd' ∷ [])
      (unfold words fullpath char_delim in ((refl, refl, refl), (((refl, refl), refl, refl), tt)))

iter_lem_example : iter a_bc_path ≡ some (root_text ∷ (b'a' ∷ []) ∷ (b'b' ∷ b'c' ∷ []) ∷ [])
unfolding words fullpath char_delim
iter_lem_example = iter_lem a_bc_path

-- "/a/bc" is "/a" extended by "bc".
parent_path-extend_example :
    ((extend name_d a_bc_path).1 ≡ true) × (parent_path (extend name_d a_bc_path).0 ≡ a_bc_path)
parent_path-extend_example =
    parent_path-extend name_d a_bc_path (unfold bad_name char_delim in refl) (
      inr (
        b'b' ∷ b'c' ∷ [],
        record {
          buffer = b'/' ∷ b'a' ∷ [];
          parent_size = 1;
          basename_size = 1;
          basename_offset = 1;
        },
        unfold bad_name char_delim in refl,
        inr (0, refl, refl, unfold char_delim in refl),
        unfold extend bad_name char_delim in refl,
      ))
