-- ===== src/Fuse/Tests.antt =====
-- The FUSE operations on a concrete tree over a concrete device.
use adbfsm.Prelude.{◌≡◌, refl, pos, negsuc, none, some, [], ◌∷◌}
use adbfsm.Split.{Text, char_delim}
use adbfsm.FilePath.{extend, bad_name, create}
use adbfsm.Tree.Data.{no_attributes}
use adbfsm.Tree.Exec.{Tree, done}
use adbfsm.Tree.Example.{phone, small, small-Fits, d_path}
use adbfsm.Fuse.Stat.{FileStat, file_stat}
use adbfsm.Fuse.Calls.{getattr}
use adbfsm.Fuse.Again.{getattr_again}

-- "/d/k"
abbrev k_text : Text
k_text = b'/' ∷ b'd' ∷ b'/' ∷ b'k' ∷ []

-- What the device tells about "/d/k", with the id of its node.
abbrev k_stat : FileStat
k_stat = file_stat 4 (record { id = 10; attributes = record no_attributes { mode = 32768 } })

abbrev asked : Tree phone
asked = (getattr 1 k_text small).1

-- A path that is not absolute is not supported.
relative : (getattr 1 (b'k' ∷ []) small).0 ≡ done (negsuc 94, none)
unfolding getattr
relative = refl

getattr_again_example : getattr 1 k_text asked ≡ (done (pos 0, some k_stat), asked)
getattr_again_example =
    getattr_again (b'k' ∷ []) d_path (unfold bad_name char_delim in refl) refl 1 0 k_text small
      asked k_stat small-Fits (unfold create extend in refl) (unfold getattr in refl)
