-- ===== src/Adb/Names.antt =====
-- The words of the commands that `AdbConnection` runs (madbfs/src/connection/adb_connection.cpp).
use adbfsm.Prelude.{[], ◌∷◌}
use adbfsm.Split.{Text}

abbrev pub adb_word : Text
adb_word = b'a' ∷ b'd' ∷ b'b' ∷ []

abbrev pub shell_word : Text
shell_word = b's' ∷ b'h' ∷ b'e' ∷ b'l' ∷ b'l' ∷ []

abbrev pub find_word : Text
find_word = b'f' ∷ b'i' ∷ b'n' ∷ b'd' ∷ []

abbrev pub maxdepth_word : Text
maxdepth_word = b'-' ∷ b'm' ∷ b'a' ∷ b'x' ∷ b'd' ∷ b'e' ∷ b'p' ∷ b't' ∷ b'h' ∷ []

abbrev pub one_word : Text
one_word = b'1' ∷ []

abbrev pub exec_word : Text
exec_word = b'-' ∷ b'e' ∷ b'x' ∷ b'e' ∷ b'c' ∷ []

abbrev pub stat_word : Text
stat_word = b's' ∷ b't' ∷ b'a' ∷ b't' ∷ []

abbrev pub c_flag_word : Text
c_flag_word = b'-' ∷ b'c' ∷ []

abbrev pub format_word : Text
format_word =
    b'\'' ∷ b'%' ∷ b'f' ∷ b'|' ∷ b'%' ∷ b'h' ∷ b'|' ∷ b'%' ∷ b's' ∷ b'|' ∷ b'%' ∷ b'u' ∷ b'|' ∷ b'%'
    ∷ b'g' ∷ b'|' ∷ b'%' ∷ b'x' ∷ b'|' ∷ b'%' ∷ b'y' ∷ b'|' ∷ b'%' ∷ b'z' ∷ b'|' ∷ b'%' ∷ b'n'
    ∷ b'\'' ∷ []

abbrev pub braces_word : Text
braces_word = b'{' ∷ b'}' ∷ []

abbrev pub plus_word : Text
plus_word = b'+' ∷ []

abbrev pub readlink_word : Text
readlink_word = b'r' ∷ b'e' ∷ b'a' ∷ b'd' ∷ b'l' ∷ b'i' ∷ b'n' ∷ b'k' ∷ []

abbrev pub touch_word : Text
touch_word = b't' ∷ b'o' ∷ b'u' ∷ b'c' ∷ b'h' ∷ []

abbrev pub mkdir_word : Text
mkdir_word = b'm' ∷ b'k' ∷ b'd' ∷ b'i' ∷ b'r' ∷ []

abbrev pub rm_word : Text
rm_word = b'r' ∷ b'm' ∷ []

abbrev pub rmdir_word : Text
rmdir_word = b'r' ∷ b'm' ∷ b'd' ∷ b'i' ∷ b'r' ∷ []

abbrev pub mv_word : Text
mv_word = b'm' ∷ b'v' ∷ []

abbrev pub n_flag_word : Text
n_flag_word = b'-' ∷ b'n' ∷ []

abbrev pub truncate_word : Text
truncate_word = b't' ∷ b'r' ∷ b'u' ∷ b'n' ∷ b'c' ∷ b'a' ∷ b't' ∷ b'e' ∷ []

abbrev pub s_flag_word : Text
s_flag_word = b'-' ∷ b's' ∷ []

abbrev pub dd_word : Text
dd_word = b'd' ∷ b'd' ∷ []

abbrev pub iflag_word : Text
iflag_word =
    b'i' ∷ b'f' ∷ b'l' ∷ b'a' ∷ b'g' ∷ b'=' ∷ b's' ∷ b'k' ∷ b'i' ∷ b'p' ∷ b'_' ∷ b'b' ∷ b'y' ∷ b't'
    ∷ b'e' ∷ b's' ∷ b',' ∷ b'c' ∷ b'o' ∷ b'u' ∷ b'n' ∷ b't' ∷ b'_' ∷ b'b' ∷ b'y' ∷ b't' ∷ b'e'
    ∷ b's' ∷ []

abbrev pub oflag_word : Text
oflag_word =
    b'o' ∷ b'f' ∷ b'l' ∷ b'a' ∷ b'g' ∷ b'=' ∷ b's' ∷ b'e' ∷ b'e' ∷ b'k' ∷ b'_' ∷ b'b' ∷ b'y' ∷ b't'
    ∷ b'e' ∷ b's' ∷ []

abbrev pub notrunc_word : Text
notrunc_word =
    b'c' ∷ b'o' ∷ b'n' ∷ b'v' ∷ b'=' ∷ b'n' ∷ b'o' ∷ b't' ∷ b'r' ∷ b'u' ∷ b'n' ∷ b'c' ∷ []

abbrev pub skip_word : Text
skip_word = b's' ∷ b'k' ∷ b'i' ∷ b'p' ∷ b'=' ∷ []

abbrev pub count_word : Text
count_word = b'c' ∷ b'o' ∷ b'u' ∷ b'n' ∷ b't' ∷ b'=' ∷ []

abbrev pub seek_word : Text
seek_word = b's' ∷ b'e' ∷ b'e' ∷ b'k' ∷ b'=' ∷ []

abbrev pub if_is_word : Text
if_is_word = b'i' ∷ b'f' ∷ b'=' ∷ []

abbrev pub of_is_word : Text
of_is_word = b'o' ∷ b'f' ∷ b'=' ∷ []

abbrev pub a_flag_word : Text
a_flag_word = b'-' ∷ b'a' ∷ []

abbrev pub m_flag_word : Text
m_flag_word = b'-' ∷ b'm' ∷ []

abbrev pub t_flag_word : Text
t_flag_word = b'-' ∷ b't' ∷ []
