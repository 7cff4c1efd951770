-- ===== src/Adb/Calls.antt =====
-- The operations of `AdbConnection` (madbfs/src/connection/adb_connection.cpp) over the process that runs
-- a command.
use adbfsm.Prelude.{
  ℕ, suc, ◌+◌, ◌-◌, ◌*◌, ◌/◌, ◌^◌, ℤ, pos, negsuc, Bool, true, false, Option, none, some, List, [],
  ◌∷◌, ◌++◌, length, take, min, ltb, ◌==◌, if◌then◌else◌,
}
use adbfsm.Split.{Text, char_delim, split, split_n, strip}
use adbfsm.FilePath.{FilePath, parent_path}
use adbfsm.FilePath.Resolve.{resolve}
use adbfsm.Rpc.Request.{Timespec}
use adbfsm.Cache.State.{Expect, ok, err}
use adbfsm.Cache.Page.{overwrite}
use adbfsm.Tree.Data.{Attributes}
use adbfsm.Adb.Command.{Process, exec, is_space}
use adbfsm.Adb.Texts.{parse_file_stat, parse_unsigned, get_or_0, decimal, decimal_int, quote}
use adbfsm.Adb.Names.{
  adb_word, shell_word, find_word, maxdepth_word, one_word, exec_word, stat_word, c_flag_word,
  format_word, braces_word, plus_word, readlink_word, touch_word, mkdir_word, rm_word, rmdir_word,
  mv_word, n_flag_word, truncate_word, s_flag_word, dd_word, iflag_word, oflag_word, notrunc_word,
  skip_word, count_word, seek_word, if_is_word, of_is_word, a_flag_word, m_flag_word, t_flag_word,
}

-- The process, and the library's calls on dates: `std::chrono::parse`, and `std::localtime` with the time
-- of the clock where it fails, as `{:%Y%m%d%H%M.%S}`.
pub record Adb : Type 1 where
  pub process : Process
  pub parse_date : Text → Timespec
  pub time_text : process.State → ℤ → Text

abbrev pub io_error : ℕ
io_error = 5

abbrev pub invalid_argument : ℕ
invalid_argument = 22

abbrev pub rename_exchange : ℕ
rename_exchange = 2

abbrev pub rename_noreplace : ℕ
rename_noreplace = 1

-- A result and the state behind it.
abbrev pub Run : Adb → Type 0 → Type 0
Run D A = D.process.State → Expect A × D.process.State

-- What `generator` yields: the entries of the lines that can be parsed.
unfoldable pub parsed_lines : (Text → Timespec) → List Text → List (Attributes × Text)
unfolding parse_file_stat strip
parsed_lines parse_date [] = []
parsed_lines parse_date (line ∷ lines) =
    let rest = parsed_lines parse_date lines in
    elim (parse_file_stat parse_date (strip is_space line)) [
      | none ↦ rest
      | some entry ↦ entry ∷ rest
    ]

unfoldable pub generator : (Text → Timespec) → Text → List (Attributes × Text)
unfolding parsed_lines split
generator parse_date out = elim (split (char_delim b'\n') out) [
  | some (first ∷ lines) ↦ parsed_lines parse_date lines
  | _ ↦ []
]

-- The count that `dd` prints: the first word of the fourth line.
unfoldable pub count_of : Text → Option ℕ
unfolding split_n parse_unsigned
count_of str = elim (split_n (char_delim b'\n') 4 str) [
  | some (_ ∷ _ ∷ _ ∷ last ∷ [], _) ↦ elim (split_n (char_delim b' ') 1 last) [
    | some (word ∷ [], _) ↦ parse_unsigned 64 10 word
    | _ ↦ none
  ]
  | _ ↦ none
]

-- `tv_sec += sec`
unfoldable pub later : ℕ → ℤ → ℤ
later sec (pos m) = pos (m + sec)
later sec (negsuc m) = if ltb m sec then pos (sec - suc m) else negsuc (m - sec)

-- `tv_nsec` of a second and more goes into `tv_sec`.
unfoldable pub carried : Timespec → Timespec
unfolding later
carried time = elim time.tv_nsec [
  | negsuc n ↦ time
  | pos n ↦
      let sec = n / 10 ^ 9 in
      if ltb 0 sec
      then record { tv_sec = later sec time.tv_sec; tv_nsec = pos (n - sec * 10 ^ 9) }
      else time
]

-- Whether `tv_nsec` is `UTIME_NOW`.
unfoldable pub is_now : Timespec → Bool
is_now time = elim time.tv_nsec [ pos n ↦ n == 1073741823 | negsuc n ↦ false ]

module _ {A B T : Type 0} where
  -- `transform` of the result.
  abbrev pub transform : (A → B) → (T → Expect A × T) → T → Expect B × T
  transform f m s = let (r, s') = m s in (elim r [ ok a ↦ ok (f a) | err e ↦ err e ], s')

module _ (D : Adb) where
  -- `exec` with its default arguments.
  unfoldable pub run : List Text → Run D Text
  unfolding exec
  run cmd = exec D.process cmd [] true false

  unfoldable pub sink : List Text → Run D (Unit {0})
  unfolding run
  sink cmd = transform (λ out. tt) (run cmd)

  unfoldable pub statdir : FilePath → Run D (List (Attributes × Text))
  unfolding exec generator quote
  statdir path = transform (generator D.parse_date) (
      exec D.process
        (adb_word
          ∷ shell_word
          ∷ find_word
          ∷ quote path
          ∷ maxdepth_word
          ∷ one_word
          ∷ exec_word
          ∷ stat_word
          ∷ c_flag_word
          ∷ format_word
          ∷ braces_word
          ∷ plus_word
          ∷ [])
        [] false false)

  unfoldable pub stat : FilePath → Run D Attributes
  unfolding run quote parse_file_stat strip
  stat path s =
      let (r, s') =
        run (adb_word ∷ shell_word ∷ stat_word ∷ c_flag_word ∷ format_word ∷ quote path ∷ []) s in
      (
        elim r [
          | err e ↦ err e
          | ok out ↦ elim (parse_file_stat D.parse_date (strip is_space out)) [
            | none ↦ err io_error
            | some entry ↦ ok (entry.0)
          ]
        ],
        s',
      )

  -- `none` inside the result is where `resolve` is undefined.
  unfoldable pub readlink : FilePath → Run D (Option FilePath)
  unfolding run quote resolve parent_path strip
  readlink path =
      transform (λ target. resolve (parent_path path) (strip is_space target))
        (run (adb_word ∷ shell_word ∷ readlink_word ∷ quote path ∷ []))

  unfoldable pub mknod : FilePath → ℕ → ℕ → Run D (Unit {0})
  unfolding sink quote
  mknod path mode dev = sink (adb_word ∷ shell_word ∷ touch_word ∷ quote path ∷ [])

  unfoldable pub mkdir : FilePath → ℕ → Run D (Unit {0})
  unfolding sink quote
  mkdir path mode = sink (adb_word ∷ shell_word ∷ mkdir_word ∷ quote path ∷ [])

  unfoldable pub unlink : FilePath → Run D (Unit {0})
  unfolding sink quote
  unlink path = sink (adb_word ∷ shell_word ∷ rm_word ∷ quote path ∷ [])

  unfoldable pub rmdir : FilePath → Run D (Unit {0})
  unfolding sink quote
  rmdir path = sink (adb_word ∷ shell_word ∷ rmdir_word ∷ quote path ∷ [])

  unfoldable pub rename : FilePath → FilePath → ℕ → Run D (Unit {0})
  unfolding sink quote
  rename from to flags s =
      if flags == rename_exchange
      then (err invalid_argument, s)
      else if flags == rename_noreplace
      then sink (adb_word ∷ shell_word ∷ mv_word ∷ n_flag_word ∷ quote from ∷ quote to ∷ []) s
      else sink (adb_word ∷ shell_word ∷ mv_word ∷ quote from ∷ quote to ∷ []) s

  unfoldable pub truncate : FilePath → ℤ → Run D (Unit {0})
  unfolding sink quote decimal_int
  truncate path size =
      sink
        (adb_word ∷ shell_word ∷ truncate_word ∷ s_flag_word ∷ decimal_int size ∷ quote path ∷ [])

  -- The count, and the buffer of the caller.
  unfoldable pub read : FilePath → List ℕ → ℤ → Run D (ℕ × List ℕ)
  unfolding run quote decimal decimal_int overwrite
  read path out offset =
      transform
        (λ str. let size = min (length str) (length out) in (size, overwrite 0 (take size str) out))
        (run (
          adb_word
          ∷ shell_word
          ∷ dd_word
          ∷ iflag_word
          ∷ (skip_word ++ decimal_int offset)
          ∷ (count_word ++ decimal (length out))
          ∷ (if_is_word ++ quote path)
          ∷ []))

  unfoldable pub write : FilePath → List ℕ → ℤ → Run D ℕ
  unfolding exec quote decimal_int
  write path bytes offset =
      transform (λ out. length bytes)
        (exec D.process
          (adb_word
            ∷ shell_word
            ∷ dd_word
            ∷ oflag_word
            ∷ notrunc_word
            ∷ (seek_word ++ decimal_int offset)
            ∷ (of_is_word ++ quote path)
            ∷ [])
          bytes true false)

  abbrev pub touch_now : FilePath → Text → Run D (Unit {0})
  touch_now path flag =
      sink (adb_word ∷ shell_word ∷ touch_word ∷ c_flag_word ∷ flag ∷ quote path ∷ [])

  abbrev pub touch_at : FilePath → Text → Timespec → Run D (Unit {0})
  touch_at path flag time s =
      let str = D.time_text s (carried time).tv_sec ++ decimal_int (carried time).tv_nsec in
      sink
        (adb_word
          ∷ shell_word
          ∷ touch_word
          ∷ c_flag_word
          ∷ flag
          ∷ t_flag_word
          ∷ str
          ∷ quote path
          ∷ [])
        s

  -- The rounds of the loop of `utimens`. The time `UTIME_NOW` returns.
  unfoldable pub set_times : FilePath → List (Timespec × Text) → Run D (Unit {0})
  unfolding sink quote decimal_int carried is_now
  set_times path [] s = (ok tt, s)
  set_times path ((time, flag) ∷ times) s =
      let (r, s') = touch_at path flag time s in
      let rest = set_times path times s' in
      if is_now time then touch_now path flag s else elim r [ err e ↦ (err e, s') | ok done ↦ rest ]

  unfoldable pub utimens : FilePath → Timespec → Timespec → Run D (Unit {0})
  unfolding set_times
  utimens path atime mtime = set_times path ((atime, a_flag_word) ∷ (mtime, m_flag_word) ∷ [])

  unfoldable pub copy_file_range : FilePath → ℤ → FilePath → ℤ → ℕ → Run D ℕ
  unfolding exec quote decimal decimal_int count_of
  copy_file_range from from_offset to to_offset size =
      transform (λ str. get_or_0 (count_of str))
        (exec D.process
          (adb_word
            ∷ shell_word
            ∷ dd_word
            ∷ iflag_word
            ∷ (skip_word ++ decimal_int from_offset)
            ∷ (count_word ++ decimal size)
            ∷ (if_is_word ++ quote from)
            ∷ oflag_word
            ∷ notrunc_word
            ∷ (seek_word ++ decimal_int to_offset)
            ∷ (of_is_word ++ quote to)
            ∷ [])
          [] true true)
