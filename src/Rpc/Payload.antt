-- ===== src/Rpc/Payload.antt =====
-- `PayloadBuilder` and `PayloadReader` of madbfs-common/src/rpc.cpp: the fields of a message, written
-- at the end of a buffer and read at an index into one. `usize` has 64 bits. A `Str` or a `Span` is
-- the list of its bytes.
pub mod Reads
pub mod Fields
pub mod Overflow
use adbfsm.Prelude.{
  ℕ, ◌+◌, ◌-◌, ◌%◌, ◌^◌, ℤ, bits_of, int_of, Option, none, some, List, [], ◌∷◌, ◌++◌, leb, ◌==◌,
  if◌then◌else◌, length, take, drop,
}
use adbfsm.Rpc.Wire.{Endian, to_net_bytes, from_net_bytes}

abbrev pub Str : Type 0
Str = List ℕ

pub data Procedure : Type 0 where
  listdir stat readlink mknod mkdir unlink rmdir rename truncate read write utimens
        copy_file_range :
      Procedure

-- `static_cast<u8>` of a procedure: the enumerators are numbered from 0.
unfoldable pub procedure_code : Procedure → ℕ
procedure_code Procedure.listdir = 0
procedure_code Procedure.stat = 1
procedure_code Procedure.readlink = 2
procedure_code Procedure.mknod = 3
procedure_code Procedure.mkdir = 4
procedure_code Procedure.unlink = 5
procedure_code Procedure.rmdir = 6
procedure_code Procedure.rename = 7
procedure_code Procedure.truncate = 8
procedure_code Procedure.read = 9
procedure_code Procedure.write = 10
procedure_code Procedure.utimens = 11
procedure_code Procedure.copy_file_range = 12

-- The domain check of `read_procedure`.
unfoldable pub procedure_of : ℕ → Option Procedure
procedure_of v =
    if v == 0
    then some Procedure.listdir
    else if v == 1
    then some Procedure.stat
    else if v == 2
    then some Procedure.readlink
    else if v == 3
    then some Procedure.mknod
    else if v == 4
    then some Procedure.mkdir
    else if v == 5
    then some Procedure.unlink
    else if v == 6
    then some Procedure.rmdir
    else if v == 7
    then some Procedure.rename
    else if v == 8
    then some Procedure.truncate
    else if v == 9
    then some Procedure.read
    else if v == 10
    then some Procedure.write
    else if v == 11
    then some Procedure.utimens
    else if v == 12
    then some Procedure.copy_file_range
    else none

-- The builder: each function appends to the buffer.

module _ (host : Endian) where
  unfoldable pub write_int : ℕ → ℕ → List ℕ → List ℕ
  write_int w v buffer = buffer ++ to_net_bytes host w v

  unfoldable pub write_i64 : ℤ → List ℕ → List ℕ
  unfolding write_int
  write_i64 z buffer = write_int 8 (bits_of z) buffer

  unfoldable pub write_procedure : Procedure → List ℕ → List ℕ
  unfolding write_int
  write_procedure p buffer = write_int 1 (procedure_code p) buffer

  unfoldable pub write_status : ℕ → List ℕ → List ℕ
  unfolding write_int
  write_status s buffer = write_int 1 s buffer

  unfoldable pub write_id : ℕ → List ℕ → List ℕ
  unfolding write_int
  write_id id buffer = write_int 4 id buffer

  unfoldable pub write_bytes : List ℕ → List ℕ → List ℕ
  unfolding write_int
  write_bytes bytes buffer = write_int 8 (length bytes) buffer ++ bytes

  -- The length counts the null byte that follows the text.
  unfoldable pub write_path : Str → List ℕ → List ℕ
  unfolding write_int
  write_path path buffer = (write_int 8 (length path + 1) buffer ++ path) ++ 0 ∷ []

-- The reader.

pub record Reader : Type 0 where
  pub index : ℕ
  pub buffer : List ℕ

-- `undefined` is a read past the end of the buffer, which the language leaves undefined.
pub data Outcome {ℓ} (A : Type ℓ) : Type ℓ where
  ok : A → Outcome A
  nullopt undefined : Outcome A

abbrev pub Parser : Type 0 → Type 0
Parser A = Reader → Outcome (A × Reader)

infixl 5 ◌>>=◌
abbrev pub ◌>>=◌ : {A B : Type 0} → Parser A → (A → Parser B) → Parser B
◌>>=◌ m f r = elim (m r) [ ok (a, r') ↦ f a r' | nullopt ↦ nullopt | undefined ↦ undefined ]

abbrev pub pure : {A : Type 0} → A → Parser A
pure a r = ok (a, r)

abbrev pub lift_option : {A : Type 0} → Option A → Parser A
lift_option none r = nullopt
lift_option (some a) r = ok (a, r)

-- `m_index + size - 1` in `usize`.
unfoldable pub last_index : ℕ → ℕ → ℕ
last_index index size = (index + size + (2 ^ 64 - 1)) % 2 ^ 64

-- `Span::subspan`; `none` where its precondition fails.
unfoldable pub subspan : ℕ → ℕ → List ℕ → Option (List ℕ)
subspan offset count buffer =
    if count == 2 ^ 64 - 1
    then (if leb offset (length buffer) then some (drop offset buffer) else none)
    else if leb (offset + count) (length buffer)
    then some (take count (drop offset buffer))
    else none

abbrev or_undefined : {A : Type 0} → Option A → Reader → Outcome (A × Reader)
or_undefined none r = undefined
or_undefined (some a) r = ok (a, r)

-- The guard that `read_bytes` and `read_path` share; `count` bytes are read, and the index moves
-- by `size`.
unfoldable pub read_span : ℕ → ℕ → Parser (List ℕ)
unfolding last_index subspan
read_span count size r =
    if leb (length r.buffer) (last_index r.index size)
    then nullopt
    else or_undefined (subspan r.index count r.buffer) (record r { index = r.index + size })

module _ (host : Endian) where
  unfoldable pub read_int : ℕ → Parser ℕ
  unfolding last_index
  read_int w r =
      if leb (length r.buffer) (last_index r.index w)
      then nullopt
      else ok
          (from_net_bytes host w (take w (drop r.index r.buffer)), record r { index = r.index + w })

  unfoldable pub read_i64 : Parser ℤ
  read_i64 = do bits ← read_int 8; pure (int_of bits)

  unfoldable pub read_procedure : Parser Procedure
  read_procedure = do code ← read_int 1; lift_option (procedure_of code)

  -- Any byte is taken for a status.
  unfoldable pub read_status : Parser ℕ
  unfolding read_int
  read_status = read_int 1

  unfoldable pub read_id : Parser ℕ
  unfolding read_int
  read_id = read_int 4

  unfoldable pub read_bytes : Parser (List ℕ)
  read_bytes = do size ← read_int 8; read_span size size

  -- Without the null byte: `size - 1` in `usize`.
  unfoldable pub read_path : Parser Str
  read_path = do size ← read_int 8; read_span ((size + (2 ^ 64 - 1)) % 2 ^ 64) size

-- What the reader returned, without the reader.
abbrev pub outcome : {A : Type 0} → Outcome (A × Reader) → Outcome A
outcome (ok (a, r)) = ok a
outcome nullopt = nullopt
outcome undefined = undefined

-- A parse of a whole buffer.
unfoldable pub run : {A : Type 0} → Parser A → List ℕ → Outcome A
run m buffer = outcome (m (record { index = 0; buffer = buffer }))
