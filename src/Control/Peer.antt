-- ===== src/Control/Peer.antt =====
-- A peer of the control socket: `parse_msg` and `Ipc::handle_peer` (madbfs/src/data/ipc.cpp). What the
-- JSON library does is a parameter; the only exceptions it throws are its system errors.
use adbfsm.Prelude.{ℕ, Option, none, some, List, [], ◌∷◌, ◌++◌, text_eq, if◌then◌else◌}
use adbfsm.Split.{Text}
use adbfsm.Cache.State.{Connection, Cache, ok, err}
use adbfsm.Rpc.Wire.{Endian}
use adbfsm.Control.{
  Op, help, invalidate_cache, set_page_size, get_page_size, set_cache_size, get_cache_size, Value,
  ipc_handler, send, receive,
}

-- A result, or a message that says why there is none.
pub data Parsed (A : Type 0) : Type 0 where
  parsed : A → Parsed A
  refused : Text → Parsed A

infixr 20 ◌>>=◌
unfoldable pub ◌>>=◌ : {A B : Type 0} → Parsed A → (A → Parsed B) → Parsed B
parsed x >>= f = f x
refused message >>= f = refused message

-- The object that answers a peer.
pub data Response : Type 0 where
  success : Value → Response
  failure : (message : Text) → Response

-- boost::json. A failure is the message of its `system_error`.
pub record Json : Type 1 where
  pub Tree : Type 0
  pub parse : Text → Parsed Tree
  pub member : Text → Tree → Parsed Tree
  pub to_string : Tree → Parsed Text
  pub to_u32 : Tree → Parsed ℕ
  pub serialize : Response → Text

abbrev pub op_text : Text
op_text = b'o' ∷ b'p' ∷ []

abbrev pub value_text : Text
value_text = b'v' ∷ b'a' ∷ b'l' ∷ b'u' ∷ b'e' ∷ []

abbrev pub kib_text : Text
kib_text = b'k' ∷ b'i' ∷ b'b' ∷ []

abbrev pub mib_text : Text
mib_text = b'm' ∷ b'i' ∷ b'b' ∷ []

abbrev pub help_text : Text
help_text = b'h' ∷ b'e' ∷ b'l' ∷ b'p' ∷ []

abbrev pub invalidate_cache_text : Text
invalidate_cache_text =
    b'i' ∷ b'n' ∷ b'v' ∷ b'a' ∷ b'l' ∷ b'i' ∷ b'd' ∷ b'a' ∷ b't' ∷ b'e' ∷ b'_' ∷ b'c' ∷ b'a' ∷ b'c'
    ∷ b'h' ∷ b'e' ∷ []

abbrev pub set_page_size_text : Text
set_page_size_text =
    b's' ∷ b'e' ∷ b't' ∷ b'_' ∷ b'p' ∷ b'a' ∷ b'g' ∷ b'e' ∷ b'_' ∷ b's' ∷ b'i' ∷ b'z' ∷ b'e' ∷ []

abbrev pub get_page_size_text : Text
get_page_size_text =
    b'g' ∷ b'e' ∷ b't' ∷ b'_' ∷ b'p' ∷ b'a' ∷ b'g' ∷ b'e' ∷ b'_' ∷ b's' ∷ b'i' ∷ b'z' ∷ b'e' ∷ []

abbrev pub set_cache_size_text : Text
set_cache_size_text =
    b's' ∷ b'e' ∷ b't' ∷ b'_' ∷ b'c' ∷ b'a' ∷ b'c' ∷ b'h' ∷ b'e' ∷ b'_' ∷ b's' ∷ b'i' ∷ b'z' ∷ b'e'
    ∷ []

abbrev pub get_cache_size_text : Text
get_cache_size_text =
    b'g' ∷ b'e' ∷ b't' ∷ b'_' ∷ b'c' ∷ b'a' ∷ b'c' ∷ b'h' ∷ b'e' ∷ b'_' ∷ b's' ∷ b'i' ∷ b'z' ∷ b'e'
    ∷ []

-- "'{}' is not a valid operation, try 'help'"
abbrev pub not_valid : Text → Text
not_valid op =
    b'\''
    ∷ (op
        ++ b'\'' ∷ b' ' ∷ b'i' ∷ b's' ∷ b' ' ∷ b'n' ∷ b'o' ∷ b't' ∷ b' ' ∷ b'a' ∷ b' ' ∷ b'v' ∷ b'a'
          ∷ b'l' ∷ b'i' ∷ b'd' ∷ b' ' ∷ b'o' ∷ b'p' ∷ b'e' ∷ b'r' ∷ b'a' ∷ b't' ∷ b'i' ∷ b'o' ∷ b'n'
          ∷ b',' ∷ b' ' ∷ b't' ∷ b'r' ∷ b'y' ∷ b' ' ∷ b'\'' ∷ b'h' ∷ b'e' ∷ b'l' ∷ b'p' ∷ b'\''
          ∷ [])

module _ (J : Json) where
  -- `parse_msg`.
  unfoldable pub parse_msg : Text → Parsed Op
  unfolding ◌>>=◌
  parse_msg msg = J.parse msg >>= (λ json. J.member op_text json >>= (λ name.
      J.to_string name >>= (λ op.
        let size_of : Text → Parsed ℕ = λ field.
          J.member value_text json
          >>= (λ value. J.member field value >>= (λ size. J.to_u32 size)) in
        if text_eq op help_text
        then parsed help
        else if text_eq op invalidate_cache_text
        then parsed invalidate_cache
        else if text_eq op set_page_size_text
        then (size_of kib_text >>= (λ kib. parsed (set_page_size kib)))
        else if text_eq op get_page_size_text
        then parsed get_page_size
        else if text_eq op set_cache_size_text
        then (size_of mib_text >>= (λ mib. parsed (set_cache_size mib)))
        else if text_eq op get_cache_size_text
        then parsed get_cache_size
        else refused (not_valid op))))

  module _ {C : Connection} where
    -- What the handler of the operations answers to the text: `none` where it is undefined.
    unfoldable pub respond : Text → Cache C → Option (Response × Cache C)
    unfolding parse_msg ipc_handler
    respond msg c = elim (parse_msg msg) [
      | refused message ↦ some (failure message, c)
      | parsed op ↦ elim (ipc_handler op c) [
        | none ↦ none
        | some (value, c') ↦ some (success value, c')
      ]
    ]

    -- `handle_peer` on a socket that delivers `stream`: what it writes, and the cache.
    unfoldable pub handle_peer : Endian → ℕ → List ℕ → Cache C → Option (List ℕ × Cache C)
    unfolding receive respond send
    handle_peer host lost stream c = elim (receive host lost stream).0 [
      | err errc ↦ some ([], c)
      | ok msg ↦ elim (respond msg c) [
        | none ↦ none
        | some (response, c') ↦ some (send host (J.serialize response), c')
      ]
    ]
