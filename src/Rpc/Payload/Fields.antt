-- ===== src/Rpc/Payload/Fields.antt =====
-- The fields as bytes, and the builder's functions in terms of them.
use adbfsm.Prelude.{ℕ, ◌+◌, ◌≡◌, refl, ℤ, bits_of, List, [], ◌∷◌, ◌++◌, append_assoc, length}
use adbfsm.Rpc.Wire.{Endian, to_net_bytes}
use adbfsm.Rpc.Payload.{Str, write_int, write_i64, write_bytes, write_path}

module _ (h : Endian) where
  abbrev pub path_field : Str → List ℕ
  path_field path = to_net_bytes h 8 (length path + 1) ++ (path ++ 0 ∷ [])

  abbrev pub bytes_field : List ℕ → List ℕ
  bytes_field bytes = to_net_bytes h 8 (length bytes) ++ bytes

  pub write_int_lem :
      (w v : ℕ) (buffer : List ℕ) → write_int h w v buffer ≡ buffer ++ to_net_bytes h w v
  unfolding write_int
  write_int_lem w v buffer = refl

  pub write_i64_lem :
      (z : ℤ) (buffer : List ℕ) → write_i64 h z buffer ≡ buffer ++ to_net_bytes h 8 (bits_of z)
  unfolding write_i64
  write_i64_lem z buffer = refl

  pub write_bytes_lem :
      (bytes buffer : List ℕ) → write_bytes h bytes buffer ≡ buffer ++ bytes_field bytes
  unfolding write_bytes
  write_bytes_lem bytes buffer = append_assoc buffer (to_net_bytes h 8 (length bytes)) bytes

  pub write_path_lem : (path buffer : List ℕ) → write_path h path buffer ≡ buffer ++ path_field path
  unfolding write_path
  write_path_lem path buffer = simp append_assoc

pub ruleset field_laws =
    (write_int_lem, write_i64_lem, write_bytes_lem, write_path_lem, append_assoc)
