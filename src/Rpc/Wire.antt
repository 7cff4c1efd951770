-- ===== src/Rpc/Wire.antt =====
-- Integers on the wire: `to_net_bytes` and `from_net_bytes` of madbfs-common/src/rpc.cpp, with the
-- byte order of the host as a parameter. A byte is a number below 256, the most significant byte of
-- an integer goes first, and a width is a number of bytes (`sizeof (I)`).
use native.Mathlib.Nat.{pow-suc}
use adbfsm.Prelude.{
  ℕ, zero, suc, ◌+◌, ◌*◌, ◌/◌, ◌%◌, ◌^◌, ◌<◌, ◌≡◌, refl, sym, ap, subst, ◌∙◌, List, [], ◌∷◌, ◌++◌,
  reverse, reverse-reverse, reverse-append, arith, length, length-append,
}

pub data Endian : Type 0 where
  little big : Endian

-- The bytes of an integer of `w` bytes in a little-endian memory, and the integer of such bytes.
unfoldable pub to_le : ℕ → ℕ → List ℕ
to_le zero v = []
to_le (suc w) v = (v % 256) ∷ to_le w (v / 256)

unfoldable pub of_le : List ℕ → ℕ
of_le [] = 0
of_le (b ∷ bs) = b + 256 * of_le bs

-- `std::bit_cast` between an integer and the bytes that it has in the memory of the host.
unfoldable pub bytes_of_int : Endian → ℕ → ℕ → List ℕ
unfolding to_le
bytes_of_int little w v = to_le w v
bytes_of_int big w v = reverse (to_le w v)

unfoldable pub int_of_bytes : Endian → List ℕ → ℕ
unfolding of_le
int_of_bytes little bs = of_le bs
int_of_bytes big bs = of_le (reverse bs)

-- `std::byteswap`.
unfoldable pub byteswap : ℕ → ℕ → ℕ
unfolding to_le of_le
byteswap w v = of_le (reverse (to_le w v))

unfoldable pub to_net_bytes : Endian → ℕ → ℕ → List ℕ
unfolding bytes_of_int byteswap
to_net_bytes big w v = bytes_of_int big w v
to_net_bytes little w v = bytes_of_int little w (byteswap w v)

unfoldable pub from_net_bytes : Endian → ℕ → List ℕ → ℕ
unfolding int_of_bytes byteswap
from_net_bytes big w bs = int_of_bytes big bs
from_net_bytes little w bs = byteswap w (int_of_bytes little bs)

abbrev pub AllBytes : List ℕ → Type 0
AllBytes [] = Unit {0}
AllBytes (b ∷ bs) = (b < 256) × AllBytes bs

-- Laws of the little-endian bytes.

pub length-to_le : (w v : ℕ) → length (to_le w v) ≡ w
unfolding to_le
length-to_le zero v = refl
length-to_le (suc w) v = ap suc (length-to_le w (v / 256))

AllBytes-to_le : (w v : ℕ) → AllBytes (to_le w v)
unfolding to_le
AllBytes-to_le zero v = tt
AllBytes-to_le (suc w) v = (omega arith, AllBytes-to_le w (v / 256))

AllBytes-append : (xs ys : List ℕ) → AllBytes xs → AllBytes ys → AllBytes (xs ++ ys)
AllBytes-append [] ys h k = k
AllBytes-append (x ∷ xs) ys h k = (h.0, AllBytes-append xs ys h.1 k)

AllBytes-reverse : (xs : List ℕ) → AllBytes xs → AllBytes (reverse xs)
AllBytes-reverse [] h = tt
AllBytes-reverse (x ∷ xs) h =
    subst AllBytes (sym (reverse-append (x ∷ []) xs))
      (AllBytes-append (reverse xs) (x ∷ []) (AllBytes-reverse xs h.1) (h.0, tt))

pub length-reverse : (xs : List ℕ) → length (reverse xs) ≡ length xs
length-reverse [] = refl
length-reverse (x ∷ xs) =
    ap length (reverse-append (x ∷ []) xs)
    ∙ (length-append (reverse xs) (x ∷ []) ∙ omega (arith, length-reverse xs))

to_le-of_le : (bs : List ℕ) → AllBytes bs → to_le (length bs) (of_le bs) ≡ bs
unfolding to_le of_le
to_le-of_le [] h = refl
to_le-of_le (b ∷ bs) h =
    let low : (b + 256 * of_le bs) % 256 ≡ b = omega arith in
    let high : (b + 256 * of_le bs) / 256 ≡ of_le bs = omega arith in
    rw (low, high, to_le-of_le bs h.1)

of_le-to_le : (w v : ℕ) → v < 256 ^ w → of_le (to_le w v) ≡ v
unfolding to_le of_le
of_le-to_le zero v h = omega arith
of_le-to_le (suc w) v h =
    let p : 256 ^ suc w ≡ 256 ^ w * 256 = pow-suc 256 w in
    omega (arith, of_le-to_le w (v / 256) (omega arith))

to_le-swapped : (w v : ℕ) → to_le w (of_le (reverse (to_le w v))) ≡ reverse (to_le w v)
to_le-swapped w v =
    let xs : List ℕ = reverse (to_le w v) in
    let e : length xs ≡ w = length-reverse (to_le w v) ∙ length-to_le w v in
    subst (λ n. to_le n (of_le xs) ≡ xs) e
      (to_le-of_le xs (AllBytes-reverse (to_le w v) (AllBytes-to_le w v)))

-- The bytes on the wire do not depend on the byte order of the host.
pub to_net_bytes_lem : (h : Endian) (w v : ℕ) → to_net_bytes h w v ≡ reverse (to_le w v)
unfolding to_net_bytes
to_net_bytes_lem big w v = refl
to_net_bytes_lem little w v = to_le-swapped w v

pub length-to_net_bytes : (h : Endian) (w v : ℕ) → length (to_net_bytes h w v) ≡ w
length-to_net_bytes h w v =
    rw (to_net_bytes_lem h w v) (length-reverse (to_le w v) ∙ length-to_le w v)

-- An integer that fits in its width is read back on any host, whatever the host that wrote it.
pub from_net_bytes-to_net_bytes :
    (g h : Endian) (w v : ℕ) → v < 256 ^ w → from_net_bytes g w (to_net_bytes h w v) ≡ v
unfolding from_net_bytes
from_net_bytes-to_net_bytes big h w v fits =
    rw (to_net_bytes_lem h w v, reverse-reverse (to_le w v)) (of_le-to_le w v fits)
from_net_bytes-to_net_bytes little h w v fits =
    rw (to_net_bytes_lem h w v, to_le-swapped w v, reverse-reverse (to_le w v))
      (of_le-to_le w v fits)
