-- ===== src/Adb/Numbers.antt =====
-- A number that is printed is parsed back.
use adbfsm.Prelude.{
  ℕ, zero, suc, ◌+◌, ◌-◌, ◌*◌, ◌/◌, ◌%◌, ◌^◌, ◌<◌, ◌≡◌, refl, ap, ◌∙◌, pos, Bool-cases, inl, inr,
  true, false, ltb, ◌==◌, leb, some, [], ◌∷◌, arith,
}
use adbfsm.Split.{Text}
use adbfsm.Adb.Texts.{
  digit_of, digits_from, below, parse_digits, parse_unsigned, parse_signed, decimal_from, decimal,
}

-- A text of decimal digits, not empty.
abbrev AreDigits : Text → Type 0
AreDigits [] = Unit {0}
AreDigits (c ∷ cs) = ((d : ℕ) × (d < 10) × (c ≡ b'0' + d)) × AreDigits cs

abbrev pub IsNumber : Text → Type 0
IsNumber [] = ⊥
IsNumber (c ∷ cs) = AreDigits (c ∷ cs)

digit_of-digit : (d : ℕ) → d < 10 → digit_of (b'0' + d) ≡ some d
unfolding digit_of
digit_of-digit d lt =
    let low : leb b'0' (b'0' + d) ≡ true = ground arith in
    let high : leb (b'0' + d) b'9' ≡ true = ground (arith, lt) in
    let same : b'0' + d - b'0' ≡ d = omega arith in rw (low, high) (ap some same)

digits_from-digit :
    (n d : ℕ) (cs : Text)
    → d < 10
    → digits_from 10 n ((b'0' + d) ∷ cs) ≡ digits_from 10 (n * 10 + d) cs
unfolding digits_from
digits_from-digit n d cs lt =
    let small : ltb d 10 ≡ true = ground (arith, lt) in
    rw (digit_of-digit d lt, digits_from) (rw small refl)

digits_from-decimal_from :
    (fuel n : ℕ) (back : Text)
    → n < fuel
    → digits_from 10 0 (decimal_from fuel n back) ≡ digits_from 10 n back
unfolding decimal_from
digits_from-decimal_from zero n back lt = absurd (omega arith)
digits_from-decimal_from (suc fuel) n back lt = elim (Bool-cases (ltb n 10)) [
  | inl e ↦
      let same : 0 * 10 + n % 10 ≡ n = ground arith in
      rw e (digits_from-digit 0 (n % 10) back (omega arith) ∙ ap (λ k. digits_from 10 k back) same)
  | inr e ↦
      let more : n / 10 < fuel = ground (arith, lt) in
      let same : n / 10 * 10 + n % 10 ≡ n = omega arith in
      rw e (
        digits_from-decimal_from fuel (n / 10) ((b'0' + n % 10) ∷ back) more
        ∙ digits_from-digit (n / 10) (n % 10) back (omega arith)
        ∙ ap (λ k. digits_from 10 k back) same)
]

decimal_from-IsNumber :
    (fuel n c : ℕ) (cs : Text) → AreDigits (c ∷ cs) → IsNumber (decimal_from fuel n (c ∷ cs))
unfolding decimal_from
decimal_from-IsNumber zero n c cs h = h
decimal_from-IsNumber (suc fuel) n c cs h =
    let all : AreDigits ((b'0' + n % 10) ∷ c ∷ cs) = ((n % 10, omega arith, refl), h) in
    elim (Bool-cases (ltb n 10)) [
      | inl e ↦ rw e all
      | inr e ↦ rw e (decimal_from-IsNumber fuel (n / 10) (b'0' + n % 10) (c ∷ cs) all)
    ]

pub decimal-IsNumber : (n : ℕ) → IsNumber (decimal n)
unfolding decimal decimal_from
decimal-IsNumber n =
    let all : AreDigits ((b'0' + n % 10) ∷ []) = ((n % 10, omega arith, refl), tt) in
    elim (Bool-cases (ltb n 10)) [
      | inl e ↦ rw e all
      | inr e ↦ rw e (decimal_from-IsNumber n (n / 10) (b'0' + n % 10) [] all)
    ]

digits_from-decimal : (n : ℕ) → digits_from 10 0 (decimal n) ≡ some n
unfolding decimal digits_from
digits_from-decimal n = digits_from-decimal_from (suc n) n [] (omega arith)

parse_digits-number :
    (bound n : ℕ) (s : Text)
    → IsNumber s
    → digits_from 10 0 s ≡ some n
    → n < bound
    → parse_digits bound 10 s ≡ some n
unfolding parse_digits below
parse_digits-number bound n [] h e lt = absurd h
parse_digits-number bound n (c ∷ cs) h e lt =
    let inside : ltb n bound ≡ true = ground (arith, lt) in
    rw (e, parse_digits, below) (rw inside refl)

-- Every number of `w` bits that is printed is parsed back.
pub parse_unsigned-decimal : (w n : ℕ) → n < 2 ^ w → parse_unsigned w 10 (decimal n) ≡ some n
unfolding parse_unsigned
parse_unsigned-decimal w n lt =
    parse_digits-number (2 ^ w) n (decimal n) (decimal-IsNumber n) (digits_from-decimal n) lt

parse_signed-number :
    (w n : ℕ) (s : Text)
    → IsNumber s
    → parse_digits (2 ^ (w - 1)) 10 s ≡ some n
    → parse_signed w 10 s ≡ some (pos n)
unfolding parse_signed
parse_signed-number w n [] h e = absurd h
parse_signed-number w n (c ∷ cs) ((d, lt, same), rest) e =
    let other : (c == b'-') ≡ false = ground (arith, same) in rw other (rw e refl)

pub parse_signed-decimal :
    (w n : ℕ) → n < 2 ^ (w - 1) → parse_signed w 10 (decimal n) ≡ some (pos n)
parse_signed-decimal w n lt = parse_signed-number w n (decimal n) (decimal-IsNumber n) (
    parse_digits-number (2 ^ (w - 1)) n (decimal n) (decimal-IsNumber n) (digits_from-decimal n) lt)
