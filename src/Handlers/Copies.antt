-- ===== src/Handlers/Copies.antt =====
-- What the handler of `copy_file_range` copies.
use adbfsm.Prelude.{
  ℕ, zero, suc, ℤ, ◌+◌, ◌<◌, ◌≡◌, ap, ◌∙◌, true, some, List, [], ◌∷◌, length, arith,
}
use adbfsm.Split.{Text}
use adbfsm.Rpc.Request
use adbfsm.Rpc.Response
use adbfsm.Handlers.{System, done, ◌>>=◌, ◌>>◌, pure, deferred, or_fail, call, check}
use adbfsm.Handlers.Calls.{handle, copy_file_range, copy_loop, copy_size}

-- How much was written in all rounds.
abbrev pub total : List (List ℕ × ℕ) → ℕ
total [] = 0
total ((bytes, count) ∷ rounds) = count + total rounds

module _ (S : System) where
  -- From `s` the input has these parts up to its end, and of each part so much is written.
  abbrev pub Copies : ℕ → ℕ → S.State → List (List ℕ × ℕ) → S.State → Type 0
  Copies in_fd out_fd s [] s' = S.read s in_fd copy_size ≡ (some [], s')
  Copies in_fd out_fd s ((bytes, count) ∷ rounds) s' =
      (b : ℕ) × (bs : List ℕ) × (s1 : S.State) × (s2 : S.State) × (bytes ≡ b ∷ bs)
      × (S.read s in_fd copy_size ≡ (some (b ∷ bs), s1))
      × (S.write s1 out_fd (b ∷ bs) ≡ (some count, s2))
      × Copies in_fd out_fd s2 rounds s'

  copy_loop-Copies :
      (fuel in_fd out_fd copied : ℕ) (s s' : S.State) (rounds : List (List ℕ × ℕ))
      → length rounds < fuel
      → Copies in_fd out_fd s rounds s'
      → copy_loop S fuel in_fd out_fd copied s ≡ (done (copied + total rounds), s')
  unfolding copy_loop ◌>>=◌ call or_fail pure
  copy_loop-Copies zero in_fd out_fd copied s s' rounds lt h = absurd (omega arith)
  copy_loop-Copies (suc fuel) in_fd out_fd copied s s' [] lt h =
      let e : copied ≡ copied + 0 = omega arith in rw h (ap (λ n. (done n, s')) e)
  copy_loop-Copies (suc fuel) in_fd out_fd copied s s' ((bytes, count) ∷ rounds) lt
        (b, bs, s1, s2, same, reads, writes, rest) =
      let e : copied + count + total rounds ≡ copied + (count + total rounds) = omega arith in
      rw reads (
        rw writes (
          copy_loop-Copies fuel in_fd out_fd (copied + count) s2 s' rounds (omega arith) rest
          ∙ ap (λ n. (done n, s')) e))

  -- If both files are opened and their positions set, and the input is read in parts up to its end and
  -- written, the handler replies with how much was written of all of them, whatever size the request has:
  -- it copies up to the end of the input.
  pub whole_input :
      (fuel : ℕ) (from : Text) (from_offset : ℤ) (to : Text) (to_offset : ℤ) (size in_fd out_fd : ℕ)
      (s s1 s2 s3 s4 s5 : S.State) (rounds : List (List ℕ × ℕ))
      → S.open_read s from ≡ (some in_fd, s1)
      → S.seek s1 in_fd from_offset ≡ (true, s2)
      → S.open_write s2 to ≡ (some out_fd, s3)
      → S.seek s3 out_fd to_offset ≡ (true, s4)
      → Copies in_fd out_fd s4 rounds s5
      → length rounds < fuel
      → (handle S fuel (Request.copy_file_range from from_offset to to_offset size) s).0
        ≡ done (Response.copy_file_range (total rounds))
  unfolding handle copy_file_range ◌>>=◌ ◌>>◌ call check or_fail pure deferred
  whole_input fuel from from_offset to to_offset size in_fd out_fd s s1 s2 s3 s4 s5 rounds opened
        sought opened' sought' copies enough =
      let none_before : 0 + total rounds ≡ total rounds = omega arith in
      rw opened (
        rw sought (
          rw opened' (
            rw sought' (
              rw (copy_loop-Copies fuel in_fd out_fd 0 s4 s5 rounds enough copies)
                (ap (λ n. done (Response.copy_file_range n)) none_before)))))
