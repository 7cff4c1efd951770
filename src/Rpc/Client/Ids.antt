-- ===== src/Rpc/Client/Ids.antt =====
-- The ids of the requests of a client are distinct as long as its counter has not wrapped.
use adbfsm.Prelude.{
  ℕ, ◌+◌, ◌%◌, ◌^◌, ◌<◌, ◌≤◌, ◌≡◌, refl, sym, subst, true, Option, none, some, ◌⊎◌, inl, inr,
  Bool-cases, List, [], ◌∷◌, arith,
}
use adbfsm.Rpc.Wire.{Endian}
use adbfsm.Rpc.Request.{Request}
use adbfsm.Rpc.Frame.{request_message}
use adbfsm.Rpc.Client.{Client, Sending, refused, sent, enotconn, extract, emplace, send_req}

-- Every pending id is in 1 … n.
abbrev pub Within : ℕ → List ℕ → Type 0
Within n [] = Unit {0}
Within n (id ∷ rest) = (0 < id) × (id ≤ n) × Within n rest

extract_above :
    (id n : ℕ) (pending : List ℕ) → Within n pending → n < id → extract id pending ≡ none
unfolding extract
extract_above id n [] w lt = refl
extract_above id n (other ∷ rest) w lt = ground (arith, extract_above id n rest w.2)

Within-mono : (m n : ℕ) (pending : List ℕ) → Within m pending → m ≤ n → Within n pending
Within-mono m n [] w le = tt
Within-mono m n (id ∷ rest) w le = (w.0, omega arith, Within-mono m n rest w.2 le)

emplace_free :
    (id : ℕ) (pending : List ℕ) → extract id pending ≡ none → emplace id pending ≡ id ∷ pending
unfolding emplace
emplace_free id pending h = rw (h, emplace)

-- What a call of `send_req` may do to a client: it returns an error and leaves the promises as they are,
-- or it sends the request under an id that no promise has, and registers a promise for just that id.
abbrev pub Sends : Endian → Request → Client → Client × Sending → Type 0
Sends h r c (c', o) =
    Within c'.counter c'.pending
    × (((errc : ℕ) × (o ≡ refused errc) × (c'.pending ≡ c.pending))
        ⊎ ((id : ℕ) × (o ≡ sent id (request_message h id r))
            × (extract id c.pending ≡ none)
            × (c'.pending ≡ id ∷ c.pending)))

sent_fresh :
    (h : Endian) (r : Request) (c : Client)
    → c.running ≡ true
    → c.counter + 1 < 2 ^ 32
    → Within c.counter c.pending
    → Sends h r c (send_req h none r c)
sent_fresh h r c runs small w =
    let id : ℕ = c.counter + 1 in
    let kept : (c.counter + 1) % 2 ^ 32 ≡ id = omega arith in
    let free : extract id c.pending ≡ none = extract_above id c.counter c.pending w (omega arith) in
    let registered : emplace id c.pending ≡ id ∷ c.pending = emplace_free id c.pending free in
    let both : emplace ((c.counter + 1) % 2 ^ 32) c.pending ≡ id ∷ c.pending =
      subst (λ n. emplace n c.pending ≡ id ∷ c.pending) (sym kept) registered in
    let done : Client × Sending =
      (record c { counter = id; pending = id ∷ c.pending }, sent id (request_message h id r)) in
    let is_done : send_req h none r c ≡ done = unfold send_req in rw (both, kept, runs) in
    subst (Sends h r c) (sym is_done) (
      (omega arith, omega arith, Within-mono c.counter id c.pending w (omega arith)),
      inr (id, refl, free, refl),
    )

-- For a client whose promises have ids from one to its counter, which has not reached its greatest value,
-- whether it runs or not and whether the channel takes the message or not: `send_req` returns an error
-- and registers no promise, or it sends the request under an id that no promise has and registers a
-- promise for just that id; and the promises again have ids from one to the counter.
pub send_req_fresh :
    (h : Endian) (failure : Option ℕ) (r : Request) (c : Client)
    → c.counter + 1 < 2 ^ 32
    → Within c.counter c.pending
    → Sends h r c (send_req h failure r c)
send_req_fresh h none r c small w = elim (Bool-cases c.running) [
  | inr stopped ↦ unfold send_req in rw stopped (w, inl (enotconn, refl, refl))
  | inl runs ↦ sent_fresh h r c runs small w
]
send_req_fresh h (some errc) r c small w = elim (Bool-cases c.running) [
  | inr stopped ↦ unfold send_req in rw stopped (w, inl (enotconn, refl, refl))
  | inl runs ↦
      let kept : (c.counter + 1) % 2 ^ 32 ≡ c.counter + 1 = omega arith in
      unfold send_req in
      rw (runs, kept)
        (Within-mono c.counter (c.counter + 1) c.pending w (omega arith), inl (errc, refl, refl))
]
