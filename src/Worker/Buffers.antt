-- ===== src/Worker/Buffers.antt =====
-- The buffers of flashrelay/worker.go: `growReq` under `MaxReqLen`, and what a hook consumes.
use flash_relay.Base.{
  ℕ, zero, suc, ◌+◌, ◌-◌, ◌*◌, ◌≤◌, ◌<◌, ◌≡◌, refl, ap, List, [], ◌∷◌, ◌++◌, Option, none, some,
  ltb, leb, if◌then◌else◌, take, replicate, length, length-append, length-take, length-replicate,
  arith, if-rule,
}
use flash_relay.Worker.State.{Limits, Conn}
use flash_relay.Worker.Actions.{grow_req}

take-append {ℓ} :
    {A : Type ℓ} (n : ℕ) (xs ys : List A) → n ≤ length xs → take n (take n xs ++ ys) ≡ take n xs
take-append zero xs ys h = refl
take-append (suc n) [] ys h = absurd (omega arith)
take-append (suc n) (x ∷ xs) ys h = ap (λ t. x ∷ t) (take-append n xs ys (omega arith))

-- What `growReq` gives: room for another read within the cap, with the bytes so far in place; it
-- refuses a request that fills the cap.
pub Grown : Limits → Conn → Option Conn → Type 0
Grown lim c none = c.req_n ≡ lim.max_req_len
Grown lim c (some c') =
    (c.req_n < length c'.req_buf)
    × (length c'.req_buf ≤ lim.max_req_len)
    × (c'.req_n ≡ c.req_n)
    × (take c.req_n c'.req_buf ≡ take c.req_n c.req_buf)

-- A connection whose buffer is not empty, is within the cap and holds its request is grown so, or
-- its request fills the cap.
pub grow_req-Grown :
    (lim : Limits) (c : Conn)
    → 0 < length c.req_buf
    → length c.req_buf ≤ lim.max_req_len
    → c.req_n ≤ length c.req_buf
    → Grown lim c (grow_req lim c)
unfolding grow_req Grown
grow_req-Grown lim c some_room capped fits =
    let len = length c.req_buf in
    let size = if ltb lim.max_req_len (len * 2) then lim.max_req_len else len * 2 in
    let grown = take c.req_n c.req_buf ++ replicate (size - c.req_n) 0 in
    let measured : length grown ≡ c.req_n + (size - c.req_n) = omega (
      arith,
      length-append (take c.req_n c.req_buf) (replicate (size - c.req_n) 0),
      length-take c.req_n c.req_buf,
      length-replicate {A = ℕ} (size - c.req_n) 0,
    ) in
    if-rule (Grown lim c) (ltb c.req_n len) (λ room. (ground arith, capped, refl, refl))
      (λ full.
        if-rule (Grown lim c) (leb lim.max_req_len len) (λ at_cap. ground arith)
          (λ below. (
            ground (arith, measured),
            ground (arith, measured),
            refl,
            take-append c.req_n c.req_buf (replicate (size - c.req_n) 0) fits,
          )))
