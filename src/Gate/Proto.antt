-- ===== src/Gate/Proto.antt =====
-- research/gate/internal/proto/proto.go: the request and reply patterns, and their comparison.
use flash_relay.Base.{
  ℕ, zero, suc, ◌+◌, ◌*◌, ◌%◌, ◌≡◌, ◌↔◌, refl, ap, Bool, true, false, List, [], ◌∷◌, ◌==◌,
  if◌then◌else◌, length, arith,
}

abbrev pub req_seed : ℕ
req_seed = 0xA5

abbrev pub reply_seed : ℕ
reply_seed = 0x3C

-- `byte(i*131 + seed*7 + 17)`
abbrev pub pattern_byte : ℕ → ℕ → ℕ
pattern_byte i seed = (i * 131 + seed * 7 + 17) % 256

-- The bytes from an index on, `n` of them.
unfoldable pub fill_from : ℕ → ℕ → ℕ → List ℕ
fill_from i zero seed = []
fill_from i (suc n) seed = pattern_byte i seed ∷ fill_from (suc i) n seed

abbrev pub fill : ℕ → ℕ → List ℕ
fill = fill_from 0

abbrev pub request : ℕ → List ℕ
request n = fill n req_seed

abbrev pub reply : ℕ → List ℕ
reply n = fill n reply_seed

-- The loop over `want`; `got` is as long.
unfoldable pub equal_bytes : List ℕ → List ℕ → Bool
equal_bytes got [] = true
equal_bytes [] (w ∷ want) = false
equal_bytes (g ∷ got) (w ∷ want) = let rest = equal_bytes got want in if g == w then rest else false

unfoldable pub equal : List ℕ → List ℕ → Bool
equal got want = if length got == length want then equal_bytes got want else false

equal_bytes→eq :
    (got want : List ℕ) → length got ≡ length want → equal_bytes got want ≡ true → got ≡ want
unfolding equal_bytes
equal_bytes→eq [] [] l h = refl
equal_bytes→eq [] (w ∷ want) l h = absurd (omega arith)
equal_bytes→eq (g ∷ got) [] l h = absurd (omega arith)
equal_bytes→eq (g ∷ got) (w ∷ want) l h =
    let same : g ≡ w = ground (arith, h) in
    let rest : got ≡ want = equal_bytes→eq got want (omega (arith, l)) (ground (arith, h)) in
    rw (same, rest) refl

equal_bytes_refl : (want : List ℕ) → equal_bytes want want ≡ true
unfolding equal_bytes
equal_bytes_refl [] = refl
equal_bytes_refl (w ∷ want) = ground (arith, equal_bytes_refl want)

-- `Equal` holds of the same bytes, and of nothing else.
pub equal_iff : (got want : List ℕ) → (equal got want ≡ true) ↔ (got ≡ want)
unfolding equal
equal_iff got want = (to, from)
  where
    to : equal got want ≡ true → got ≡ want
    to h = equal_bytes→eq got want (ground (arith, h)) (ground (arith, h))

    from : got ≡ want → equal got want ≡ true
    from h =
        rw (ap (λ (l : List ℕ). if length l == length want then equal_bytes l want else false) h)
          (ground (arith, equal_bytes_refl want))

-- The audit tells a reply from an echo of the request: of one byte or more, the patterns differ.
pub reply-request : (n : ℕ) → equal (request (suc n)) (reply (suc n)) ≡ false
unfolding equal fill_from equal_bytes
reply-request n = ground arith
