-- ===== src/Gate/Storm/Spans.antt =====
-- research/gate/internal/storm/storm.go: what `ExpandTargets` makes of a target.
use flash_relay.Base.{
  ℕ, zero, suc, ◌+◌, ◌-◌, ◌≤◌, ◌<◌, ◌≡◌, ◌∙◌, refl, sym, ap, inl, inr, true, false, List, [], ◌∷◌,
  ◌++◌, Option, none, some, ltb, ◌==◌, length, arith, Bool-cases, Option-cases,
}
use mathlib.Core.List.{append_assoc}
use flash_relay.Base.Int.{ℤ, pos, negsuc, add_ℕ, ltb_ℤ, pos_part}
use flash_relay.Gate.Storm.{
  int_succ, ends, Expanded, expanded, empty_target, bad_target, bad_port, backwards, span_ports,
  addresses, expand_span, expand_ports, expand_targets,
}

-- Counting up by one and then by n is counting up by one more.
add_ℕ-suc : (a : ℤ) (n : ℕ) → add_ℕ (add_ℕ a 1) n ≡ add_ℕ a (suc n)
add_ℕ-suc (pos m) n = ap pos (omega arith)
add_ℕ-suc (negsuc zero) n =
    let up : ltb 0 (suc n) ≡ true = ground arith in rw up (ap pos (omega arith))
add_ℕ-suc (negsuc (suc m)) n =
    let down : ltb (suc m) 1 ≡ false = ground arith in
    let once : add_ℕ (negsuc (suc m)) 1 ≡ negsuc m = rw down (ap negsuc (omega arith)) in
    ap (λ z. add_ℕ z n) once ∙ elim (Bool-cases (ltb m n)) [
      | inl e ↦
          let e' : ltb (suc m) (suc n) ≡ true = ground (arith, e) in
          rw (e, e') (ap pos (omega arith))
      | inr e ↦
          let e' : ltb (suc m) (suc n) ≡ false = ground (arith, e) in
          rw (e, e') (ap negsuc (omega arith))
    ]

span-reached : (a b : ℤ) → ltb_ℤ b a ≡ false → (n : ℕ) × (b ≡ add_ℕ a n)
span-reached (pos m) (pos k) h = (k - m, ap pos (ground (arith, h)))
span-reached (pos m) (negsuc k) h = absurd (ground (arith, h))
span-reached (negsuc m) (pos k) h =
    let up : ltb m (k + suc m) ≡ true = ground arith in (k + suc m, rw up (ap pos (omega arith)))
span-reached (negsuc m) (negsuc k) h =
    let up : ltb m (m - k) ≡ false = ground (arith, h) in
    (m - k, rw up (ap negsuc (ground (arith, h))))

-- The end of a span is not below its start, and is below the next port.
end-reached : (a : ℤ) (n : ℕ) → ltb_ℤ (add_ℕ a n) a ≡ false
end-reached (pos m) n = ground arith
end-reached (negsuc m) n = elim (Bool-cases (ltb m n)) [
  | inl e ↦ rw e (ground arith)
  | inr e ↦ rw e (ground (arith, e))
]

next-above : (a : ℤ) → ltb_ℤ a (add_ℕ a 1) ≡ true
next-above (pos m) = ground arith
next-above (negsuc zero) = refl
next-above (negsuc (suc m)) =
    let down : ltb (suc m) 1 ≡ false = ground arith in rw down (ground arith)

add_ℕ-zero : (a : ℤ) → add_ℕ a 0 ≡ a
add_ℕ-zero (pos m) = ap pos (omega arith)
add_ℕ-zero (negsuc m) =
    let down : ltb m 0 ≡ false = ground arith in rw down (ap negsuc (omega arith))

grows : (a : ℤ) (n : ℕ) → pos_part a ≤ pos_part (add_ℕ a n)
grows (pos m) n = omega arith
grows (negsuc m) n = omega arith

int_succ-below : (a : ℤ) → pos_part a < 9223372036854775807 → int_succ a ≡ add_ℕ a 1
int_succ-below a h =
    let below : (pos_part a == 9223372036854775807) ≡ false = ground (arith, h) in rw below refl

module _ (address : List ℕ → ℤ → List ℕ) (host : List ℕ) where
  -- One round of the loop.
  round :
      (fuel n : ℕ) (a b : ℤ) (acc : List (List ℕ))
      → b ≡ add_ℕ a n
      → pos_part b < 9223372036854775807
      → span_ports address (suc fuel) host a b acc
        ≡ span_ports address fuel host (add_ℕ a 1) b (acc ++ address host a ∷ [])
  unfolding span_ports
  round fuel n a b acc e h =
      let on : ltb_ℤ b a ≡ false = ap (λ z. ltb_ℤ z a) e ∙ end-reached a n in
      let below : pos_part a < 9223372036854775807 = omega (arith, grows a n, ap pos_part e, h) in
      rw (span_ports, on, int_succ-below a below) refl

  span_ports-addresses :
      (n : ℕ) (a b : ℤ) (acc : List (List ℕ))
      → b ≡ add_ℕ a n
      → pos_part b < 9223372036854775807
      → span_ports address (suc (suc n)) host a b acc
        ≡ some (acc ++ addresses address host a (suc n))
  unfolding span_ports
  span_ports-addresses zero a b acc e h =
      let over : ltb_ℤ b (add_ℕ a 1) ≡ true =
        ap (λ z. ltb_ℤ z (add_ℕ a 1)) (e ∙ add_ℕ-zero a) ∙ next-above a in
      round 1 0 a b acc e h ∙ rw (span_ports, over) refl
  span_ports-addresses (suc n) a b acc e h =
      round (suc (suc n)) (suc n) a b acc e h
      ∙ span_ports-addresses n (add_ℕ a 1) b (acc ++ address host a ∷ []) (e ∙ sym (add_ℕ-suc a n))
          h
      ∙ ap some
          (append_assoc acc (address host a ∷ []) (addresses address host (add_ℕ a 1) (suc n)))

module _ (trim : List ℕ → List ℕ) (split : List ℕ → Option (List ℕ × List ℕ))
    (atoi : List ℕ → Option ℤ) (address : List ℕ → ℤ → List ℕ) where
  -- What a target comes to: its addresses, or the first thing that is wrong with it.
  pub data Expands (spec : List ℕ) : Expanded → Type 0 where
    nothing : length (trim spec) ≡ 0 → Expands spec empty_target
    no_port : split (trim spec) ≡ none → Expands spec bad_target
    no_start :
        {host port : List ℕ}
        → split (trim spec) ≡ some (host, port)
        → atoi (ends port).0 ≡ none
        → Expands spec (bad_port (ends port).0)
    no_end :
        {host port : List ℕ} {a : ℤ}
        → split (trim spec) ≡ some (host, port)
        → atoi (ends port).0 ≡ some a
        → atoi (ends port).1 ≡ none
        → Expands spec (bad_port (ends port).1)
    crossed :
        {host port : List ℕ} {a b : ℤ}
        → split (trim spec) ≡ some (host, port)
        → atoi (ends port).0 ≡ some a
        → atoi (ends port).1 ≡ some b
        → ltb_ℤ b a ≡ true
        → Expands spec (backwards a b)
    all_of :
        {host port : List ℕ} {a : ℤ} (n : ℕ)
        → split (trim spec) ≡ some (host, port)
        → atoi (ends port).0 ≡ some a
        → atoi (ends port).1 ≡ some (add_ℕ a n)
        → Expands spec (expanded (addresses address host a (suc n)))

  -- Whatever the standard library's functions answer, where an end port lies below the largest int of
  -- 64 bits: the expansion ends, and gives the addresses of all ports from the start to the end, in
  -- order and each once, or the first thing that is wrong with the target.
  pub expand_targets-Expands :
      (spec : List ℕ)
      → ((host port : List ℕ) (b : ℤ)
          → split (trim spec) ≡ some (host, port)
          → atoi (ends port).1 ≡ some b
          → pos_part b < 9223372036854775807)
      → (fuel : ℕ) × (r : Expanded) × (expand_targets trim split atoi address fuel spec ≡ some r)
        × Expands spec r
  unfolding expand_targets
  expand_targets-Expands spec small = elim (Bool-cases (length (trim spec) == 0)) [
    | inl blank ↦ (0, empty_target, rw blank refl, nothing (ground (arith, blank)))
    | inr named ↦ elim (Option-cases (split (trim spec))) [
      | inl e ↦ (0, bad_target, rw (named, e) refl, no_port e)
      | inr ((host, port), e) ↦ elim (Option-cases (atoi (ends port).0)) [
        | inl e1 ↦ (0, bad_port (ends port).0, rw (named, e, expand_ports, e1) refl, no_start e e1)
        | inr (a, e1) ↦ elim (Option-cases (atoi (ends port).1)) [
          | inl e2 ↦
              (0, bad_port (ends port).1, rw (named, e, expand_ports, e1, e2) refl, no_end e e1 e2)
          | inr (b, e2) ↦ elim (Bool-cases (ltb_ℤ b a)) [
            | inl over ↦ (
              0,
              backwards a b,
              rw (named, e, expand_ports, e1, e2, expand_span, over) refl,
              crossed e e1 e2 over,
            )
            | inr on ↦
                let (n, reached) = span-reached a b on in
                (
                  suc (suc n),
                  expanded (addresses address host a (suc n)),
                  rw
                      (
                        named,
                        e,
                        expand_ports,
                        e1,
                        e2,
                        expand_span,
                        on,
                        span_ports-addresses address host n a b [] reached (small host port b e e2),
                      )
                      refl,
                  all_of n e e1 (e2 ∙ ap some reached),
                )
          ]
        ]
      ]
    ]
  ]
