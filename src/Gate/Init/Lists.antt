-- ===== src/Gate/Init/Lists.antt =====
-- research/gate/internal/hook/hook.go: what `Init` makes of the configured list of upstreams.
use flash_relay.Base.{
  ℕ, ◌<◌, ◌≡◌, ◌⊎◌, ◌∙◌, refl, sym, ap, inl, inr, Bool, true, false, List, [], ◌∷◌, ◌++◌, Option,
  none, some, ◌==◌, if◌then◌else◌, length, arith, if-rule, Bool-cases, Option-cases,
}
use mathlib.Core.Path.{subst}
use mathlib.Core.List.{append-nil, append_assoc}
use flash_relay.Base.Int.{ℤ}
use flash_relay.Gate.Sink.{SinkTarget, Config}
use flash_relay.Gate.Init.{
  InitError, bad_port, not_an_ip, Init, failed, targets, check_ip, entry_target, read_targets, init,
}

module _ (split : List ℕ → Option (List ℕ × List ℕ)) (atoi : List ℕ → Option ℤ)
    (is_ip : List ℕ → Bool) where
  -- The target that an entry stands for: an address with the common port, or with its own.
  pub data Given (port : ℤ) (entry : List ℕ) : SinkTarget → Type 0 where
    bare :
        split entry ≡ none
        → is_ip entry ≡ true
        → Given port entry (record { ip = entry; base = port })
    ported :
        {ip text : List ℕ} {n : ℤ}
        → split entry ≡ some (ip, text)
        → atoi text ≡ some n
        → is_ip ip ≡ true
        → Given port entry (record { ip = ip; base = n })

  -- What is wrong with an entry.
  pub data Refused (entry : List ℕ) : InitError → Type 0 where
    no_number :
        {ip text : List ℕ}
        → split entry ≡ some (ip, text)
        → atoi text ≡ none
        → Refused entry (bad_port entry)
    no_address : split entry ≡ none → is_ip entry ≡ false → Refused entry (not_an_ip entry)
    no_ported_address :
        {ip text : List ℕ} {n : ℤ}
        → split entry ≡ some (ip, text)
        → atoi text ≡ some n
        → is_ip ip ≡ false
        → Refused entry (not_an_ip entry)

  abbrev pub Reads : ℤ → List (List ℕ) → List SinkTarget → Type 0
  Reads port [] [] = Unit {0}
  Reads port [] (t ∷ ts) = ⊥
  Reads port (e ∷ es) [] = ⊥
  Reads port (e ∷ es) (t ∷ ts) = Given port e t × Reads port es ts

-- The entries that are not blank, trimmed.
abbrev pub named : (List ℕ → List ℕ) → List (List ℕ) → List (List ℕ)
named trim [] = []
named trim (e ∷ es) =
    let rest = named trim es in if length (trim e) == 0 then rest else trim e ∷ rest

module _ (trim : List ℕ → List ℕ) (split : List ℕ → Option (List ℕ × List ℕ))
    (atoi : List ℕ → Option ℤ) (is_ip : List ℕ → Bool) where
  -- One round adds the target that its entry stands for, or says what is wrong with the entry.
  abbrev Round : ℤ → List ℕ → List SinkTarget → Init → Type 0
  Round port entry acc (failed x) = Refused split atoi is_ip entry x
  Round port entry acc (targets ts) =
      (t : SinkTarget) × (ts ≡ acc ++ t ∷ []) × Given split atoi is_ip port entry t

  entry_target-Round :
      (port : ℤ) (entry : List ℕ) (acc : List SinkTarget)
      → Round port entry acc (entry_target trim split atoi is_ip port entry acc)
  entry_target-Round port entry acc = elim (Option-cases (split entry)) [
    | inl e ↦
        turned {i = check_ip trim split atoi is_ip entry entry port acc} (rw (e, entry_target) refl)
          (if-rule (Round port entry acc) (is_ip entry) (λ yes. (_, refl, bare e yes))
            (λ no. no_address e no))
    | inr ((ip, text), e) ↦ elim (Option-cases (atoi text)) [
      | inl e1 ↦
          turned {i = failed (bad_port entry)} (rw (e, entry_target, e1) refl) (no_number e e1)
      | inr (n, e1) ↦
          turned {i = check_ip trim split atoi is_ip entry ip n acc} (rw (e, entry_target, e1) refl)
            (if-rule (Round port entry acc) (is_ip ip) (λ yes. (_, refl, ported e e1 yes))
              (λ no. no_ported_address e e1 no))
    ]
  ]
    where
      turned :
          {i : Init}
          → entry_target trim split atoi is_ip port entry acc ≡ i
          → Round port entry acc i
          → Round port entry acc (entry_target trim split atoi is_ip port entry acc)
      turned same h = subst (Round port entry acc) (sym same) h

  -- The loop: the targets of the entries, in order, or the first entry that is refused.
  abbrev Refusal : ℤ → List (List ℕ) → InitError → Type 0
  Refusal port es x =
      (before : List (List ℕ)) × (e : List ℕ) × (after : List (List ℕ)) × (ms : List SinkTarget)
      × (named trim es ≡ before ++ e ∷ after)
      × Reads split atoi is_ip port before ms
      × Refused split atoi is_ip e x

  abbrev Faithful : ℤ → List (List ℕ) → List SinkTarget → Init → Type 0
  Faithful port es acc (failed x) = Refusal port es x
  Faithful port es acc (targets ts) =
      (ms : List SinkTarget) × (ts ≡ acc ++ ms) × Reads split atoi is_ip port (named trim es) ms

  blank_first :
      (port : ℤ) (e : List ℕ) (es : List (List ℕ)) (acc : List SinkTarget) (r : Init)
      → (length (trim e) == 0) ≡ true
      → Faithful port es acc r
      → Faithful port (e ∷ es) acc r
  blank_first port e es acc (failed x) blank h = rw blank h
  blank_first port e es acc (targets ts) blank h = rw blank h

  target_first :
      (port : ℤ) (e : List ℕ) (es : List (List ℕ)) (acc : List SinkTarget) (t : SinkTarget)
      → (length (trim e) == 0) ≡ false
      → Given split atoi is_ip port (trim e) t
      → (r : Init) → Faithful port es (acc ++ t ∷ []) r
      → Faithful port (e ∷ es) acc r
  target_first port e es acc t full given (failed x) (b, f, a, ms, cut, reads, bad) =
      (trim e ∷ b, f, a, t ∷ ms, rw full (ap (λ xs. trim e ∷ xs) cut), (given, reads), bad)
  target_first port e es acc t full given (targets ts) (ms, joined, reads) =
      (t ∷ ms, joined ∙ append_assoc acc (t ∷ []) ms, rw full (given, reads))

  read_targets-Faithful :
      (port : ℤ) (es : List (List ℕ)) (acc : List SinkTarget)
      → Faithful port es acc (read_targets trim split atoi is_ip port es acc)
  unfolding read_targets
  read_targets-Faithful port [] acc = ([], sym (append-nil acc), tt)
  read_targets-Faithful port (e ∷ es) acc = elim (Bool-cases (length (trim e) == 0)) [
    | inl blank ↦ rw blank (
        blank_first port e es acc (read_targets trim split atoi is_ip port es acc) blank
          (read_targets-Faithful port es acc))
    | inr full ↦ rw full (
        next full (entry_target trim split atoi is_ip port (trim e) acc)
          (entry_target-Round port (trim e) acc) (read_targets-Faithful port es))
  ]
    where
      next :
          (length (trim e) == 0) ≡ false
          → (i : Init) → Round port (trim e) acc i
          → ((more : List SinkTarget)
              → Faithful port es more (read_targets trim split atoi is_ip port es more))
          → Faithful port (e ∷ es) acc (elim i as (λ _. Init) [
            | failed x ↦ failed x
            | targets more ↦ read_targets trim split atoi is_ip port es more
          ])
      next full (failed x) bad rest = ([], trim e, named trim es, [], rw full refl, tt, bad)
      next full (targets more) (t, joined, given) rest =
          target_first port e es acc t full given (read_targets trim split atoi is_ip port es more)
            (subst (λ xs. Faithful port es xs (read_targets trim split atoi is_ip port es more))
              joined (rest more))

  -- What `Init` leaves: the targets of the list, or the single one where the list names none.
  abbrev pub Upstreams : Config → List (List ℕ) → Init → Type 0
  Upstreams c sink_ips (failed x) = Refusal c.sink_port sink_ips x
  Upstreams c sink_ips (targets ts) =
      ((0 < length ts) × Reads split atoi is_ip c.sink_port (named trim sink_ips) ts)
      ⊎ ((named trim sink_ips ≡ []) × (ts ≡ record { ip = c.sink_ip; base = c.sink_port } ∷ []))

  -- Whatever the standard library's functions answer: `Init` leaves the targets that the entries of the
  -- list stand for, blank ones apart, in order, where there is one; it leaves the single configured
  -- target where every entry is blank; and it fails for the first entry whose port is no number or
  -- whose address is none, after others that stand for targets.
  pub init-Upstreams :
      (c : Config) (sink_ips : List (List ℕ))
      → Upstreams c sink_ips (init trim split atoi is_ip c sink_ips)
  unfolding init
  init-Upstreams c sink_ips =
      judged (read_targets trim split atoi is_ip c.sink_port sink_ips [])
        (read_targets-Faithful c.sink_port sink_ips [])
    where
      none_named : (es : List (List ℕ)) → Reads split atoi is_ip c.sink_port es [] → es ≡ []
      none_named [] h = refl
      none_named (e ∷ es) h = absurd h

      judged :
          (i : Init)
          → Faithful c.sink_port sink_ips [] i
          → Upstreams c sink_ips (elim i as (λ _. Init) [
            | failed x ↦ failed x
            | targets ts ↦
                if length ts == 0
                then targets (record { ip = c.sink_ip; base = c.sink_port } ∷ [])
                else targets ts
          ])
      judged (failed x) h = h
      judged (targets []) (ms, same, reads) = inr (
        none_named (named trim sink_ips)
            (subst (Reads split atoi is_ip c.sink_port (named trim sink_ips)) (sym same) reads),
        refl,
      )
      judged (targets (t ∷ ts)) (ms, same, reads) =
          let some_left : (length (t ∷ ts) == 0) ≡ false = ground arith in
          rw some_left (
            inl (
              omega arith,
              subst (Reads split atoi is_ip c.sink_port (named trim sink_ips)) (sym same) reads,
            ))
