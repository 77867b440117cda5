-- ===== src/Relay/Options.antt =====
-- research/gate/cmd/relay-uring/main.go: `parseCSV`, the core list of `main`, and the core of a worker.
-- `strings.Split` at the commas, `strings.TrimSpace` and `strconv.Atoi` are parameters.
use flash_relay.Base.{
  ℕ, zero, suc, ◌≤◌, ◌<◌, ◌≡◌, ◌≢◌, ◌∙◌, refl, sym, ap, inl, inr, true, false, List, [], ◌∷◌, ◌++◌,
  Option, none, some, arith, ltb, ◌==◌, if◌then◌else◌, length, get_elem?, if-rule, lt→ltb, ltb→lt,
  Bool-cases, Option-cases,
}
use mathlib.Core.Path.{subst}
use mathlib.Core.List.{append-nil, append_assoc}
use flash_relay.Base.Int.{ℤ, negsuc, add_ℕ, is_neg}

module _ (trim : List ℕ → List ℕ) where
  -- `parseCSV`, from the fields between the commas on.
  unfoldable pub parse_csv : List (List ℕ) → List (List ℕ)
  parse_csv [] = []
  parse_csv (f ∷ fs) =
      let rest = parse_csv fs in if length (trim f) == 0 then rest else trim f ∷ rest

pub data Cores : Type 0 where
  cores : List ℤ → Cores
  bad_core : List ℕ → Cores  -- `log.Fatalf("-cores: bad core …")`
  too_few : ℕ → Cores  -- `log.Fatalf("-cores has … cores for … workers")`

-- `if len(cores) < *workers`
abbrev enough : ℕ → Cores → Cores
enough workers (cores ns) = if ltb (length ns) workers then too_few (length ns) else cores ns
enough workers (bad_core f) = bad_core f
enough workers (too_few n) = too_few n

module _ (trim : List ℕ → List ℕ) (atoi : List ℕ → Option ℤ) where
  -- The loop over the fields; the core that is refused ends the program.
  unfoldable pub read_cores : List (List ℕ) → List ℤ → Cores
  read_cores [] acc = cores acc
  read_cores (f ∷ fs) acc =
      let skip = read_cores fs acc in
      let next = λ (n : ℤ). read_cores fs (acc ++ n ∷ []) in
      if length (trim f) == 0
      then skip
      else elim (atoi (trim f)) [ none ↦ bad_core (trim f) | some n ↦ next n ]

  -- `if *coreList != ""`, for the list of that text's fields; an empty text leaves no core.
  unfoldable pub core_list : List ℕ → List (List ℕ) → ℕ → Cores
  core_list text fields workers =
      if length text == 0 then cores [] else enough workers (read_cores fields [])

-- The core of worker i; `none` where the index is out of range and the program panics.
unfoldable pub core_of : List ℤ → ℤ → ℕ → Option ℤ
core_of ns start_core i =
    if ltb 0 (length ns)
    then get_elem? ns i
    else if is_neg start_core
    then some (negsuc 0)
    else some (add_ℕ start_core i)

-- Every name is read to its core.
abbrev pub Reads : (List ℕ → Option ℤ) → List (List ℕ) → List ℤ → Type 0
Reads atoi [] [] = Unit {0}
Reads atoi [] (n ∷ ns) = ⊥
Reads atoi (f ∷ fs) [] = ⊥
Reads atoi (f ∷ fs) (n ∷ ns) = (atoi f ≡ some n) × Reads atoi fs ns

module _ (trim : List ℕ → List ℕ) (atoi : List ℕ → Option ℤ) where
  -- What a reading promises: the cores of the names that are not blank, in order, or the first name
  -- that is no number.
  abbrev pub Faithful : List (List ℕ) → List ℤ → Cores → Type 0
  Faithful fields acc (cores ns) =
      (ms : List ℤ) × (ns ≡ acc ++ ms) × Reads atoi (parse_csv trim fields) ms
  Faithful fields acc (bad_core f) =
      (before : List (List ℕ)) × (after : List (List ℕ)) × (ms : List ℤ) × (parse_csv trim fields
        ≡ before ++ f ∷ after)
      × Reads atoi before ms
      × (atoi f ≡ none)
  Faithful fields acc (too_few n) = ⊥

  read_cores-Faithful :
      (fields : List (List ℕ)) (acc : List ℤ)
      → Faithful fields acc (read_cores trim atoi fields acc)
  unfolding read_cores parse_csv
  read_cores-Faithful [] acc = ([], sym (append-nil acc), tt)
  read_cores-Faithful (f ∷ fs) acc = elim (Bool-cases (length (trim f) == 0)) [
    | inl blank ↦ rw blank (same (read_cores trim atoi fs acc) blank (read_cores-Faithful fs acc))
    | inr named ↦ rw named (elim (Option-cases (atoi (trim f))) [
      | inl e ↦ rw e ([], parse_csv trim fs, [], rw named refl, tt, e)
      | inr (n, e) ↦ rw e (
          longer (read_cores trim atoi fs (acc ++ n ∷ [])) named e
            (read_cores-Faithful fs (acc ++ n ∷ [])))
    ])
  ]
    where
      same :
          (r : Cores) → (length (trim f) == 0) ≡ true → Faithful fs acc r → Faithful (f ∷ fs) acc r
      same (cores ns) blank h = rw blank h
      same (bad_core g) blank h = rw blank h
      same (too_few n) blank h = h

      longer :
          {n : ℤ} (r : Cores)
          → (length (trim f) == 0) ≡ false
          → atoi (trim f) ≡ some n
          → Faithful fs (acc ++ n ∷ []) r
          → Faithful (f ∷ fs) acc r
      longer {n} (cores ns) named e (ms, joined, reads) =
          (n ∷ ms, joined ∙ append_assoc acc (n ∷ []) ms, rw named (e, reads))
      longer {n} (bad_core g) named e (b, a, ms, cut, reads, no_number) =
          (trim f ∷ b, a, n ∷ ms, rw named (ap (λ xs. trim f ∷ xs) cut), (e, reads), no_number)
      longer (too_few k) named e h = h

module _ (trim : List ℕ → List ℕ) (atoi : List ℕ → Option ℤ) where
  -- What the core list comes to for so many workers.
  abbrev pub Chosen : List ℕ → List (List ℕ) → ℕ → Cores → Type 0
  Chosen text fields workers (cores ns) =
      (length text ≢ 0 → Reads atoi (parse_csv trim fields) ns)
      × ((start : ℤ) (i : ℕ) → i < workers → core_of ns start i ≢ none)
  Chosen text fields workers (bad_core f) =
      (before : List (List ℕ)) × (after : List (List ℕ)) × (ms : List ℤ) × (parse_csv trim fields
        ≡ before ++ f ∷ after)
      × Reads atoi before ms
      × (atoi f ≡ none)
  Chosen text fields workers (too_few n) =
      (ms : List ℤ) × Reads atoi (parse_csv trim fields) ms × (length ms ≡ n) × (n < workers)

  in_range : (ns : List ℤ) (i : ℕ) → i < length ns → get_elem? ns i ≢ none
  in_range [] i h = absurd (omega arith)
  in_range (n ∷ ns) zero h = λ e. cc e
  in_range (n ∷ ns) (suc i) h = in_range ns i (omega arith)

  placed :
      (ns : List ℤ) (workers : ℕ)
      → workers ≤ length ns
      → (start : ℤ) (i : ℕ) → i < workers
      → core_of ns start i ≢ none
  unfolding core_of
  placed ns workers enough_cores start i h =
      let some_core : ltb 0 (length ns) ≡ true = lt→ltb 0 (length ns) (omega arith) in
      rw some_core (in_range ns i (omega arith))

  unlisted : (start : ℤ) (i : ℕ) → core_of [] start i ≢ none
  unfolding core_of
  unlisted start i = if-rule (λ (o : Option ℤ). o ≢ none) (is_neg start) (λ _ e. cc e) (λ _ e. cc e)

  -- Whatever the standard library's functions answer: a core list that is accepted gives every worker a
  -- core, and is, where the text is not empty, the cores of the names between the commas that are not
  -- blank, in order. A list is refused for the first such name that is no number, or for giving fewer
  -- cores than there are workers.
  pub core_list-Chosen :
      (text : List ℕ) (fields : List (List ℕ)) (workers : ℕ)
      → Chosen text fields workers (core_list trim atoi text fields workers)
  unfolding core_list
  core_list-Chosen text fields workers =
      if-rule (Chosen text fields workers) (length text == 0)
        (λ empty. ((λ ne. absurd (ne (ground (arith, empty)))), λ start i h. unlisted start i))
        (λ _. judged (read_cores trim atoi fields []) (read_cores-Faithful trim atoi fields []))
    where
      judged :
          (r : Cores)
          → Faithful trim atoi fields [] r
          → Chosen text fields workers (enough workers r)
      judged (cores ns) (ms, same, reads) =
          let reads' : Reads atoi (parse_csv trim fields) ns =
            subst (Reads atoi (parse_csv trim fields)) (sym same) reads in
          if-rule (Chosen text fields workers) (ltb (length ns) workers)
            (λ few. (ns, reads', refl, ltb→lt (length ns) workers few))
            (λ plenty. ((λ _. reads'), placed ns workers (ground (arith, plenty))))
      judged (bad_core f) h = h
      judged (too_few n) h = absurd h
