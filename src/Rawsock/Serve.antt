-- ===== src/Rawsock/Serve.antt =====
-- flashrelay/flashrelay.go: the listeners that `Server.Run` makes, one per worker, and closes.
use flash_relay.Base.{ℕ, zero, suc, ◌+◌, ◌-◌, ◌≡◌, List, [], ◌∷◌, ◌++◌, Option, arith}
use flash_relay.Base.Int.{ℤ, pos}
use flash_relay.Rawsock.Calls.{Os, Address, close, sys, account, same_fd}
use flash_relay.Rawsock.{Result, ok, err, Listener, close_listener, listen_on}
use flash_relay.Rawsock.Ledger.{Owns, one, listen_on-Owns}

-- `for _, l := range lns { l.Close() }`
unfoldable pub close_all : List Listener → Os → Os
close_all [] o = o
close_all (l ∷ ls) o = close_all ls (close_listener l o).1

-- How many of the listeners have an fd.
unfoldable pub count_fd : ℤ → List Listener → ℕ
count_fd fd [] = 0
count_fd fd (l ∷ ls) = one (same_fd l.fd fd) + count_fd fd ls

count_fd-append :
    (fd : ℤ) (ls : List Listener) (l : Listener)
    → count_fd fd (ls ++ l ∷ []) ≡ count_fd fd ls + one (same_fd l.fd fd)
unfolding count_fd
count_fd-append fd [] l = omega arith
count_fd-append fd (x ∷ ls) l = omega (arith, count_fd-append fd ls l)

held-close_all :
    (fd : ℤ) (ls : List Listener) (o : Os) → (close_all ls o).held fd ≡ o.held fd - count_fd fd ls
unfolding close_all count_fd sys account
held-close_all fd [] o = omega arith
held-close_all fd (l ∷ ls) o = ground (arith, held-close_all fd ls (sys (close l.fd) o).1)

module _ (parse : List ℕ → Option Address) (addr : List ℕ) (port : ℤ) where
  -- The first loop of `Run`: `n` listeners are still to be made, `lns` are there.
  unfoldable pub listen_all : ℕ → List Listener → Os → Result (List Listener) × Os
  listen_all zero lns o = (ok lns, o)
  listen_all (suc n) lns o =
      let (r, o1) = listen_on parse addr port (pos 4096) o in
      elim r [ err e ↦ (err e, close_all lns o1) | ok ln ↦ listen_all n (lns ++ ln ∷ []) o1 ]

  -- The sockets behind `Run`, with the workers between its two loops: they own none of them.
  unfoldable pub serve : ℕ → Os → Result (List Listener) × Os
  serve workers o =
      let (r, o1) = listen_all workers [] o in
      elim r [ err e ↦ (err e, o1) | ok lns ↦ (ok lns, close_all lns o1) ]

  -- The open sockets are those of before, and on success those of the listeners.
  Opened : Os → Result (List Listener) × Os → Type 0
  Opened o (err e, after) = (fd : ℤ) → after.held fd ≡ o.held fd
  Opened o (ok lns, after) = (fd : ℤ) → after.held fd ≡ o.held fd + count_fd fd lns

  round :
      (lns : List Listener) (o o1 : Os) (r : Result Listener × Os)
      (rest : List Listener → Os → Result (List Listener) × Os)
      → ((fd : ℤ) → o1.held fd ≡ o.held fd + count_fd fd lns)
      → Owns (λ (l : Listener). l.fd) o1 r
      → ((more : List Listener) (o2 : Os)
          → ((fd : ℤ) → o2.held fd ≡ o.held fd + count_fd fd more)
          → Opened o (rest more o2))
      → Opened o
          (elim r.0 [ err e ↦ (err e, close_all lns r.1) | ok ln ↦ rest (lns ++ ln ∷ []) r.1 ])
  unfolding Opened Owns
  round lns o o1 (err e, o2) rest h own go =
      λ fd. omega (arith, held-close_all fd lns o2, own fd, h fd)
  round lns o o1 (ok l, o2) rest h own go =
      go (lns ++ l ∷ []) o2 (λ fd. omega (arith, count_fd-append fd lns l, own fd, h fd))

  listen_all-Opened :
      (n : ℕ) (lns : List Listener) (o o1 : Os)
      → ((fd : ℤ) → o1.held fd ≡ o.held fd + count_fd fd lns)
      → Opened o (listen_all n lns o1)
  unfolding listen_all
  listen_all-Opened zero lns o o1 h = unfold Opened in h
  listen_all-Opened (suc n) lns o o1 h =
      round lns o o1 (listen_on parse addr port (pos 4096) o1) (listen_all n) h
        (listen_on-Owns parse addr port (pos 4096) o1) (λ more o2. listen_all-Opened n more o o2)

  all_closed :
      (o : Os) (r : Result (List Listener) × Os) (fd : ℤ)
      → Opened o r
      → (elim r.0 as (λ _. Result (List Listener) × Os) [
        | err e ↦ (err e, r.1)
        | ok lns ↦ (ok lns, close_all lns r.1)
      ]).1.held
          fd
        ≡ o.held fd
  unfolding Opened
  all_closed o (err e, o1) fd h = h fd
  all_closed o (ok lns, o1) fd h = omega (arith, held-close_all fd lns o1, h fd)

  -- Whatever the kernel answers and however many workers there are, every listener that `Run`
  -- opens it closes again, where a later listener fails and where all succeed.
  pub serve-closes : (workers : ℕ) (o : Os) (fd : ℤ) → (serve workers o).1.held fd ≡ o.held fd
  unfolding serve
  serve-closes workers o fd =
      all_closed o (listen_all workers [] o) fd
        (listen_all-Opened workers [] o o (λ y. unfold count_fd in omega arith))
