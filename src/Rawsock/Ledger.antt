-- ===== src/Rawsock/Ledger.antt =====
-- No path of internal/rawsock/rawsock.go leaks a socket: on an error every socket that was opened is
-- closed again, and on success exactly the one that is returned stays open.
use flash_relay.Base.{
  ℕ, Option, ◌+◌, ◌≡◌, refl, Bool, true, false, List, if◌then◌else◌, arith, if-rule, inl, inr,
  Option-cases,
}
use flash_relay.Base.Int.{ℤ, pos, is_neg, is_pos, is_zero}
use flash_relay.Rawsock.Calls.{
  Os, OptionName, Address, ip4, ip6, so_reuse_addr, so_reuse_port, so_mark, so_rcvbuf, ip_tos,
  ipv6_tclass, socket, setsockopt, bind, listen, getsockname, connect, sys, account, same_fd,
}
use flash_relay.Rawsock.{
  Error, name_failed, option_failed, bind_failed, listen_failed, set_up, bind_up, connect_failed,
  Result, ok, err, Listener, resolve, give_up, read_port, listen_on, shape, connect_to, dial_fp,
}

abbrev pub one : Bool → ℕ
one b = if b then 1 else 0

-- The sockets that a call leaves open: those from before, and that of a result.
unfoldable pub Owns {ℓ} : {A : Type ℓ} → (A → ℤ) → Os → Result A × Os → Type 0
Owns fd_of o (err e, after) = (fd : ℤ) → after.held fd ≡ o.held fd
Owns fd_of o (ok a, after) = (fd : ℤ) → after.held fd ≡ o.held fd + one (same_fd (fd_of a) fd)

-- The same sockets are open.
SameHeld : Os → Os → Type 0
SameHeld o o' = (fd : ℤ) → o'.held fd ≡ o.held fd

-- One more socket is open.
Has : ℤ → Os → Os → Type 0
Has x o o' = (fd : ℤ) → o'.held fd ≡ o.held fd + one (same_fd x fd)

give_up-Owns {ℓ} :
    {A : Type ℓ} (fd_of : A → ℤ) (e : Error) (x : ℤ) (o o' : Os)
    → Has x o o'
    → Owns fd_of o (give_up e x o')
unfolding Owns Has sys account
give_up-Owns fd_of e x o o' h fd = ground (arith, h fd)

socket-Has :
    (a : Address) (o : Os)
    → is_neg (sys (socket a) o).0 ≡ false
    → Has (sys (socket a) o).0 o (sys (socket a) o).1
unfolding Has sys account
socket-Has a o ok_fd fd = ground (arith, ok_fd)

socket-SameHeld :
    (a : Address) (o : Os) → is_neg (sys (socket a) o).0 ≡ true → SameHeld o (sys (socket a) o).1
unfolding SameHeld sys account
socket-SameHeld a o bad fd = ground (arith, bad)

-- `if err := …; err != nil { syscall.Close(fd); return … }`, and the rest.
module _ {ℓ} {A : Type ℓ} (fd_of : A → ℤ) (x : ℤ) (o o1 : Os) (h : Has x o o1) where
  guard :
      (e : Error) (r : ℤ) (rest : Result A × Os)
      → (Has x o o1 → Owns fd_of o rest)
      → Owns fd_of o (if is_neg r then give_up e x o1 else rest)
  guard e r rest go =
      if-rule (Owns fd_of o) (is_neg r) (λ _. give_up-Owns fd_of e x o o1 h) (λ _. go h)

-- A call other than a socket or a close leaves the sockets as they are.
module _ (x : ℤ) (o o1 : Os) (h : Has x o o1) where
  option-Has : (fd v : ℤ) (name : OptionName) → Has x o (sys (setsockopt fd name v) o1).1
  unfolding Has sys account
  option-Has fd v name = h

-- The two options whose failure `DialFP` ignores.
buffer-Has :
    (x fd rcvbuf : ℤ) (o o1 : Os)
    → Has x o o1
    → Has x o (if is_pos rcvbuf then (sys (setsockopt fd so_rcvbuf rcvbuf) o1).1 else o1)
buffer-Has x fd rcvbuf o o1 h =
    if-rule (Has x o) (is_pos rcvbuf) (λ _. option-Has x o o1 h fd rcvbuf so_rcvbuf) (λ _. h)

shape-Has :
    (x : ℤ) (a : Address) (fd rcvbuf tos : ℤ) (o o1 : Os)
    → Has x o o1
    → Has x o (shape a fd rcvbuf tos o1)
unfolding shape
shape-Has x (ip4 bytes) fd rcvbuf tos o o1 h =
    let k = buffer-Has x fd rcvbuf o o1 h in
    if-rule (Has x o) (is_pos tos) (λ _. option-Has x o _ k fd tos ip_tos) (λ _. k)
shape-Has x (ip6 bytes) fd rcvbuf tos o o1 h =
    let k = buffer-Has x fd rcvbuf o o1 h in
    if-rule (Has x o) (is_pos tos) (λ _. option-Has x o _ k fd tos ipv6_tclass) (λ _. k)

owned : (l : Listener) (o o1 : Os) → Has l.fd o o1 → Owns (λ (l : Listener). l.fd) o (ok l, o1)
unfolding Owns Has
owned l o o1 h = h

read_port-Owns :
    (fd port : ℤ) (o o1 : Os) → Has fd o o1 → Owns (λ (l : Listener). l.fd) o (read_port fd port o1)
unfolding read_port sys account
read_port-Owns fd port o o1 h =
    let o2 = (sys (getsockname fd) o1).1 in
    let r = (sys (getsockname fd) o1).0 in
    if-rule (Owns (λ (l : Listener). l.fd) o) (is_zero port)
      (λ _.
        guard (λ (l : Listener). l.fd) fd o o2 (unfold Has in h) name_failed r
          (ok (record { fd = fd; port = r }), o2) (owned (record { fd = fd; port = r }) o o2))
      (λ _. owned (record { fd = fd; port = port }) o o1 h)

connect_to-Owns :
    (a : Address) (port fd : ℤ) (o o1 : Os)
    → Has fd o o1
    → Owns (λ (x : ℤ). x) o (connect_to a port fd o1)
unfolding connect_to sys account
connect_to-Owns a port fd o o1 h =
    let o2 = (sys (connect fd a port) o1).1 in
    guard (λ (x : ℤ). x) fd o o2 (unfold Has in h) connect_failed (sys (connect fd a port) o1).0
      (ok fd, o2) (λ k. unfold Owns Has in k)

-- A call that opens nothing, and its error check.
module _ {ℓ} {A : Type ℓ} (fd_of : A → ℤ) (x : ℤ) (o o1 : Os) (h : Has x o o1) where
  option_step :
      (name : OptionName) (v : ℤ) (e : Error) (rest : Os → Result A × Os)
      → ((o2 : Os) → Has x o o2 → Owns fd_of o (rest o2))
      → Owns fd_of o (
          if is_neg (sys (setsockopt x name v) o1).0
          then give_up e x (sys (setsockopt x name v) o1).1
          else rest (sys (setsockopt x name v) o1).1)
  option_step name v e rest go =
      let o2 = (sys (setsockopt x name v) o1).1 in
      guard fd_of x o o2 (option-Has x o o1 h x v name) e (sys (setsockopt x name v) o1).0 (rest o2)
        (go o2)

module _ (a : Address) (port : ℤ) where
  -- What follows the socket in `DialFP`.
  dial_rest-Owns :
      (fd mark rcvbuf tos : ℤ) (o o1 : Os)
      → Has fd o o1
      → Owns
          (λ (x : ℤ). x)
          o
          (if is_pos mark
            then if is_neg (sys (setsockopt fd so_mark mark) o1).0
              then give_up option_failed fd (sys (setsockopt fd so_mark mark) o1).1
              else connect_to a port fd
                  (shape a fd rcvbuf tos (sys (setsockopt fd so_mark mark) o1).1)
            else connect_to a port fd (shape a fd rcvbuf tos o1))
  dial_rest-Owns fd mark rcvbuf tos o o1 h =
      if-rule (Owns (λ (x : ℤ). x) o) (is_pos mark)
        (λ _.
          option_step (λ (x : ℤ). x) fd o o1 h so_mark mark option_failed
            (λ o2. connect_to a port fd (shape a fd rcvbuf tos o2))
            (λ o2 k. connect_to-Owns a port fd o _ (shape-Has fd a fd rcvbuf tos o o2 k)))
        (λ _. connect_to-Owns a port fd o _ (shape-Has fd a fd rcvbuf tos o o1 h))

  bind_up-Owns :
      (fd backlog : ℤ) (o o1 : Os)
      → Has fd o o1
      → Owns (λ (l : Listener). l.fd) o (bind_up a port backlog fd o1)
  unfolding bind_up sys account
  bind_up-Owns fd backlog o o1 h =
      let bound = sys (bind fd a port) o1 in
      let listening = sys (listen fd backlog) bound.1 in
      guard (λ (l : Listener). l.fd) fd o bound.1 (unfold Has in h) bind_failed bound.0 _
        (λ _.
          guard (λ (l : Listener). l.fd) fd o listening.1 (unfold Has in h) listen_failed
            listening.0 (read_port fd port listening.1) (read_port-Owns fd port o listening.1))

  -- What follows the socket in `Listen`.
  listen_rest-Owns :
      (fd backlog : ℤ) (o o1 : Os)
      → Has fd o o1
      → Owns (λ (l : Listener). l.fd) o (set_up a port backlog fd o1)
  unfolding set_up
  listen_rest-Owns fd backlog o o1 h =
      option_step (λ (l : Listener). l.fd) fd o o1 h so_reuse_addr (pos 1) option_failed _
        (λ o2 h2.
          option_step (λ (l : Listener). l.fd) fd o o2 h2 so_reuse_port (pos 1) option_failed _
            (bind_up-Owns fd backlog o))

module _ (parse : List ℕ → Option Address) where
  -- Whatever the kernel answers, a dial that fails leaves open the sockets that were open before it
  -- and no other, and a dial that succeeds leaves open the socket that it returns besides.
  pub dial_fp-Owns :
      (ip : List ℕ) (port mark rcvbuf tos : ℤ) (o : Os)
      → Owns (λ (x : ℤ). x) o (dial_fp parse ip port mark rcvbuf tos o)
  unfolding dial_fp
  dial_fp-Owns ip port mark rcvbuf tos o = elim (Option-cases (resolve parse ip)) [
    | inl e ↦ rw (e, dial_fp) (unfold Owns in λ fd. refl)
    | inr (a, e) ↦
        rw (e, dial_fp)
          (if-rule (Owns (λ (x : ℤ). x) o) (is_neg (sys (socket a) o).0)
            (λ bad. unfold Owns SameHeld in socket-SameHeld a o bad)
            (λ good. dial_rest-Owns a port _ mark rcvbuf tos o _ (socket-Has a o good)))
  ]

  -- Whatever the kernel answers, a listen that fails leaves open the sockets that were open before
  -- it and no other, and one that succeeds leaves open the socket of its listener besides.
  pub listen_on-Owns :
      (ip : List ℕ) (port backlog : ℤ) (o : Os)
      → Owns (λ (l : Listener). l.fd) o (listen_on parse ip port backlog o)
  unfolding listen_on
  listen_on-Owns ip port backlog o = elim (Option-cases (resolve parse ip)) [
    | inl e ↦ rw (e, listen_on) (unfold Owns in λ fd. refl)
    | inr (a, e) ↦
        rw (e, listen_on)
          (if-rule (Owns (λ (l : Listener). l.fd) o) (is_neg (sys (socket a) o).0)
            (λ bad. unfold Owns SameHeld in socket-SameHeld a o bad)
            (λ good. listen_rest-Owns a port _ backlog o _ (socket-Has a o good)))
  ]
