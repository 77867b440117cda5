-- ===== src/Rawsock.antt =====
-- internal/rawsock/rawsock.go: sockets by direct system calls, over an explicit kernel.
pub mod Calls
pub mod Ledger
pub mod Serve
pub mod Fingerprint
pub mod Script
use flash_relay.Base.{
  ℕ, suc, Bool, true, false, List, [], ◌∷◌, Option, none, some, if◌then◌else◌, ◌==◌, length,
}
use flash_relay.Base.Int.{ℤ, pos, is_neg, is_pos, is_zero}
use flash_relay.Rawsock.Calls.{
  Os, Address, ip4, ip6, OptionName, so_reuse_addr, so_reuse_port, so_mark, so_rcvbuf, ip_tos,
  ipv6_tclass, tcp_nodelay, Call, socket, setsockopt, bind, listen, getsockname, connect, close,
  sys,
}

pub data Error : Type 0 where
  bad_ip socket_failed option_failed bind_failed listen_failed name_failed connect_failed : Error

pub data Result {ℓ} (A : Type ℓ) : Type ℓ where
  ok : A → Result A
  err : Error → Result A

pub record Listener : Type 0 where
  pub fd : ℤ
  pub port : ℤ

-- "127.0.0.1"
abbrev pub loopback : List ℕ
loopback = 49 ∷ 50 ∷ 55 ∷ 46 ∷ 48 ∷ 46 ∷ 48 ∷ 46 ∷ 49 ∷ []

abbrev pub ip_or_loopback : List ℕ → List ℕ
ip_or_loopback [] = loopback
ip_or_loopback (b ∷ bs) = b ∷ bs

-- An error behind the socket: it is closed.
abbrev pub give_up {ℓ} : {A : Type ℓ} → Error → ℤ → Os → Result A × Os
give_up e fd o = (err e, (sys (close fd) o).1)

-- The rest of `Listen` once the socket listens: the port, read back where it was 0.
unfoldable pub read_port : ℤ → ℤ → Os → Result Listener × Os
read_port fd port o =
    if is_zero port
    then (let (r, o1) = sys (getsockname fd) o in
        if is_neg r then give_up name_failed fd o1 else (ok (record { fd = fd; port = r }), o1))
    else (ok (record { fd = fd; port = port }), o)

-- The rest of `Listen` from the bind on.
unfoldable pub bind_up : Address → ℤ → ℤ → ℤ → Os → Result Listener × Os
bind_up a port backlog fd o =
    let (r1, o1) = sys (bind fd a port) o in
    if is_neg r1
    then give_up bind_failed fd o1
    else let (r2, o2) = sys (listen fd backlog) o1 in
      if is_neg r2 then give_up listen_failed fd o2 else read_port fd port o2

-- The rest of `Listen` once the socket is open.
unfoldable pub set_up : Address → ℤ → ℤ → ℤ → Os → Result Listener × Os
set_up a port backlog fd o =
    let (r1, o1) = sys (setsockopt fd so_reuse_addr (pos 1)) o in
    if is_neg r1
    then give_up option_failed fd o1
    else let (r2, o2) = sys (setsockopt fd so_reuse_port (pos 1)) o1 in
      if is_neg r2 then give_up option_failed fd o2 else bind_up a port backlog fd o2

-- `Listener.Close`
abbrev pub close_listener : Listener → Os → ℤ × Os
close_listener l = sys (close l.fd)

-- `SetNoDelay`
unfoldable pub set_no_delay : ℤ → Os → ℤ × Os
set_no_delay fd = sys (setsockopt fd tcp_nodelay (pos 1))

-- `SO_RCVBUF` and the TOS byte, whose failures are ignored, and the connect.
unfoldable pub shape : Address → ℤ → ℤ → ℤ → Os → Os
shape a fd rcvbuf tos o =
    let o1 = if is_pos rcvbuf then (sys (setsockopt fd so_rcvbuf rcvbuf) o).1 else o in
    if is_pos tos
    then elim a [
      | ip6 bytes ↦ (sys (setsockopt fd ipv6_tclass tos) o1).1
      | ip4 bytes ↦ (sys (setsockopt fd ip_tos tos) o1).1
    ]
    else o1

unfoldable pub connect_to : Address → ℤ → ℤ → Os → Result ℤ × Os
connect_to a port fd o =
    let (r, o1) = sys (connect fd a port) o in
    if is_neg r then give_up connect_failed fd o1 else (ok fd, o1)

-- `netip.ParseAddr`
module _ (parse : List ℕ → Option Address) where
  abbrev pub resolve : List ℕ → Option Address
  resolve ip = parse (ip_or_loopback ip)

  unfoldable pub listen_on : List ℕ → ℤ → ℤ → Os → Result Listener × Os
  listen_on ip port backlog o = elim (resolve ip) [
    | none ↦ (err bad_ip, o)
    | some a ↦
        let (fd, o1) = sys (socket a) o in
        if is_neg fd then (err socket_failed, o1) else set_up a port backlog fd o1
  ]

  unfoldable pub dial_fp : List ℕ → ℤ → ℤ → ℤ → ℤ → Os → Result ℤ × Os
  dial_fp ip port mark rcvbuf tos o = elim (resolve ip) [
    | none ↦ (err bad_ip, o)
    | some a ↦
        let (fd, o1) = sys (socket a) o in
        if is_neg fd
        then (err socket_failed, o1)
        else if is_pos mark
        then (let (r, o2) = sys (setsockopt fd so_mark mark) o1 in
            if is_neg r
            then give_up option_failed fd o2
            else connect_to a port fd (shape a fd rcvbuf tos o2))
        else connect_to a port fd (shape a fd rcvbuf tos o1)
  ]

  -- `Dial` and `DialMark`
  abbrev pub dial : List ℕ → ℤ → Os → Result ℤ × Os
  dial ip port = dial_fp ip port (pos 0) (pos 0) (pos 0)

  abbrev pub dial_mark : List ℕ → ℤ → ℤ → Os → Result ℤ × Os
  dial_mark ip port mark = dial_fp ip port mark (pos 0) (pos 0)
