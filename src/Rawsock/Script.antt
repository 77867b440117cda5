-- ===== src/Rawsock/Script.antt =====
-- The order of the system calls of `DialFP` in internal/rawsock/rawsock.go: the socket is marked and
-- shaped before it connects.
use flash_relay.Base.{◌≡◌, true, List, [], ◌∷◌, ◌++◌, Option, none, some, if◌then◌else◌}
use flash_relay.Base.Int.{ℤ, is_pos}
use flash_relay.Rawsock.Calls.{
  Os, Address, ip4, ip6, so_mark, so_rcvbuf, ip_tos, ipv6_tclass, Call, socket, setsockopt, connect,
  close,
}
use flash_relay.Rawsock.{
  Error, bad_ip, socket_failed, option_failed, connect_failed, Result, ok, err,
}

-- A list of calls made one after the other, on those that were made before, newest first.
abbrev pub pushed : List Call → List Call → List Call
pushed [] before = before
pushed (c ∷ cs) before = pushed cs (c ∷ before)

abbrev pub when_set : ℤ → Call → List Call
when_set n c = if is_pos n then c ∷ [] else []

abbrev pub tos_option : Address → ℤ → ℤ → Call
tos_option (ip4 bytes) fd tos = setsockopt fd ip_tos tos
tos_option (ip6 bytes) fd tos = setsockopt fd ipv6_tclass tos

-- From the receive buffer on.
abbrev pub shaping : Address → ℤ → ℤ → ℤ → ℤ → List Call
shaping a fd port rcvbuf tos =
    when_set rcvbuf (setsockopt fd so_rcvbuf rcvbuf)
    ++ (when_set tos (tos_option a fd tos) ++ connect fd a port ∷ [])

-- The calls of a whole dial in their order: an option only where it is set, and the connect last.
abbrev pub script : Address → ℤ → ℤ → ℤ → ℤ → ℤ → List Call
script a fd port mark rcvbuf tos =
    socket a ∷ (when_set mark (setsockopt fd so_mark mark) ++ shaping a fd port rcvbuf tos)

-- How a dial fails: without a call, at the socket, at the mark, or at the connect; a socket that is
-- given up is closed next.
pub data Fails (addr : Option Address) (port mark rcvbuf tos : ℤ) (before after : List Call)
    : Error → Type 0 where
  unresolved : addr ≡ none → after ≡ before → Fails addr port mark rcvbuf tos before after bad_ip
  no_socket :
      (a : Address)
      → addr ≡ some a
      → after ≡ socket a ∷ before
      → Fails addr port mark rcvbuf tos before after socket_failed
  unmarked :
      (a : Address) (fd : ℤ)
      → addr ≡ some a
      → is_pos mark ≡ true
      → after ≡ close fd ∷ setsockopt fd so_mark mark ∷ socket a ∷ before
      → Fails addr port mark rcvbuf tos before after option_failed
  unconnected :
      (a : Address) (fd : ℤ)
      → addr ≡ some a
      → after ≡ close fd ∷ pushed (script a fd port mark rcvbuf tos) before
      → Fails addr port mark rcvbuf tos before after connect_failed

unfoldable pub Scripted : Option Address → ℤ → ℤ → ℤ → ℤ → Os → Result ℤ × Os → Type 0
Scripted addr port mark rcvbuf tos o (err e, after) =
    Fails addr port mark rcvbuf tos o.calls after.calls e
Scripted addr port mark rcvbuf tos o (ok fd, after) =
    (a : Address) × (addr ≡ some a)
    × (after.calls ≡ pushed (script a fd port mark rcvbuf tos) o.calls)
