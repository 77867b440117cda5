-- ===== src/Rawsock/Calls.antt =====
-- The system calls of internal/rawsock/rawsock.go, and the kernel that answers them.
use flash_relay.Base.{ℕ, suc, ◌-◌, Bool, List, [], ◌∷◌, if◌then◌else◌, ◌==◌, ◌&&◌}
use flash_relay.Base.Int.{ℤ, negsuc, is_neg, pos_part, neg_part}

-- `netip.Addr` as its bytes: 4 or 16 of them.
pub data Address : Type 0 where
  ip4 ip6 : List ℕ → Address

pub data OptionName : Type 0 where
  so_reuse_addr so_reuse_port so_mark so_rcvbuf ip_tos ipv6_tclass tcp_nodelay : OptionName

pub data Call : Type 0 where
  socket : Address → Call
  setsockopt : ℤ → OptionName → ℤ → Call
  bind : ℤ → Address → ℤ → Call
  listen : ℤ → ℤ → Call
  getsockname : ℤ → Call
  connect : ℤ → Address → ℤ → Call
  close : ℤ → Call

-- `answers` is what the kernel will answer, call by call, negative for an error (and an error when
-- it runs out); `held` counts the open sockets of each fd.
pub record Os : Type 0 where
  pub answers : List ℤ
  pub held : ℤ → ℕ
  pub calls : List Call

abbrev pub same_fd : ℤ → ℤ → Bool
same_fd a b = pos_part a == pos_part b && neg_part a == neg_part b

-- What a call does to the open sockets: a socket that was made is open, a close always closes.
unfoldable pub account : Call → ℤ → (ℤ → ℕ) → ℤ → ℕ
account (socket a) r held fd =
    if is_neg r then held fd else if same_fd r fd then suc (held fd) else held fd
account (close x) r held fd = if same_fd x fd then held fd - 1 else held fd
account _ r held fd = held fd

abbrev pub next : List ℤ → ℤ × List ℤ
next [] = (negsuc 0, [])
next (r ∷ rs) = (r, rs)

unfoldable pub sys : Call → Os → ℤ × Os
sys c o =
    let (r, rest) = next o.answers in
    (r, record { answers = rest; held = account c r o.held; calls = c ∷ o.calls })
