-- ===== src/Rawsock/Fingerprint.antt =====
-- flashrelay/flashrelay.go: the fingerprint profiles and `DialFingerprint`.
use flash_relay.Base.{ℕ, List, Option, ◌==◌, if◌then◌else◌}
use flash_relay.Base.Int.{ℤ, pos, negsuc}
use flash_relay.Rawsock.Calls.{Os, Address}
use flash_relay.Rawsock.{Result, dial_fp}

pub record FpProfile : Type 0 where
  pub mark : ℤ
  pub rcvbuf : ℤ
  pub tos : ℤ

-- `fpProfiles`; a missing key gives the zero profile.
abbrev pub fp_profiles : ℤ → FpProfile
fp_profiles (pos n) =
    if n == 1
    then record { mark = pos 1; rcvbuf = pos 8388608; tos = pos 0 }
    else if n == 2
    then record { mark = pos 2; rcvbuf = pos 2097152; tos = pos 0 }
    else if n == 3
    then record { mark = pos 3; rcvbuf = pos 16777216; tos = pos 0 }
    else if n == 4
    then record { mark = pos 4; rcvbuf = pos 2097152; tos = pos 0x50 }
    else record { mark = pos 0; rcvbuf = pos 0; tos = pos 0 }
fp_profiles (negsuc n) = record { mark = pos 0; rcvbuf = pos 0; tos = pos 0 }

module _ (parse : List ℕ → Option Address) where
  unfoldable pub dial_fingerprint : List ℕ → ℤ → ℤ → Os → Result ℤ × Os
  dial_fingerprint ip port profile =
      let p = fp_profiles profile in dial_fp parse ip port p.mark p.rcvbuf p.tos
