-- ===== src/Tests/Setup.antt =====
-- Runs of the set-up code at concrete inputs.
use flash_relay.Base.{ℕ, Bool, true, List, [], ◌∷◌, Option, none, some}
use flash_relay.Base.Int.{ℤ, pos}
use flash_relay.Rawsock.Calls.{Os, Address, ip4}
use flash_relay.Worker.Pin.{Pinned, pin_to_core, pin_to_core-Pinned}
use flash_relay.Gate.Sink.{Config}
use flash_relay.Gate.Init.{init}
use flash_relay.Gate.Init.Lists.{Upstreams, init-Upstreams}

abbrev any_address : List ℕ → Option Address
any_address ip = some (ip4 ip)

abbrev quiet : Os
quiet = record { answers = pos 5 ∷ pos 0 ∷ []; held = λ fd. 0; calls = [] }

pin_to_core-Pinned_example : Pinned 9 (pin_to_core (pos 9))
pin_to_core-Pinned_example = pin_to_core-Pinned 9

abbrev one_sink : Config
one_sink = record {
  sink_ip = 1 ∷ [];
  sink_port = pos 9100;
  sink_ports = pos 1;
  dial_seq = none;
  targets = [];
}

abbrev as_is : List ℕ → List ℕ
as_is s = s

abbrev no_port : List ℕ → Option (List ℕ × List ℕ)
no_port s = none

abbrev no_number : List ℕ → Option ℤ
no_number s = none

abbrev accepted : List ℕ → Bool
accepted s = true

abbrev listed : List (List ℕ)
listed = [] ∷ (2 ∷ []) ∷ []

init-Upstreams_example :
    Upstreams as_is no_port no_number accepted one_sink listed
      (init as_is no_port no_number accepted one_sink listed)
init-Upstreams_example = init-Upstreams as_is no_port no_number accepted one_sink listed
