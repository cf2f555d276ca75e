-- ===== src/Proxies/Ports.antt =====
-- The ports that src/psender.c and src/preceiver.c send to, and those that the network emulator
-- opens when it is started without arguments.
use gproxy.Common.{ℕ, ◌<◌}
use gproxy.Common.Outcome.Ends.{Ends}
use gproxy.Psender as SenderSide
use gproxy.Preceiver as ReceiverSide
use gproxy.Ritardatore.{Ritardatore, max_num_connections}
use gproxy.Ritardatore.Start.Servite.{Passa}

-- The three channels' ports of psender and of preceiver are served: they pass `check_port`, and the
-- channel's pair has a socket bound to each.
abbrev pub Passable : Ritardatore → Type 0
Passable t =
    (channel : ℕ)
    → channel < max_num_connections
    → Passa (SenderSide.rit_port channel) (ReceiverSide.rit_port channel) channel t
