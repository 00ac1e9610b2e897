-- ===== src/Sdk/Connection.antt =====
-- sdk/client_connection.go and client_scan.go: the client with its transport. What Discover finds is
-- a parameter, for the scan that it calls; the timeouts are those of the network.
pub mod Choice
use guhfrtui.Base.{
  ℕ, Bool, true, false, not, ◌&&◌, List, [], ◌∷◌, Option, none, some, if◌then◌else◌, Bytes,
}
use guhfrtui.Base.Int.{ℤ, pos, int_lt}
use guhfrtui.Reader18.Commands.{get_reader_info_command}
use guhfrtui.Transport
use guhfrtui.Transport.{Endpoint}
use guhfrtui.Discovery.{Candidate, ScanOptions, default_options, no_ports, or_default}
use guhfrtui.Discovery.Scan
use guhfrtui.Discovery.Scan.{Network, scan}
use guhfrtui.Sdk.Client.{Client, Status, connected, connected_to, disconnected, emit_status}
use guhfrtui.Sdk.Control.{stop_inventory}

pub record Linked : Type 0 where
  pub client : Client
  pub transport : Transport.Client

-- What the network does during a call: whether a dial, a write or a close succeeds, whether the read
-- loop ends in time, and what others do to the transport during a dial.
pub record World : Type 0 where
  pub dial : Endpoint → Bool
  pub meanwhile : Transport.Client → Transport.Client
  pub closes : Bool
  pub ends : Bool

abbrev pub on_connect :
    Endpoint → Client → Option Transport.Error × Transport.Client → Option Transport.Error × Linked
on_connect e c (none, t) = (none, record { client = emit_status (connected e) c; transport = t })
on_connect e c (some x, t) = (some x, record { client = c; transport = t })

unfoldable pub connect : World → Endpoint → Linked → Option Transport.Error × Linked
unfolding Transport.connect emit_status
connect w e l = on_connect e l.client (Transport.connect w.dial w.meanwhile e l.transport)

unfoldable pub reconnect : World → Endpoint → Linked → Option Transport.Error × Linked
unfolding connect stop_inventory Transport.disconnect
reconnect w e l = connect w e (record {
  client = stop_inventory l.client;
  transport = (Transport.disconnect w.closes w.ends l.transport).1;
})

abbrev pub on_disconnect :
    Client → Option Transport.Error × Transport.Client → Option Transport.Error × Linked
on_disconnect c (none, t) = (none, record { client = emit_status disconnected c; transport = t })
on_disconnect c (some x, t) = (some x, record { client = c; transport = t })

unfoldable pub disconnect : World → Linked → Option Transport.Error × Linked
unfolding stop_inventory Transport.disconnect emit_status
disconnect w l =
    on_disconnect (stop_inventory l.client) (Transport.disconnect w.closes w.ends l.transport)

unfoldable pub probe_info : (Bytes → Bool) → Linked → Option Transport.Error
unfolding Transport.is_connected Transport.send_raw
probe_info writes l =
    if not (Transport.is_connected l.transport)
    then some Transport.not_connected
    else Transport.send_raw writes (get_reader_info_command l.client.reader_addr) l.transport

-- DefaultScanOptions copies the list of ports, which is the same list here.
abbrev pub default_scan_options : ScanOptions
default_scan_options = default_options

unfoldable pub to_internal_scan_options : ScanOptions → ScanOptions
to_internal_scan_options opts = record {
  ports = if no_ports opts.ports then default_options.ports else opts.ports;
  timeout = or_default default_options.timeout opts.timeout;
  concurrency = or_default default_options.concurrency opts.concurrency;
  host_limit = or_default default_options.host_limit opts.host_limit;
}

-- Discover; the sdk's candidates have the fields of the scan's.
unfoldable pub discover :
    Network
    → (List Candidate → List Candidate)
    → Bool
    → ScanOptions
    → List Candidate × Option Scan.Error
unfolding scan to_internal_scan_options
discover net deliver done opts = scan net deliver done (to_internal_scan_options opts)

pub data QuickError : Type 0 where
  discover_failed : Scan.Error → QuickError
  no_candidate : QuickError
  connect_failed : Transport.Error → QuickError

unfoldable pub find_verified : List Candidate → Option Candidate
find_verified [] = none
find_verified (c ∷ cs) = let later = find_verified cs in if c.verified then some c else later

abbrev pub or_first : Option Candidate → List Candidate → Option Candidate
or_first (some c) cs = some c
or_first none [] = none
or_first none (c ∷ cs) = some c

-- The first verified candidate, or else the first.
unfoldable pub choose : List Candidate → Option Candidate
unfolding find_verified
choose cs = or_first (find_verified cs) cs

abbrev pub endpoint_of : Candidate → Endpoint
endpoint_of c = record { host = c.host; port = c.port }

abbrev pub on_reconnect :
    Candidate → Option Transport.Error × Linked → Option Candidate × Option QuickError × Linked
on_reconnect c (some x, l) = (some c, some (connect_failed x), l)
on_reconnect c (none, l) =
    let client =
      if c.verified then record l.client { reader_addr = c.reader_address } else l.client in
    (some c, none, record l { client = emit_status (connected_to (endpoint_of c)) client })

unfoldable pub try_choice :
    World
    → Option Scan.Error
    → Linked
    → Option Candidate
    → Option Candidate × Option QuickError × Linked
unfolding reconnect emit_status
try_choice w none l none = (none, some no_candidate, l)
try_choice w (some x) l none = (none, some (discover_failed x), l)
try_choice w e l (some c) = on_reconnect c (reconnect w (endpoint_of c) l)

-- QuickConnect with what Discover returned.
unfoldable pub quick_connect :
    World
    → List Candidate × Option Scan.Error
    → Linked
    → Option Candidate × Option QuickError × Linked
unfolding choose try_choice
quick_connect w found l = try_choice w found.1 l (choose found.0)
