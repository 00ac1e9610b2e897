-- ===== src/Tests/Discovery.antt =====
-- A network with one reader, and the transport and the clients that use what is found.
use guhfrtui.Base.{
  ℕ, ◌+◌, ◌-◌, ◌*◌, ◌/◌, ◌^◌, ◌≡◌, refl, true, not, ◌&&◌, ◌||◌, List, [], ◌∷◌, none, some, take,
  min, if◌then◌else◌, arith, nat_eq, subst, sym, append-nil,
}
use guhfrtui.Base.Int.{pos, int_eq, int_beq}
use guhfrtui.Base.Sets.{has}
use guhfrtui.Base.Sorting.{Reordered, same, swap}
use guhfrtui.Transport
use guhfrtui.Transport.{Endpoint, Read, failed, received, Client, connect, read_loop, new_session}
use guhfrtui.Transport.Delivery.{payloads, has_failure, Connected, read_loop_lem, connect-Connected}
use guhfrtui.Discovery.{Candidate, default_options, reader_protocol}
use guhfrtui.Discovery.Hosts.{
  Locals, hosts_from_prefix, scan_prefix, arp_neighbors, default_candidate_ips,
}
use guhfrtui.Discovery.Hosts.Range.{range_from, host_bits, hosts_from_prefix_lem}
use guhfrtui.Discovery.Probe.{reachable}
use guhfrtui.Discovery.Scan.{Network, scan_hosts, scan_found}
use guhfrtui.Discovery.Scan.Targets.{in_networks, has-scan_hosts}
use guhfrtui.Discovery.Scan.Result.{scan_found_deterministic}
use guhfrtui.Discovery.Scan.Verified.{VerifiedFirst, any_verified, scan_found-VerifiedFirst}
use guhfrtui.Sdk.Client
use guhfrtui.Sdk.Connection.{Linked, World, quick_connect}
use guhfrtui.Sdk.Connection.Choice.{Quick, quick_connect_lem}

abbrev reader_at : Endpoint
reader_at = record { host = b'r' ∷ []; port = pos 27011 }

read_loop_lem_example :
    let s =
      read_loop
        (received (7 ∷ []) ∷ (received [] ∷ (failed ∷ (received (8 ∷ []) ∷ []))))
        (new_session reader_at) in
    (s.packets
      ≡ take 256
          (payloads (received (7 ∷ []) ∷ (received [] ∷ (failed ∷ (received (8 ∷ []) ∷ []))))))
    × (s.done
        ≡ has_failure (received (7 ∷ []) ∷ (received [] ∷ (failed ∷ (received (8 ∷ []) ∷ [])))))
    × (s.errs ≡ (
        if has_failure (received (7 ∷ []) ∷ (received [] ∷ (failed ∷ (received (8 ∷ []) ∷ []))))
        then 1
        else 0))
    × (s.endpoint ≡ reader_at)
read_loop_lem_example =
    read_loop_lem (received (7 ∷ []) ∷ (received [] ∷ (failed ∷ (received (8 ∷ []) ∷ []))))
      reader_at

-- Another goroutine connects during the dial.
abbrev taken : Client → Client
taken c = record { session = some (new_session reader_at) }

connect-Connected_example :
    Connected
      (λ e. true)
      taken
      reader_at
      Transport.new_client
      (connect (λ e. true) taken reader_at Transport.new_client)
connect-Connected_example = connect-Connected (λ e. true) taken reader_at Transport.new_client

-- 192.168.1.5/24, of which three hosts.
hosts_from_prefix_lem_example :
    let size = 2 ^ host_bits 24 in
    hosts_from_prefix (scan_prefix 3232235781 24) (pos 3)
    ≡ range_from (3232235781 / size * size + 1) (min 3 (size - 2))
hosts_from_prefix_lem_example =
    hosts_from_prefix_lem 3232235781 24 3 (omega arith) (omega arith) (omega arith)

abbrev locals : Locals
locals = record { prefixes = scan_prefix 3232235781 24 ∷ []; locals = 3232235781 ∷ [] }

has-scan_hosts_example : has {A = ℕ} 3232235777 (scan_hosts default_options locals none) ≡ (
    (in_networks 3232235777 (pos 254) (scan_prefix 3232235781 24 ∷ [])
      || has {A = ℕ} 3232235777 (arp_neighbors none)
      || has {A = ℕ} 3232235777 (default_candidate_ips (3232235781 ∷ [])))
    && not (has {A = ℕ} 3232235777 (3232235781 ∷ [])))
has-scan_hosts_example = has-scan_hosts 3232235777 default_options locals none

-- Every port can be connected to, and no reader answers.
abbrev net : Network
net = record { interfaces = none; arp = none; port = λ host port. reachable (λ payload. none) none }

-- The second result overtakes the first.
overtaken : List Candidate → List Candidate
overtaken [] = []
overtaken (x ∷ []) = x ∷ []
overtaken (x ∷ (y ∷ cs)) = y ∷ (x ∷ cs)

overtaken-Reordered : (cs : List Candidate) → Reordered cs (overtaken cs)
unfolding overtaken
overtaken-Reordered [] = same []
overtaken-Reordered (x ∷ []) = same (x ∷ [])
overtaken-Reordered (x ∷ (y ∷ cs)) = swap x y cs

scan_found_deterministic_example :
    scan_found net (λ cs. cs) (record default_options { ports = pos 2022 ∷ (pos 80 ∷ []) }) locals
    ≡ scan_found net overtaken (record default_options { ports = pos 2022 ∷ (pos 80 ∷ []) }) locals
scan_found_deterministic_example =
    scan_found_deterministic net (record default_options { ports = pos 2022 ∷ (pos 80 ∷ []) })
      locals (λ cs. cs) overtaken (omega arith, (omega arith, tt))
      (unfold has int_beq in (refl, (refl, tt))) (λ cs. same cs) overtaken-Reordered

-- All results arrive, in another order.
scan_found-VerifiedFirst_example : VerifiedFirst (scan_found net overtaken default_options locals)
scan_found-VerifiedFirst_example =
    scan_found-VerifiedFirst net default_options locals overtaken (λ cs. [])
      (λ cs. subst (Reordered cs) (sym (append-nil (overtaken cs))) (overtaken-Reordered cs))

abbrev answering : Candidate
answering = record {
  host = b'r' ∷ [];
  port = pos 27011;
  score = 215;
  banner = [];
  reason = reader_protocol (b'p' ∷ []) 5;
  verified = true;
  reader_address = 5;
  protocol = b'p' ∷ [];
}

abbrev linked : Linked
linked = record { client = Client.new_client; transport = Transport.new_client }

abbrev world : World
world = record { dial = λ e. true; meanwhile = λ c. c; closes = true; ends = true }

quick_connect_lem_example :
    Quick answering linked (quick_connect world (answering ∷ [], none) linked)
quick_connect_lem_example =
    quick_connect_lem world answering [] none linked (unfold any_verified in (refl, tt))
