-- ===== src/Discovery/Scan.antt =====
-- scanner.go `Scan`: the targets, their probes, and the list of candidates.
pub mod Order
pub mod Keys
pub mod Targets
pub mod Result
pub mod Verified
use guhfrtui.Base.{
  ℕ, Bool, true, false, not, ◌&&◌, List, [], ◌∷◌, ◌++◌, Option, none, some, ltb, nat_beq, nat_eq,
  bytes_eq, ◌==◌, if◌then◌else◌, Bytes,
}
use guhfrtui.Base.Int.{ℤ, int_lt}
use guhfrtui.Base.Sets.{has}
use guhfrtui.Base.Sorting.{sort_by}
use guhfrtui.Text.Sort.{le_strings}
use guhfrtui.Transport.{address}
use guhfrtui.Discovery.{Candidate, ScanOptions, fill_options}
use guhfrtui.Discovery.Hosts.{
  Prefix, Interface, Locals, local_prefixes, hosts_from_prefix, arp_neighbors,
  default_candidate_ips,
}
use guhfrtui.Discovery.Probe.{Port, probe_target}

-- What the scan sees of the system and the network. No interfaces, where they cannot be listed.
pub record Network : Type 0 where
  pub interfaces : Option (List Interface)
  pub arp : Option Bytes
  pub port : ℕ → ℤ → Port

pub data Error : Type 0 where
  interfaces_failed no_interfaces cancelled : Error

-- The three loops over hosts; `seenHosts` holds the hosts of the list.
unfoldable pub add_hosts : List ℕ → List ℕ → List ℕ → List ℕ
unfolding has
add_hosts skip_local [] hosts = hosts
add_hosts skip_local (h ∷ hs) hosts =
    add_hosts skip_local hs
      (if has h skip_local then hosts else if has h hosts then hosts else hosts ++ (h ∷ []))

unfoldable pub add_networks : List ℕ → ℤ → List Prefix → List ℕ → List ℕ
unfolding add_hosts hosts_from_prefix
add_networks skip_local limit [] hosts = hosts
add_networks skip_local limit (p ∷ ps) hosts =
    add_networks skip_local limit ps (add_hosts skip_local (hosts_from_prefix p limit) hosts)

unfoldable pub scan_hosts : ScanOptions → Locals → Option Bytes → List ℕ
unfolding add_networks add_hosts arp_neighbors default_candidate_ips
scan_hosts opts l arp =
    add_hosts l.locals (default_candidate_ips l.locals)
      (add_hosts l.locals (arp_neighbors arp) (add_networks l.locals opts.host_limit l.prefixes []))

abbrev pub add_found : Option Candidate → List Candidate → List Candidate
add_found none found = found
add_found (some c) found = c ∷ found

-- The candidates of a host, and of all, in the order of the jobs.
unfoldable pub probe_ports : (ℕ → ℤ → Port) → ℕ → List ℤ → List Candidate
unfolding probe_target
probe_ports net host [] = []
probe_ports net host (p ∷ ps) =
    add_found (probe_target host p (net host p)) (probe_ports net host ps)

unfoldable pub probe_hosts : (ℕ → ℤ → Port) → List ℕ → List ℤ → List Candidate
unfolding probe_ports
probe_hosts net [] ports = []
probe_hosts net (h ∷ hs) ports = probe_ports net h ports ++ probe_hosts net hs ports

abbrev pub key_of : Candidate → Bytes
key_of c = address (record { host = c.host; port = c.port })

-- The loop over the results, with the keys seen so far.
unfoldable pub collect : List Bytes → List Candidate → List Candidate
unfolding address
collect seen [] = []
collect seen (c ∷ cs) =
    let old = collect seen cs in
    let new = c ∷ collect (key_of c ∷ seen) cs in if has (key_of c) seen then old else new

-- The comparison of sort.Slice.
unfoldable pub less : Candidate → Candidate → Bool
unfolding le_strings
less a b =
    if not (nat_beq a.score b.score)
    then ltb b.score a.score
    else if not (a.host == b.host)
    then not (le_strings b.host a.host)
    else int_lt a.port b.port

unfoldable pub le_candidate : Candidate → Candidate → Bool
unfolding less
le_candidate a b = not (less b a)

-- The candidates in the order of the result. sort.Slice sorts by another algorithm.
unfoldable pub rank : List Candidate → List Candidate
unfolding collect sort_by le_candidate
rank results = sort_by le_candidate (collect [] results)

-- `deliver` is what arrives of the results of the workers, and in which order; `done` is whether the
-- context ended.
unfoldable pub scan_found :
    Network → (List Candidate → List Candidate) → ScanOptions → Locals → List Candidate
unfolding rank probe_hosts scan_hosts
scan_found net deliver opts l =
    rank (deliver (probe_hosts net.port (scan_hosts opts l net.arp) opts.ports))

abbrev pub no_prefixes : List Prefix → Bool
no_prefixes [] = true
no_prefixes (p ∷ ps) = false

unfoldable pub scan :
    Network → (List Candidate → List Candidate) → Bool → ScanOptions → List Candidate × Option Error
unfolding fill_options local_prefixes scan_found
scan net deliver done given = elim net.interfaces [
  | none ↦ ([], some interfaces_failed)
  | some interfaces ↦
      let l = local_prefixes interfaces in
      if no_prefixes l.prefixes
      then ([], some no_interfaces)
      else (scan_found net deliver (fill_options given) l, if done then some cancelled else none)
]
