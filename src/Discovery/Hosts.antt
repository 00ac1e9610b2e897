-- ===== src/Discovery/Hosts.antt =====
-- scanner.go: which addresses are probed. `localPrefixes` over the interfaces that the system lists,
-- `hostsFromPrefix`, `arpNeighbors` over the content of the table, and `defaultCandidateIPs`.
pub mod Range
use mathlib.Core.List.{filter}
use guhfrtui.Base.{
  ℕ, zero, suc, ◌+◌, ◌-◌, ◌*◌, ◌/◌, ◌%◌, ◌^◌, Bool, true, false, not, ◌&&◌, ◌||◌, List, [], ◌∷◌,
  ◌++◌, Option, none, some, length, ltb, leb, nat_beq, nat_eq, ◌==◌, if◌then◌else◌, Bytes, max,
  bytes_eq,
}
use guhfrtui.Base.Int.{ℤ, pos, negsuc}
use guhfrtui.Base.Sets.{has}
use guhfrtui.Base.Sorting.{sort_by}
use guhfrtui.Text.{is_empty, trim_space, scan_lines}
use guhfrtui.Text.Parts.{codes, fields}
use guhfrtui.Text.Numbers.{itoa}
use guhfrtui.Text.Sort.{le_strings}
use guhfrtui.Discovery.Address.{host_text, parse_ipv4, quad}

-- An IPv4 prefix: the address and the length.
pub record Prefix : Type 0 where
  pub addr : ℕ
  pub bits : ℕ

-- netip.Prefix.Masked
abbrev pub masked : Prefix → Prefix
masked p = record p { addr = p.addr / 2 ^ (32 - p.bits) * 2 ^ (32 - p.bits) }

-- netip.Prefix.String
unfoldable pub prefix_text : Prefix → Bytes
unfolding host_text itoa
prefix_text p = host_text p.addr ++ (b'/' ∷ itoa (pos p.bits))

-- An address of an interface: the IPv4 address, and the size of its mask as Mask.Size returns it.
pub data InterfaceAddress : Type 0 where
  other : InterfaceAddress
  ipv4 : ℕ → ℕ → ℕ → InterfaceAddress

-- No addresses, where the system refuses to list them.
pub record Interface : Type 0 where
  pub is_up : Bool
  pub is_loopback : Bool
  pub addresses : Option (List InterfaceAddress)

-- The prefixes and the local addresses so far; `seenPrefixes` has the texts of the prefixes.
pub record Locals : Type 0 where
  pub prefixes : List Prefix
  pub locals : List ℕ

abbrev pub same_prefix : Prefix → Prefix → Bool
same_prefix p q = prefix_text p == prefix_text q

unfoldable pub has_prefix_of : Prefix → List Prefix → Bool
unfolding prefix_text
has_prefix_of p [] = false
has_prefix_of p (q ∷ qs) = same_prefix q p || has_prefix_of p qs

-- The prefix that is scanned: at most the 256 addresses around the local one.
abbrev pub scan_prefix : ℕ → ℕ → Prefix
scan_prefix addr ones = masked (record { addr = addr; bits = max ones 24 })

unfoldable pub add_address : InterfaceAddress → Locals → Locals
unfolding has_prefix_of
add_address other l = l
add_address (ipv4 addr ones bits) l =
    let l' = record l { locals = l.locals ++ (addr ∷ []) } in
    let p = scan_prefix addr ones in
    if not (nat_beq bits 32) || nat_beq ones 0
    then l'
    else if has_prefix_of p l.prefixes
    then l'
    else record l' { prefixes = l.prefixes ++ (p ∷ []) }

unfoldable pub add_addresses : List InterfaceAddress → Locals → Locals
unfolding add_address
add_addresses [] l = l
add_addresses (a ∷ as') l = add_addresses as' (add_address a l)

abbrev pub listed : Option (List InterfaceAddress) → List InterfaceAddress
listed none = []
listed (some xs) = xs

unfoldable pub add_interfaces : List Interface → Locals → Locals
unfolding add_addresses
add_interfaces [] l = l
add_interfaces (i ∷ is) l =
    add_interfaces is
      (if not i.is_up then l else if i.is_loopback then l else add_addresses (listed i.addresses) l)

abbrev pub le_prefix : Prefix → Prefix → Bool
le_prefix p q = le_strings (prefix_text p) (prefix_text q)

unfoldable pub local_prefixes : List Interface → Locals
unfolding add_interfaces sort_by prefix_text
local_prefixes interfaces =
    let l = add_interfaces interfaces (record { prefixes = []; locals = [] }) in
    record l { prefixes = sort_by le_prefix l.prefixes }

-- The loop of hostsFromPrefix, with the hosts that may still be added. `ip++` wraps.
unfoldable pub hosts_loop : ℕ → ℕ → ℕ → List ℕ
hosts_loop zero ip last = []
hosts_loop (suc left) ip last =
    let rest = hosts_loop left ((ip + 1) % 2 ^ 32) last in if leb ip last then ip ∷ rest else []

-- How many hosts end the loop: the test stands behind the first append.
abbrev pub allowed : ℤ → ℕ
allowed (pos n) = max n 1
allowed (negsuc n) = 1

unfoldable pub hosts_from_prefix : Prefix → ℤ → List ℕ
unfolding hosts_loop
hosts_from_prefix p limit =
    let count = 2 ^ (32 - p.bits) in
    if leb 31 p.bits
    then []
    else if leb count 2
    then []
    else hosts_loop (allowed limit) ((p.addr + 1) % 2 ^ 32) ((p.addr + (count - 2)) % 2 ^ 32)

-- netip.Addr.IsLoopback and IsUnspecified
abbrev pub is_special : ℕ → Bool
is_special addr = nat_beq (addr / 256 ^ 3) 127 || nat_beq addr 0

-- An address behind those before it, unless it is there or is not an IPv4 address.
abbrev pub add_new : Option ℕ → List ℕ → List ℕ
add_new none hosts = hosts
add_new (some addr) hosts = if has addr hosts then hosts else hosts ++ (addr ∷ [])

abbrev pub usable : Option ℕ → Option ℕ
usable none = none
usable (some addr) = if is_special addr then none else some addr

-- The address of a line of the table, which has at least four fields.
abbrev pub neighbor_of : List Bytes → Option ℕ
neighbor_of (a ∷ (b ∷ (c ∷ (d ∷ rest)))) = usable (parse_ipv4 a)
neighbor_of _ = none

-- The loop; `first` is whether the next line that is not blank is the heading.
unfoldable pub read_arp : Bool → List Bytes → List ℕ → List ℕ
unfolding trim_space fields parse_ipv4 has
read_arp first [] found = found
read_arp first (line ∷ lines) found =
    let text = trim_space line in
    let skipped = is_empty text in
    read_arp (first && skipped) lines
      (if skipped || first then found else add_new (neighbor_of (fields text)) found)

-- `content` is that of /proc/net/arp, none if it cannot be opened.
unfoldable pub arp_neighbors : Option Bytes → List ℕ
unfolding read_arp scan_lines
arp_neighbors none = []
arp_neighbors (some content) = read_arp true (scan_lines content) []

abbrev pub static_seeds : List Bytes
static_seeds =
    codes "192.168.0.20"
    ∷ (codes "192.168.0.10"
        ∷ (codes "192.168.0.100"
            ∷ (codes "192.168.0.200"
                ∷ (codes "192.168.1.20"
                    ∷ (codes "192.168.1.10"
                        ∷ (codes "192.168.1.100"
                            ∷ (codes "192.168.1.200"
                                ∷ (codes "10.0.0.20"
                                    ∷ (codes "10.0.0.10"
                                        ∷ (codes "10.0.0.100"
                                            ∷ (codes "10.0.0.200"
                                                ∷ (codes "10.10.10.20"
                                                    ∷ (codes "10.10.10.10"
                                                        ∷ (codes "10.10.10.100"
                                                            ∷ (codes "10.10.10.200"
                                                            ∷ [])))))))))))))))

-- The four bytes printed with `%d` and dots are the text of the address.
abbrev pub near_texts : ℕ → List Bytes
near_texts local =
    let abc = local / 256 * 256 in
    let ab = local / 256 ^ 2 * 256 ^ 2 in
    host_text (abc + 2)
    ∷ (host_text (abc + 10)
        ∷ (host_text (abc + 20)
            ∷ (host_text (abc + 50)
                ∷ (host_text (abc + 100)
                    ∷ (host_text (abc + 150)
                        ∷ (host_text (abc + 200)
                            ∷ (host_text (abc + 250)
                                ∷ (host_text (ab + 10)
                                    ∷ (host_text (ab + 256 + 10)
                                        ∷ (host_text (ab + 2 * 256 + 10) ∷ []))))))))))

unfoldable pub add_texts : List Bytes → List ℕ → List ℕ
unfolding parse_ipv4 has
add_texts [] hosts = hosts
add_texts (t ∷ ts) hosts = add_texts ts (add_new (parse_ipv4 t) hosts)

unfoldable pub add_near : List ℕ → List ℕ → List ℕ
unfolding add_texts host_text
add_near [] hosts = hosts
add_near (local ∷ locals) hosts = add_near locals (add_texts (near_texts local) hosts)

unfoldable pub default_candidate_ips : List ℕ → List ℕ
unfolding add_texts add_near
default_candidate_ips locals = add_near locals (add_texts static_seeds [])
