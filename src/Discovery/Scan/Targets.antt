-- ===== src/Discovery/Scan/Targets.antt =====
-- Which hosts the scan probes.
use guhfrtui.Base.{
  ℕ, zero, suc, ◌+◌, ◌%◌, ◌^◌, ◌<◌, ◌≡◌, refl, ap, ◌∙◌, Bool, true, false, not, ◌||◌, ◌&&◌, List,
  [], ◌∷◌, ◌++◌, Option, none, some, All, All-append, nat_eq, ◌==◌, nat_beq_iff, if_intro, Bytes,
  arith, ltb, leb, ◌-◌,
}
use guhfrtui.Base.Int.{ℤ}
use guhfrtui.Base.Sets.{has, IsUnique, has-append}
use guhfrtui.Text.{scan_lines, is_empty, trim_space}
use guhfrtui.Text.Parts.{fields, cut}
use guhfrtui.Text.Numbers.{parse_digits}
use guhfrtui.Discovery.{ScanOptions}
use guhfrtui.Discovery.Address.{
  octet, in_octet, no_leading_zero, parse_ipv4, quad, quad_of, first_part, second_part, third_part,
}
use guhfrtui.Discovery.Hosts.{
  Prefix, Locals, hosts_loop, hosts_from_prefix, allowed, add_new, usable, neighbor_of, read_arp,
  is_special, arp_neighbors, near_texts, static_seeds, add_texts, add_near, default_candidate_ips,
}
use guhfrtui.Discovery.Scan.{add_hosts, add_networks, scan_hosts}
use guhfrtui.Discovery.Scan.Keys.{IsAddress}

has-add_hosts :
    (x : ℕ) (skip hs acc : List ℕ)
    → has x (add_hosts skip hs acc) ≡ (has x acc || (has x hs && not (has x skip)))
unfolding add_hosts has
has-add_hosts x skip [] acc = ground arith
has-add_hosts x skip (h ∷ hs) acc =
    if_intro P (has h skip)
      (λ local. has-add_hosts x skip hs acc ∙ ground (arith, local, same_skip))
      (λ away.
        if_intro P (has h acc) (λ old. has-add_hosts x skip hs acc ∙ ground (arith, old, same_acc))
          (λ new.
            has-add_hosts x skip hs (acc ++ (h ∷ []))
            ∙ ap (λ b. b || (has x hs && not (has x skip))) (has-append x acc (h ∷ []))
            ∙ ground (arith, away, same_skip)))
  where
    P : List ℕ → Type 0
    P acc' =
        has x (add_hosts skip hs acc') ≡ (has x acc || ((h == x || has x hs) && not (has x skip)))

    same_skip : (h == x) ≡ true → has h skip ≡ has x skip
    same_skip e = ap (λ y. has y skip) ((nat_beq_iff h x).0 e)

    same_acc : (h == x) ≡ true → has h acc ≡ has x acc
    same_acc e = ap (λ y. has y acc) ((nat_beq_iff h x).0 e)

snoc-IsUnique :
    (h : ℕ) (acc : List ℕ) → IsUnique acc → has h acc ≡ false → IsUnique (acc ++ (h ∷ []))
unfolding has
snoc-IsUnique h [] u e = (refl, tt)
snoc-IsUnique h (x ∷ acc) u e = (
  has-append x acc (h ∷ [])
      ∙ unfold has in ground (arith, u.0, e, nat_beq_iff x h, nat_beq_iff h x),
  snoc-IsUnique h acc u.1 (ground (arith, e)),
)

add_hosts-IsUnique : (skip hs acc : List ℕ) → IsUnique acc → IsUnique (add_hosts skip hs acc)
unfolding add_hosts
add_hosts-IsUnique skip [] acc u = u
add_hosts-IsUnique skip (h ∷ hs) acc u =
    if_intro P (has h skip) (λ _. add_hosts-IsUnique skip hs acc u)
      (λ _.
        if_intro P (has h acc) (λ _. add_hosts-IsUnique skip hs acc u)
          (λ new. add_hosts-IsUnique skip hs (acc ++ (h ∷ [])) (snoc-IsUnique h acc u new)))
  where
    P : List ℕ → Type 0
    P acc' = IsUnique (add_hosts skip hs acc')

add_hosts-All :
    (skip hs acc : List ℕ)
    → All IsAddress hs
    → All IsAddress acc
    → All IsAddress (add_hosts skip hs acc)
unfolding add_hosts
add_hosts-All skip [] acc h a = a
add_hosts-All skip (x ∷ hs) acc h a =
    if_intro P (has x skip) (λ _. add_hosts-All skip hs acc h.1 a)
      (λ _.
        if_intro P (has x acc) (λ _. add_hosts-All skip hs acc h.1 a)
          (λ _.
            add_hosts-All skip hs (acc ++ (x ∷ [])) h.1
              (All-append IsAddress acc (x ∷ []) a (h.0, tt))))
  where
    P : List ℕ → Type 0
    P acc' = All IsAddress (add_hosts skip hs acc')

-- All addresses that are found are IPv4 addresses.
hosts_loop-All : (left ip last : ℕ) → IsAddress ip → All IsAddress (hosts_loop left ip last)
unfolding hosts_loop
hosts_loop-All zero ip last h = tt
hosts_loop-All (suc left) ip last h =
    if_intro (All IsAddress) (leb ip last)
      (λ _. (h, hosts_loop-All left ((ip + 1) % 2 ^ 32) last (omega arith))) (λ _. tt)

hosts_from_prefix-All : (p : Prefix) (limit : ℤ) → All IsAddress (hosts_from_prefix p limit)
unfolding hosts_from_prefix
hosts_from_prefix-All p limit =
    if_intro (All IsAddress) (leb 31 p.bits) (λ _. tt)
      (λ _.
        if_intro (All IsAddress) (leb (2 ^ (32 - p.bits)) 2) (λ _. tt)
          (λ _. hosts_loop-All (allowed limit) ((p.addr + 1) % 2 ^ 32) _ (omega arith)))

-- An address that was parsed is one.
abbrev IsOctet : Option ℕ → Type 0
IsOctet none = Unit
IsOctet (some v) = v < 256

in_octet-IsOctet : (plain : Bool) (o : Option ℕ) → IsOctet (in_octet plain o)
in_octet-IsOctet plain none = tt
in_octet-IsOctet plain (some v) =
    if_intro IsOctet (plain && ltb v 256) (λ h. ground (arith, h)) (λ _. tt)

octet-IsOctet : (s : Bytes) → IsOctet (octet s)
unfolding octet
octet-IsOctet s = in_octet-IsOctet (no_leading_zero s) (parse_digits s)

abbrev IsFound : Option ℕ → Type 0
IsFound none = Unit
IsFound (some v) = IsAddress v

quad_of-IsFound :
    (a b c d : Option ℕ) → IsOctet a → IsOctet b → IsOctet c → IsOctet d → IsFound (quad_of a b c d)
unfolding quad
quad_of-IsFound (some a) (some b) (some c) (some d) ha hb hc hd = omega arith
quad_of-IsFound none b c d ha hb hc hd = tt
quad_of-IsFound (some a) none c d ha hb hc hd = tt
quad_of-IsFound (some a) (some b) none d ha hb hc hd = tt
quad_of-IsFound (some a) (some b) (some c) none ha hb hc hd = tt

parse_ipv4-IsFound : (s : Bytes) → IsFound (parse_ipv4 s)
unfolding parse_ipv4
parse_ipv4-IsFound s = first (cut b'.' s)
  where
    third : (a b : Bytes) (o : Option (Bytes × Bytes)) → IsFound (third_part a b o)
    third a b none = tt
    third a b (some (c, d)) =
        quad_of-IsFound (octet a) (octet b) (octet c) (octet d) (octet-IsOctet a) (octet-IsOctet b)
          (octet-IsOctet c) (octet-IsOctet d)

    second : (a : Bytes) (o : Option (Bytes × Bytes)) → IsFound (second_part a o)
    second a none = tt
    second a (some (b, rest)) = third a b (cut b'.' rest)

    first : (o : Option (Bytes × Bytes)) → IsFound (first_part o)
    first none = tt
    first (some (a, rest)) = second a (cut b'.' rest)

add_new-All :
    (o : Option ℕ) (hs : List ℕ) → IsFound o → All IsAddress hs → All IsAddress (add_new o hs)
add_new-All none hs f h = h
add_new-All (some v) hs f h =
    if_intro (All IsAddress) (has v hs) (λ _. h) (λ _. All-append IsAddress hs (v ∷ []) h (f, tt))

usable-IsFound : (o : Option ℕ) → IsFound o → IsFound (usable o)
usable-IsFound none f = tt
usable-IsFound (some v) f = if_intro IsFound (is_special v) (λ _. tt) (λ _. f)

neighbor_of-IsFound : (fs : List Bytes) → IsFound (neighbor_of fs)
neighbor_of-IsFound [] = tt
neighbor_of-IsFound (a ∷ []) = tt
neighbor_of-IsFound (a ∷ (b ∷ [])) = tt
neighbor_of-IsFound (a ∷ (b ∷ (c ∷ []))) = tt
neighbor_of-IsFound (a ∷ (b ∷ (c ∷ (d ∷ rest)))) =
    usable-IsFound (parse_ipv4 a) (parse_ipv4-IsFound a)

read_arp-All :
    (first : Bool) (lines : List Bytes) (found : List ℕ)
    → All IsAddress found
    → All IsAddress (read_arp first lines found)
unfolding read_arp
read_arp-All first [] found h = h
read_arp-All first (line ∷ lines) found h =
    read_arp-All (first && is_empty (trim_space line)) lines _ (
      if_intro (All IsAddress) (is_empty (trim_space line) || first) (λ _. h)
        (λ _.
          add_new-All (neighbor_of (fields (trim_space line))) found
            (neighbor_of-IsFound (fields (trim_space line))) h))

arp_neighbors-All : (content : Option Bytes) → All IsAddress (arp_neighbors content)
unfolding arp_neighbors
arp_neighbors-All none = tt
arp_neighbors-All (some content) = read_arp-All true (scan_lines content) [] tt

add_texts-All : (ts : List Bytes) (hs : List ℕ) → All IsAddress hs → All IsAddress (add_texts ts hs)
unfolding add_texts
add_texts-All [] hs h = h
add_texts-All (t ∷ ts) hs h =
    add_texts-All ts (add_new (parse_ipv4 t) hs)
      (add_new-All (parse_ipv4 t) hs (parse_ipv4-IsFound t) h)

add_near-All : (ls hs : List ℕ) → All IsAddress hs → All IsAddress (add_near ls hs)
unfolding add_near
add_near-All [] hs h = h
add_near-All (l ∷ ls) hs h =
    add_near-All ls (add_texts (near_texts l) hs) (add_texts-All (near_texts l) hs h)

-- All hosts, of the three sources.
abbrev pub AreTargets : List ℕ → Type 0
AreTargets hs = IsUnique hs × All IsAddress hs

add_networks-AreTargets :
    (skip : List ℕ) (limit : ℤ) (ps : List Prefix) (acc : List ℕ)
    → AreTargets acc
    → AreTargets (add_networks skip limit ps acc)
unfolding add_networks
add_networks-AreTargets skip limit [] acc h = h
add_networks-AreTargets skip limit (p ∷ ps) acc h =
    add_networks-AreTargets skip limit ps (add_hosts skip (hosts_from_prefix p limit) acc) (
      add_hosts-IsUnique skip (hosts_from_prefix p limit) acc h.0,
      add_hosts-All skip (hosts_from_prefix p limit) acc (hosts_from_prefix-All p limit) h.1,
    )

pub scan_hosts-AreTargets :
    (opts : ScanOptions) (l : Locals) (arp : Option Bytes) → AreTargets (scan_hosts opts l arp)
unfolding scan_hosts default_candidate_ips
scan_hosts-AreTargets opts l arp = (
  add_hosts-IsUnique l.locals defaults _
      (add_hosts-IsUnique l.locals (arp_neighbors arp) nets near.0),
  add_hosts-All l.locals defaults _ (add_near-All l.locals _ (add_texts-All static_seeds [] tt))
      (add_hosts-All l.locals (arp_neighbors arp) nets (arp_neighbors-All arp) near.1),
)
  where
    defaults : List ℕ
    defaults = default_candidate_ips l.locals

    nets : List ℕ
    nets = add_networks l.locals opts.host_limit l.prefixes []

    near : AreTargets nets
    near = add_networks-AreTargets l.locals opts.host_limit l.prefixes [] (tt, tt)

-- Whether a prefix's hosts have the address.
unfoldable pub in_networks : ℕ → ℤ → List Prefix → Bool
in_networks x limit [] = false
in_networks x limit (p ∷ ps) = has x (hosts_from_prefix p limit) || in_networks x limit ps

has-add_networks :
    (x : ℕ) (skip : List ℕ) (limit : ℤ) (ps : List Prefix) (acc : List ℕ)
    → has x (add_networks skip limit ps acc)
      ≡ (has x acc || (in_networks x limit ps && not (has x skip)))
unfolding add_networks in_networks
has-add_networks x skip limit [] acc = ground arith
has-add_networks x skip limit (p ∷ ps) acc =
    has-add_networks x skip limit ps (add_hosts skip (hosts_from_prefix p limit) acc)
    ∙ ground (arith, has-add_hosts x skip (hosts_from_prefix p limit) acc)

-- A host is probed exactly if it is no local address and is a host of a local network, within the
-- limit for each network, a neighbour or a default candidate.
pub has-scan_hosts :
    (x : ℕ) (opts : ScanOptions) (l : Locals) (arp : Option Bytes)
    → has x (scan_hosts opts l arp) ≡ (
        (in_networks x opts.host_limit l.prefixes
          || has x (arp_neighbors arp)
          || has x (default_candidate_ips l.locals))
        && not (has x l.locals))
unfolding scan_hosts
has-scan_hosts x opts l arp =
    has-add_hosts x l.locals (default_candidate_ips l.locals)
      (add_hosts l.locals (arp_neighbors arp) (add_networks l.locals opts.host_limit l.prefixes []))
    ∙ ground (
      arith,
      has-add_hosts x l.locals (arp_neighbors arp)
          (add_networks l.locals opts.host_limit l.prefixes []),
      has-add_networks x l.locals opts.host_limit l.prefixes [],
      nothing,
    )
  where
    nothing : has x [] ≡ false
    nothing = unfold has in refl
