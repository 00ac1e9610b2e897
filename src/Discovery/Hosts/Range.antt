-- ===== src/Discovery/Hosts/Range.antt =====
-- `hostsFromPrefix` of a local network: which addresses, in which order.
use guhfrtui.Base.{
  ℕ, zero, suc, ◌+◌, ◌-◌, ◌*◌, ◌/◌, ◌%◌, ◌^◌, ◌≤◌, ◌<◌, ◌≡◌, ap, ◌∙◌, List, [], ◌∷◌, min, max, leb,
  if_intro, true, false, arith,
}
use guhfrtui.Base.Int.{pos}
use guhfrtui.Discovery.Hosts.{scan_prefix, hosts_loop, hosts_from_prefix}

-- `count` consecutive numbers.
unfoldable pub range_from : ℕ → ℕ → List ℕ
range_from start zero = []
range_from start (suc count) = start ∷ range_from (suc start) count

hosts_loop_range :
    (left ip last : ℕ)
    → last + 1 < 2 ^ 32
    → ip ≤ last + 1
    → hosts_loop left ip last ≡ range_from ip (min left (last + 1 - ip))
unfolding hosts_loop range_from
hosts_loop_range zero ip last h k = ap (range_from ip) none_left
  where
    none_left : 0 ≡ min 0 (last + 1 - ip)
    none_left = omega arith
hosts_loop_range (suc left) ip last h k =
    if_intro P (leb ip last)
      (λ more.
        ap (◌∷◌ ip) (
          ap (λ (t : ℕ). hosts_loop left t last) (next more)
          ∙ hosts_loop_range left (suc ip) last h (ground (arith, more)))
        ∙ ap (range_from ip) (one_less more))
      (λ over. ap (range_from ip) (none_left over))
  where
    P : List ℕ → Type 0
    P found = found ≡ range_from ip (min (suc left) (last + 1 - ip))

    next : leb ip last ≡ true → (ip + 1) % 2 ^ 32 ≡ suc ip
    next more = ground (arith, more, h)

    one_less :
        leb ip last ≡ true → suc (min left (last + 1 - suc ip)) ≡ min (suc left) (last + 1 - ip)
    one_less more = ground (arith, more)

    none_left : leb ip last ≡ false → 0 ≡ min (suc left) (last + 1 - ip)
    none_left over = ground (arith, over)

-- Of an address, the network with `k` bits for the host lies within the 32 bits.
network_fits :
    (k addr : ℕ)
    → 2 ≤ k
    → k ≤ 8
    → addr < 2 ^ 32
    → (4 ≤ 2 ^ k) × (addr / 2 ^ k * 2 ^ k + 2 ^ k ≤ 2 ^ 32)
network_fits zero addr h h' a = absurd (omega arith)
network_fits (suc zero) addr h h' a = absurd (omega arith)
network_fits (suc (suc zero)) addr h h' a = (omega arith, omega arith)
network_fits (suc (suc (suc zero))) addr h h' a = (omega arith, omega arith)
network_fits (suc (suc (suc (suc zero)))) addr h h' a = (omega arith, omega arith)
network_fits (suc (suc (suc (suc (suc zero))))) addr h h' a = (omega arith, omega arith)
network_fits (suc (suc (suc (suc (suc (suc zero)))))) addr h h' a = (omega arith, omega arith)
network_fits (suc (suc (suc (suc (suc (suc (suc zero))))))) addr h h' a = (omega arith, omega arith)
network_fits (suc (suc (suc (suc (suc (suc (suc (suc zero)))))))) addr h h' a =
    (omega arith, omega arith)
network_fits (suc (suc (suc (suc (suc (suc (suc (suc (suc k))))))))) addr h h' a =
    absurd (omega arith)

-- The bits of a host in the network that is scanned.
abbrev pub host_bits : ℕ → ℕ
host_bits ones = 32 - max ones 24

-- Of an interface with at least two bits for the host, `hostsFromPrefix` returns consecutive addresses
-- in ascending order: from the one behind the network's address on, and up to the limit, or else to
-- the one before the broadcast address.
pub hosts_from_prefix_lem :
    (addr ones limit : ℕ)
    → addr < 2 ^ 32
    → ones ≤ 30
    → 1 ≤ limit
    → let size = 2 ^ host_bits ones in
      hosts_from_prefix (scan_prefix addr ones) (pos limit)
      ≡ range_from (addr / size * size + 1) (min limit (size - 2))
unfolding hosts_from_prefix
hosts_from_prefix_lem addr ones limit ha ho hl =
    rw (some_hosts, enough)
      (ap (λ (t : ℕ). hosts_loop (max limit 1) t last) first
        ∙ ap (hosts_loop (max limit 1) (base + 1)) ends
        ∙ hosts_loop_range (max limit 1) (base + 1) (base + (size - 2))
            (omega (arith, fits.0, fits.1)) (omega (arith, fits.0))
        ∙ ap (range_from (base + 1)) counted)
  where
    size : ℕ
    size = 2 ^ host_bits ones

    base : ℕ
    base = addr / size * size

    fits : (4 ≤ size) × (base + size ≤ 2 ^ 32)
    fits = network_fits (host_bits ones) addr (omega arith) (omega arith) ha

    last : ℕ
    last = (base + (size - 2)) % 2 ^ 32

    some_hosts : leb 31 (max ones 24) ≡ false
    some_hosts = ground arith

    enough : leb size 2 ≡ false
    enough = ground (arith, fits.0)

    first : (base + 1) % 2 ^ 32 ≡ base + 1
    first = omega (arith, fits.0, fits.1)

    ends : last ≡ base + (size - 2)
    ends = omega (arith, fits.0, fits.1)

    counted : min (max limit 1) (base + (size - 2) + 1 - (base + 1)) ≡ min limit (size - 2)
    counted = omega arith
