-- ===== src/Discovery/Scan/Result.antt =====
-- The list that `Scan` returns: what is in it, and in which order.
use guhfrtui.Base.{
  ℕ, ◌≡◌, refl, sym, ap, ◌∙◌, Bool, true, false, ◌&&◌, ◌||◌, List, [], ◌∷◌, All, map, bytes_eq,
  bytes_beq_iff, ◌==◌, Bytes, arith,
}
use guhfrtui.Base.Int.{int_eq}
use guhfrtui.Base.Sets.{has, IsUnique}
use guhfrtui.Base.Sorting.{sort_by, Reordered, IsUnique-Reordered, sort_by-Reordered}
use guhfrtui.Text.Numbers.{IsInt64}
use guhfrtui.Transport.{address}
use guhfrtui.Discovery.{Candidate, ScanOptions}
use guhfrtui.Discovery.Hosts.{Locals}
use guhfrtui.Discovery.Scan.{
  Network, key_of, collect, le_candidate, rank, probe_hosts, scan_hosts, scan_found,
}
use guhfrtui.Discovery.Scan.Order.{candidate-IsOrder, le_candidate_antisym}
use guhfrtui.Discovery.Scan.Keys.{probe_hosts-IsUnique}
use guhfrtui.Discovery.Scan.Targets.{scan_hosts-AreTargets}

first_false : (a b : Bool) → (a || b) ≡ false → a ≡ false
first_false a b h = ground (arith, h)

second_false : (a b : Bool) → (a || b) ≡ false → b ≡ false
second_false a b h = ground (arith, h)

both_false : (x y : Bytes) (b : Bool) → (x == y) ≡ false → b ≡ false → (y == x || b) ≡ false
both_false x y b h k = ground (arith, h, k, bytes_beq_iff x y, bytes_beq_iff y x)

-- The keys of `cs` are not among those seen, a further one included.
still_fresh :
    (seen : List Bytes) (cs : List Candidate) (k : Bytes)
    → has k (map key_of cs) ≡ false
    → All (λ d. has (key_of d) seen ≡ false) cs
    → All (λ d. has (key_of d) (k ∷ seen) ≡ false) cs
unfolding has
still_fresh seen [] k e f = tt
still_fresh seen (d ∷ cs) k e f = (
  both_false (key_of d) k (has (key_of d) seen) (first_false (key_of d == k) _ e) f.0,
  still_fresh seen cs k (second_false (key_of d == k) _ e) f.1,
)

-- Results without a repeated key are all kept.
collect_unique :
    (seen : List Bytes) (cs : List Candidate)
    → IsUnique (map key_of cs)
    → All (λ c. has (key_of c) seen ≡ false) cs
    → collect seen cs ≡ cs
unfolding collect
collect_unique seen [] u f = refl
collect_unique seen (c ∷ cs) u f =
    rw (f.0) (
      ap (◌∷◌ c) (collect_unique (key_of c ∷ seen) cs u.1 (still_fresh seen cs (key_of c) u.0 f.1)))

all_fresh : (cs : List Candidate) → All (λ c. has (key_of c) [] ≡ false) cs
unfolding has
all_fresh [] = tt
all_fresh (c ∷ cs) = (refl, all_fresh cs)

same_key : (a b : Candidate) → (le_candidate a b && le_candidate b a) ≡ true → key_of a ≡ key_of b
same_key a b h =
    let e = le_candidate_antisym a b h in λ i. address (record { host = e.0 i; port = e.1 i })

rank-Reordered :
    {xs ys : List Candidate} → Reordered xs ys → IsUnique (map key_of xs) → rank xs ≡ rank ys
unfolding rank
rank-Reordered {xs} {ys} r u =
    ap (sort_by le_candidate) (collect_unique [] xs u (all_fresh xs))
    ∙ sort_by-Reordered key_of le_candidate candidate-IsOrder same_key r u
    ∙ ap (sort_by le_candidate)
        (sym (collect_unique [] ys (IsUnique-Reordered key_of r u) (all_fresh ys)))

-- However the workers share the targets and in whatever order their results arrive, the scan finds
-- the same list, in the same order: the ports are int64s, none given twice, and all results arrive.
pub scan_found_deterministic :
    (net : Network) (opts : ScanOptions) (l : Locals)
    (deliver other : List Candidate → List Candidate)
    → All IsInt64 opts.ports
    → IsUnique opts.ports
    → ((cs : List Candidate) → Reordered cs (deliver cs))
    → ((cs : List Candidate) → Reordered cs (other cs))
    → scan_found net deliver opts l ≡ scan_found net other opts l
unfolding scan_found
scan_found_deterministic net opts l deliver other pb pu d o =
    sym (rank-Reordered (d results) unique) ∙ rank-Reordered (o results) unique
  where
    hosts : List ℕ
    hosts = scan_hosts opts l net.arp

    results : List Candidate
    results = probe_hosts net.port hosts opts.ports

    unique : IsUnique (map key_of results)
    unique =
        probe_hosts-IsUnique net.port hosts opts.ports (scan_hosts-AreTargets opts l net.arp).1
          (scan_hosts-AreTargets opts l net.arp).0 pb pu
