-- ===== src/Discovery/Scan/Verified.antt =====
-- Readers that answered come first in the list of candidates.
use guhfrtui.Base.{
  ℕ, ◌+◌, ◌*◌, ◌≤◌, length, ◌≡◌, Bool, true, false, not, ◌&&◌, ◌||◌, List, [], ◌∷◌, ◌++◌, Option,
  none, some, All, All-append, leb, bytes_eq, if◌then◌else◌, if_intro, Bytes, arith,
}
use guhfrtui.Base.Int.{ℤ, int_beq, pos}
use guhfrtui.Base.Sets.{has}
use guhfrtui.Base.Sorting.{
  IsSortedBy, sort_by, sort_by-IsSortedBy, Reordered, All-Reordered, All-append_left, sort_by-All,
}
use guhfrtui.Text.{is_empty}
use guhfrtui.Text.Parts.{to_lower}
use guhfrtui.Discovery.{
  Candidate, ScanOptions, port_score, is_reader_port, is_web_port, keywords, count_keywords,
  keyword_score,
}
use guhfrtui.Discovery.Hosts.{Locals}
use guhfrtui.Discovery.Probe.{Port, unreachable, reachable, candidate_of, probe_target}
use guhfrtui.Discovery.Scan.{
  Network, key_of, add_found, probe_ports, probe_hosts, scan_hosts, collect, less, le_candidate,
  rank, scan_found,
}
use guhfrtui.Discovery.Scan.Order.{candidate-IsOrder}

-- The score of a reader that answered is out of reach of the other ports.
abbrev pub IsScored : Candidate → Type 0
IsScored c = c.verified ≡ leb 170 c.score

port_score_bounds : (p : ℤ) → (10 ≤ port_score p) × (port_score p ≤ 55)
unfolding port_score
port_score_bounds p =
    if_intro P (is_reader_port p) (λ _. omega arith)
      (λ _.
        if_intro P (int_beq p (pos 23)) (λ _. omega arith)
          (λ _. if_intro P (is_web_port p) (λ _. omega arith) (λ _. omega arith)))
  where
    P : ℕ → Type 0
    P n = (10 ≤ n) × (n ≤ 55)

count_keywords_bound : (ks : List Bytes) (text : Bytes) → count_keywords ks text ≤ 18 * length ks
unfolding count_keywords
count_keywords_bound [] text = omega arith
count_keywords_bound (k ∷ ks) text = ground (arith, count_keywords_bound ks text)

keyword_score_bound : (banner : Bytes) → (if is_empty banner then 0 else keyword_score banner) ≤ 108
unfolding keyword_score
keyword_score_bound banner =
    if_intro (λ n. n ≤ 108) (is_empty banner) (λ _. omega arith)
      (λ _. count_keywords_bound keywords (to_lower banner))

below_170 : (a b : ℕ) → a ≤ 55 → b ≤ 108 → false ≡ leb 170 (a + b)
below_170 a b h k = ground (arith, h, k)

from_170 : (a : ℕ) → 10 ≤ a → true ≡ leb 170 (a + 160)
from_170 a h = ground (arith, h)

candidate_of-IsScored :
    (host : Bytes) (p : ℤ) (banner : Bytes) (a : Option (ℕ × Bytes))
    → IsScored (candidate_of host p banner a)
unfolding candidate_of
candidate_of-IsScored host p banner none =
    below_170 (port_score p) _ (port_score_bounds p).1 (keyword_score_bound banner)
candidate_of-IsScored host p banner (some (addr, protocol)) =
    from_170 (port_score p) (port_score_bounds p).0

add_found-All :
    (host : ℕ) (p : ℤ) (q : Port) (cs : List Candidate)
    → All IsScored cs
    → All IsScored (add_found (probe_target host p q) cs)
unfolding probe_target
add_found-All host p unreachable cs h = h
add_found-All host p (reachable conn last) cs h = (candidate_of-IsScored _ p _ _, h)

probe_ports-All : (net : ℕ → ℤ → Port) (h : ℕ) (ps : List ℤ) → All IsScored (probe_ports net h ps)
unfolding probe_ports
probe_ports-All net h [] = tt
probe_ports-All net h (p ∷ ps) = add_found-All h p (net h p) _ (probe_ports-All net h ps)

probe_hosts-All :
    (net : ℕ → ℤ → Port) (hs : List ℕ) (ps : List ℤ) → All IsScored (probe_hosts net hs ps)
unfolding probe_hosts
probe_hosts-All net [] ps = tt
probe_hosts-All net (h ∷ hs) ps =
    All-append IsScored (probe_ports net h ps) (probe_hosts net hs ps) (probe_ports-All net h ps)
      (probe_hosts-All net hs ps)

collect-All :
    (seen : List Bytes) (cs : List Candidate) → All IsScored cs → All IsScored (collect seen cs)
unfolding collect
collect-All seen [] h = tt
collect-All seen (c ∷ cs) h =
    if_intro (All IsScored) (has (key_of c) seen) (λ _. collect-All seen cs h.1)
      (λ _. (h.0, collect-All (key_of c ∷ seen) cs h.1))

unfoldable pub any_verified : List Candidate → Bool
any_verified [] = false
any_verified (c ∷ cs) = c.verified || any_verified cs

-- Behind a candidate that is not verified none is.
abbrev pub VerifiedFirst : List Candidate → Type 0
VerifiedFirst [] = Unit
VerifiedFirst (c ∷ cs) = ((not c.verified && any_verified cs) ≡ false) × VerifiedFirst cs

le-score : (c d : Candidate) → le_candidate c d ≡ true → d.score ≤ c.score
unfolding le_candidate less
le-score c d h = ground (arith, h)

sorted-VerifiedFirst :
    (cs : List Candidate) → IsSortedBy le_candidate cs → All IsScored cs → VerifiedFirst cs
unfolding any_verified
sorted-VerifiedFirst [] s h = tt
sorted-VerifiedFirst (c ∷ []) s h = (ground arith, tt)
sorted-VerifiedFirst (c ∷ (d ∷ cs)) s h =
    let later = sorted-VerifiedFirst (d ∷ cs) s.1 h.1 in
    (ground (arith, later.0, le-score c d s.0, h.0, h.1.0), later)

-- In the list that the scan finds, every reader that answered stands before all other candidates, also
-- when the context ends and some of the results are lost: `deliver` is what arrives of them, in any
-- order, and `lost` the rest.
pub scan_found-VerifiedFirst :
    (net : Network) (opts : ScanOptions) (l : Locals)
    (deliver lost : List Candidate → List Candidate)
    → ((cs : List Candidate) → Reordered cs (deliver cs ++ lost cs))
    → VerifiedFirst (scan_found net deliver opts l)
unfolding scan_found rank
scan_found-VerifiedFirst net opts l deliver lost parts =
    sorted-VerifiedFirst (sort_by le_candidate found)
      (sort_by-IsSortedBy le_candidate candidate-IsOrder found)
      (sort_by-All IsScored le_candidate found (
        collect-All [] (deliver results) (
          All-append_left IsScored (deliver results) (lost results) (
            All-Reordered IsScored (parts results)
              (probe_hosts-All net.port (scan_hosts opts l net.arp) opts.ports)))))
  where
    results : List Candidate
    results = probe_hosts net.port (scan_hosts opts l net.arp) opts.ports

    found : List Candidate
    found = collect [] (deliver results)
