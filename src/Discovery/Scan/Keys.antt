-- ===== src/Discovery/Scan/Keys.antt =====
-- The keys of the results: a target's address determines its host and its port.
use mathlib.Core.List.{map-append}
use guhfrtui.Base.{
  ℕ, suc, ◌/◌, ◌%◌, ◌^◌, ◌<◌, ◌≡◌, refl, sym, ap, ◌∙◌, Bool, true, false, ◌||◌, List, [], ◌∷◌, ◌++◌,
  Option, none, some, All, nat_eq, bytes_eq, ◌==◌, bytes_beq_iff, Bytes, arith, map, nat_beq_iff,
  Bool-cases, inl, inr, subst,
}
use guhfrtui.Base.Int.{ℤ, int_eq, int_beq_iff}
use guhfrtui.Base.Sets.{has, IsUnique, has-append}
use guhfrtui.Text.Parts.{cut}
use guhfrtui.Text.Numbers.{itoa, atoi, IsInt64, atoi-itoa, is_digit, decimal_digits}
use guhfrtui.Transport.{address}
use guhfrtui.Discovery.{Candidate}
use guhfrtui.Discovery.Address.{host_text, octet_text, parse_ipv4, parse_ipv4-host_text}
use guhfrtui.Discovery.Probe.{Port, unreachable, reachable, probe_target, candidate_of}
use guhfrtui.Discovery.Scan.{key_of, add_found, probe_ports, probe_hosts}

cut_plain :
    (sep : ℕ) (xs rest : Bytes)
    → has sep xs ≡ false
    → cut sep (xs ++ (sep ∷ rest)) ≡ some (xs, rest)
unfolding cut has
cut_plain sep [] rest h = ground arith
cut_plain sep (x ∷ xs) rest h = ground (arith, h, cut_plain sep xs rest)

has_colon_digits : (s : Bytes) → All (λ c. is_digit c ≡ true) s → has b':' s ≡ false
unfolding has
has_colon_digits [] h = refl
has_colon_digits (c ∷ s) h = ground (arith, h.0, has_colon_digits s h.1)

has_colon_octet : (n : ℕ) → has b':' (octet_text n) ≡ false
has_colon_octet n = has_colon_digits (octet_text n) (decimal_digits (suc n) n)

has_colon_dotted :
    (a b : Bytes) → has b':' a ≡ false → has b':' b ≡ false → has b':' (a ++ (b'.' ∷ b)) ≡ false
has_colon_dotted a b ha hb = has-append b':' a (b'.' ∷ b) ∙ unfold has in ground (arith, ha, hb)

has_colon_host : (v : ℕ) → has b':' (host_text v) ≡ false
unfolding host_text
has_colon_host v =
    has_colon_dotted (octet_text a)
      (octet_text b ++ (b'.' ∷ (octet_text c ++ (b'.' ∷ octet_text d)))) (has_colon_octet a)
      (has_colon_dotted (octet_text b) (octet_text c ++ (b'.' ∷ octet_text d)) (has_colon_octet b)
        (has_colon_dotted (octet_text c) (octet_text d) (has_colon_octet c) (has_colon_octet d)))
  where
    a : ℕ
    a = v / 256 ^ 3 % 256

    b : ℕ
    b = v / 256 ^ 2 % 256

    c : ℕ
    c = v / 256 % 256

    d : ℕ
    d = v % 256

abbrev target_key : ℕ → ℤ → Bytes
target_key host port = address (record { host = host_text host; port = port })

cut-target_key :
    (host : ℕ) (port : ℤ) → cut b':' (target_key host port) ≡ some (host_text host, itoa port)
unfolding address
cut-target_key host port =
    rw (has_colon_host host) (cut_plain b':' (host_text host) (itoa port) (has_colon_host host))

abbrev host_of : Option (Bytes × Bytes) → Option ℕ
host_of none = none
host_of (some (h, p)) = parse_ipv4 h

abbrev port_of : Option (Bytes × Bytes) → Option ℤ
port_of none = none
port_of (some (h, p)) = atoi p

pub target_key_injective :
    (h h' : ℕ) (p p' : ℤ)
    → h < 256 ^ 4
    → h' < 256 ^ 4
    → IsInt64 p
    → IsInt64 p'
    → target_key h p ≡ target_key h' p'
    → (h ≡ h') × (p ≡ p')
target_key_injective h h' p p' hb hb' pb pb' e = (cc hosts, cc ports)
  where
    cuts :
        ◌≡◌ {A = Option (Bytes × Bytes)} (some (host_text h, itoa p)) (some (host_text h', itoa p'))
    cuts = sym (cut-target_key h p) ∙ ap (cut b':') e ∙ cut-target_key h' p'

    hosts : some h ≡ some h'
    hosts = sym (parse_ipv4-host_text h hb) ∙ ap host_of cuts ∙ parse_ipv4-host_text h' hb'

    ports : some p ≡ some p'
    ports = sym (atoi-itoa p pb) ∙ ap port_of cuts ∙ atoi-itoa p' pb'

-- What a probe finds has the key of its target.
Found : ℕ → ℤ → Option Candidate → Type 0
Found h p none = Unit {0}
Found h p (some c) = key_of c ≡ target_key h p

candidate_of_key :
    (h : ℕ) (p : ℤ) (banner : Bytes) (a : Option (ℕ × Bytes))
    → key_of (candidate_of (host_text h) p banner a) ≡ target_key h p
unfolding candidate_of
candidate_of_key h p banner none = refl
candidate_of_key h p banner (some (addr, protocol)) = refl

probe_target-Found : (h : ℕ) (p : ℤ) (q : Port) → Found h p (probe_target h p q)
unfolding probe_target Found
probe_target-Found h p unreachable = tt
probe_target-Found h p (reachable conn last) = candidate_of_key h p _ _

abbrev keys_of : List Candidate → List Bytes
keys_of cs = map key_of cs

-- A key that none of the ports of the host has.
abbrev IsFresh : Bytes → ℕ → List ℤ → Type 0
IsFresh k h ps = All (λ p. (target_key h p == k) ≡ false) ps

or_false : (a b : Bool) → a ≡ false → b ≡ false → (a || b) ≡ false
or_false a b ha hb = ground (arith, ha, hb)

has-add_found :
    (k : Bytes) (h : ℕ) (p : ℤ) (o : Option Candidate) (cs : List Candidate)
    → Found h p o
    → (target_key h p == k) ≡ false
    → has k (keys_of cs) ≡ false
    → has k (keys_of (add_found o cs)) ≡ false
unfolding has Found
has-add_found k h p none cs f e rest = rest
has-add_found k h p (some c) cs f e rest = or_false _ _ (ap (λ x. x == k) f ∙ e) rest

has-probe_ports :
    (net : ℕ → ℤ → Port) (k : Bytes) (h : ℕ) (ps : List ℤ)
    → IsFresh k h ps
    → has k (keys_of (probe_ports net h ps)) ≡ false
unfolding probe_ports has
has-probe_ports net k h [] f = refl
has-probe_ports net k h (p ∷ ps) f =
    has-add_found k h p (probe_target h p (net h p)) (probe_ports net h ps)
      (probe_target-Found h p (net h p)) f.0 (has-probe_ports net k h ps f.1)

add_found-IsUnique :
    (h : ℕ) (p : ℤ) (o : Option Candidate) (cs : List Candidate)
    → Found h p o
    → has (target_key h p) (keys_of cs) ≡ false
    → IsUnique (keys_of cs)
    → IsUnique (keys_of (add_found o cs))
unfolding Found
add_found-IsUnique h p none cs f e u = u
add_found-IsUnique h p (some c) cs f e u = (ap (λ k. has k (keys_of cs)) f ∙ e, u)

differ :
    (h h' : ℕ) (p p' : ℤ)
    → h < 256 ^ 4
    → h' < 256 ^ 4
    → IsInt64 p
    → IsInt64 p'
    → ¬ ((h ≡ h') × (p ≡ p'))
    → (target_key h p == target_key h' p') ≡ false
differ h h' p p' hb hb' pb pb' ne = elim (Bool-cases (target_key h p == target_key h' p')) [
  | inl e ↦ absurd (
      ne (
        target_key_injective h h' p p' hb hb' pb pb'
          ((bytes_beq_iff (target_key h p) (target_key h' p')).0 e)))
  | inr e ↦ e
]

other_port-IsFresh :
    (h : ℕ) (p : ℤ) (ps : List ℤ)
    → h < 256 ^ 4
    → IsInt64 p
    → All IsInt64 ps
    → has p ps ≡ false
    → IsFresh (target_key h p) h ps
unfolding has
other_port-IsFresh h p [] hb pb qb e = tt
other_port-IsFresh h p (q ∷ ps) hb pb qb e = (
  differ h h q p hb hb qb.0 pb (λ same. ground (arith, e, same.1, int_beq_iff q p)),
  other_port-IsFresh h p ps hb pb qb.1 (ground (arith, e)),
)

other_host-IsFresh :
    (h h' : ℕ) (p : ℤ) (ps : List ℤ)
    → h < 256 ^ 4
    → h' < 256 ^ 4
    → IsInt64 p
    → All IsInt64 ps
    → ¬ (h' ≡ h)
    → IsFresh (target_key h p) h' ps
other_host-IsFresh h h' p [] hb hb' pb qb ne = tt
other_host-IsFresh h h' p (q ∷ ps) hb hb' pb qb ne = (
  differ h' h q p hb' hb qb.0 pb (λ same. ne same.0),
  other_host-IsFresh h h' p ps hb hb' pb qb.1 ne,
)

abbrev pub IsAddress : ℕ → Type 0
IsAddress h = h < 256 ^ 4

has-probe_hosts :
    (net : ℕ → ℤ → Port) (h : ℕ) (p : ℤ) (hs : List ℕ) (ps : List ℤ)
    → IsAddress h
    → All IsAddress hs
    → IsInt64 p
    → All IsInt64 ps
    → has h hs ≡ false
    → has (target_key h p) (keys_of (probe_hosts net hs ps)) ≡ false
unfolding probe_hosts has
has-probe_hosts net h p [] ps hb hsb pb qb e = refl
has-probe_hosts net h p (g ∷ hs) ps hb hsb pb qb e =
    ap (has (target_key h p)) (map-append key_of (probe_ports net g ps) (probe_hosts net hs ps))
    ∙ has-append (target_key h p) (keys_of (probe_ports net g ps)) (keys_of (probe_hosts net hs ps))
    ∙ or_false _ _
        (has-probe_ports net (target_key h p) g ps (
          other_host-IsFresh h g p ps hb hsb.0 pb qb
            (λ same. ground (arith, e, same, nat_beq_iff g h))))
        (has-probe_hosts net h p hs ps hb hsb.1 pb qb (ground (arith, e)))

add_found-append :
    (o : Option Candidate) (xs ys : List Candidate) → add_found o (xs ++ ys) ≡ add_found o xs ++ ys
add_found-append none xs ys = refl
add_found-append (some c) xs ys = refl

-- The results of one host, and behind them results whose keys are not of this host.
ports_then-IsUnique :
    (net : ℕ → ℤ → Port) (h : ℕ) (ps : List ℤ) (rest : List Candidate)
    → IsAddress h
    → All IsInt64 ps
    → IsUnique ps
    → All (λ p. has (target_key h p) (keys_of rest) ≡ false) ps
    → IsUnique (keys_of rest)
    → IsUnique (keys_of (probe_ports net h ps ++ rest))
unfolding probe_ports
ports_then-IsUnique net h [] rest hb pb u d ru = ru
ports_then-IsUnique net h (p ∷ ps) rest hb pb u d ru =
    subst (λ cs. IsUnique (keys_of cs)) {x = add_found found (later ++ rest)}
      (add_found-append found later rest)
      (add_found-IsUnique h p found (later ++ rest) (probe_target-Found h p (net h p)) fresh
        (ports_then-IsUnique net h ps rest hb pb.1 u.1 d.1 ru))
  where
    found : Option Candidate
    found = probe_target h p (net h p)

    later : List Candidate
    later = probe_ports net h ps

    fresh : has (target_key h p) (keys_of (later ++ rest)) ≡ false
    fresh =
        ap (has (target_key h p)) (map-append key_of later rest)
        ∙ has-append (target_key h p) (keys_of later) (keys_of rest)
        ∙ or_false _ _
            (has-probe_ports net (target_key h p) h ps (other_port-IsFresh h p ps hb pb.0 pb.1 u.0))
            d.0

fresh_hosts :
    (net : ℕ → ℤ → Port) (h : ℕ) (qs : List ℤ) (hs : List ℕ) (ps : List ℤ)
    → IsAddress h
    → All IsAddress hs
    → All IsInt64 qs
    → All IsInt64 ps
    → has h hs ≡ false
    → All (λ p. has (target_key h p) (keys_of (probe_hosts net hs ps)) ≡ false) qs
fresh_hosts net h [] hs ps hb hsb qb pb e = tt
fresh_hosts net h (q ∷ qs) hs ps hb hsb qb pb e =
    (has-probe_hosts net h q hs ps hb hsb qb.0 pb e, fresh_hosts net h qs hs ps hb hsb qb.1 pb e)

-- No two results have one key, where the hosts and the ports are without repetition.
pub probe_hosts-IsUnique :
    (net : ℕ → ℤ → Port) (hs : List ℕ) (ps : List ℤ)
    → All IsAddress hs
    → IsUnique hs
    → All IsInt64 ps
    → IsUnique ps
    → IsUnique (keys_of (probe_hosts net hs ps))
unfolding probe_hosts
probe_hosts-IsUnique net [] ps hb u pb v = tt
probe_hosts-IsUnique net (h ∷ hs) ps hb u pb v =
    ports_then-IsUnique net h ps (probe_hosts net hs ps) hb.0 pb v
      (fresh_hosts net h ps hs ps hb.0 hb.1 pb pb u.0)
      (probe_hosts-IsUnique net hs ps hb.1 u.1 pb v)
