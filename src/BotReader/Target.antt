-- ===== src/BotReader/Target.antt =====
-- Which endpoint connectAndStart connects to.
use guhfrtui.Base.{
  ◌≡◌, refl, ap, ◌⊎◌, inl, inr, true, false, List, [], ◌∷◌, ◌++◌, Option, none, some, if_intro,
  Bool-cases, arith,
}
use guhfrtui.Base.Int.{pos, int_lt}
use guhfrtui.Text.{is_empty}
use guhfrtui.Discovery.{Candidate}
use guhfrtui.Discovery.Scan
use guhfrtui.Discovery.Scan.Verified.{any_verified}
use guhfrtui.Sdk.Connection.{find_verified, choose, or_first}
use guhfrtui.BotReader.{
  Error, direct_connect, connect_failed, discover_failed, no_endpoint, Manager,
}
use guhfrtui.BotReader.Loop.{
  Attempt, Target, refused, target, is_direct, no_candidate, chosen_target, pick_target,
}

-- The candidate is the first verified one, or the first of all where none is verified.
abbrev pub Picks : List Candidate → Candidate → Type 0
Picks cs c =
    ((before : List Candidate) × (after : List Candidate) × (cs ≡ before ++ (c ∷ after))
      × (any_verified before ≡ false)
      × (c.verified ≡ true))
    ⊎ ((any_verified cs ≡ false) × (rest : List Candidate) × (cs ≡ c ∷ rest))

-- The configuration names a reader, or not.
abbrev pub NamesReader : Manager → Type 0
NamesReader m = (is_empty m.cfg.reader_host ≡ false) × (int_lt (pos 0) m.cfg.reader_port ≡ true)

abbrev pub NamesNone : Manager → Type 0
NamesNone m = (is_empty m.cfg.reader_host ≡ true) ⊎ (int_lt (pos 0) m.cfg.reader_port ≡ false)

-- What a call of Discover that leaves no candidate is answered with.
abbrev pub Unfound : Option Scan.Error → Error → Type 0
Unfound none x = x ≡ no_endpoint
Unfound (some e) x = x ≡ discover_failed e

-- Why there is no target, or which it is, with the error of a connection to it that fails: the reader
-- that the configuration names, and else the picked candidate of those discovered.
abbrev pub Aims : Attempt → Manager → Target → Type 0
Aims a m (refused x) = NamesNone m × (a.discovered.0 ≡ []) × Unfound a.discovered.1 x
Aims a m (target failure e) =
    (NamesReader m
      × (e.host ≡ m.cfg.reader_host)
      × (e.port ≡ m.cfg.reader_port)
      × (failure ≡ direct_connect e))
    ⊎ (NamesNone m
        × (c : Candidate) × Picks a.discovered.0 c
        × (e.host ≡ c.host)
        × (e.port ≡ c.port)
        × (failure ≡ connect_failed e))

abbrev FirstVerified : List Candidate → Option Candidate → Type 0
FirstVerified cs none = any_verified cs ≡ false
FirstVerified cs (some c) =
    (before : List Candidate) × (after : List Candidate) × (cs ≡ before ++ (c ∷ after))
    × (any_verified before ≡ false)
    × (c.verified ≡ true)

find_verified-FirstVerified : (cs : List Candidate) → FirstVerified cs (find_verified cs)
unfolding find_verified any_verified
find_verified-FirstVerified [] = refl
find_verified-FirstVerified (c ∷ cs) =
    if_intro (FirstVerified (c ∷ cs)) c.verified (λ set. ([], cs, refl, refl, set))
      (λ unset. later (find_verified cs) unset (find_verified-FirstVerified cs))
  where
    later :
        (o : Option Candidate) → c.verified ≡ false → FirstVerified cs o → FirstVerified (c ∷ cs) o
    later none unset h = ground (arith, unset, h)
    later (some d) unset (before, after, is, unverified, set) =
        (c ∷ before, after, ap (λ ds. c ∷ ds) is, ground (arith, unset, unverified), set)

abbrev Chosen : List Candidate → Option Candidate → Type 0
Chosen cs none = cs ≡ []
Chosen cs (some c) = Picks cs c

choose-Chosen : (cs : List Candidate) → Chosen cs (choose cs)
unfolding choose
choose-Chosen cs = go cs (find_verified cs) (find_verified-FirstVerified cs)
  where
    go :
        (ds : List Candidate) (o : Option Candidate)
        → FirstVerified ds o
        → Chosen ds (or_first o ds)
    go ds (some c) h = inl h
    go [] none h = refl
    go (d ∷ ds) none h = inr (h, ds, refl)

none_named : (m : Manager) → is_direct m ≡ false → NamesNone m
unfolding is_direct
none_named m h = elim (Bool-cases (is_empty m.cfg.reader_host)) [
  | inl empty ↦ inl empty
  | inr full ↦ inr (ground (arith, h, full))
]

pub pick_target-Aims : (a : Attempt) (m : Manager) → Aims a m (pick_target a m)
unfolding pick_target
pick_target-Aims a m =
    if_intro (Aims a m) (is_direct m) (λ set. inl (named set, refl, refl, refl))
      (λ unset. found (none_named m unset) (choose a.discovered.0) (choose-Chosen a.discovered.0))
  where
    named : is_direct m ≡ true → NamesReader m
    named h = unfold is_direct in ground (arith, h)

    unfound : (o : Option Scan.Error) → Unfound o (no_candidate o)
    unfound none = refl
    unfound (some e) = refl

    found :
        NamesNone m
        → (o : Option Candidate) → Chosen a.discovered.0 o
        → Aims a m (chosen_target a.discovered.1 o)
    found n none h = (n, h, unfound a.discovered.1)
    found n (some c) h = inr (n, c, h, refl, refl, refl)
