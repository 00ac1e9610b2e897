-- ===== src/Sdk/Connection/Choice.antt =====
-- QuickConnect: which candidate it connects to, and what the client is then.
use guhfrtui.Base.{
  ◌≡◌, refl, sym, subst, ◌∙◌, inl, inr, false, List, [], ◌∷◌, Option, none, some, Bool-cases,
  if◌then◌else◌, arith,
}
use guhfrtui.Transport
use guhfrtui.Transport.{Endpoint, new_session}
use guhfrtui.Transport.Delivery.{Connected, connect-Connected}
use guhfrtui.Discovery.{Candidate}
use guhfrtui.Discovery.Scan
use guhfrtui.Discovery.Scan.Verified.{VerifiedFirst, any_verified}
use guhfrtui.Sdk.Client.{Client, emit_status, connected, connected_to}
use guhfrtui.Sdk.Control.{stop_inventory}
use guhfrtui.Sdk.Connection.{
  Linked, World, on_connect, connect, reconnect, find_verified, choose, endpoint_of, QuickError,
  on_reconnect, try_choice, quick_connect,
}

find_verified-none : (cs : List Candidate) → any_verified cs ≡ false → find_verified cs ≡ none
unfolding find_verified any_verified
find_verified-none [] h = refl
find_verified-none (c ∷ cs) h = ground (arith, h, find_verified-none cs)

-- Where the verified come first, the choice is the first candidate.
pub choose_first :
    (c : Candidate) (cs : List Candidate) → VerifiedFirst (c ∷ cs) → choose (c ∷ cs) ≡ some c
unfolding choose find_verified
choose_first c cs h = elim (Bool-cases c.verified) [
  | inl yes_it_is ↦ rw yes_it_is refl
  | inr not_verified ↦
      rw (not_verified, find_verified-none cs (ground (arith, h.0, not_verified))) refl
]

emit_status_keeps :
    (m : _) (c : Client)
    → ((emit_status m c).reader_addr ≡ c.reader_addr)
      × ((emit_status m c).inventory_on ≡ c.inventory_on)
      × ((emit_status m c).cfg ≡ c.cfg)
unfolding emit_status
emit_status_keeps m c = ground arith

stop_inventory_off :
    (c : Client)
    → ((stop_inventory c).inventory_on ≡ false)
      × ((stop_inventory c).reader_addr ≡ c.reader_addr)
      × ((stop_inventory c).cfg ≡ c.cfg)
unfolding stop_inventory emit_status
stop_inventory_off c = ground arith

-- A connection that succeeded.
pub record IsLinked (e : Endpoint) (before after : Linked) : Type 0 where
  pub session : after.transport.session ≡ some (new_session e)
  pub stopped : after.client.inventory_on ≡ false
  pub addr : after.client.reader_addr ≡ before.client.reader_addr
  pub cfg : after.client.cfg ≡ before.client.cfg

-- What a call that ended in this way says.
abbrev pub Reconnected : Endpoint → Linked → Option Transport.Error × Linked → Type 0
Reconnected e l (none, l') = IsLinked e l l'
Reconnected e l (some x, l') = l'.client.inventory_on ≡ false

pub reconnect-Reconnected :
    (w : World) (e : Endpoint) (l : Linked) → Reconnected e l (reconnect w e l)
unfolding reconnect connect
reconnect-Reconnected w e l =
    go (Transport.connect w.dial w.meanwhile e t) (connect-Connected w.dial w.meanwhile e t)
  where
    t : Transport.Client
    t = (Transport.disconnect w.closes w.ends l.transport).1

    go :
        (r : Option Transport.Error × Transport.Client)
        → Connected w.dial w.meanwhile e t r
        → Reconnected e l (on_connect e (stop_inventory l.client) r)
    go (none, t') h =
        let off = stop_inventory_off l.client in
        let keeps = emit_status_keeps (connected e) (stop_inventory l.client) in
        record {
          session = h.5;
          stopped = keeps.1 ∙ off.0;
          addr = keeps.0 ∙ off.1;
          cfg = keeps.2 ∙ off.2;
        }
    go (some x, t') h = (stop_inventory_off l.client).0

-- A successful QuickConnect: the candidate that it returns, and the client.
pub record IsQuick (c : Candidate) (before after : Linked) : Type 0 where
  pub session : after.transport.session ≡ some (new_session (endpoint_of c))
  pub stopped : after.client.inventory_on ≡ false
  pub addr :
      after.client.reader_addr
      ≡ (if c.verified then c.reader_address else before.client.reader_addr)

abbrev pub Quick : Candidate → Linked → Option Candidate × Option QuickError × Linked → Type 0
Quick c l (chosen, none, l') = (chosen ≡ some c) × IsQuick c l l'
Quick c l (chosen, some x, l') = (chosen ≡ some c) × (l'.client.inventory_on ≡ false)

on_reconnect-Quick :
    (c : Candidate) (l : Linked) (r : Option Transport.Error × Linked)
    → Reconnected (endpoint_of c) l r
    → Quick c l (on_reconnect c r)
on_reconnect-Quick c l (some x, l') h = (refl, h)
on_reconnect-Quick c l (none, l') h = (
  refl,
  record { session = h.session; stopped = keeps.1 ∙ addressed.1; addr = keeps.0 ∙ addressed.0 },
)
  where
    client : Client
    client = if c.verified then record l'.client { reader_addr = c.reader_address } else l'.client

    keeps :
        ((emit_status (connected_to (endpoint_of c)) client).reader_addr ≡ client.reader_addr)
        × ((emit_status (connected_to (endpoint_of c)) client).inventory_on ≡ client.inventory_on)
        × ((emit_status (connected_to (endpoint_of c)) client).cfg ≡ client.cfg)
    keeps = emit_status_keeps (connected_to (endpoint_of c)) client

    addressed :
        (client.reader_addr ≡ (if c.verified then c.reader_address else l.client.reader_addr))
        × (client.inventory_on ≡ false)
    addressed = ground (arith, h.addr, h.stopped)

-- QuickConnect with candidates that a scan returned, the verified ones first: it tries the first
-- candidate and no other, so that a port that did not answer as a reader is tried only when none did.
-- On success the transport has a new session with it, the inventory is off, and the reader's address is
-- the one that a verified candidate answered with, else it is as before.
pub quick_connect_lem :
    (w : World) (c : Candidate) (cs : List Candidate) (e : Option Scan.Error) (l : Linked)
    → VerifiedFirst (c ∷ cs)
    → Quick c l (quick_connect w (c ∷ cs, e) l)
unfolding quick_connect
quick_connect_lem w c cs e l h =
    subst (λ o. Quick c l (try_choice w e l o)) {x = some c} (sym (choose_first c cs h)) (tried e)
  where
    tried : (x : Option Scan.Error) → Quick c l (try_choice w x l (some c))
    tried none =
        unfold try_choice in
        on_reconnect-Quick c l (reconnect w (endpoint_of c) l)
          (reconnect-Reconnected w (endpoint_of c) l)
    tried (some x) =
        unfold try_choice in
        on_reconnect-Quick c l (reconnect w (endpoint_of c) l)
          (reconnect-Reconnected w (endpoint_of c) l)
