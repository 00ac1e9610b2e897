-- ===== src/Transport/Delivery.antt =====
-- What the read loop delivers, and what connecting does to the session.
use guhfrtui.Base.{
  ◌≤◌, ◌≡◌, refl, sym, ap, ◌∙◌, ◌⊎◌, inl, inr, Bool, true, false, not, List, [], ◌∷◌, ◌++◌, Option,
  none, some, length, take, take-append_length, length-append, append_assoc, append-nil, ltb,
  ltb→lt, take_short, ◌||◌, if◌then◌else◌, if_intro, Bool-cases, Bytes, arith,
}
use guhfrtui.Base.Int.{pos, int_lt}
use guhfrtui.Text.{is_empty}
use guhfrtui.Transport.{
  Endpoint, Read, failed, received, Session, new_session, Client, Error, invalid_endpoint,
  already_connected, dial_failed, close_failed, empty_payload, not_connected, write_failed, connect,
  is_connected, handle_read, read_loop,
}

-- The bytes of the reads before the first that fails, those of empty reads left out.
unfoldable pub payloads : List Read → List Bytes
payloads [] = []
payloads (failed ∷ reads) = []
payloads (received p ∷ reads) = let rest = payloads reads in if is_empty p then rest else p ∷ rest

unfoldable pub has_failure : List Read → Bool
has_failure [] = false
has_failure (failed ∷ reads) = true
has_failure (received p ∷ reads) = has_failure reads

read_loop-packets :
    (reads : List Read) (s : Session)
    → length s.packets ≤ 256
    → (read_loop reads s).packets ≡ take 256 (s.packets ++ payloads reads)
unfolding read_loop handle_read payloads
read_loop-packets [] s h = rw (append-nil s.packets) (sym (take_short 256 s.packets h))
read_loop-packets (failed ∷ reads) s h =
    rw (append-nil s.packets) (ground (arith, take_short 256 s.packets h))
read_loop-packets (received [] ∷ reads) s h = read_loop-packets reads s h
read_loop-packets (received (x ∷ p) ∷ reads) s h =
    if_intro P (ltb (length s.packets) 256)
      (λ room.
        read_loop-packets reads (record s { packets = s.packets ++ ((x ∷ p) ∷ []) })
          (omega
            (arith, length-append s.packets ((x ∷ p) ∷ []), ltb→lt (length s.packets) 256 room))
        ∙ ap (take 256) (append_assoc s.packets ((x ∷ p) ∷ []) (payloads reads)))
      (λ none_left.
        let filled : length s.packets ≡ 256 = ground (arith, h, none_left) in
        read_loop-packets reads s h
        ∙ take-append_length 256 s.packets (payloads reads) filled
        ∙ sym (take-append_length 256 s.packets ((x ∷ p) ∷ payloads reads) filled))
  where
    P : Session → Type 0
    P s' = (read_loop reads s').packets ≡ take 256 (s.packets ++ ((x ∷ p) ∷ payloads reads))

handle_received :
    (p : Bytes) (s : Session)
    → let s' = handle_read (received p) s in
      (s'.done ≡ s.done) × (s'.errs ≡ s.errs) × (s'.endpoint ≡ s.endpoint)
unfolding handle_read
handle_received p s = ground arith

read_loop-done :
    (reads : List Read) (s : Session)
    → s.done ≡ false
    → s.errs ≡ 0
    → ((read_loop reads s).done ≡ has_failure reads)
      × ((read_loop reads s).errs ≡ (if has_failure reads then 1 else 0))
      × ((read_loop reads s).endpoint ≡ s.endpoint)
unfolding read_loop has_failure
read_loop-done [] s d e = ground (arith, d, e)
read_loop-done (failed ∷ reads) s d e = unfold handle_read in ground (arith, e)
read_loop-done (received p ∷ reads) s d e = ground (
  arith,
  d,
  e,
  handle_received p s,
  read_loop-done reads (handle_read (received p) s) ((handle_received p s).0 ∙ d)
      ((handle_received p s).1 ∙ e),
)

-- A new session, nobody reading its channels: the packet channel holds the bytes of the reads before
-- the first that failed, in order, without the empty ones, up to its capacity of 256, and what comes
-- after is lost. The session is done exactly if a read failed, and the error channel then has one error.
pub read_loop_lem :
    (reads : List Read) (e : Endpoint)
    → let s = read_loop reads (new_session e) in
      (s.packets ≡ take 256 (payloads reads))
      × (s.done ≡ has_failure reads)
      × (s.errs ≡ (if has_failure reads then 1 else 0))
      × (s.endpoint ≡ e)
read_loop_lem reads e =
    let rest = read_loop-done reads (new_session e) refl refl in
    (read_loop-packets reads (new_session e) (omega arith), rest.0, rest.1, rest.2)

-- Whether an endpoint has a host and a positive port.
abbrev pub Valid : Endpoint → Type 0
Valid e = (is_empty e.host ≡ false) × (int_lt (pos 0) e.port ≡ true)

-- What a call of Connect that ended in this way says of its endpoint, its dial and the sessions before
-- and after the dial.
abbrev pub Connected :
    (Endpoint → Bool) → (Client → Client) → Endpoint → Client → Option Error × Client → Type 0
Connected dial meanwhile e c (none, c') =
    (is_empty e.host ≡ false)
    × (int_lt (pos 0) e.port ≡ true)
    × (dial e ≡ true)
    × (c.session ≡ none)
    × ((meanwhile c).session ≡ none)
    × (c'.session ≡ some (new_session e))
Connected dial meanwhile e c (some invalid_endpoint, c') =
    ((is_empty e.host ≡ true) ⊎ (int_lt (pos 0) e.port ≡ false)) × (c' ≡ c)
Connected dial meanwhile e c (some already_connected, c') =
    Valid e
    × (((s : Session) × (c.session ≡ some s) × (c' ≡ c))
        ⊎ ((s : Session) × (dial e ≡ true)
            × (c.session ≡ none)
            × ((meanwhile c).session ≡ some s)
            × (c' ≡ meanwhile c)))
Connected dial meanwhile e c (some dial_failed, c') =
    Valid e × (dial e ≡ false) × (c.session ≡ none) × (c' ≡ meanwhile c)
Connected dial meanwhile e c (some close_failed, c') = true ≡ false
Connected dial meanwhile e c (some empty_payload, c') = true ≡ false
Connected dial meanwhile e c (some not_connected, c') = true ≡ false
Connected dial meanwhile e c (some write_failed, c') = true ≡ false

not_connected-none : (c : Client) → is_connected c ≡ false → c.session ≡ none
unfolding is_connected
not_connected-none c h = ground (arith, h)

has_session : (c : Client) → is_connected c ≡ true → (s : Session) × (c.session ≡ some s)
unfolding is_connected
has_session c h = go c.session refl
  where
    go : (o : Option Session) → c.session ≡ o → (s : Session) × (c.session ≡ some s)
    go none e = absurd (ground (arith, h, e))
    go (some s) e = (s, e)

invalid :
    (e : Endpoint)
    → (is_empty e.host || not (int_lt (pos 0) e.port)) ≡ true
    → (is_empty e.host ≡ true) ⊎ (int_lt (pos 0) e.port ≡ false)
invalid e h = elim (Bool-cases (is_empty e.host)) [
  | inl empty ↦ inl empty
  | inr full ↦ inr (ground (arith, h, full))
]

-- Connect refuses an endpoint without a host or with a port that is not positive, and leaves the client
-- alone. With a valid endpoint it says already connected exactly where the client has a session before
-- the dial, or the dial succeeds and another goroutine has made one meanwhile; this session stays. It
-- says that the dial failed exactly where there was no session and the dial does fail. In all other cases
-- it succeeds, with a new session for the endpoint.
pub connect-Connected :
    (dial : Endpoint → Bool) (meanwhile : Client → Client) (e : Endpoint) (c : Client)
    → Connected dial meanwhile e c (connect dial meanwhile e c)
unfolding connect
connect-Connected dial meanwhile e c =
    if_intro P (is_empty e.host || not (int_lt (pos 0) e.port)) (λ h. (invalid e h, refl))
      (λ h.
        let valid : Valid e = (ground (arith, h), ground (arith, h)) in
        if_intro P (is_connected c)
          (λ taken. let (s, is) = has_session c taken in (valid, inl (s, is, refl)))
          (λ free.
            let empty = not_connected-none c free in
            if_intro P (not (dial e)) (λ h. (valid, ground (arith, h), empty, refl))
              (λ dialled.
                if_intro P (is_connected (meanwhile c))
                  (λ taken.
                    let (s, is) = has_session (meanwhile c) taken in
                    (valid, inr (s, ground (arith, dialled), empty, is, refl)))
                  (λ still. (
                    valid.0,
                    valid.1,
                    ground (arith, dialled),
                    empty,
                    not_connected-none (meanwhile c) still,
                    refl,
                  )))))
  where
    P : Option Error × Client → Type 0
    P = Connected dial meanwhile e c
