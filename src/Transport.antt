-- ===== src/Transport.antt =====
-- internal/reader/client.go: the TCP session with a reader. The network is a parameter: whether a
-- dial, a write or a close succeeds, and what a read returns.
pub mod Delivery
use guhfrtui.Base.{
  ℕ, ◌+◌, Bool, true, false, not, ◌||◌, List, [], ◌∷◌, ◌++◌, Option, none, some, length, ltb,
  if◌then◌else◌, nat_eq, Bytes,
}
use guhfrtui.Base.Int.{ℤ, pos, int_lt}
use guhfrtui.Base.Sets.{has}
use guhfrtui.Text.{is_empty}
use guhfrtui.Text.Numbers.{itoa}

pub record Endpoint : Type 0 where
  pub host : Bytes
  pub port : ℤ

-- `net.JoinHostPort`
unfoldable pub address : Endpoint → Bytes
unfolding itoa
address e =
    let host = if has b':' e.host then b'[' ∷ (e.host ++ (b']' ∷ [])) else e.host in
    host ++ (b':' ∷ itoa e.port)

-- What a read of the connection returns.
pub data Read : Type 0 where
  failed : Read
  received : Bytes → Read

-- `packets` and `errs` are the channels, oldest first, which are closed once `done` is. The error
-- channel holds errors of a read only, which are not told apart.
pub record Session : Type 0 where
  pub endpoint : Endpoint
  pub packets : List Bytes
  pub errs : ℕ
  pub done : Bool

pub record Client : Type 0 where
  pub session : Option Session

pub data Error : Type 0 where
  invalid_endpoint already_connected dial_failed close_failed empty_payload not_connected
        write_failed :
      Error

abbrev pub new_client : Client
new_client = record { session = none }

abbrev pub is_some {ℓ} : {A : Type ℓ} → Option A → Bool
is_some none = false
is_some (some x) = true

unfoldable pub is_connected : Client → Bool
is_connected c = is_some c.session

abbrev pub new_session : Endpoint → Session
new_session e = record { endpoint = e; packets = []; errs = 0; done = false }

-- `meanwhile` is what other goroutines do to the client during the dial.
unfoldable pub connect :
    (Endpoint → Bool) → (Client → Client) → Endpoint → Client → Option Error × Client
unfolding is_connected
connect dial meanwhile e c =
    let c' = meanwhile c in
    if is_empty e.host || not (int_lt (pos 0) e.port)
    then (some invalid_endpoint, c)
    else if is_connected c
    then (some already_connected, c)
    else if not (dial e)
    then (some dial_failed, c')
    else if is_connected c'
    then (some already_connected, c')
    else (none, record { session = some (new_session e) })

-- The sends to the channels, which drop the value where the channel is full.
abbrev pub push_packet : Bytes → Session → Session
push_packet p s =
    if ltb (length s.packets) 256 then record s { packets = s.packets ++ (p ∷ []) } else s

abbrev pub push_error : Session → Session
push_error s = if ltb s.errs 32 then record s { errs = s.errs + 1 } else s

-- A round of the loop; a failed read is the last one.
unfoldable pub handle_read : Read → Session → Session
handle_read failed s = record (push_error s) { done = true }
handle_read (received p) s = if is_empty p then s else push_packet p s

unfoldable pub read_loop : List Read → Session → Session
unfolding handle_read
read_loop [] s = s
read_loop (failed ∷ reads) s = handle_read failed s
read_loop (received p ∷ reads) s = read_loop reads (handle_read (received p) s)

-- What the end of the loop does to the client, whose session is the one that the loop serves.
abbrev pub end_session : Client → Client
end_session c = record { session = none }

-- The loop's goroutine, until now.
unfoldable pub run_reads : List Read → Client → Client
unfolding read_loop
run_reads reads c = elim c.session [
  | none ↦ c
  | some s ↦
      let s' = read_loop reads s in if s'.done then end_session c else record { session = some s' }
]

-- `closes` is whether the connection can be closed, `ends` whether the loop ends within the time
-- that Disconnect waits.
unfoldable pub disconnect : Bool → Bool → Client → Option Error × Client
disconnect closes ends c = elim c.session [
  | none ↦ (none, c)
  | some s ↦
      if not closes then (some close_failed, c) else (none, if ends then end_session c else c)
]

unfoldable pub endpoint : Client → Option Endpoint
endpoint c = elim c.session [ none ↦ none | some s ↦ some s.endpoint ]

unfoldable pub packets : Client → Option (List Bytes)
packets c = elim c.session [ none ↦ none | some s ↦ some s.packets ]

unfoldable pub errors : Client → Option ℕ
errors c = elim c.session [ none ↦ none | some s ↦ some s.errs ]

-- `writes` is whether the connection takes the bytes.
unfoldable pub send_raw : (Bytes → Bool) → Bytes → Client → Option Error
send_raw writes payload c = if is_empty payload then some empty_payload else elim c.session [
  | none ↦ some not_connected
  | some s ↦ if writes payload then none else some write_failed
]
