-- ===== src/Discovery/Probe.antt =====
-- scanner.go `probeTarget` and what it calls. The connection is a parameter: whether it can be made,
-- what comes back after a payload, and what the last read returns.
use guhfrtui.Base.{
  ℕ, ◌+◌, ◌-◌, true, false, List, [], ◌∷◌, ◌++◌, Option, none, some, length, drop, ltb, nat_beq,
  if◌then◌else◌, Bytes,
}
use guhfrtui.Base.Int.{ℤ}
use guhfrtui.Text.{is_empty}
use guhfrtui.Text.Parts.{codes}
use guhfrtui.Reader18.Packet.{Frame}
use guhfrtui.Reader18.Frames.{parse_frames}
use guhfrtui.Reader18.Commands.{
  cmd_inventory, cmd_get_reader_info, get_reader_info_command, inventory_g2_command,
  inventory_single_command,
}
use guhfrtui.Discovery.{
  Candidate, open_port, banner_matched, reader_protocol, port_score, keyword_score, read_banner,
}
use guhfrtui.Discovery.Address.{host_text}

-- What a read before the deadline returns; the list of them ends with the deadline.
pub data Chunk : Type 0 where
  timed_out failed : Chunk
  bytes : Bytes → Chunk

-- The stream is cut to its last 2048 bytes when it is longer than 4096.
abbrev pub cap_stream : Bytes → Bytes
cap_stream stream = if ltb 4096 (length stream) then drop (length stream - 2048) stream else stream

unfoldable pub read_frames : List Chunk → Bytes → List Frame × Bytes
unfolding parse_frames
read_frames [] stream = ([], stream)
read_frames (timed_out ∷ chunks) stream = read_frames chunks stream
read_frames (failed ∷ chunks) stream = ([], stream)
read_frames (bytes [] ∷ chunks) stream = read_frames chunks stream
read_frames (bytes (c ∷ p) ∷ chunks) stream =
    let (frames, remaining) = parse_frames (cap_stream (stream ++ (c ∷ p))) in
    elim frames [ [] ↦ read_frames chunks remaining | f ∷ fs ↦ (f ∷ fs, remaining) ]

-- The connection: the chunks that come back after a payload, or none if it cannot be written. The
-- payloads of the probes differ.
abbrev pub Conn : Type 0
Conn = Bytes → Option (List Chunk)

abbrev pub frames_of : Option (List Chunk) → List Frame
frames_of none = []
frames_of (some chunks) = (read_frames chunks []).0

unfoldable pub send_probe_and_read_frames : Conn → Bytes → List Frame
unfolding read_frames
send_probe_and_read_frames conn payload = if is_empty payload then [] else frames_of (conn payload)

pub record ProbeKind : Type 0 where
  pub name : Bytes
  pub expect : ℕ
  pub cmd : ℕ → Bytes

abbrev pub probes : List ProbeKind
probes =
    record { name = codes "get-info"; expect = cmd_get_reader_info; cmd = get_reader_info_command }
    ∷ (record {
      name = codes "inventory-g2";
      expect = cmd_inventory;
      cmd = λ addr. inventory_g2_command addr 0x04 0x01 0x00 0x00 0x00 0x80 0x0A;
    }
        ∷ (record {
          name = codes "inventory-legacy";
          expect = cmd_inventory;
          cmd = inventory_single_command;
        }
            ∷ []))

-- DefaultReaderAddress and BroadcastReaderAddress
abbrev pub addresses : List ℕ
addresses = 0x00 ∷ (0xFF ∷ [])

-- The first frame with the expected command.
unfoldable pub find_frame : ℕ → List Frame → Option Frame
find_frame expect [] = none
find_frame expect (f ∷ fs) =
    let later = find_frame expect fs in if nat_beq f.command expect then some f else later

-- The reader's address and the protocol's name, of the first probe that is answered.
abbrev pub or_else {ℓ} : {A : Type ℓ} → Option A → Option A → Option A
or_else none other = other
or_else (some x) other = some x

abbrev pub answer : ProbeKind → Option Frame → Option (ℕ × Bytes)
answer probe none = none
answer probe (some f) = some (f.address, codes "reader18/" ++ probe.name)

unfoldable pub try_addresses : Conn → ProbeKind → List ℕ → Option (ℕ × Bytes)
unfolding find_frame send_probe_and_read_frames
try_addresses conn probe [] = none
try_addresses conn probe (addr ∷ addrs) =
    or_else
      (answer probe (find_frame probe.expect (send_probe_and_read_frames conn (probe.cmd addr))))
      (try_addresses conn probe addrs)

unfoldable pub try_probes : Conn → List ProbeKind → Option (ℕ × Bytes)
unfolding try_addresses
try_probes conn [] = none
try_probes conn (probe ∷ rest) = or_else (try_addresses conn probe addresses) (try_probes conn rest)

unfoldable pub probe_reader_protocol : Conn → Option (ℕ × Bytes)
unfolding try_probes
probe_reader_protocol conn = try_probes conn probes

-- What a port answers: it cannot be connected to, or there is a connection and what its last read
-- returns.
pub data Port : Type 0 where
  unreachable : Port
  reachable : Conn → Option Bytes → Port

-- The candidate for a probe with this outcome; the banner is read of a port without a reader only.
unfoldable pub candidate_of : Bytes → ℤ → Bytes → Option (ℕ × Bytes) → Candidate
unfolding port_score keyword_score
candidate_of host port banner (some (addr, protocol)) = record {
  host = host;
  port = port;
  score = port_score port + 160;
  banner = [];
  reason = reader_protocol protocol addr;
  verified = true;
  reader_address = addr;
  protocol = protocol;
}
candidate_of host port banner none = record {
  host = host;
  port = port;
  score = port_score port + (if is_empty banner then 0 else keyword_score banner);
  banner = banner;
  reason = if is_empty banner then open_port else banner_matched;
  verified = false;
  reader_address = 0;
  protocol = [];
}

unfoldable pub probe_target : ℕ → ℤ → Port → Option Candidate
unfolding probe_reader_protocol read_banner candidate_of host_text
probe_target host port unreachable = none
probe_target host port (reachable conn last_read) =
    some (candidate_of (host_text host) port (read_banner last_read) (probe_reader_protocol conn))
