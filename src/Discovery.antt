-- ===== src/Discovery.antt =====
-- internal/discovery/scanner.go: candidates, the scan's options and the scores.
pub mod Address
pub mod Hosts
pub mod Probe
pub mod Scan
use guhfrtui.Base.{
  ℕ, ◌+◌, ◌*◌, Bool, true, false, not, ◌&&◌, ◌||◌, List, [], ◌∷◌, Option, none, some, length, take,
  ltb, leb, nat_beq, if◌then◌else◌, Bytes,
}
use guhfrtui.Base.Int.{ℤ, pos, int_lt, int_beq}
use guhfrtui.Text.{is_empty, trim_space}
use guhfrtui.Text.Parts.{codes, to_lower, contains}

-- What the text of the reason says.
pub data Reason : Type 0 where
  open_port banner_matched : Reason
  reader_protocol : Bytes → ℕ → Reason

pub record Candidate : Type 0 where
  pub host : Bytes
  pub port : ℤ
  pub score : ℕ
  pub banner : Bytes
  pub reason : Reason
  pub verified : Bool
  pub reader_address : ℕ
  pub protocol : Bytes

-- Durations are nanoseconds.
pub record ScanOptions : Type 0 where
  pub ports : List ℤ
  pub timeout : ℤ
  pub concurrency : ℤ
  pub host_limit : ℤ

abbrev pub default_options : ScanOptions
default_options = record {
  ports = pos 2022 ∷ pos 27011 ∷ pos 6000 ∷ pos 4001 ∷ pos 10001 ∷ pos 5000 ∷ [];
  timeout = pos 180000000;
  concurrency = pos 96;
  host_limit = pos 254;
}

abbrev pub no_ports : List ℤ → Bool
no_ports [] = true
no_ports (p ∷ ps) = false

abbrev pub or_default : ℤ → ℤ → ℤ
or_default default n = if int_lt (pos 0) n then n else default

-- The head of Scan. Without ports all options are the defaults.
unfoldable pub fill_options : ScanOptions → ScanOptions
fill_options given =
    let opts = if no_ports given.ports then default_options else given in
    record opts {
      timeout = or_default default_options.timeout opts.timeout;
      concurrency = or_default default_options.concurrency opts.concurrency;
      host_limit = or_default default_options.host_limit opts.host_limit;
    }

abbrev pub is_reader_port : ℤ → Bool
is_reader_port port =
    int_beq port (pos 2022)
    || int_beq port (pos 27011)
    || int_beq port (pos 4001)
    || int_beq port (pos 5000)
    || int_beq port (pos 6000)
    || int_beq port (pos 7000)
    || int_beq port (pos 10001)

abbrev pub is_web_port : ℤ → Bool
is_web_port port = int_beq port (pos 80) || int_beq port (pos 443) || int_beq port (pos 8080)

unfoldable pub port_score : ℤ → ℕ
unfolding int_beq
port_score port =
    if is_reader_port port
    then 55
    else if int_beq port (pos 23)
    then 30
    else if is_web_port port
    then 20
    else 10

abbrev pub keywords : List Bytes
keywords =
    codes "rfid"
    ∷ (codes "uhf" ∷ (codes "reader" ∷ (codes "impinj" ∷ (codes "epc" ∷ (codes "e710" ∷ [])))))

unfoldable pub count_keywords : List Bytes → Bytes → ℕ
unfolding contains
count_keywords [] text = 0
count_keywords (k ∷ ks) text = (if contains text k then 18 else 0) + count_keywords ks text

unfoldable pub keyword_score : Bytes → ℕ
unfolding count_keywords to_lower
keyword_score banner = count_keywords keywords (to_lower banner)

-- The loop of sanitizeASCII. A byte from 128 on belongs to a rune that it leaves out.
unfoldable pub printable_bytes : Bytes → Bytes
printable_bytes [] = []
printable_bytes (c ∷ cs) =
    let rest = printable_bytes cs in
    if leb 32 c && leb c 126
    then c ∷ rest
    else if nat_beq c 10 || nat_beq c 13 || nat_beq c 9
    then 32 ∷ rest
    else rest

unfoldable pub sanitize_ascii : Bytes → Bytes
unfolding printable_bytes trim_space
sanitize_ascii text = trim_space (printable_bytes text)

-- `received` is what the read returns, at most 256 bytes; none if it fails.
unfoldable pub read_banner : Option Bytes → Bytes
unfolding sanitize_ascii
read_banner none = []
read_banner (some received) = if is_empty received then [] else take 140 (sanitize_ascii received)
