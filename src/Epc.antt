-- ===== src/Epc.antt =====
-- internal/gobot/erp/client.go `NormalizeEPC`.
pub mod Laws
use guhfrtui.Base.{ℕ, Bool, ◌&&◌, ◌||◌, [], ◌∷◌, leb, if◌then◌else◌, Bytes}
use guhfrtui.Text.{is_empty, trim_space, to_upper}
use guhfrtui.Text.Trim.{filter_bytes}

-- `0`-`9` and `A`-`F`
abbrev pub is_hex : ℕ → Bool
is_hex ch = leb b'0' ch && leb ch b'9' || leb b'A' ch && leb ch b'F'

-- The loop keeps the hexadecimal digits.
unfoldable pub normalize_epc : Bytes → Bytes
normalize_epc raw =
    let upper = to_upper (trim_space raw) in
    if is_empty upper then [] else filter_bytes is_hex upper
