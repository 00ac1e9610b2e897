-- ===== src/Servers/ScanStart.antt =====
-- The start of scanning over HTTP and over the socket.
use guhfrtui.Base.{◌≡◌, Bool, true, some, bytes_eq}
use guhfrtui.Erp
use guhfrtui.Service.{Service}
use guhfrtui.BotReader.Machine.{Machine}
use guhfrtui.BotReader.History
use guhfrtui.Servers.{Bot}
use guhfrtui.Servers.Http
use guhfrtui.Servers.Http.{Answer}

-- Scanning is on, and the reader's loop runs or not.
pub record ScanState (b : Bot) (runs : Bool) : Type 0 where
  pub active : b.service.scan_active ≡ true
  pub scanner : (m : Machine) × (b.scanner ≡ some m) × (m.manager.running ≡ runs)
