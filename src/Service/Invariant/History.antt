-- ===== src/Service/Invariant/History.antt =====
-- The service after any history of handlers, each run as a whole.
use guhfrtui.Base.{
  ℕ, refl, Bool, List, [], ◌∷◌, Option, none, some, arith, Bytes, Option-cases, inl, inr,
}
use guhfrtui.Cache.{Store}
use guhfrtui.Cache.Laws.{IsValid}
use guhfrtui.Erp
use guhfrtui.Erp.{FetchResult, SubmitStatus}
use guhfrtui.Service.{Config, Service, new, set_notifier}
use guhfrtui.Service.Handlers.{
  handle_epc, set_scan_active, add_draft_epcs, Reason, refresh_cache, work, recent_seen_epcs,
  status,
}
use guhfrtui.Service.Invariant.{Inv, new-Inv, same-Inv}
use guhfrtui.Service.Invariant.Handlers.{
  handle_epc-Inv, set_scan_active-Inv, add_draft_epcs-Inv, refresh_cache-Inv, work-Inv,
  recent_seen_epcs-Inv, status-Inv,
}

-- A call of the service, with the time, the order of the maps and what the ERP server answers. A
-- worker that finds the channel empty waits.
pub data Op : Type 0 where
  handles : ℕ → Bytes → Op
  switches : (List Bytes → List Bytes) → ℕ → Bool → Op
  adds : (List Bytes → List Bytes) → ℕ → List Bytes → Op
  refreshes : (List Bytes → List Bytes) → ℕ → Reason → Bool → Erp.Result FetchResult → Op
  works : (Bytes → ℕ → Erp.Result SubmitStatus) → Op
  recents : ℕ → Op
  reports : Op
  notifies : Bool → Op

worked : Option (Option Erp.Error × Service) → Service → Service
worked none s = s
worked (some (e, s')) s = s'

unfoldable pub step : Op → Service → Service
unfolding worked
step (handles now raw) s = (handle_epc now raw s).1
step (switches order now active) s = (set_scan_active order now active s).1
step (adds order now epcs) s = (add_draft_epcs order now epcs s).1
step (refreshes order now reason wants fetched) s =
    (refresh_cache order now reason wants fetched s).1
step (works clients) s = worked (work clients s) s
step (recents now) s = (recent_seen_epcs now s).1
step reports s = (status s).1
step (notifies present) s = set_notifier present s

unfoldable pub run : List Op → Service → Service
unfolding step
run [] s = s
run (o ∷ os) s = run os (step o s)

worked-Inv :
    (clients : Bytes → ℕ → Erp.Result SubmitStatus) (s : Service)
    → Inv s
    → Inv (worked (work clients s) s)
unfolding worked
worked-Inv clients s v = elim (Option-cases (work clients s)) [
  | inl waits ↦ rw waits v
  | inr (out, is) ↦ rw is (work-Inv clients s out is v)
]

pub step-Inv : (o : Op) (s : Service) → Inv s → Inv (step o s)
unfolding step set_notifier
step-Inv (handles now raw) s v = handle_epc-Inv now raw s v
step-Inv (switches order now active) s v = set_scan_active-Inv order now active s v
step-Inv (adds order now epcs) s v = add_draft_epcs-Inv order now epcs s v
step-Inv (refreshes order now reason wants fetched) s v =
    refresh_cache-Inv order now reason wants fetched s v
step-Inv (works clients) s v = worked-Inv clients s v
step-Inv (recents now) s v = recent_seen_epcs-Inv now s v
step-Inv reports s v = status-Inv s v
step-Inv (notifies present) s v =
    same-Inv (set_notifier present s) (ground arith) v.cache_valid v refl

kept : (os : List Op) (s : Service) → Inv s → Inv (run os s)
unfolding run
kept [] s v = v
kept (o ∷ os) s v = kept os (step o s) (step-Inv o s v)

-- From a new service over a valid cache, any sequence of calls, worker rounds and refreshes,
-- whatever the ERP server answers and in whatever order Go ranges over its maps, leads to a state
-- in which the three outcome counters add up to the number of EPCs seen (modulo 2^64, the width of
-- the counters), the channel holds exactly the marked EPCs, each once, and no more than its
-- capacity, nothing is in flight, the cache is a set without the empty string, and each recently
-- seen EPC is recorded once.
pub service_history-Inv :
    (cfg : Config) (cache : Store) (now : ℕ) (history : List Op)
    → IsValid cache
    → Inv (run history (new cfg cache now))
service_history-Inv cfg cache now history v =
    kept history (new cfg cache now) (new-Inv cfg cache now v)
