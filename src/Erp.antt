-- ===== src/Erp.antt =====
-- internal/gobot/erp/client.go `FetchDraftEPCs` and `SubmitByEPC` behind the exchange with the ERP
-- server. The exchange itself, and the decoding of JSON, are net/http's and encoding/json's: a
-- `Reply` is what they hand over.
pub mod Laws
use guhfrtui.Base.{
  ℕ, Bool, true, false, not, ◌&&◌, ◌||◌, List, [], ◌∷◌, ◌++◌, nat_beq, ltb, if◌then◌else◌, ◌==◌,
  bytes_eq, Bytes,
}
use guhfrtui.Base.Int.{ℤ, pos, int_lt, int_eq}
use guhfrtui.Base.Sets.{has, insert}
use guhfrtui.Text.{is_empty}
use guhfrtui.Epc.{normalize_epc}

-- The request failed with a message; or there is a status code and a body, which decodes or not.
pub data Body (M : Type 0) : Type 0 where
  undecodable : Body M
  decoded : M → Body M

pub data Reply (M : Type 0) : Type 0 where
  failed : Bytes → Reply M
  answered : ℕ → Body M → Reply M

pub data Error : Type 0 where
  transport : Bytes → Error
  http_status : ℕ → Error
  decode : Error
  server_error : Bytes → Error
  not_epc_only empty_epc unexpected_payload : Error

pub data Result {ℓ} (A : Type ℓ) : Type ℓ where
  ok : A → Result A
  err : Error → Result A

-- fastDraftEnvelope's message.
pub record DraftMessage : Type 0 where
  pub is_ok : Bool
  pub error : Bytes
  pub epc_only : Bool
  pub epcs : List Bytes
  pub count_drafts : ℤ
  pub draft_count_alt : ℤ

-- submitEnvelope's message.
pub record SubmitMessage : Type 0 where
  pub is_ok : Bool
  pub status : Bytes
  pub error : Bytes

pub record FetchResult : Type 0 where
  pub epcs : List Bytes
  pub draft_count : ℤ

abbrev pub is_success_code : ℕ → Bool
is_success_code code = not (ltb code 200 || ltb 299 code)

-- The loop that normalizes the EPCs and drops the repeated ones, with the keys seen so far.
unfoldable pub normalize_unique : List Bytes → List Bytes → List Bytes
normalize_unique [] seen = []
normalize_unique (raw ∷ rest) seen =
    let epc = normalize_epc raw in
    let skip = normalize_unique rest seen in
    let take = epc ∷ normalize_unique rest (insert epc seen) in
    if is_empty epc then skip else if has epc seen then skip else take

unfoldable pub fetch_draft_epcs : Reply DraftMessage → Result FetchResult
unfolding normalize_unique
fetch_draft_epcs (failed e) = err (transport e)
fetch_draft_epcs (answered code undecodable) =
    if not (is_success_code code) then err (http_status code) else err decode
fetch_draft_epcs (answered code (decoded msg)) =
    if not (is_success_code code)
    then err (http_status code)
    else if not msg.is_ok
    then err (server_error msg.error)
    else if not msg.epc_only
    then err not_epc_only
    else ok (record {
      epcs = normalize_unique msg.epcs [];
      draft_count =
          if msg.count_drafts == pos 0 && int_lt (pos 0) msg.draft_count_alt
          then msg.draft_count_alt
          else msg.count_drafts;
    })

pub data SubmitStatus : Type 0 where
  submitted not_found : SubmitStatus

-- "submitted" and "not_found"
abbrev pub submitted_text : Bytes
submitted_text = b's' ∷ b'u' ∷ b'b' ∷ b'm' ∷ b'i' ∷ b't' ∷ b't' ∷ b'e' ∷ b'd' ∷ []

abbrev pub not_found_text : Bytes
not_found_text = b'n' ∷ b'o' ∷ b't' ∷ b'_' ∷ b'f' ∷ b'o' ∷ b'u' ∷ b'n' ∷ b'd' ∷ []

-- What the message of a successful reply means.
unfoldable pub submit_status : SubmitMessage → Result SubmitStatus
submit_status msg =
    if msg.is_ok && msg.status == submitted_text
    then ok submitted
    else if msg.is_ok && msg.status == not_found_text
    then ok not_found
    else if not (is_empty msg.error)
    then err (server_error msg.error)
    else err unexpected_payload

-- The reply to the request that is sent for the normalized EPC.
unfoldable pub read_submit_reply : Reply SubmitMessage → Result SubmitStatus
unfolding submit_status
read_submit_reply (failed e) = err (transport e)
read_submit_reply (answered code undecodable) =
    if not (is_success_code code) then err (http_status code) else err decode
read_submit_reply (answered code (decoded msg)) =
    if not (is_success_code code) then err (http_status code) else submit_status msg

-- `server` is the ERP: what it replies to a request for an EPC.
unfoldable pub submit_by_epc : (Bytes → Reply SubmitMessage) → Bytes → Result SubmitStatus
unfolding read_submit_reply
submit_by_epc server raw =
    let epc = normalize_epc raw in
    if is_empty epc then err empty_epc else read_submit_reply (server epc)
