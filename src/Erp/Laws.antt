-- ===== src/Erp/Laws.antt =====
-- What a successful fetch and a successful submission say of the reply.
use guhfrtui.Base.{
  ℕ, ◌≤◌, ◌≡◌, refl, sym, subst, ap, ◌∙◌, Bool, true, false, not, ◌&&◌, ◌||◌, List, [], ◌∷◌, arith,
  ◌==◌, bytes_eq, bytes_beq_iff, Bytes, if_intro,
}
use guhfrtui.Base.Sets.{has, insert, has-insert, IsUnique}
use guhfrtui.Text.{is_empty}
use guhfrtui.Epc.{normalize_epc}
use guhfrtui.Erp.{
  Reply, failed, answered, decoded, undecodable, ok, DraftMessage, SubmitMessage, FetchResult,
  normalize_unique, fetch_draft_epcs, SubmitStatus, submitted, not_found, submitted_text,
  not_found_text, submit_status, read_submit_reply, submit_by_epc,
}

-- Some text of the list normalizes to the EPC.
abbrev pub names : List Bytes → Bytes → Bool
names [] x = false
names (raw ∷ rest) x = normalize_epc raw == x || names rest x

has-normalize_unique :
    (raws seen : List Bytes) (x : Bytes)
    → has x (normalize_unique raws seen) ≡ (not (is_empty x) && not (has x seen) && names raws x)
unfolding normalize_unique has
has-normalize_unique [] seen x = ground arith
has-normalize_unique (raw ∷ rest) seen x = ground (
  arith,
  has-normalize_unique rest seen x,
  has-normalize_unique rest (insert (normalize_epc raw) seen) x,
  has-insert (normalize_epc raw) x seen,
  bytes_beq_iff (normalize_epc raw) x,
  ap is_empty {x = normalize_epc raw} {y = x},
  ap (λ y. has y seen) {x = normalize_epc raw} {y = x},
)

normalize_unique-IsUnique : (raws seen : List Bytes) → IsUnique (normalize_unique raws seen)
unfolding normalize_unique
normalize_unique-IsUnique [] seen = tt
normalize_unique-IsUnique (raw ∷ rest) seen =
    let x = normalize_epc raw in
    let skipped = normalize_unique-IsUnique rest seen in
    if_intro IsUnique (is_empty x) (λ e. skipped)
      (λ f.
        if_intro IsUnique (has x seen) (λ old. skipped)
          (λ new. (
            ground (
              arith,
              has-normalize_unique rest (insert x seen) x,
              has-insert x x seen,
              bytes_beq_iff x x,
            ),
            normalize_unique-IsUnique rest (insert x seen),
          )))

-- If the fetch succeeds, the ERP server has answered with a 2xx status and a message that says ok
-- and that it holds EPCs only. The result then has each EPC once, and exactly the non-empty ones to
-- which a text of the message normalizes.
pub fetch_draft_epcs_lem :
    (reply : Reply DraftMessage) (res : FetchResult)
    → fetch_draft_epcs reply ≡ ok res
    → (code : ℕ) × (msg : DraftMessage) × (reply ≡ answered code (decoded msg))
      × (200 ≤ code)
      × (code ≤ 299)
      × (msg.is_ok ≡ true)
      × (msg.epc_only ≡ true)
      × IsUnique res.epcs
      × ((x : Bytes) → has x res.epcs ≡ (not (is_empty x) && names msg.epcs x))
unfolding fetch_draft_epcs
fetch_draft_epcs_lem (failed e) res h = ground arith
fetch_draft_epcs_lem (answered code undecodable) res h = ground arith
fetch_draft_epcs_lem (answered code (decoded msg)) res h =
    let is : res.epcs ≡ normalize_unique msg.epcs [] = ground (arith, h) in
    (
      code,
      msg,
      refl,
      ground (arith, h),
      ground (arith, h),
      ground (arith, h),
      ground (arith, h),
      subst IsUnique (sym is) (normalize_unique-IsUnique msg.epcs []),
      λ x. ap (has x) is ∙ has-normalize_unique msg.epcs [] x ∙ (unfold has in ground arith),
    )

abbrev pub status_text : SubmitStatus → Bytes
status_text submitted = submitted_text
status_text not_found = not_found_text

-- A reply with a 2xx code and a message that is ok and has the status.
abbrev pub Says : Reply SubmitMessage → SubmitStatus → Type 0
Says reply status =
    (code : ℕ) × (msg : SubmitMessage) × (reply ≡ answered code (decoded msg))
    × (200 ≤ code)
    × (code ≤ 299)
    × (msg.is_ok ≡ true)
    × (msg.status ≡ status_text status)

submit_status_inv :
    (msg : SubmitMessage) (status : SubmitStatus)
    → submit_status msg ≡ ok status
    → (msg.is_ok ≡ true) × (msg.status ≡ status_text status)
unfolding submit_status
submit_status_inv msg submitted h = ground (arith, h, bytes_beq_iff msg.status submitted_text)
submit_status_inv msg not_found h = ground (arith, h, bytes_beq_iff msg.status not_found_text)

read_submit_reply-Says :
    (reply : Reply SubmitMessage) (status : SubmitStatus)
    → read_submit_reply reply ≡ ok status
    → Says reply status
unfolding read_submit_reply
read_submit_reply-Says (failed e) status h = ground arith
read_submit_reply-Says (answered code undecodable) status h = ground arith
read_submit_reply-Says (answered code (decoded msg)) status h =
    let says = submit_status_inv msg status (ground (arith, h)) in
    (code, msg, refl, ground (arith, h), ground (arith, h), says.0, says.1)

-- `SubmitByEPC` succeeds with a status only if the text has hex digits and the ERP server, asked
-- for the normalized EPC, replies with a 2xx code and a message that is ok and has that status.
pub submit_by_epc_lem :
    (server : Bytes → Reply SubmitMessage) (raw : Bytes) (status : SubmitStatus)
    → submit_by_epc server raw ≡ ok status
    → (is_empty (normalize_epc raw) ≡ false) × Says (server (normalize_epc raw)) status
unfolding submit_by_epc
submit_by_epc_lem server raw status h = (
  ground (arith, h),
  read_submit_reply-Says (server (normalize_epc raw)) status (ground (arith, h)),
)
