-- ===== src/Outbox/Claims.antt =====
-- Who claims a letter of the outbox, and until when
-- (apps/worker/src/email/email-outbox.repository.ts).
use lex_os.Prelude.{
  ℕ, ◌≡◌, ◌≤◌, ◌⊎◌, refl, true, false, Option, List, String, ok, err, arith, inl, inr, leb,
  any_where, update_where, count_where-update_where, count_where-update_where_none, Bool-cases,
}
use lex_os.Outbox.{
  OutboxRow, is_pending, is_letter, can_claim, with_attempt, claim_letter, update_letter, with_sent,
  mark_sent, with_error, mark_attempt_failed,
}

can_claim-with_attempt :
    (id : String) (r : OutboxRow) → can_claim id (with_attempt r) ≡ can_claim id r
unfolding can_claim is_letter
can_claim-with_attempt id r = refl

-- A letter that one worker has claimed is claimed by the next one too, as long as it is neither sent
-- nor failed.
pub claim_letter-claimed :
    (id : String) (rows : List OutboxRow)
    → (claim_letter id rows).0 ≡ true
    → (claim_letter id (claim_letter id rows).1).0 ≡ true
unfolding claim_letter
claim_letter-claimed id rows h =
    rw
      (count_where-update_where (can_claim id) (can_claim id) with_attempt rows
        (can_claim-with_attempt id))
      h

closed_to_claims :
    (id : String) (f : OutboxRow → OutboxRow) (r : OutboxRow)
    → is_pending (f r).status ≡ false
    → can_claim id (f r) ≡ false
unfolding can_claim
closed_to_claims id f r closed = ground arith

claims_only_its_letter :
    (id : String) (r : OutboxRow) → can_claim id r ≡ true → is_letter id r ≡ true
unfolding can_claim
claims_only_its_letter id r h = ground arith

update_letter-claim :
    (id : String) (f : OutboxRow → OutboxRow) (rows rows' : List OutboxRow)
    → ((r : OutboxRow) → is_pending (f r).status ≡ false)
    → update_letter id f rows ≡ ok rows'
    → (claim_letter id rows').0 ≡ false
unfolding update_letter claim_letter
update_letter-claim id f rows rows' closed e = elim (Bool-cases (any_where (is_letter id) rows)) [
  | inr missing ↦
      let none_there : err "P2025" ≡ ok rows' = rw missing at e in absurd (cc none_there)
  | inl there ↦
      let done : ok (update_where (is_letter id) f rows) ≡ ok rows' = rw there at e in
      let same : rows' ≡ update_where (is_letter id) f rows = cc done in
      let left =
        count_where-update_where_none (can_claim id) (is_letter id) f rows
          (λ r. closed_to_claims id f r (closed r)) (claims_only_its_letter id) in
      rw (same, left) refl
]

with_sent_closed :
    (at : ℕ) (message_id : Option String) (r : OutboxRow)
    → is_pending (with_sent at message_id r).status ≡ false
unfolding is_pending
with_sent_closed at message_id r = refl

with_error_closed :
    (attempts max : ℕ) (error : List ℕ) (r : OutboxRow)
    → max ≤ attempts
    → is_pending (with_error attempts max error r).status ≡ false
unfolding is_pending
with_error_closed attempts max error r last =
    let is_last : leb max attempts ≡ true = ground arith in rw is_last refl

-- A letter that is marked as sent, or whose failure was its last attempt, is claimed no more.
pub claim_letter-closed :
    (id : String) (at attempts max : ℕ) (message_id : Option String) (error : List ℕ)
    (rows rows' : List OutboxRow)
    → (mark_sent id at message_id rows ≡ ok rows')
      ⊎ ((max ≤ attempts) × (mark_attempt_failed id attempts max error rows ≡ ok rows'))
    → (claim_letter id rows').0 ≡ false
unfolding mark_sent mark_attempt_failed
claim_letter-closed id at attempts max message_id error rows rows' (inl e) =
    update_letter-claim id (with_sent at message_id) rows rows' (with_sent_closed at message_id) e
claim_letter-closed id at attempts max message_id error rows rows' (inr (last, e)) =
    update_letter-claim id (with_error attempts max error) rows rows'
      (λ r. with_error_closed attempts max error r last) e
