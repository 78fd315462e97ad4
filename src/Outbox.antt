-- ===== src/Outbox.antt =====
-- The outbox of e-mails, as the worker empties it:
-- apps/worker/src/email/email-outbox.repository.ts.
pub mod Claims
mod Tests
use lex_os.Prelude.{
  ℕ, ◌+◌, Bool, true, false, ◌&&◌, Option, none, some, List, String, Result, ok, err, text_eq, leb,
  ◌==◌, if◌then◌else◌, any_where, count_where, update_where, take,
}

pub data EmailOutboxStatus : Type 0 where
  pending sent failed : EmailOutboxStatus

-- A row, with what the worker changes; an error is the list of its code units.
pub record OutboxRow : Type 0 where
  pub id : String
  pub status : EmailOutboxStatus
  pub attempts : ℕ
  pub last_error : Option (List ℕ)
  pub sent_at : Option ℕ
  pub provider_message_id : Option String

unfoldable pub is_pending : EmailOutboxStatus → Bool
is_pending EmailOutboxStatus.pending = true
is_pending EmailOutboxStatus.sent = false
is_pending EmailOutboxStatus.failed = false

unfoldable pub is_letter : String → OutboxRow → Bool
is_letter id r = text_eq r.id id

unfoldable pub can_claim : String → OutboxRow → Bool
unfolding is_letter is_pending
can_claim id r = is_letter id r && is_pending r.status

abbrev pub with_attempt : OutboxRow → OutboxRow
with_attempt r = record r { attempts = r.attempts + 1 }

-- `claim`, with the rows that it leaves.
unfoldable pub claim_letter : String → List OutboxRow → Bool × List OutboxRow
unfolding can_claim
claim_letter id rows =
    (count_where (can_claim id) rows == 1, update_where (can_claim id) with_attempt rows)

-- An `update` of a row by its identifier, which throws where there is none.
unfoldable pub update_letter :
    String → (OutboxRow → OutboxRow) → List OutboxRow → Result (List OutboxRow)
unfolding is_letter
update_letter id f rows =
    if any_where (is_letter id) rows then ok (update_where (is_letter id) f rows) else err "P2025"

abbrev pub with_sent : ℕ → Option String → OutboxRow → OutboxRow
with_sent at message_id r = record r {
  status = EmailOutboxStatus.sent;
  sent_at = some at;
  provider_message_id = message_id;
  last_error = none;
}

unfoldable pub mark_sent : String → ℕ → Option String → List OutboxRow → Result (List OutboxRow)
unfolding update_letter
mark_sent id at message_id rows = update_letter id (with_sent at message_id) rows

abbrev pub with_error : ℕ → ℕ → List ℕ → OutboxRow → OutboxRow
with_error attempts max error r = record r {
  status = if leb max attempts then EmailOutboxStatus.failed else EmailOutboxStatus.pending;
  last_error = some (take 500 error);
}

unfoldable pub mark_attempt_failed :
    String → ℕ → ℕ → List ℕ → List OutboxRow → Result (List OutboxRow)
unfolding update_letter
mark_attempt_failed id attempts max error rows =
    update_letter id (with_error attempts max error) rows
