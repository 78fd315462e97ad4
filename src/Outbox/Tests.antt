-- ===== src/Outbox/Tests.antt =====
-- Runs of the outbox (apps/worker/src/email), and what the theorems say of them.
use lex_os.Prelude.{
  ◌≡◌, refl, true, false, none, some, List, [], ◌∷◌, ok, arith, inr, update_where, text_eq,
}
use lex_os.Outbox.{
  EmailOutboxStatus, OutboxRow, claim_letter, update_letter, can_claim, is_letter, is_pending,
  mark_attempt_failed, with_error,
}
use lex_os.Outbox.Claims.{claim_letter-claimed, claim_letter-closed}

abbrev letters : List OutboxRow
letters =
    record {
      id = "l1";
      status = EmailOutboxStatus.sent;
      attempts = 1;
      last_error = none;
      sent_at = some 5;
      provider_message_id = none;
    }
    ∷ record {
      id = "l2";
      status = EmailOutboxStatus.pending;
      attempts = 0;
      last_error = none;
      sent_at = none;
      provider_message_id = none;
    }
    ∷ []

letter_is_claimed : (claim_letter "l2" letters).0 ≡ true
unfolding claim_letter can_claim is_letter is_pending text_eq
letter_is_claimed = refl

claim_letter-claimed_example : (claim_letter "l2" (claim_letter "l2" letters).1).0 ≡ true
claim_letter-claimed_example = claim_letter-claimed "l2" letters letter_is_claimed

failed_letters :
    mark_attempt_failed "l2" 5 5 [] letters
    ≡ ok (update_where (is_letter "l2") (with_error 5 5 []) letters)
unfolding mark_attempt_failed update_letter is_letter text_eq
failed_letters = refl

claim_letter-closed_example :
    (claim_letter "l2" (update_where (is_letter "l2") (with_error 5 5 []) letters)).0 ≡ false
claim_letter-closed_example =
    claim_letter-closed "l2" 9 5 5 none [] letters
      (update_where (is_letter "l2") (with_error 5 5 []) letters)
      (inr (omega arith, failed_letters))
