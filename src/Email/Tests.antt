-- ===== src/Email/Tests.antt =====
-- The theorems on e-mail at concrete messages.
use setlyst_api.Prelude.{ℕ, none, some, true, false, List, [], ◌∷◌, All, refl, arith, hours, ◌≡◌}
use setlyst_api.Email.Outbox.{
  reauth_code, announcement, Message, OutgoingEmail, password_reset_code, welcome, pending,
  is_code_template, recipient_daily_cap, name, priority_of, priority_of_name,
}
use setlyst_api.Email.Outbox.Caps.{Request, IsCapped, enqueue_all, enqueue_all-IsCapped}
use setlyst_api.Email.Worker.{refused, is_claimed, is_due, before, i16_max}
use setlyst_api.Email.Worker.Order.{is_claimed_by_priority, is_claimed_code_first}
use setlyst_api.Email.Worker.Attempts.{is_open}
use setlyst_api.Email.Worker.Drain.{Batch, process_batches, process_batches_drained}

abbrev reset_email : OutgoingEmail
reset_email = record {
  id = 1;
  user_id = some 7;
  to = "ana@example.com";
  template = password_reset_code;
}

abbrev requests : List Request
requests =
    record { now = hours 1; email = reset_email }
    ∷ record { now = hours 2; email = record reset_email { id = 2; template = welcome } }
    ∷ []

enqueue_all-IsCapped_example : IsCapped (hours 2) (enqueue_all requests [])
enqueue_all-IsCapped_example =
    enqueue_all-IsCapped requests 0 [] (omega arith, (omega arith, tt))
      (record {
        mailbox = λ box template cap now limit later. omega arith;
        account = λ user now later. omega arith;
      })

abbrev waiting : Message
waiting = record {
  id = 5;
  user_id = none;
  to_canonical = "bob@example.com";
  template = "announcement";
  status = pending;
  attempts = 0;
  priority = 9;
  scheduled_at = hours 3;
  created_at = hours 3;
  locked_at = none;
  sent_at = none;
}

abbrev urgent : Message
urgent = record waiting { id = 9; template = "reauth_code"; priority = 0; scheduled_at = hours 4 }

is_claimed_by_priority_example : is_claimed (hours 4) i16_max (waiting ∷ urgent ∷ []) urgent ≡ true
unfolding is_claimed is_due before
is_claimed_by_priority_example =
    is_claimed_by_priority (hours 4) i16_max (waiting ∷ urgent ∷ []) urgent waiting refl refl
      (omega arith)

is_claimed_code_first_example : is_claimed (hours 4) i16_max (waiting ∷ urgent ∷ []) urgent ≡ true
unfolding is_claimed is_due before is_code_template recipient_daily_cap name priority_of
    priority_of_name
is_claimed_code_first_example =
    is_claimed_code_first (hours 4) i16_max (waiting ∷ urgent ∷ []) urgent waiting reauth_code
      announcement refl refl refl refl refl refl

-- A batch whose transport refuses everything for now.
abbrev refusing : ℕ → Batch
refusing n = record { now = hours n; world = λ _. refused false }

abbrev batches : List Batch
batches =
    refusing 4
    ∷ refusing 5
    ∷ refusing 6
    ∷ refusing 7
    ∷ refusing 8
    ∷ refusing 9
    ∷ refusing 10
    ∷ refusing 11
    ∷ refusing 12
    ∷ refusing 13
    ∷ []

process_batches_drained_example :
    All (λ (m : Message). is_open m.status ≡ false) (process_batches 500 batches (waiting ∷ []))
process_batches_drained_example =
    process_batches_drained 500 (hours 3) batches (waiting ∷ []) (omega arith)
      (
        omega arith,
        (λ _. refl),
        (
          omega arith,
          (λ _. refl),
          (
            omega arith,
            (λ _. refl),
            (
              omega arith,
              (λ _. refl),
              (
                omega arith,
                (λ _. refl),
                (
                  omega arith,
                  (λ _. refl),
                  (
                    omega arith,
                    (λ _. refl),
                    (
                      omega arith,
                      (λ _. refl),
                      (omega arith, (λ _. refl), (omega arith, (λ _. refl), tt)),
                    ),
                  ),
                ),
              ),
            ),
          ),
        ),
      )
      (
        record {
          scheduled = omega arith;
          locked = λ held. absurd (ground arith);
          priority = omega arith;
          past = refl;
        },
        tt,
      )
      (omega arith)
