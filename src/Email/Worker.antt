-- ===== src/Email/Worker.antt =====
-- src/email/worker.rs: one batch of deliveries from the outbox. What happens to each message that is
-- tried (whether its template is known, the recipient still wants it, an SMTP server is configured
-- and takes it) is a parameter. One reading of the clock serves the whole batch, and rows that
-- are due together with the same priority and time go by their ids.
pub mod Order
pub mod Attempts
pub mod Drain
use setlyst_api.Prelude.{
  zero, suc, ℕ, ◌+◌, ◌-◌, ◌*◌, min, max, Bool, true, false, not, ◌&&◌, ◌||◌, ◌==◌, nat_eq, Option,
  none, some, List, [], ◌∷◌, map, count, is_some_and, leb, ltb, if◌then◌else◌, Timestamp, seconds,
  minutes, hours, suc,
}
use setlyst_api.Email.Outbox.{
  Message, EmailStatus, pending, sending, sent, skipped, failed, security,
}

abbrev pub max_attempts : ℕ
max_attempts = 10

abbrev pub max_backoff_secs : ℕ
max_backoff_secs = 3_600

abbrev pub batch_size : ℕ
batch_size = 25

abbrev pub stale_lock_minutes : ℕ
stale_lock_minutes = 10

abbrev pub i16_max : ℕ
i16_max = 32_767

abbrev pub power_of_two : ℕ → ℕ
power_of_two zero = 1
power_of_two (suc n) = 2 * power_of_two n

-- `(attempts - 1).clamp(0, 10)` stops at 0, as subtraction does here.
unfoldable pub backoff : ℕ → ℕ
backoff attempts = seconds (min (30 * power_of_two (min (attempts - 1) 10)) max_backoff_secs)

abbrev pub is_pending : EmailStatus → Bool
is_pending pending = true
is_pending _ = false

abbrev pub is_sending : EmailStatus → Bool
is_sending sending = true
is_sending _ = false

abbrev pub is_sent : EmailStatus → Bool
is_sent sent = true
is_sent _ = false

-- A message that a worker left in `sending` when it died.
unfoldable pub is_stale : Timestamp → Message → Bool
is_stale now m =
    is_sending m.status && is_some_and (λ at. ltb (at + minutes stale_lock_minutes) now) m.locked_at

unfoldable pub recover : Timestamp → Message → Message
recover now m = if is_stale now m then record m { status = pending; locked_at = none } else m

unfoldable pub is_recent_bulk : Timestamp → Message → Bool
is_recent_bulk now m =
    is_sent m.status
    && (ltb security m.priority && is_some_and (λ at. ltb now (at + hours 1)) m.sent_at)

unfoldable pub sent_last_hour : Timestamp → List Message → ℕ
sent_last_hour now = count (is_recent_bulk now)

-- Past the cap only codes and security notices go out.
unfoldable pub max_priority : ℕ → Timestamp → List Message → ℕ
max_priority cap now outbox = if leb cap (sent_last_hour now outbox) then security else i16_max

unfoldable pub is_due : Timestamp → ℕ → Message → Bool
is_due now highest m = is_pending m.status && (leb m.scheduled_at now && leb m.priority highest)

-- `ORDER BY priority, scheduled_at`
unfoldable pub before : Message → Message → Bool
before m n =
    ltb m.priority n.priority
    || (m.priority == n.priority
        && (ltb m.scheduled_at n.scheduled_at
            || (m.scheduled_at == n.scheduled_at && ltb m.id n.id)))

-- The message is among the first of those that are due.
unfoldable pub is_claimed : Timestamp → ℕ → List Message → Message → Bool
is_claimed now highest outbox m =
    is_due now highest m && ltb (count (λ n. is_due now highest n && before n m) outbox) batch_size

-- What the world makes of a message that is tried. A message whose outcome could not be recorded is
-- `lost`: its row stays `sending`.
pub data Attempt : Type 0 where
  unknown_template opted_out no_transport delivered lost : Attempt
  refused : (permanent : Bool) → Attempt

unfoldable pub claim : Timestamp → Message → Message
claim now m = record m { status = sending; locked_at = some now; attempts = m.attempts + 1 }

unfoldable pub finish : EmailStatus → Timestamp → Message → Message
finish status now m = record m {
  status = status;
  locked_at = none;
  sent_at = if is_sent status then some now else m.sent_at;
}

unfoldable pub retry : Timestamp → Message → Message
retry now m = record m {
  status = pending;
  locked_at = none;
  scheduled_at = now + backoff m.attempts;
}

unfoldable pub deliver : Timestamp → Attempt → Message → Message
deliver now unknown_template m = finish failed now m
deliver now opted_out m = finish skipped now m
deliver now no_transport m = finish skipped now m
deliver now delivered m = finish sent now m
deliver now lost m = m
deliver now (refused permanent) m =
    if permanent || leb max_attempts m.attempts then finish failed now m else retry now m

-- One claimed message, or one that is left alone.
abbrev pub try : Timestamp → (Message → Attempt) → Bool → Message → Message
try now world true m = deliver now (world m) (claim now m)
try now world false m = m

-- `cap` is `email_hourly_cap` of the configuration.
unfoldable pub process_batch : ℕ → Timestamp → (Message → Attempt) → List Message → List Message
process_batch cap now world outbox =
    let swept = map (recover now) outbox in
    let highest = max_priority cap now swept in
    map (λ m. try now world (is_claimed now highest swept m) m) swept
