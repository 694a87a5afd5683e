-- ===== src/Email/Worker/Attempts.antt =====
-- One message of the queue of src/email/worker.rs: what it has left, and what a batch does to it.
use setlyst_api.Prelude.{
  ℕ, ◌+◌, ◌-◌, ◌≤◌, ◌<◌, Bool, true, false, ◌&&◌, ◌||◌, nat_eq, Option, none, some, List, [], ◌∷◌,
  Bool-cases, inl, inr, ◌≡◌, refl, arith, Timestamp, hours, &&-true, is_some_and, is_none_or, leb,
  ltb, if-both, if◌then◌else◌, le→leb, sym, minutes,
}
use setlyst_api.Email.Outbox.{Message, EmailStatus, pending, sent, skipped, failed}
use setlyst_api.Email.Worker.{
  Attempt, unknown_template, opted_out, no_transport, delivered, lost, refused, is_pending,
  is_sending, recover, is_stale, is_recent_bulk, is_due, claim, finish, retry, deliver, try,
  backoff, i16_max, max_attempts, minutes, is_sent, stale_lock_minutes,
}

-- The attempts that a message may still take.
abbrev pub is_open : EmailStatus → Bool
is_open status = is_pending status || is_sending status

abbrev pub left : Message → ℕ
left m =
    if is_open m.status
    then (if ltb m.attempts max_attempts then max_attempts - m.attempts else 1)
    else 0

abbrev pub total_left : List Message → ℕ
total_left [] = 0
total_left (m ∷ ms) = left m + total_left ms

abbrev pub is_lost : Attempt → Bool
is_lost lost = true
is_lost _ = false

-- No message is due later than an hour after `at`, and no lock or delivery is later than `at`.
pub record IsQueued (at : Timestamp) (m : Message) : Type 0 where
  pub scheduled : m.scheduled_at ≤ at + hours 1
  pub locked : is_sending m.status ≡ true → is_some_and (λ l. leb l at) m.locked_at ≡ true
  pub priority : m.priority ≤ i16_max
  pub past : is_none_or (λ t. leb t at) m.sent_at ≡ true

-- A message that the batch finds an hour later: no other worker holds it, and it is due.
pub record IsReady (now : Timestamp) (m : Message) : Type 0 where
  pub scheduled : m.scheduled_at ≤ now
  pub free : is_sending m.status ≡ false
  pub priority : m.priority ≤ i16_max
  pub past : is_recent_bulk now m ≡ false
  pub sent_past : is_none_or (λ t. leb t now) m.sent_at ≡ true

backoff-le : (attempts : ℕ) → backoff attempts ≤ hours 1
unfolding backoff
backoff-le attempts = omega arith

lock_over :
    (lock : Option Timestamp) (at now : Timestamp)
    → at + hours 1 ≤ now
    → is_some_and (λ l. leb l at) lock ≡ true
    → is_some_and (λ l. ltb (l + minutes stale_lock_minutes) now) lock ≡ true
lock_over none at now less h = absurd (ground (arith, h))
lock_over (some l) at now less h = ground (arith, less, h)

stale_later :
    (at now : Timestamp) (m : Message)
    → at + hours 1 ≤ now
    → is_sending m.status ≡ true
    → is_some_and (λ l. leb l at) m.locked_at ≡ true
    → is_stale now m ≡ true
unfolding is_stale
stale_later at now m less held locked = rw (held, lock_over m.locked_at at now less locked) refl

stale_sending : (now : Timestamp) (m : Message) → is_stale now m ≡ true → is_sending m.status ≡ true
unfolding is_stale
stale_sending now m h = (&&-true (is_sending m.status) _ h).0

delivery_over :
    (delivery : Option Timestamp) (at now : Timestamp)
    → at + hours 1 ≤ now
    → is_none_or (λ t. leb t at) delivery ≡ true
    → (is_some_and (λ t. ltb now (t + hours 1)) delivery ≡ false)
      × (is_none_or (λ t. leb t now) delivery ≡ true)
delivery_over none at now less h = (refl, refl)
delivery_over (some t) at now less h = (ground (arith, less, h), ground (arith, less, h))

no_bulk : (a b c : Bool) → c ≡ false → (a && (b && c)) ≡ false
no_bulk a b c h = ground (arith, h)

old_bulk :
    (at now : Timestamp) (m : Message)
    → at + hours 1 ≤ now
    → is_none_or (λ t. leb t at) m.sent_at ≡ true
    → is_recent_bulk now m ≡ false
unfolding is_recent_bulk
old_bulk at now m less past =
    no_bulk (is_sent m.status) _ _ (delivery_over m.sent_at at now less past).0

left_open :
    (m : Message)
    → is_open m.status ≡ true
    → left m ≡ (if ltb m.attempts max_attempts then max_attempts - m.attempts else 1)
left_open m h = rw h refl

pub recover-left : (now : Timestamp) (m : Message) → left (recover now m) ≡ left m
unfolding recover
recover-left now m = elim (Bool-cases (is_stale now m)) [
  | inl stale ↦
      let held = stale_sending now m stale in rw stale (sym (left_open m (ground (arith, held))))
  | inr other ↦ rw other refl
]

pending_bulk :
    (now : Timestamp) (m : Message)
    → is_recent_bulk now (record m { status = pending; locked_at = none }) ≡ false
unfolding is_recent_bulk
pending_bulk now m = refl

pub recover-IsReady :
    (at now : Timestamp) (m : Message)
    → at + hours 1 ≤ now
    → IsQueued at m
    → IsReady now (recover now m)
unfolding recover
recover-IsReady at now m less h =
    let over = delivery_over m.sent_at at now less h.past in
    let before_now : m.scheduled_at ≤ now =
      le_trans m.scheduled_at (at + hours 1) now h.scheduled less in
    elim (Bool-cases (is_stale now m)) [
      | inl stale ↦ rw stale (record {
        scheduled = before_now;
        free = refl;
        priority = h.priority;
        past = pending_bulk now m;
        sent_past = over.1;
      })
      | inr other ↦ rw other (record {
        scheduled = before_now;
        free = elim (Bool-cases (is_sending m.status)) [
          | inl held ↦
              absurd (ground (arith, stale_later at now m less held (h.locked held), other))
          | inr free ↦ free
        ];
        priority = h.priority;
        past = old_bulk at now m less h.past;
        sent_past = over.1;
      })
    ]
  where
    le_trans : (a b c : ℕ) → a ≤ b → b ≤ c → a ≤ c
    le_trans a b c h k = omega arith

pub due :
    (now : Timestamp) (m : Message)
    → IsReady now m
    → is_pending m.status ≡ true
    → is_due now i16_max m ≡ true
unfolding is_due
due now m h open_m =
    rw (open_m, le→leb m.scheduled_at now h.scheduled, le→leb m.priority i16_max h.priority) refl

left_pending :
    (m : Message)
    → is_pending m.status ≡ true
    → left m ≡ (if ltb m.attempts max_attempts then max_attempts - m.attempts else 1)
left_pending m h = rw h refl

pub left-pos : (m : Message) → is_pending m.status ≡ true → 0 < left m
left-pos m h = rw (left_pending m h) (positive m.attempts)
  where
    positive : (a : ℕ) → 0 < (if ltb a max_attempts then max_attempts - a else 1)
    positive a = ground arith

fewer_attempts :
    (a : ℕ)
    → leb max_attempts (a + 1) ≡ false
    → (if ltb (a + 1) max_attempts then max_attempts - (a + 1) else 1)
      < (if ltb a max_attempts then max_attempts - a else 1)
fewer_attempts a h = ground (arith, h)

-- A tried message comes to an end, or has one attempt less left.
pub less_left :
    (now : Timestamp) (a : Attempt) (m : Message)
    → is_pending m.status ≡ true
    → is_lost a ≡ false
    → left (deliver now a (claim now m)) < left m
unfolding deliver claim finish retry
less_left now unknown_template m open_m kept = left-pos m open_m
less_left now opted_out m open_m kept = left-pos m open_m
less_left now no_transport m open_m kept = left-pos m open_m
less_left now delivered m open_m kept = left-pos m open_m
less_left now lost m open_m kept = absurd (ground (arith, kept))
less_left now (refused permanent) m open_m kept =
    elim (Bool-cases (permanent || leb max_attempts (m.attempts + 1))) [
      | inl over ↦ rw over (left-pos m open_m)
      | inr again ↦
          rw (again, left_pending m open_m) (fewer_attempts m.attempts (ground (arith, again)))
    ]

pub try-left :
    (now : Timestamp) (world : Message → Attempt) (b : Bool) (m : Message)
    → is_lost (world m) ≡ false
    → (b ≡ true → is_pending m.status ≡ true)
    → left (try now world b m) ≤ left m
try-left now world true m kept h = let less = less_left now (world m) m (h refl) kept in omega arith
try-left now world false m kept h = omega arith

idle-IsQueued :
    (now : Timestamp) (m : Message)
    → m.scheduled_at ≤ now + hours 1
    → is_sending m.status ≡ false
    → m.priority ≤ i16_max
    → is_none_or (λ t. leb t now) m.sent_at ≡ true
    → IsQueued now m
idle-IsQueued now m scheduled free priority past = record {
  scheduled = scheduled;
  locked = λ held. absurd (ground (arith, held, free));
  priority = priority;
  past = past;
}

soon_lem : (t now : Timestamp) → t ≤ now → t ≤ now + hours 1
soon_lem t now h = omega arith

-- What a batch leaves is queued again.
deliver-IsQueued :
    (now : Timestamp) (a : Attempt) (m : Message)
    → IsReady now m
    → is_lost a ≡ false
    → IsQueued now (deliver now a (claim now m))
unfolding deliver claim finish retry
deliver-IsQueued now unknown_template m h kept =
    idle-IsQueued now (finish failed now (claim now m)) (soon_lem m.scheduled_at now h.scheduled)
      refl h.priority h.sent_past
deliver-IsQueued now opted_out m h kept =
    idle-IsQueued now (finish skipped now (claim now m)) (soon_lem m.scheduled_at now h.scheduled)
      refl h.priority h.sent_past
deliver-IsQueued now no_transport m h kept =
    idle-IsQueued now (finish skipped now (claim now m)) (soon_lem m.scheduled_at now h.scheduled)
      refl h.priority h.sent_past
deliver-IsQueued now delivered m h kept =
    idle-IsQueued now (finish sent now (claim now m)) (soon_lem m.scheduled_at now h.scheduled) refl
      h.priority (le→leb now now (omega arith))
deliver-IsQueued now lost m h kept = absurd (ground (arith, kept))
deliver-IsQueued now (refused permanent) m h kept =
    if-both (IsQueued now) (permanent || leb max_attempts (m.attempts + 1)) _ _
      (λ _.
        idle-IsQueued now (finish failed now (claim now m))
          (soon_lem m.scheduled_at now h.scheduled) refl h.priority h.sent_past)
      (λ _.
        idle-IsQueued now (retry now (claim now m)) (add_le now (backoff-le (m.attempts + 1))) refl
          h.priority h.sent_past)
  where
    add_le : (a : ℕ) {b c : ℕ} → b ≤ c → a + b ≤ a + c
    add_le a h = omega arith

pub try-IsQueued :
    (now : Timestamp) (world : Message → Attempt) (b : Bool) (m : Message)
    → is_lost (world m) ≡ false
    → IsReady now m
    → IsQueued now (try now world b m)
try-IsQueued now world true m kept h = deliver-IsQueued now (world m) m h kept
try-IsQueued now world false m kept h =
    idle-IsQueued now m (soon_lem m.scheduled_at now h.scheduled) h.free h.priority h.sent_past
