-- ===== src/Email/Worker/Drain.antt =====
-- The queue of src/email/worker.rs empties: every message comes to an end.
use setlyst_api.Prelude.{
  ℕ, ◌+◌, ◌*◌, ◌≤◌, ◌<◌, Bool, true, false, ◌&&◌, nat_eq, List, [], ◌∷◌, map, any, count, length,
  All, In, Bool-cases, inl, inr, ◌≡◌, refl, arith, Timestamp, hours, ltb, leb, count_rest, &&-true,
  if◌then◌else◌, ◌-◌,
}
use setlyst_api.Email.Outbox.{Message}
use setlyst_api.Email.Worker.{
  Attempt, is_pending, recover, sent_last_hour, is_recent_bulk, max_priority, is_due, is_claimed,
  before, try, process_batch, i16_max, max_attempts,
}
use setlyst_api.Email.Worker.Order.{first_of}
use setlyst_api.Email.Worker.Attempts.{
  is_open, left, total_left, is_lost, IsQueued, IsReady, recover-left, recover-IsReady, due,
  less_left, try-left, try-IsQueued,
}

swept-IsReady :
    (at now : Timestamp) (ms : List Message)
    → at + hours 1 ≤ now
    → All (IsQueued at) ms
    → All (IsReady now) (map (recover now) ms)
swept-IsReady at now [] less h = tt
swept-IsReady at now (m ∷ ms) less h =
    (recover-IsReady at now m less h.0, swept-IsReady at now ms less h.1)

swept-left :
    (now : Timestamp) (ms : List Message) → total_left (map (recover now) ms) ≡ total_left ms
swept-left now [] = refl
swept-left now (m ∷ ms) = rw (recover-left now m, swept-left now ms) refl

no_recent : (now : Timestamp) (ms : List Message) → All (IsReady now) ms → sent_last_hour now ms ≡ 0
unfolding sent_last_hour
no_recent now [] h = refl
no_recent now (m ∷ ms) h = count_rest (is_recent_bulk now) m ms h.0.past (no_recent now ms h.1)

priorities-All :
    (cap : ℕ) (now : Timestamp) (ms : List Message)
    → 0 < cap
    → All (IsReady now) ms
    → max_priority cap now ms ≡ i16_max
unfolding max_priority
priorities-All cap now ms some_cap h =
    let free : leb cap (sent_last_hour now ms) ≡ false =
      ground (arith, some_cap, no_recent now ms h) in
    rw free refl

-- One batch over messages that are ready.
module _ (now : Timestamp) (world : Message → Attempt)
    (kept : (m : Message) → is_lost (world m) ≡ false) (claimed : Message → Bool)
    (pending_only : (m : Message) → claimed m ≡ true → is_pending m.status ≡ true) where
  abbrev tried : Message → Message
  tried m = try now world (claimed m) m

  tried-le : (ms : List Message) → total_left (map tried ms) ≤ total_left ms
  tried-le [] = omega arith
  tried-le (m ∷ ms) =
      let one = try-left now world (claimed m) m (kept m) (pending_only m) in
      let rest = tried-le ms in omega arith

  tried-lt :
      (ms : List Message) (m : Message)
      → In m ms
      → claimed m ≡ true
      → total_left (map tried ms) < total_left ms
  tried-lt [] m m_in c = absurd m_in
  tried-lt (x ∷ ms) m (inl here) c =
      let cx = rw here at c in
      let one : left (tried x) < left x =
        rw cx (less_left now (world x) x (pending_only x cx) (kept x)) in
      let rest = tried-le ms in omega arith
  tried-lt (x ∷ ms) m (inr there) c =
      let one = try-left now world (claimed x) x (kept x) (pending_only x) in
      let rest = tried-lt ms m there c in omega arith

  tried-IsQueued : (ms : List Message) → All (IsReady now) ms → All (IsQueued now) (map tried ms)
  tried-IsQueued [] h = tt
  tried-IsQueued (m ∷ ms) h =
      (try-IsQueued now world (claimed m) m (kept m) h.0, tried-IsQueued ms h.1)

is_claimed-pending :
    (now : Timestamp) (highest : ℕ) (ms : List Message) (m : Message)
    → is_claimed now highest ms m ≡ true
    → is_pending m.status ≡ true
unfolding is_claimed is_due
is_claimed-pending now highest ms m h =
    (&&-true (is_pending m.status) _ (&&-true (is_due now highest m) _ h).0).0

first-is_claimed :
    (now : Timestamp) (highest : ℕ) (ms : List Message) (m : Message)
    → is_due now highest m ≡ true
    → count (λ l. is_due now highest l && before l m) ms ≡ 0
    → is_claimed now highest ms m ≡ true
unfolding is_claimed
first-is_claimed now highest ms m is_due_m least = rw (is_due_m, least) refl

-- Where nothing is due, nothing is left.
nothing_left :
    (now : Timestamp) (ms : List Message)
    → All (IsReady now) ms
    → any (is_due now i16_max) ms ≡ false
    → total_left ms ≡ 0
nothing_left now [] h none_due = refl
nothing_left now (m ∷ ms) h none_due = elim (Bool-cases (is_pending m.status)) [
  | inl waits ↦ absurd (ground (arith, rw (due now m h.0 waits) at none_due))
  | inr over ↦ elim (Bool-cases (is_due now i16_max m)) [
    | inl is_due_m ↦ absurd (ground (arith, rw is_due_m at none_due))
    | inr not_due ↦
        let rest = nothing_left now ms h.1 (rw not_due at none_due) in
        rw (over, h.0.free, rest) refl
  ]
]

-- A batch an hour after the last one uses up an attempt, unless none was left.
batch_progress :
    (cap at now : Timestamp) (world : Message → Attempt) (ms : List Message)
    → 0 < cap
    → at + hours 1 ≤ now
    → ((m : Message) → is_lost (world m) ≡ false)
    → All (IsQueued at) ms
    → All (IsQueued now) (process_batch cap now world ms)
      × (total_left (process_batch cap now world ms) ≤ total_left ms - 1)
unfolding process_batch
batch_progress cap at now world ms some_cap less kept h =
    let swept = map (recover now) ms in
    let ready = swept-IsReady at now ms less h in
    let claimed = is_claimed now i16_max swept in
    let waits = is_claimed-pending now i16_max swept in
    rw (priorities-All cap now swept some_cap ready) (
      tried-IsQueued now world kept claimed waits swept ready,
      elim (first_of (is_due now i16_max) swept) [
        | inl none_due ↦
            let nothing = nothing_left now swept ready none_due in
            let fewer = tried-le now world kept claimed waits swept in omega arith
        | inr (m, m_in, is_due_m, least) ↦
            let fewer =
              tried-lt now world kept claimed waits swept m m_in
                (first-is_claimed now i16_max swept m is_due_m least) in
            let same = swept-left now ms in omega arith
      ],
    )

pub record Batch : Type 0 where
  pub now : Timestamp
  pub world : Message → Attempt

-- Batches one after another.
unfoldable pub process_batches : ℕ → List Batch → List Message → List Message
process_batches cap [] ms = ms
process_batches cap (b ∷ bs) ms = process_batches cap bs (process_batch cap b.now b.world ms)

-- Each is at least an hour after the one before, and all outcomes are recorded.
abbrev pub IsHourly : Timestamp → List Batch → Type 0
IsHourly at [] = Unit
IsHourly at (b ∷ bs) =
    (at + hours 1 ≤ b.now) × ((m : Message) → is_lost (b.world m) ≡ false) × IsHourly b.now bs

batches-left :
    (cap at : Timestamp) (bs : List Batch) (ms : List Message)
    → 0 < cap
    → IsHourly at bs
    → All (IsQueued at) ms
    → total_left ms ≤ length bs
    → total_left (process_batches cap bs ms) ≡ 0
unfolding process_batches
batches-left cap at [] ms some_cap hourly h enough = omega arith
batches-left cap at (b ∷ bs) ms some_cap hourly h enough =
    let (queued, fewer) = batch_progress cap at b.now b.world ms some_cap hourly.0 hourly.1 h in
    batches-left cap b.now bs (process_batch cap b.now b.world ms) some_cap hourly.2 queued
      (omega arith)

left-le : (m : Message) → left m ≤ max_attempts
left-le m = bound (is_open m.status) m.attempts
  where
    bound :
        (b : Bool) (a : ℕ)
        → (if b then (if ltb a max_attempts then max_attempts - a else 1) else 0) ≤ max_attempts
    bound b a = ground arith

total_left-le : (ms : List Message) → total_left ms ≤ max_attempts * length ms
total_left-le [] = omega arith
total_left-le (m ∷ ms) = let one = left-le m in let rest = total_left-le ms in omega arith

none_open : (m : Message) → left m ≡ 0 → is_open m.status ≡ false
none_open m h = closed (is_open m.status) m.attempts h
  where
    closed :
        (b : Bool) (a : ℕ)
        → (if b then (if ltb a max_attempts then max_attempts - a else 1) else 0) ≡ 0
        → b ≡ false
    closed b a h = ground (arith, h)

closed-All :
    (ms : List Message) → total_left ms ≡ 0 → All (λ (m : Message). is_open m.status ≡ false) ms
closed-All [] h = tt
closed-All (m ∷ ms) h = (none_open m (omega arith), closed-All ms (omega arith))

-- The queue empties. From messages that are due within an hour, ten batches for each message, an
-- hour or more apart, whose outcomes are all recorded, leave no message waiting or being sent,
-- whatever the transport answers: each is sent, skipped or given up on, as long as the hourly cap
-- is not 0.
pub process_batches_drained :
    (cap at : ℕ) (bs : List Batch) (ms : List Message)
    → 0 < cap
    → IsHourly at bs
    → All (IsQueued at) ms
    → max_attempts * length ms ≤ length bs
    → All (λ (m : Message). is_open m.status ≡ false) (process_batches cap bs ms)
process_batches_drained cap at bs ms some_cap hourly h enough =
    let bound = total_left-le ms in
    closed-All (process_batches cap bs ms)
      (batches-left cap at bs ms some_cap hourly h (omega arith))
