-- ===== src/Email/Outbox/Caps.antt =====
-- The caps of src/email/outbox.rs hold over any sequence of messages.
use setlyst_api.Prelude.{
  ℕ, ◌≤◌, ◌<◌, String, Bool, true, false, ◌&&◌, ◌==◌, text_eq, nat_eq, option_eq, some, List, [],
  ◌∷◌, count, Bool-cases, inl, inr, ◌≡◌, arith, Timestamp, if-both, ltb→lt, &&-true, ==→≡, not,
  count_mono,
}
use setlyst_api.Email.Outbox.{
  Message, OutgoingEmail, name, goes_to, is_of_account, recipient_daily_cap,
  emails_per_account_per_day, enqueue, new_message, mailbox_has_room, account_has_room,
  is_code_template, not,
}

goes_to-later :
    (mailbox template : String) (now later : Timestamp) (m : Message)
    → now ≤ later
    → goes_to mailbox template later m ≡ true
    → goes_to mailbox template now m ≡ true
unfolding goes_to
goes_to-later mailbox template now later m less h = ground (arith, less, h)

is_of_account-later :
    (user : ℕ) (now later : Timestamp) (m : Message)
    → now ≤ later
    → is_of_account user later m ≡ true
    → is_of_account user now m ≡ true
unfolding is_of_account
is_of_account-later user now later m less h = ground (arith, less, h)

-- From `at` on, no 24 hours hold more messages than the caps say.
pub record IsCapped (at : Timestamp) (outbox : List Message) : Type 0 where
  pub mailbox :
      (box template : String) (cap : ℕ) (now : Timestamp)
      → recipient_daily_cap template ≡ some cap
      → at ≤ now
      → count (goes_to box template now) outbox ≤ cap
  pub account :
      (user : ℕ) (now : Timestamp)
      → at ≤ now
      → count (is_of_account user now) outbox ≤ emails_per_account_per_day

-- Whom a new message counts against.
goes_to-new :
    (box template : String) (now later : Timestamp) (e : OutgoingEmail)
    → goes_to box template later (new_message now e) ≡ true
    → (e.to ≡ box) × (name e.template ≡ template)
unfolding goes_to new_message
goes_to-new box template now later e h =
    let (box_e, rest) = &&-true (e.to == box) _ h in
    let (template_e, _) = &&-true (name e.template == template) _ rest in
    (==→≡ e.to box box_e, ==→≡ (name e.template) template template_e)

is_of_account-new :
    (user : ℕ) (now later : Timestamp) (e : OutgoingEmail)
    → is_of_account user later (new_message now e) ≡ true
    → (e.user_id ≡ some user) × (is_code_template (name e.template) ≡ false)
unfolding is_of_account new_message
is_of_account-new user now later e h =
    let (user_e, rest) = &&-true (e.user_id == some user) _ h in
    let (code, _) = &&-true (not (is_code_template (name e.template))) _ rest in
    (==→≡ e.user_id (some user) user_e, ground (arith, code))

-- A new message keeps a count within its cap if there was room where it counts.
count-new :
    (p q : Message → Bool) (m : Message) (ms : List Message) (cap : ℕ)
    → ((x : Message) → p x ≡ true → q x ≡ true)
    → count p ms ≤ cap
    → (p m ≡ true → count q ms < cap)
    → count p (m ∷ ms) ≤ cap
count-new p q m ms cap fewer old room = elim (Bool-cases (p m)) [
  | inl counted ↦
      let before = count_mono p q ms fewer in
      let free = room counted in ground (arith, counted, before, free)
  | inr other ↦ ground (arith, other, old)
]

mailbox-room :
    (now : Timestamp) (e : OutgoingEmail) (outbox : List Message) (box template : String) (cap : ℕ)
    → mailbox_has_room now e outbox ≡ true
    → (e.to ≡ box) × (name e.template ≡ template)
    → recipient_daily_cap template ≡ some cap
    → count (goes_to box template now) outbox < cap
unfolding mailbox_has_room
mailbox-room now e outbox box template cap room (to, same) limit =
    let room_there = rw (to, same, limit) at room in
    ltb→lt (count (goes_to box template now) outbox) cap room_there

account-room :
    (now : Timestamp) (e : OutgoingEmail) (outbox : List Message) (user : ℕ)
    → account_has_room now e outbox ≡ true
    → (e.user_id ≡ some user) × (is_code_template (name e.template) ≡ false)
    → count (is_of_account user now) outbox < emails_per_account_per_day
unfolding account_has_room
account-room now e outbox user room (owner, no_code) =
    let room_there = rw (no_code, owner) at room in
    ltb→lt (count (is_of_account user now) outbox) emails_per_account_per_day room_there

enqueue-IsCapped :
    (at now : Timestamp) (e : OutgoingEmail) (outbox : List Message)
    → at ≤ now
    → IsCapped at outbox
    → IsCapped now (enqueue now e outbox)
unfolding enqueue
enqueue-IsCapped at now e outbox less h =
    if-both (IsCapped now) (mailbox_has_room now e outbox && account_has_room now e outbox) _ outbox
      (λ room.
        let (box_room, user_room) = &&-true (mailbox_has_room now e outbox) _ room in
        record {
          mailbox = λ box template cap later limit more.
              count-new (goes_to box template later) (goes_to box template now) (new_message now e)
                outbox cap (λ m. goes_to-later box template now later m more)
                (h.mailbox box template cap later limit (omega arith))
                (λ counted.
                  mailbox-room now e outbox box template cap box_room
                    (goes_to-new box template now later e counted) limit);
          account = λ user later more.
              count-new (is_of_account user later) (is_of_account user now) (new_message now e)
                outbox emails_per_account_per_day (λ m. is_of_account-later user now later m more)
                (h.account user later (omega arith))
                (λ counted.
                  account-room now e outbox user user_room
                    (is_of_account-new user now later e counted));
        })
      (λ _. record {
        mailbox = λ box template cap later limit more.
            h.mailbox box template cap later limit (omega arith);
        account = λ user later more. h.account user later (omega arith);
      })

pub record Request : Type 0 where
  pub now : Timestamp
  pub email : OutgoingEmail

-- Messages that are enqueued one after another.
unfoldable pub enqueue_all : List Request → List Message → List Message
enqueue_all [] outbox = outbox
enqueue_all (r ∷ rs) outbox = enqueue_all rs (enqueue r.now r.email outbox)

abbrev pub IsInOrder : Timestamp → List Request → Type 0
IsInOrder at [] = Unit
IsInOrder at (r ∷ rs) = (at ≤ r.now) × IsInOrder r.now rs

abbrev pub end_of : Timestamp → List Request → Timestamp
end_of at [] = at
end_of at (r ∷ rs) = end_of r.now rs

-- From an outbox that this holds of, however many messages are enqueued in the order of the clock:
-- at every time from the last one on a mailbox was sent at most the template's daily cap of its
-- messages in the last 24 hours, and an account at most 50 messages without a code, all templates
-- together.
pub enqueue_all-IsCapped :
    (rs : List Request) (at : Timestamp) (outbox : List Message)
    → IsInOrder at rs
    → IsCapped at outbox
    → IsCapped (end_of at rs) (enqueue_all rs outbox)
unfolding enqueue_all
enqueue_all-IsCapped [] at outbox ordered h = h
enqueue_all-IsCapped (r ∷ rs) at outbox ordered h =
    enqueue_all-IsCapped rs r.now (enqueue r.now r.email outbox) ordered.1
      (enqueue-IsCapped at r.now r.email outbox ordered.0 h)
