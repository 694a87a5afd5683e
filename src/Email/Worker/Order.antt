-- ===== src/Email/Worker/Order.antt =====
-- The order in which src/email/worker.rs claims what is due.
use setlyst_api.Prelude.{
  none, ℕ, ◌≤◌, Bool, true, false, ◌&&◌, nat_eq, List, [], ◌∷◌, any, count, In, Bool-cases, inl,
  inr, ◌≡◌, ◌⊎◌, refl, arith, Timestamp, &&-true, ltb→lt, lt→ltb, count_mono, count_rest,
  count_none, ◌<◌, ◌∙◌,
}
use setlyst_api.Email.Outbox.{
  Message, EmailTemplate, email_verification_code, password_reset_code, email_change_code,
  reauth_code, announcement, release_notes, recipient_daily_cap, is_code_template, name,
  priority_of, priority_of_name,
}
use setlyst_api.Email.Worker.{before, is_due, is_claimed, batch_size}

before_trans : (l m n : Message) → before l m ≡ true → before m n ≡ true → before l n ≡ true
unfolding before
before_trans l m n h k = ground (arith, h, k)

before_irrefl : (m : Message) → before m m ≡ false
unfolding before
before_irrefl m = ground arith

-- What is before the earlier message is before the later one.
count-before :
    (p : Message → Bool) (m n : Message) (ms : List Message)
    → before m n ≡ true
    → count (λ l. p l && before l m) ms ≤ count (λ l. p l && before l n) ms
count-before p m n ms h =
    count_mono (λ l. p l && before l m) (λ l. p l && before l n) ms
      (λ l both.
        let (passes, earlier) = &&-true (p l) (before l m) both in
        rw (passes, before_trans l m n earlier h) refl)

-- Whatever a batch claims, it also claims each message that is due and comes before it.
pub is_claimed-before :
    (now : Timestamp) (highest : ℕ) (outbox : List Message) (m n : Message)
    → is_claimed now highest outbox n ≡ true
    → is_due now highest m ≡ true
    → before m n ≡ true
    → is_claimed now highest outbox m ≡ true
unfolding is_claimed
is_claimed-before now highest outbox m n claimed due earlier =
    let fewer = count-before (is_due now highest) m n outbox earlier in
    let (_, room) = &&-true (is_due now highest n) _ claimed in
    let few = ltb→lt (count (λ l. is_due now highest l && before l n) outbox) batch_size room in
    rw
      (
        due,
        lt→ltb (count (λ l. is_due now highest l && before l m) outbox) batch_size (omega arith),
      )
      refl

both-fails : (a b : Bool) → b ≡ false → (a && b) ≡ false
both-fails a b h = ground (arith, h)

-- Of the messages that pass a test, one comes first.
pub first_of :
    (p : Message → Bool) (ms : List Message)
    → (any p ms ≡ false)
      ⊎ ((m : Message) × In m ms × (p m ≡ true) × (count (λ l. p l && before l m) ms ≡ 0))
first_of p [] = inl refl
first_of p (x ∷ xs) = elim (Bool-cases (p x)) [
  | inr fails ↦ elim (first_of p xs) [
    | inl none_passes ↦ inl (rw fails none_passes)
    | inr (m, m_in, passes, least) ↦
        inr (m, inr m_in, passes, count_rest (λ l. p l && before l m) x xs (rw fails refl) least)
  ]
  | inl passes_x ↦ elim (first_of p xs) [
    | inl none_passes ↦
        let fewer =
          count_mono (λ l. p l && before l x) p xs
            (λ l both. (&&-true (p l) (before l x) both).0) in
        let no_more = count_none p xs none_passes in
        inr (
          x,
          inl refl,
          passes_x,
          count_rest (λ l. p l && before l x) x xs (both-fails (p x) (before x x) (before_irrefl x))
              (omega arith),
        )
    | inr (m, m_in, passes, least) ↦ elim (Bool-cases (before x m)) [
      | inl earlier ↦
          let fewer = count-before p x m xs earlier in
          inr (
            x,
            inl refl,
            passes_x,
            count_rest (λ l. p l && before l x) x xs
                (both-fails (p x) (before x x) (before_irrefl x)) (omega arith),
          )
      | inr later ↦ inr (
        m,
        inr m_in,
        passes,
        count_rest (λ l. p l && before l m) x xs (both-fails (p x) (before x m) later) least,
      )
    ]
  ]
]

-- Whatever a batch claims, it also claims each due message of a more urgent priority, that is, of a
-- smaller number, whenever the two were scheduled.
pub is_claimed_by_priority :
    (now : Timestamp) (highest : ℕ) (outbox : List Message) (m n : Message)
    → is_claimed now highest outbox n ≡ true
    → is_due now highest m ≡ true
    → m.priority < n.priority
    → is_claimed now highest outbox m ≡ true
unfolding before
is_claimed_by_priority now highest outbox m n claimed due urgent =
    is_claimed-before now highest outbox m n claimed due
      (rw (lt→ltb m.priority n.priority urgent) refl)

code_priority : (t : EmailTemplate) → is_code_template (name t) ≡ true → priority_of t ≡ 0
unfolding is_code_template name priority_of priority_of_name
code_priority email_verification_code h = refl
code_priority password_reset_code h = refl
code_priority email_change_code h = refl
code_priority reauth_code h = refl
code_priority _ h = absurd (ground (arith, h))

bulk_priority : (t : EmailTemplate) → recipient_daily_cap (name t) ≡ none → priority_of t ≡ 9
unfolding recipient_daily_cap is_code_template name priority_of priority_of_name
bulk_priority announcement h = refl
bulk_priority release_notes h = refl
bulk_priority _ h = absurd (ground (arith, h))

-- A bulk message (of a template without a daily cap) is not claimed while a due message that
-- carries a code is left waiting, however long the bulk message has been due.
pub is_claimed_code_first :
    (now : Timestamp) (highest : ℕ) (outbox : List Message) (m n : Message)
    (code mass : EmailTemplate)
    → is_code_template (name code) ≡ true
    → recipient_daily_cap (name mass) ≡ none
    → m.priority ≡ priority_of code
    → n.priority ≡ priority_of mass
    → is_due now highest m ≡ true
    → is_claimed now highest outbox n ≡ true
    → is_claimed now highest outbox m ≡ true
is_claimed_code_first now highest outbox m n code mass is_code is_bulk of_m of_n due claimed =
    let low = of_m ∙ code_priority code is_code in
    let high = of_n ∙ bulk_priority mass is_bulk in
    is_claimed_by_priority now highest outbox m n claimed due (omega (arith, low, high))
