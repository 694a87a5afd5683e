-- ===== src/Email/Outbox.antt =====
-- src/email/outbox.rs, and the templates of src/email/templates.rs by their names: the queue of
-- messages (the table `email_outbox`), its caps and priorities. A mailbox is an address in the form
-- that `canonical_email` gives it; what a message carries (subject, payload, locale) is left out.
pub mod Caps
use Prim.Native.String.{len}
use text.Mathlib.Text.{find?, get?}
use setlyst_api.Prelude.{
  ℕ, ◌+◌, ◌-◌, ◌*◌, String, Bool, true, false, not, ◌&&◌, ◌||◌, ◌==◌, text_eq, nat_eq, option_eq,
  Option, none, some, List, [], ◌∷◌, any, count, is_some, is_none_or, leb, ltb, if◌then◌else◌,
  Timestamp, days,
}

-- A notification's category is reduced to whether it is `Security`.
pub data EmailTemplate : Type 0 where
  email_verification_code password_reset_code email_change_code password_changed : EmailTemplate
  two_factor_enabled two_factor_disabled email_changed_notice account_deleted : EmailTemplate
  announcement release_notes trial_ending subscription_changed : EmailTemplate
  subscription_confirmed paid_trial_ending renewal_reminder withdrawal_confirmed : EmailTemplate
  payment_disputed price_change welcome test_message : EmailTemplate
  reauth_code security_notice : EmailTemplate
  notification : (is_security : Bool) → EmailTemplate

unfoldable pub name : EmailTemplate → String
name email_verification_code = "email_verification_code"
name password_reset_code = "password_reset_code"
name email_change_code = "email_change_code"
name password_changed = "password_changed"
name two_factor_enabled = "two_factor_enabled"
name two_factor_disabled = "two_factor_disabled"
name email_changed_notice = "email_changed_notice"
name account_deleted = "account_deleted"
name (notification _) = "notification"
name announcement = "announcement"
name release_notes = "release_notes"
name trial_ending = "trial_ending"
name subscription_changed = "subscription_changed"
name subscription_confirmed = "subscription_confirmed"
name paid_trial_ending = "paid_trial_ending"
name renewal_reminder = "renewal_reminder"
name withdrawal_confirmed = "withdrawal_confirmed"
name payment_disputed = "payment_disputed"
name price_change = "price_change"
name welcome = "welcome"
name test_message = "test_message"
name reauth_code = "reauth_code"
name security_notice = "security_notice"

-- Rust's `ends_with` and `contains`.
abbrev pub ends_with : String → String → Bool
ends_with s t = leb (len t) (len s) && get? s (len s - len t) (len s) == some t

abbrev pub contains : String → String → Bool
contains s t = is_some (find? s t)

-- The names of templates that carry a one-time code.
unfoldable pub is_code_template : String → Bool
is_code_template template = ends_with template "_code"

abbrev pub security : ℕ
security = 0

abbrev pub account : ℕ
account = 3

abbrev pub normal : ℕ
normal = 5

abbrev pub bulk : ℕ
bulk = 9

abbrev pub code_emails_per_address_per_day : ℕ
code_emails_per_address_per_day = 5

abbrev pub account_code_emails_per_address_per_day : ℕ
account_code_emails_per_address_per_day = 20

abbrev pub notification_emails_per_address_per_day : ℕ
notification_emails_per_address_per_day = 30

abbrev pub other_emails_per_address_per_day : ℕ
other_emails_per_address_per_day = 10

abbrev pub emails_per_account_per_day : ℕ
emails_per_account_per_day = 50

-- None for bulk mail.
unfoldable pub recipient_daily_cap : String → Option ℕ
recipient_daily_cap template =
    if template == "announcement" || template == "release_notes"
    then none
    else if template == "password_reset_code" || template == "reauth_code"
    then some account_code_emails_per_address_per_day
    else if is_code_template template
    then some code_emails_per_address_per_day
    else if template == "notification"
    then some notification_emails_per_address_per_day
    else some other_emails_per_address_per_day

abbrev pub security_names : List String
security_names =
    "password_changed" ∷ "two_factor_enabled" ∷ "two_factor_disabled" ∷ "email_changed_notice"
    ∷ "account_deleted" ∷ "security_notice" ∷ []

abbrev pub account_words : List String
account_words =
    "trial" ∷ "subscription" ∷ "payment" ∷ "billing" ∷ "invoice" ∷ "refund" ∷ "withdraw" ∷ []

unfoldable pub priority_of_name : String → ℕ
priority_of_name template =
    if any (λ n. template == n) security_names
    then security
    else if template == "announcement" || template == "release_notes"
    then bulk
    else if template == "welcome"
    then account
    else if is_code_template template
    then security
    else if any (contains template) account_words
    then account
    else normal

unfoldable pub priority_of : EmailTemplate → ℕ
priority_of (notification true) = security
priority_of (notification false) = normal
priority_of template = priority_of_name (name template)

pub data EmailStatus : Type 0 where
  pending sending sent skipped failed : EmailStatus

-- A row of `email_outbox`.
pub record Message : Type 0 where
  pub id : ℕ
  pub user_id : Option ℕ
  pub to_canonical : String
  pub template : String
  pub status : EmailStatus
  pub attempts : ℕ
  pub priority : ℕ
  pub scheduled_at : Timestamp
  pub created_at : Timestamp
  pub locked_at : Option Timestamp
  pub sent_at : Option Timestamp

pub record OutgoingEmail : Type 0 where
  pub id : ℕ
  pub user_id : Option ℕ
  pub to : String
  pub template : EmailTemplate

abbrev pub is_today : Timestamp → Message → Bool
is_today now m = ltb now (m.created_at + days 1)

-- What the two subqueries count.
unfoldable pub goes_to : String → String → Timestamp → Message → Bool
goes_to mailbox template now m =
    m.to_canonical == mailbox && (m.template == template && is_today now m)

unfoldable pub is_of_account : ℕ → Timestamp → Message → Bool
is_of_account user now m =
    m.user_id == some user && (not (is_code_template m.template) && is_today now m)

unfoldable pub new_message : Timestamp → OutgoingEmail → Message
new_message now e = record {
  id = e.id;
  user_id = e.user_id;
  to_canonical = e.to;
  template = name e.template;
  status = pending;
  attempts = 0;
  priority = priority_of e.template;
  scheduled_at = now;
  created_at = now;
  locked_at = none;
  sent_at = none;
}

-- The mailbox is under the cap of the template.
unfoldable pub mailbox_has_room : Timestamp → OutgoingEmail → List Message → Bool
mailbox_has_room now e outbox =
    is_none_or (λ cap. ltb (count (goes_to e.to (name e.template) now) outbox) cap)
      (recipient_daily_cap (name e.template))

-- So is the account, which only messages without a code count against.
unfoldable pub account_has_room : Timestamp → OutgoingEmail → List Message → Bool
account_has_room now e outbox =
    is_code_template (name e.template)
    || is_none_or (λ user. ltb (count (is_of_account user now) outbox) emails_per_account_per_day)
        e.user_id

-- A message over a cap is dropped without a word. The statement, which counts and inserts, is taken
-- as atomic; it holds no lock, so messages enqueued at the same time are outside the model.
unfoldable pub enqueue : Timestamp → OutgoingEmail → List Message → List Message
enqueue now e outbox =
    if mailbox_has_room now e outbox && account_has_room now e outbox
    then new_message now e ∷ outbox
    else outbox
