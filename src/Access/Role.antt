-- ===== src/Access/Role.antt =====
-- src/models/user.rs: roles and suspensions.
use setlyst_api.Prelude.{
  ℕ, Bool, true, false, ◌&&◌, Option, none, some, ltb, if◌then◌else◌, Timestamp,
}

pub data Role : Type 0 where
  user moderator admin : Role

unfoldable pub rank : Role → ℕ
rank user = 0
rank moderator = 1
rank admin = 2

unfoldable pub is_staff : Role → Bool
is_staff moderator = true
is_staff admin = true
is_staff user = false

unfoldable pub outranks : Role → Role → Bool
unfolding rank is_staff
outranks r target = is_staff r && ltb (rank target) (rank r)

-- `some none` is a permanent suspension, `some (some until)` a temporary one.
unfoldable pub active_ban :
    Option Timestamp → Option Timestamp → Timestamp → Option (Option Timestamp)
active_ban none banned_until now = none
active_ban (some at) none now = some none
active_ban (some at) (some until) now = if ltb now until then some (some until) else none
