-- ===== src/Access/Tier.antt =====
-- src/models/billing.rs: which rules an account falls under.
use setlyst_api.Prelude.{Bool, ◌&&◌, not, if◌then◌else◌}

pub data AccessTier : Type 0 where
  staff plan unverified beta free : AccessTier

unfoldable pub resolve : (is_staff enforced has_plan email_verified : Bool) → AccessTier
resolve is_staff enforced has_plan email_verified =
    if is_staff
    then staff
    else if enforced && has_plan
    then plan
    else if not email_verified
    then unverified
    else if not enforced
    then beta
    else free
