-- ===== src/Access/Entitlements.antt =====
-- src/services/entitlements.rs: the features that an account may use, and the plan to upgrade to.
-- Of a plan it keeps what this code reads; prices and the sort order are not negative.
pub mod Laws
use setlyst_api.Prelude.{
  ℕ, String, Bool, true, false, ◌&&◌, ◌||◌, Option, none, some, List, [], ◌∷◌, if◌then◌else◌, ltb,
  leb, ◌==◌, nat_eq, is_some, is_some_and, map_option, filter, find,
}
use setlyst_api.ApiError.{ApiError, email_not_verified, feature_not_in_plan, Result, ok, err}
use setlyst_api.Access.Role.{Role, is_staff}
use setlyst_api.Access.Tier.{AccessTier, resolve}

pub data Feature : Type 0 where
  create_bands tours analytics_export pdf_export advanced_pdf : Feature
  chordpro_import song_suggestions public_sharing offline_mode priority_support : Feature

abbrev pub key : Feature → String
key create_bands = "create_bands"
key tours = "tours"
key analytics_export = "analytics_export"
key pdf_export = "pdf_export"
key advanced_pdf = "advanced_pdf"
key chordpro_import = "chordpro_import"
key song_suggestions = "song_suggestions"
key public_sharing = "public_sharing"
key offline_mode = "offline_mode"
key priority_support = "priority_support"

-- `FREE_FEATURES.contains`.
unfoldable pub is_free : Feature → Bool
is_free create_bands = true
is_free song_suggestions = true
is_free offline_mode = true
is_free _ = false

-- `UNVERIFIED_FEATURES.contains`.
unfoldable pub is_unverified : Feature → Bool
is_unverified offline_mode = true
is_unverified _ = false

pub record Plan : Type 0 where
  pub code : String
  pub price_monthly_cents : ℕ
  pub sort_order : ℕ
  pub is_public : Bool
  pub has : Feature → Bool

pub record Entitlements : Type 0 where
  pub enforced : Bool
  pub is_staff : Bool
  pub email_verified : Bool
  pub plan : Option Plan

unfoldable pub tier : Entitlements → AccessTier
unfolding resolve
tier e = resolve e.is_staff e.enforced (is_some e.plan) e.email_verified

abbrev has_in : AccessTier → Option Plan → Feature → Bool
has_in AccessTier.staff plan f = true
has_in AccessTier.beta plan f = true
has_in AccessTier.plan plan f = is_some_and (λ p. p.has f) plan
has_in AccessTier.unverified plan f = is_unverified f
has_in AccessTier.free plan f = is_free f

unfoldable pub has : Entitlements → Feature → Bool
unfolding tier
has e f = has_in (tier e) e.plan f

-- The account's role and whether its e-mail address is verified (`none` for an unknown account).
unfoldable pub from_parts : Bool → Option (Role × Bool) → Option Plan → Entitlements
from_parts enforced row plan = record {
  enforced = enforced;
  is_staff = is_some_and (λ r. is_staff r.0) row;
  email_verified = is_some_and (λ r. r.1) row;
  plan = plan;
}

-- The order of the key `(price_monthly_cents, sort_order)`.
abbrev pub is_cheaper : Plan → Plan → Bool
is_cheaper p q =
    ltb p.price_monthly_cents q.price_monthly_cents
    || (p.price_monthly_cents == q.price_monthly_cents && ltb p.sort_order q.sort_order)

-- `Iterator::min_by_key`, which keeps the first of equal minima.
unfoldable pub cheapest : List Plan → Option Plan
cheapest [] = none
cheapest (p ∷ ps) =
    let rest = cheapest ps in
    elim rest [ none ↦ some p | some q ↦ if is_cheaper q p then some q else some p ]

-- `list_plans(true)` reads the public plans of the table.
unfoldable pub cheapest_plan_with : List Plan → Feature → Option Plan
unfolding cheapest
cheapest_plan_with plans f = cheapest (filter (λ p. p.is_public && p.has f) plans)

abbrev is_unverified_tier : AccessTier → Bool
is_unverified_tier AccessTier.unverified = true
is_unverified_tier _ = false

unfoldable pub require : List Plan → Entitlements → Feature → Result (Unit {0})
unfolding has cheapest_plan_with
require plans e f =
    if has e f
    then ok tt
    else if is_unverified_tier (tier e)
    then err (email_not_verified (key f))
    else err (feature_not_in_plan (key f) (map_option (λ p. p.code) (cheapest_plan_with plans f)))

-- Whether content shared by `creator` is still shown to the public; `owner` is the owner of its
-- band (`none` where it belongs to no band), as an id with the owner's entitlements.
unfoldable pub shared_content_visible : Bool → ℕ → Entitlements → Option (ℕ × Entitlements) → Bool
unfolding has
shared_content_visible enforced creator_id creator owner =
    if not_enforced then true else if has creator public_sharing then true else elim owner [
      | none ↦ false
      | some (owner_id, e) ↦ if owner_id == creator_id then false else has e public_sharing
    ]
  where
    not_enforced : Bool
    not_enforced = if enforced then false else true
