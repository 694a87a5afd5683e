-- ===== src/Quota/Guard.antt =====
-- src/database/repositories/quota_repository.rs: the limits in force for an account, and the guard
-- that a creation runs in its own transaction. A scope's advisory lock is held from the count to
-- the commit, so counting and inserting are one step of the scope.
pub mod Laws
use setlyst_api.Prelude.{
  ℕ, ◌+◌, Bool, true, false, ◌||◌, Option, none, some, List, [], ◌∷◌, if◌then◌else◌, ltb, leb,
  is_some, unwrap_or,
}
use setlyst_api.ApiError.{ApiError, quota_exceeded, Result, ok, err}
use setlyst_api.Access.Role.{Role, is_staff}
use setlyst_api.Access.Tier.{AccessTier, resolve}
use setlyst_api.Quota.{
  QuotaResource, key, QuotaLimits, QuotaOverrides, get, with_overrides, default, unverified, free,
}

-- The row that `resolve_limits` reads, with the platform's settings.
pub record AccountRow : Type 0 where
  pub role : Role
  pub email_verified : Bool
  pub unlimited : Option Bool
  pub overrides : QuotaOverrides

abbrev base_of : AccessTier → Option QuotaLimits → QuotaLimits → QuotaLimits
base_of AccessTier.plan (some limits) defaults = limits
base_of AccessTier.unverified plan defaults = unverified
base_of AccessTier.free plan defaults = free
base_of _ plan defaults = defaults

-- The limits of a known account (`none` is exempt). `plan` holds the limits of the plan in effect.
unfoldable pub resolve_limits :
    Bool → QuotaLimits → Option QuotaLimits → AccountRow → Option QuotaLimits
unfolding is_staff resolve
resolve_limits enforced defaults plan row =
    let current = if enforced then plan else none in
    if is_staff row.role || unwrap_or row.unlimited false
    then none
    else some (
        with_overrides
          (base_of (resolve false enforced (is_some current) row.email_verified) current defaults)
          row.overrides)

pub record QuotaGuard : Type 0 where
  pub limits : Option QuotaLimits
  pub resource : QuotaResource
  pub adding : ℕ

abbrev pub within : QuotaLimits → QuotaResource → ℕ → ℕ → Result (Unit {0})
within limits resource adding used =
    let limit = get limits resource in
    if ltb limit (used + adding) then err (quota_exceeded (key resource) limit) else ok tt

-- `QuotaGuard::enforce`, given the count that it takes under the lock; `check` is the same test on
-- a count taken without the lock.
unfoldable pub enforce : QuotaGuard → ℕ → Result (Unit {0})
enforce g used = elim g.limits [
  | none ↦ ok tt
  | some limits ↦ if leb g.adding 0 then ok tt else within limits g.resource g.adding used
]

abbrev pub and_then : Result (Unit {0}) → Result (Unit {0}) → Result (Unit {0})
and_then (ok _) rest = rest
and_then (err e) rest = err e

-- `QuotaGuard::enforce_all`, each guard with the count of its scope.
unfoldable pub enforce_all : List (QuotaGuard × ℕ) → Result (Unit {0})
enforce_all [] = ok tt
enforce_all ((g, used) ∷ gs) = and_then (enforce g used) (enforce_all gs)
