-- ===== src/Quota/Guard/Laws.antt =====
-- However creations and deletions interleave, a guarded scope stays within its limit.
use setlyst_api.Prelude.{
  ℕ, ◌+◌, ◌≤◌, ◌≡◌, refl, Bool, true, false, Option, none, some, arith, List, [], ◌∷◌, All,
  unwrap_or, ◌↔◌, ◌⊎◌, if◌then◌else◌, ◌||◌,
}
use setlyst_api.ApiError.{ok, err, Result}
use setlyst_api.Quota.{
  QuotaLimits, QuotaResource, get, with_overrides, unverified, free, QuotaOverrides,
}
use setlyst_api.Quota.Laws.{override_of, get-with_overrides, tiers_ordered}
use setlyst_api.Quota.Guard.{QuotaGuard, enforce, enforce_all, AccountRow, resolve_limits, and_then}
use setlyst_api.Access.Role.{is_staff}

-- A transaction on a scope that holds `used` rows: a guarded creation that commits, one that is
-- refused and rolled back, or a deletion.
pub data ScopeStep (limits : QuotaLimits) (r : QuotaResource) (used : ℕ) : ℕ → Type 0 where
  created :
      (adding after : ℕ)
      → enforce (record { limits = some limits; resource = r; adding = adding }) used ≡ ok tt
      → after ≡ used + adding
      → ScopeStep limits r used after
  refused : (after : ℕ) → after ≡ used → ScopeStep limits r used after
  deleted : (after : ℕ) → after ≤ used → ScopeStep limits r used after

pub data ScopeRun (limits : QuotaLimits) (r : QuotaResource) (used : ℕ) : ℕ → Type 0 where
  here : ScopeRun limits r used used
  next :
      {mid after : ℕ}
      → ScopeRun limits r used mid
      → ScopeStep limits r mid after
      → ScopeRun limits r used after

enforce_ok :
    (limits : QuotaLimits) (r : QuotaResource) (adding used : ℕ)
    → enforce (record { limits = some limits; resource = r; adding = adding }) used ≡ ok tt
    → used ≤ get limits r
    → used + adding ≤ get limits r
unfolding enforce
enforce_ok limits r adding used h room = ground arith

step_within :
    (limits : QuotaLimits) (r : QuotaResource) {used after : ℕ}
    → ScopeStep limits r used after
    → used ≤ get limits r
    → after ≤ get limits r
step_within limits r {used} (created adding after h e) room =
    rw e (enforce_ok limits r adding used h room)
step_within limits r (refused after e) room = rw e room
step_within limits r (deleted after h) room = omega arith

-- A scope within its limit stays within it, whatever transactions run on it in any order.
pub ScopeRun-within :
    (limits : QuotaLimits) (r : QuotaResource) (used after : ℕ)
    → used ≤ get limits r
    → ScopeRun limits r used after
    → after ≤ get limits r
ScopeRun-within limits r used after room here = room
ScopeRun-within limits r used after room (next {mid} run step) =
    step_within limits r step (ScopeRun-within limits r used mid room run)

-- An account with limits passes the guard exactly when it adds nothing or the rows fit.
pub enforce_iff :
    (l : QuotaLimits) (r : QuotaResource) (adding used : ℕ)
    → (enforce (record { limits = some l; resource = r; adding = adding }) used ≡ ok tt)
      ↔ (adding ≡ 0 ⊎ used + adding ≤ get l r)
unfolding enforce
enforce_iff l r adding used = (λ h. ground arith, λ h. ground arith)

and_then-ok : (x y : Result (Unit {0})) → and_then x y ≡ ok tt → (x ≡ ok tt) × (y ≡ ok tt)
and_then-ok (ok _) y h = (refl, h)
and_then-ok (err e) y h = ground arith

-- An account that passes every guard passes each of them.
pub enforce_all-All :
    (gs : List (QuotaGuard × ℕ))
    → enforce_all gs ≡ ok tt
    → All (λ (g, used). enforce g used ≡ ok tt) gs
unfolding enforce_all
enforce_all-All [] h = tt
enforce_all-All ((g, used) ∷ gs) h =
    let both = and_then-ok (enforce g used) (enforce_all gs) h in
    (both.0, enforce_all-All gs both.1)

unwrap_or_mono : (o : Option ℕ) {a b : ℕ} → a ≤ b → unwrap_or o a ≤ unwrap_or o b
unwrap_or_mono none h = h
unwrap_or_mono (some x) h = omega arith

abbrev exempt_of : AccountRow → Bool
exempt_of row = is_staff row.role || unwrap_or row.unlimited false

with_overrides_mono :
    (l m : QuotaLimits) (o : QuotaOverrides) (r : QuotaResource)
    → get l r ≤ get m r
    → get (with_overrides l o) r ≤ get (with_overrides m o) r
with_overrides_mono l m o r h =
    rw (get-with_overrides l o r, get-with_overrides m o r) (unwrap_or_mono (override_of o r) h)

chosen_le :
    (exempt : Bool) (a b low high : QuotaLimits) (r : QuotaResource)
    → (if exempt then none else some a) ≡ some low
    → (if exempt then none else some b) ≡ some high
    → get a r ≤ get b r
    → get low r ≤ get high r
chosen_le true a b low high r k l h = ground arith
chosen_le false a b low high r k l h = ground arith

-- Verifying the e-mail address lowers no limit, where the platform's defaults are at least those
-- of an unverified account.
pub resolve_limits-verified :
    (enforced : Bool) (defaults low high : QuotaLimits) (plan : Option QuotaLimits)
    (row : AccountRow) (r : QuotaResource)
    → get unverified r ≤ get defaults r
    → resolve_limits enforced defaults plan (record row { email_verified = false }) ≡ some low
    → resolve_limits enforced defaults plan (record row { email_verified = true }) ≡ some high
    → get low r ≤ get high r
unfolding resolve_limits
resolve_limits-verified true defaults low high (some limits) row r h k l =
    chosen_le (exempt_of row) _ _ low high r k l (omega arith)
resolve_limits-verified true defaults low high none row r h k l =
    chosen_le (exempt_of row) _ _ low high r k l
      (with_overrides_mono unverified free row.overrides r ((tiers_ordered r).0))
resolve_limits-verified false defaults low high plan row r h k l =
    chosen_le (exempt_of row) _ _ low high r k l
      (with_overrides_mono unverified defaults row.overrides r h)
