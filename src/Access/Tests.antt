-- ===== src/Access/Tests.antt =====
-- The entitlement theorems at concrete plans.
use setlyst_api.Prelude.{◌≡◌, ◌⊎◌, none, some, [], ◌∷◌, true, false, ◌&&◌, All, In}
use setlyst_api.Access.Entitlements.{Plan, Entitlements, pdf_export, cheapest_plan_with, is_cheaper}
use setlyst_api.Access.Entitlements.Laws.{cheapest_plan_with_least}

abbrev solo : Plan
solo = record {
  code = "solo";
  price_monthly_cents = 990;
  sort_order = 1;
  is_public = true;
  has = λ _. true;
}

abbrev pro : Plan
pro = record {
  code = "pro";
  price_monthly_cents = 1990;
  sort_order = 2;
  is_public = true;
  has = λ _. true;
}

abbrev subscriber : Entitlements
subscriber = record { enforced = true; is_staff = false; email_verified = true; plan = some pro }

cheapest_plan_with_least_example :
    ((cheapest_plan_with (pro ∷ solo ∷ []) pdf_export ≡ none)
      × All (λ q. (q.is_public && q.has pdf_export) ≡ false) (pro ∷ solo ∷ []))
    ⊎ ((p : Plan) × (cheapest_plan_with (pro ∷ solo ∷ []) pdf_export ≡ some p)
        × ((p.is_public && p.has pdf_export) ≡ true)
        × In p (pro ∷ solo ∷ [])
        × All
            (λ q. ((q.is_public && q.has pdf_export) ≡ false) ⊎ (is_cheaper q p ≡ false))
            (pro ∷ solo ∷ []))
cheapest_plan_with_least_example = cheapest_plan_with_least (pro ∷ solo ∷ []) pdf_export
