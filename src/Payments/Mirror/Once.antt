-- ===== src/Payments/Mirror/Once.antt =====
-- An account pays once: a live subscription that was mirrored is the account's, or was canceled.
use setlyst_api.Payments.Mirror.{Session, accept_terms, map_option, true, false, apply_redemption}
use setlyst_api.Payments.{Gateway, Timestamp, String, Option, GatewaySubscription, ok, ℕ}
use setlyst_api.Prelude.{
  refl, ◌≡◌, text_eq, option_eq, nat_eq, none, some, Timestamp, String, Option, map_option, true,
  ◌⊎◌, false, ℕ,
}
use setlyst_api.Billing.Subscription.{Subscription}
use setlyst_api.Billing.Payment.Ending.{is_charging}
use setlyst_api.ApiError.{ok}
use setlyst_api.Payments.Mirror.Calls.{IsUndone}

pub apply_redemption-account :
    (now : Timestamp) (id : Option ℕ) (s : Session)
    → ((apply_redemption now id s).account ≡ s.account)
      × ((apply_redemption now id s).calls ≡ s.calls)
apply_redemption-account now none s = (refl, refl)
apply_redemption-account now (some id) s = (refl, refl)

pub accept_terms-calls :
    (now : Timestamp) (id : String) (version : Option String) (s : Session)
    → (accept_terms now id version s).calls ≡ s.calls
accept_terms-calls now id none s = refl
accept_terms-calls now id (some version) s = refl

-- The account is charged for the subscription, or the provider was made to cancel it and to give
-- its latest payment back.
abbrev pub IsPaidOnce : Gateway → GatewaySubscription → Session → Type 0
IsPaidOnce g d s = (is_charging d.id s.account.subscription ≡ true) ⊎ IsUndone g d s.calls
