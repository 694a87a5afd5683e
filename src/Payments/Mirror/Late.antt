-- ===== src/Payments/Mirror/Late.antt =====
-- A subscription that is over when it is mirrored.
use setlyst_api.Payments.Mirror.{
  ◌>>=◌, String, Timestamp, mirror_in, Option, Session, link_customer, Books, Gateway,
  GatewaySubscription, receive, MirrorOptions, Call, is_none, finish_mirror, not, accept_terms, any,
  snapshot_of, false, apply_redemption, true, is_applied, stored, after_apply,
}
use mathlib.Core.Path.{subst}
use setlyst_api.Prelude.{
  refl, ◌≡◌, ◌∙◌, sym, inl, inr, text_eq, option_eq, nat_eq, none, some, Option, Timestamp, String,
  Bool-cases, List, is_none, ◌&&◌, ℕ, not, any, ◌==◌, false, true,
}
use setlyst_api.Billing.Payment.{
  unchanged, PaymentSnapshot, PaymentChange, mirrors, apply_payment_subscription, Applied,
}
use setlyst_api.Billing.Subscription.{is_live, SubscriptionStatus, Subscription}
use setlyst_api.Payments.{Gateway, GatewaySubscription, List, ℕ, ok}
use setlyst_api.Finance.{Books}
use setlyst_api.Billing.Account.{plan_exists, Account}
use setlyst_api.ApiError.{ok, Result}
use setlyst_api.Billing.Payment.Mirror.{apply_payment_subscription_over}

-- What the provider and the ledger were made to do.
abbrev pub done_outside : Session → Books × List Call
done_outside s = (s.books, s.calls)

receive_keeps :
    (event : Option String) (s : Session)
    → ((receive event s).account ≡ s.account) × (done_outside (receive event s) ≡ done_outside s)
receive_keeps none s = (refl, refl)
receive_keeps (some id) s = (refl, refl)

link_customer_keeps :
    (id : String) (s : Session)
    → ((link_customer id s).account ≡ s.account)
      × (done_outside (link_customer id s) ≡ done_outside s)
link_customer_keeps id s =
    elim (Bool-cases (is_none s.customer && not (any (λ c. c == id) s.others))) [
      | inl free ↦ rw free (refl, refl)
      | inr taken ↦ rw taken (refl, refl)
    ]

finish_mirror-done_outside :
    (now : Timestamp) (d : GatewaySubscription) (options : MirrorOptions) (x : Option PaymentChange)
    (s : Session)
    → done_outside (finish_mirror now d options x s).1 ≡ done_outside s
finish_mirror-done_outside now d options x s = noted options.redemption_id options.terms_version
  where
    noted :
        (r : Option ℕ) (v : Option String)
        → done_outside (accept_terms now d.id v (apply_redemption now r s)) ≡ done_outside s
    noted none none = refl
    noted none (some v) = refl
    noted (some r) none = refl
    noted (some r) (some v) = refl

unchanged-done_outside :
    (g : Gateway) (now : Timestamp) (d : GatewaySubscription) (options : MirrorOptions)
    (p : PaymentSnapshot) (s : Session) (r : Result (Applied × Account))
    → r ≡ ok (unchanged, s.account)
    → done_outside
        (((λ _. stored s r) >>= λ x. after_apply g now d p x >>= finish_mirror now d options) s).1
      ≡ done_outside s
unchanged-done_outside g now d options p s r e =
    subst
      (λ r.
        done_outside
          (((λ _. stored s r) >>= λ x. after_apply g now d p x >>= finish_mirror now d options) s).1
        ≡ done_outside s)
      (sym e) (finish_mirror-done_outside now d options none (record s { account = s.account }))

-- A subscription that is over when it is mirrored, and is not the account's current one, makes the
-- provider and the ledger do nothing: nothing of it is refunded.
pub mirror_in_over :
    (g : Gateway) (now : Timestamp) (d : GatewaySubscription) (options : MirrorOptions)
    (p : PaymentSnapshot) (status : SubscriptionStatus) (s : Session) (c : Subscription)
    → snapshot_of d ≡ some p
    → p.status ≡ some status
    → is_live status ≡ false
    → plan_exists p.plan_code s.account.plans ≡ true
    → s.account.subscription ≡ some c
    → mirrors p.external_ref c ≡ false
    → done_outside (mirror_in g now d options s).1 ≡ done_outside s
unfolding mirror_in
mirror_in_over g now d options p status s c shown e over exists at other =
    elim (Bool-cases (is_applied options.event s)) [
      | inl again ↦ rw (shown, again) refl
      | inr first ↦
          let received = receive options.event s in
          let start = link_customer d.customer_id received in
          let (account_r, outside_r) = receive_keeps options.event s in
          let (account_l, outside_l) = link_customer_keeps d.customer_id received in
          let same = account_l ∙ account_r in
          let kept =
            subst (λ a. apply_payment_subscription now p a ≡ ok (unchanged, a)) (sym same)
              (apply_payment_subscription_over p status now s.account c e over exists at other) in
          rw (shown, first)
            (unchanged-done_outside g now d options p start
                (apply_payment_subscription now p start.account) kept
              ∙ outside_l
              ∙ outside_r)
    ]
