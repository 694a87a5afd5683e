-- ===== src/Payments/Mirror/Deliveries.antt =====
-- A webhook event is applied once, however often the provider delivers it.
use setlyst_api.Payments.Mirror.{
  ◌>>=◌, sync_subscription, Session, mirror_in, link_customer, is_applied, MirrorOptions,
  PaymentChange, true, is_none, commit, sync_found, snapshot_of, finish_mirror, not, any,
  accept_terms, apply_redemption, receive, on_account, after_apply,
}
use mathlib.Core.Path.{subst}
use setlyst_api.Payments.Mirror.Keeps.{
  IsKeeping, >>=-IsKeeping, on_account-IsKeeping, after_apply-IsKeeping,
}
use setlyst_api.Prelude.{
  true, false, refl, ◌≡◌, ◌∙◌, sym, inl, inr, text_eq, option_eq, nat_eq, none, some, String,
  Timestamp, Bool, Bool-cases, Option, is_none, true, ◌&&◌, Option-cases, not, arith, ℕ, any, ◌==◌,
  ◌∷◌, ==-refl,
}
use setlyst_api.Payments.{
  answered, failed, String, Gateway, Timestamp, Bool, GatewaySubscription, Option, Answer,
  PaymentSnapshot, ℕ,
}
use setlyst_api.ApiError.{ok, err, Result}
use setlyst_api.Billing.Payment.{PaymentSnapshot, PaymentChange, apply_payment_subscription}

finish_mirror-IsKeeping :
    (now : Timestamp) (d : GatewaySubscription) (options : MirrorOptions) (x : Option PaymentChange)
    → IsKeeping (finish_mirror now d options x)
finish_mirror-IsKeeping now d options x s = noted options.redemption_id options.terms_version
  where
    noted :
        (r : Option ℕ) (v : Option String)
        → (accept_terms now d.id v (apply_redemption now r s)).received ≡ s.received
    noted none none = refl
    noted none (some v) = refl
    noted (some r) none = refl
    noted (some r) (some v) = refl

link_customer-received : (id : String) (s : Session) → (link_customer id s).received ≡ s.received
link_customer-received id s =
    elim (Bool-cases (is_none s.customer && not (any (λ c. c == id) s.others))) [
      | inl free ↦ rw free refl
      | inr taken ↦ rw taken refl
    ]

mirror_in_again :
    (g : Gateway) (now : Timestamp) (d : GatewaySubscription) (options : MirrorOptions)
    (s : Session)
    → is_applied options.event s ≡ true
    → mirror_in g now d options s ≡ (ok none, s)
unfolding mirror_in
mirror_in_again g now d options s again = elim (Option-cases (snapshot_of d)) [
  | inl nothing ↦ rw nothing refl
  | inr (p, shown) ↦ rw (shown, again) refl
]

-- Afterwards the event is among those that were applied.
mirror_in-is_applied :
    (g : Gateway) (now : Timestamp) (d : GatewaySubscription) (options : MirrorOptions)
    (p : PaymentSnapshot) (event : String) (s : Session)
    → snapshot_of d ≡ some p
    → options.event ≡ some event
    → is_applied (some event) (mirror_in g now d options s).1 ≡ true
unfolding mirror_in is_applied
mirror_in-is_applied g now d options p event s shown named =
    elim (Bool-cases (any (λ e. e == event) s.received)) [
      | inl again ↦ rw (shown, named, again) again
      | inr first ↦
          let start = link_customer d.customer_id (receive (some event) s) in
          let kept : (mirror_in g now d options s).1.received ≡ event ∷ s.received =
            rw (shown, named, first)
              (>>=-IsKeeping (on_account (apply_payment_subscription now p))
                  (λ x. after_apply g now d p x >>= finish_mirror now d options)
                  (on_account-IsKeeping (apply_payment_subscription now p))
                  (λ x.
                    >>=-IsKeeping (after_apply g now d p x) (finish_mirror now d options)
                      (after_apply-IsKeeping g now d p x) (finish_mirror-IsKeeping now d options))
                  start
                ∙ link_customer-received d.customer_id (receive (some event) s)) in
          subst (λ es. any (λ e. e == event) es ≡ true) (sym kept) (rw (==-refl event) refl)
    ]

commit-ok :
    (s t : Session) (r : Result (Option PaymentChange) × Session)
    → commit s r ≡ (ok true, t)
    → r.1 ≡ t
commit-ok s t (ok o, u) h = ground (arith, h)
commit-ok s t (err e, u) h = absurd (ground (arith, h))

delivered :
    (g : Gateway) (now : Timestamp) (is_owner : Bool) (options : MirrorOptions)
    (a : Answer GatewaySubscription) (s : Session)
    → is_applied options.event s ≡ true
    → (sync_found g now is_owner options a s).1 ≡ s
delivered g now is_owner options (failed e) s again = refl
delivered g now false options (answered d) s again = refl
delivered g now true options (answered d) s again =
    rw (mirror_in_again g now d options s again) refl

-- Once an event of a subscription with a plan was applied, delivering it again, of whatever
-- subscription, at any time and whatever the provider then answers, leaves everything as it is: the
-- account, the ledger, and what the provider was made to do.
pub sync_subscription_again :
    (g h : Gateway) (now later : Timestamp) (is_owner : Bool) (id other : String)
    (options others : MirrorOptions) (d : GatewaySubscription) (p : PaymentSnapshot)
    (event : String) (s t : Session)
    → g.get_subscription id ≡ answered d
    → snapshot_of d ≡ some p
    → options.event ≡ some event
    → others.event ≡ some event
    → sync_subscription g now true id options s ≡ (ok true, t)
    → (sync_subscription h later is_owner other others t).1 ≡ t
unfolding sync_subscription
sync_subscription_again g h now later is_owner id other options others d p event s t found shown
      named again run =
    let left = commit-ok s t (mirror_in g now d options s) (rw found at run) in
    let applied =
      subst (λ u. is_applied (some event) u ≡ true) left
        (mirror_in-is_applied g now d options p event s shown named) in
    delivered h later is_owner others (h.get_subscription other) t
      (subst (λ e. is_applied e t ≡ true) (sym again) applied)
