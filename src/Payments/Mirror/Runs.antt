-- ===== src/Payments/Mirror/Runs.antt =====
-- What a handler that succeeds did on its way.
use setlyst_api.Payments.{Answer, answered, failed, GatewaySubscription, Option, some, is_missing}
use setlyst_api.Prelude.{inl, inr, refl, ◌≡◌, ap, arith, Option, some, Bool-cases}
use setlyst_api.ApiError.{Result, ok, err, Tx}
use setlyst_api.Payments.Mirror.{
  ◌>>=◌, Session, Handler, on_account, stored, done, answer, current_of,
}
use setlyst_api.Billing.Account.{Account}

bind_run :
    {A B : Type 0} (r : Result A) (u t : Session) (f : A → Handler B) {y : B}
    → (elim r [ ok a ↦ f a u | err e ↦ (err e, u) ]) ≡ (ok y, t)
    → (x : A) × (r ≡ ok x) × (f x u ≡ (ok y, t))
bind_run (ok x) u t f h = (x, refl, h)
bind_run (err e) u t f h = absurd (ground arith)

-- The steps of a handler that succeeds.
pub >>=-ok :
    {A B : Type 0} (m : Handler A) (f : A → Handler B) (s t : Session) {y : B}
    → (m >>= f) s ≡ (ok y, t)
    → (x : A) × (u : Session) × (m s ≡ (ok x, u)) × (f x u ≡ (ok y, t))
>>=-ok m f s t h =
    let (x, e, rest) = bind_run (m s).0 (m s).1 t f h in
    (x, (m s).1, ap (λ r. (r, (m s).1)) e, rest)

stored-ok :
    {A : Type 0} (r : Result (A × Account)) (s t : Session) {x : A}
    → stored s r ≡ (ok x, t)
    → (b : Account) × (r ≡ ok (x, b)) × (t ≡ record s { account = b })
stored-ok (ok (x, b)) s t h = (b, ground (arith, h), ground (arith, h))
stored-ok (err e) s t h = absurd (ground (arith, h))

-- What a part of the transaction that goes through leaves.
pub on_account-ok :
    {A : Type 0} (m : Tx Account A) (s t : Session) {x : A}
    → on_account m s ≡ (ok x, t)
    → (b : Account) × (m s.account ≡ ok (x, b)) × (t ≡ record s { account = b })
on_account-ok m s t h = stored-ok (m s.account) s t h

pub done-ok : {A : Type 0} (x y : A) (s t : Session) → done x s ≡ (ok y, t) → (x ≡ y) × (s ≡ t)
done-ok x y s t h = (ground (arith, h), ground (arith, h))

pub answer-ok : {A : Type 0} (a : Answer A) (x : A) (s t : Session) → answer a s ≡ (ok x, t) → s ≡ t
answer-ok (answered y) x s t h = (done-ok y x s t h).1
answer-ok (failed e) x s t h = absurd (ground (arith, h))

pub current_of-ok :
    (a : Answer GatewaySubscription) (x : Option GatewaySubscription) (s t : Session)
    → current_of a s ≡ (ok x, t)
    → s ≡ t
current_of-ok (answered y) x s t h = (done-ok (some y) x s t h).1
current_of-ok (failed e) x s t h = elim (Bool-cases (is_missing e)) [
  | inl missing ↦ ground (arith, missing, h)
  | inr other ↦ absurd (ground (arith, other, h))
]
