-- ===== src/Billing/Withdrawal/Laws.antt =====
-- What a withdrawal refunds.
use setlyst_api.Prelude.{
  refl, ◌+◌, ◌≤◌, ◌<◌, ◌≡◌, Bool, true, false, none, some, List, [], ◌∷◌, arith, leb, filter, All,
  All-map, if-both, Timestamp, days, leb→le, Bool-cases, In, inl, inr, ◌≢◌,
}
use native.Mathlib.Nat.{le_trans}
use setlyst_api.Billing.Subscription.{withdrawal_days}
use setlyst_api.Billing.Withdrawal.{
  GatewayInvoice, Refund, refunds, not_allowed, paid, insert, sort, refund_of, invoices_to_refund,
  withdrawal_deadline, latest_of,
}

-- Each invoice is followed by those that were paid later.
abbrev IsOldestFirst : Timestamp → List GatewayInvoice → Type 0
IsOldestFirst at [] = Unit
IsOldestFirst at (i ∷ is) = All (λ j. paid at i ≤ paid at j) is × IsOldestFirst at is

All-insert :
    (P : GatewayInvoice → Type 0) (at : Timestamp) (i : GatewayInvoice) (is : List GatewayInvoice)
    → P i
    → All P is
    → All P (insert at i is)
All-insert P at i [] h k = (h, tt)
All-insert P at i (j ∷ js) h k =
    if-both (All P) (leb (paid at i) (paid at j)) (i ∷ j ∷ js) (j ∷ insert at i js) (λ _. (h, k))
      (λ _. (k.0, All-insert P at i js h k.1))

insert-IsOldestFirst :
    (at : Timestamp) (i : GatewayInvoice) (is : List GatewayInvoice)
    → IsOldestFirst at is
    → IsOldestFirst at (insert at i is)
insert-IsOldestFirst at i [] h = (tt, tt)
insert-IsOldestFirst at i (j ∷ js) h =
    if-both (IsOldestFirst at) (leb (paid at i) (paid at j)) (i ∷ j ∷ js) (j ∷ insert at i js)
      (λ e.
        let le = leb→le (paid at i) (paid at j) e in
        ((le, All-map (λ k later. le_trans le later) js h.0), h))
      (λ e. (
        All-insert (λ k. paid at j ≤ paid at k) at i js (ground arith) h.0,
        insert-IsOldestFirst at i js h.1,
      ))

sort-IsOldestFirst : (at : Timestamp) (is : List GatewayInvoice) → IsOldestFirst at (sort at is)
sort-IsOldestFirst at [] = tt
sort-IsOldestFirst at (i ∷ is) = insert-IsOldestFirst at i (sort at is) (sort-IsOldestFirst at is)

All-passing :
    (p : GatewayInvoice → Bool) (is : List GatewayInvoice) → All (λ i. p i ≡ true) (filter p is)
All-passing p [] = tt
All-passing p (i ∷ is) =
    if-both (All (λ j. p j ≡ true)) (p i) (i ∷ filter p is) (filter p is)
      (λ e. (e, All-passing p is)) (λ _. All-passing p is)

All-sort :
    (P : GatewayInvoice → Type 0) (at : Timestamp) (is : List GatewayInvoice)
    → All P is
    → All P (sort at is)
All-sort P at [] h = tt
All-sort P at (i ∷ is) h = All-insert P at i (sort at is) h.0 (All-sort P at is h.1)

All-kept :
    (P : GatewayInvoice → Type 0) (p : GatewayInvoice → Bool) (is : List GatewayInvoice)
    → All P is
    → All P (filter p is)
All-kept P p [] h = tt
All-kept P p (i ∷ is) h =
    if-both (All P) (p i) (i ∷ filter p is) (filter p is) (λ _. (h.0, All-kept P p is h.1))
      (λ _. All-kept P p is h.1)

latest_of-holds :
    (P : GatewayInvoice → Type 0) (i : GatewayInvoice) (is : List GatewayInvoice)
    → P i
    → All P is
    → P (latest_of i is)
latest_of-holds P i [] h k = h
latest_of-holds P i (j ∷ js) h k = latest_of-holds P j js k.0 k.1

latest_of-latest :
    (at : Timestamp) (i : GatewayInvoice) (is : List GatewayInvoice)
    → IsOldestFirst at (i ∷ is)
    → All (λ j. paid at j ≤ paid at (latest_of i is)) (i ∷ is)
latest_of-latest at i [] h = (omega arith, tt)
latest_of-latest at i (j ∷ js) h =
    let rest = latest_of-latest at j js h.1 in (le_trans h.0.0 rest.0, rest)

All-In : {A : Type 0} (xs ys : List A) → ((x : A) → In x xs → In x ys) → All (λ x. In x ys) xs
All-In [] ys among = tt
All-In (x ∷ xs) ys among = (among x (inl refl), All-In xs ys (λ y y_in. among y (inr y_in)))

All-of-insert :
    (P : GatewayInvoice → Type 0) (at : Timestamp) (i : GatewayInvoice) (is : List GatewayInvoice)
    → All P (insert at i is)
    → P i × All P is
All-of-insert P at i [] h = (h.0, tt)
All-of-insert P at i (j ∷ js) h = elim (Bool-cases (leb (paid at i) (paid at j))) [
  | inl before ↦ let k = rw before at h in (k.0, k.1)
  | inr behind ↦
      let k = rw behind at h in
      let (first, rest) = All-of-insert P at i js k.1 in (first, (k.0, rest))
]

All-of-sort :
    (P : GatewayInvoice → Type 0) (at : Timestamp) (is : List GatewayInvoice)
    → All P (sort at is)
    → All P is
All-of-sort P at [] h = tt
All-of-sort P at (i ∷ is) h =
    let (first, rest) = All-of-insert P at i (sort at is) h in (first, All-of-sort P at is rest)

-- When the right to withdraw from an invoice ends.
abbrev pub until : Timestamp → GatewayInvoice → Timestamp
until at i = paid at i + days withdrawal_days

-- The deadline is seven days after an invoice: the latest one of a yearly plan, which renews with
-- a new right to withdraw, or else the first.
abbrev pub IsDeadline : List GatewayInvoice → Bool → Timestamp → Timestamp → Type 0
IsDeadline invoices yearly at deadline =
    ((i : GatewayInvoice) × In i invoices × (deadline ≡ until at i))
    × (yearly ≡ true → All (λ i. until at i ≤ deadline) invoices)
    × (yearly ≡ false → All (λ i. deadline ≤ until at i) invoices)

-- What the answer says of the invoices and of the deadline.
abbrev pub IsTimely : List GatewayInvoice → Bool → Timestamp → Refund → Type 0
IsTimely invoices yearly at (refunds is) =
    All (λ i. at ≤ until at i) is × All (λ i. In i invoices) is
IsTimely invoices yearly at (not_allowed none) = invoices ≡ []
IsTimely invoices yearly at (not_allowed (some deadline)) =
    (deadline < at) × IsDeadline invoices yearly at deadline

withdrawal_deadline-IsDeadline :
    (invoices : List GatewayInvoice) (first : GatewayInvoice) (rest : List GatewayInvoice)
    (yearly : Bool) (at : Timestamp)
    → IsOldestFirst at (first ∷ rest)
    → All (λ i. In i invoices) (first ∷ rest)
    → ((P : GatewayInvoice → Type 0) → All P (first ∷ rest) → All P invoices)
    → IsDeadline invoices yearly at
        (withdrawal_deadline (paid at first) (paid at (latest_of first rest)) yearly)
unfolding withdrawal_deadline
withdrawal_deadline-IsDeadline invoices first rest true at h members covers =
    let all_earlier = latest_of-latest at first rest h in
    let first_earlier = all_earlier.0 in
    (
      (
        latest_of first rest,
        latest_of-holds (λ i. In i invoices) first rest members.0 members.1,
        omega (arith, first_earlier),
      ),
      λ _. covers _ (All-map (λ j le. omega (arith, le, first_earlier)) (first ∷ rest) all_earlier),
      λ e. absurd (ground (arith, e)),
    )
withdrawal_deadline-IsDeadline invoices first rest false at h members covers = (
  (first, members.0, refl),
  λ e. absurd (ground (arith, e)),
  λ _. covers _ (omega arith, All-map (λ j le. omega (arith, le)) rest h.0),
)

refund_of-IsTimely :
    (invoices is : List GatewayInvoice) (yearly : Bool) (at : Timestamp)
    → IsOldestFirst at is
    → All (λ i. In i invoices) is
    → ((P : GatewayInvoice → Type 0) → All P is → All P invoices)
    → (is ≡ [] → invoices ≡ [])
    → IsTimely invoices yearly at (refund_of is yearly at false)
unfolding refund_of
refund_of-IsTimely invoices [] yearly at h members covers empty = empty refl
refund_of-IsTimely invoices (first ∷ rest) yearly at h members covers empty =
    if-both (IsTimely invoices yearly at) _ _ _
      (λ e.
        let within = leb→le at (paid at first + days withdrawal_days) e in
        ((within, All-map (λ j later. omega arith) rest h.0), members))
      (λ _.
        if-both (IsTimely invoices yearly at) (leb at deadline)
          (refunds (filter recent (first ∷ rest))) (not_allowed (some deadline))
          (λ _. (
            All-map (λ j e. leb→le at (paid at j + days withdrawal_days) e)
                (filter recent (first ∷ rest)) (All-passing recent (first ∷ rest)),
            All-kept (λ i. In i invoices) recent (first ∷ rest) members,
          ))
          (λ e. (
            ground arith,
            withdrawal_deadline-IsDeadline invoices first rest yearly at h members covers,
          )))
  where
    recent : GatewayInvoice → Bool
    recent i = leb at (paid at i + days withdrawal_days)

    deadline : Timestamp
    deadline = withdrawal_deadline (paid at first) (paid at (latest_of first rest)) yearly

insert-nonempty :
    (at : Timestamp) (i : GatewayInvoice) (is : List GatewayInvoice) → insert at i is ≢ []
insert-nonempty at i [] h = ground arith
insert-nonempty at i (j ∷ js) h = elim (Bool-cases (leb (paid at i) (paid at j))) [
  | inl before ↦ ground (arith, before)
  | inr behind ↦ ground (arith, behind)
]

sort-empty : (at : Timestamp) (is : List GatewayInvoice) → sort at is ≡ [] → is ≡ []
sort-empty at [] h = refl
sort-empty at (i ∷ is) h = absurd (insert-nonempty at i (sort at is) h)

-- A buyer who withdraws gets back only given invoices, paid at most seven days ago. One who is
-- refused has no paid invoice, or is past a deadline: seven days after the first invoice or, on a
-- yearly plan, after the latest.
pub invoices_to_refund-IsTimely :
    (invoices : List GatewayInvoice) (yearly : Bool) (at : Timestamp)
    → IsTimely invoices yearly at (invoices_to_refund invoices yearly at false)
unfolding invoices_to_refund
invoices_to_refund-IsTimely invoices yearly at =
    refund_of-IsTimely invoices (sort at invoices) yearly at (sort-IsOldestFirst at invoices)
      (All-sort (λ i. In i invoices) at invoices (All-In invoices invoices (λ i i_in. i_in)))
      (λ P. All-of-sort P at invoices) (sort-empty at invoices)

-- The answer refunds, and only invoices of which `P` holds.
abbrev pub RefundsOnly : (GatewayInvoice → Type 0) → Refund → Type 0
RefundsOnly P (refunds is) = All P is
RefundsOnly P (not_allowed _) = ⊥

refund_of-RefundsOnly :
    (P : GatewayInvoice → Type 0) (is : List GatewayInvoice) (yearly : Bool) (at : Timestamp)
    → All P is
    → RefundsOnly P (refund_of is yearly at true)
unfolding refund_of
refund_of-RefundsOnly P [] yearly at h = tt
refund_of-RefundsOnly P (first ∷ rest) yearly at h =
    if-both (RefundsOnly P) (leb at (paid at first + days withdrawal_days)) (refunds (first ∷ rest))
      _ (λ _. h)
      (λ _.
        if-both (RefundsOnly P)
          (leb at (withdrawal_deadline (paid at first) (paid at (latest_of first rest)) yearly))
          (refunds (filter (λ i. leb at (paid at i + days withdrawal_days)) (first ∷ rest)))
          (refunds (latest_of first rest ∷ []))
          (λ _. All-kept P (λ i. leb at (paid at i + days withdrawal_days)) (first ∷ rest) h)
          (λ _. (latest_of-holds P first rest h.0 h.1, tt)))

-- Staff are never refused, and what they refund is among the given invoices: whatever holds of
-- all of those holds of it.
pub invoices_to_refund-RefundsOnly :
    (P : GatewayInvoice → Type 0) (invoices : List GatewayInvoice) (yearly : Bool) (at : Timestamp)
    → All P invoices
    → RefundsOnly P (invoices_to_refund invoices yearly at true)
unfolding invoices_to_refund
invoices_to_refund-RefundsOnly P invoices yearly at h =
    refund_of-RefundsOnly P (sort at invoices) yearly at (All-sort P at invoices h)
