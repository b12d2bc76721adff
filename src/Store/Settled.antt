-- ===== src/Store/Settled.antt =====
-- The life of a payment request in its table: whatever the repository writes, a request that was
-- answered, or whose time is up, is never open again.
use mathlib.Core.Path.{ap₂, subst}
use monopoly_bank.Prelude.{
  ◌≤◌, ℕ, ◌≡◌, refl, ◌∙◌, inl, inr, Bool, true, false, ◌&&◌, ◌||◌, List, [], ◌∷◌, ◌++◌, map, arith,
  ◌==◌, if◌then◌else◌, Bool-cases, any,
}
use monopoly_bank.Types.{GameId, RecordId}
use monopoly_bank.Outcome.{internal_error, ok, ok-injective, throw_if-passed}
use monopoly_bank.Store.Tables.{PaymentRequestState, PaymentRequest}
use monopoly_bank.Store.Pending.{
  is_open_request, create_payment_request, expire_payment, expire_payments, accept_payment,
  resolve_payment, resolve_payments,
}

-- One write of the repository to the table.
pub data RequestStep : List PaymentRequest → List PaymentRequest → Type 0 where
  created :
      (request : PaymentRequest) (rows written : List PaymentRequest)
      → create_payment_request request rows ≡ ok written
      → RequestStep rows written
  overdue :
      (now : ℕ) (game_id : GameId) (rows : List PaymentRequest)
      → RequestStep rows (expire_payments now game_id rows)
  settled :
      (now : ℕ) (request_id transaction_id : RecordId) (rows : List PaymentRequest)
      → RequestStep rows (map (accept_payment now request_id transaction_id) rows)
  resolved :
      (request_id : RecordId) (state : PaymentRequestState) (rows : List PaymentRequest)
      → RequestStep rows (resolve_payments request_id state rows)

pub data RequestRun (rows : List PaymentRequest) : List PaymentRequest → Type 0 where
  unwritten : RequestRun rows rows
  then_step :
      {mid written : List PaymentRequest}
      → RequestRun rows mid
      → RequestStep mid written
      → RequestRun rows written

abbrev has_id : RecordId → PaymentRequest → Bool
has_id id row = row.id == id

abbrev pub opens : ℕ → RecordId → PaymentRequest → Bool
opens now id row = row.id == id && is_open_request now row

-- The id is taken, and no request with it is open at that time.
abbrev pub IsClosed : ℕ → RecordId → List PaymentRequest → Type 0
IsClosed now id rows = (any (has_id id) rows ≡ true) × (any (opens now id) rows ≡ false)

-- A write that keeps the id of a row and never opens it.
abbrev Settles : (PaymentRequest → PaymentRequest) → Type 0
Settles f =
    (now : ℕ) (id : RecordId) (row : PaymentRequest)
    → (has_id id (f row) ≡ has_id id row)
      × (opens now id row ≡ false → opens now id (f row) ≡ false)

or-false : (a b : Bool) → a || b ≡ false → (a ≡ false) × (b ≡ false)
or-false false b h = (refl, h)
or-false true b h = cc

or-right : (a b : Bool) → a || b ≡ true → a ≡ false → b ≡ true
or-right true b h e = cc
or-right false b h e = h

or-intro : (a b : Bool) → b ≡ true → a || b ≡ true
or-intro true b h = refl
or-intro false b h = h

any-has_id :
    (f : PaymentRequest → PaymentRequest) (now : ℕ) (id : RecordId) (rows : List PaymentRequest)
    → Settles f
    → any (has_id id) (map f rows) ≡ any (has_id id) rows
any-has_id f now id [] keeps = refl
any-has_id f now id (row ∷ rows) keeps =
    ap₂ (λ a b. a || b) (keeps now id row).0 (any-has_id f now id rows keeps)

any-opens :
    (f : PaymentRequest → PaymentRequest) (now : ℕ) (id : RecordId) (rows : List PaymentRequest)
    → Settles f
    → any (opens now id) rows ≡ false
    → any (opens now id) (map f rows) ≡ false
any-opens f now id [] keeps h = refl
any-opens f now id (row ∷ rows) keeps h =
    let (here, later) = or-false (opens now id row) (any (opens now id) rows) h in
    rw ((keeps now id row).1 here, any-opens f now id rows keeps later) refl

expire_payment-Settles : (now : ℕ) (game_id : GameId) → Settles (expire_payment now game_id)
expire_payment-Settles now game_id time id row = ground arith

accept_payment-Settles :
    (now : ℕ) (request_id transaction_id : RecordId)
    → Settles (accept_payment now request_id transaction_id)
accept_payment-Settles now request_id transaction_id time id row = ground arith

resolve_payment-Settles :
    (request_id : RecordId) (state : PaymentRequestState)
    → Settles (resolve_payment request_id state)
resolve_payment-Settles request_id state time id row = ground arith

or-false-right : (b : Bool) → b || false ≡ false || b
or-false-right true = refl
or-false-right false = refl

or_assoc : (a b c d : Bool) → b ≡ c || d → a || b ≡ (a || c) || d
or_assoc true b c d h = refl
or_assoc false b c d h = h

any-append :
    (p : PaymentRequest → Bool) (rows : List PaymentRequest) (request : PaymentRequest)
    → any p (rows ++ request ∷ []) ≡ any p rows || p request
any-append p [] request = or-false-right (p request)
any-append p (row ∷ rows) request =
    or_assoc (p row) _ (any p rows) (p request) (any-append p rows request)

other-id :
    (taken free : RecordId) (rows : List PaymentRequest)
    → any (has_id taken) rows ≡ true
    → any (has_id free) rows ≡ false
    → (free == taken) ≡ false
other-id taken free rows h none_has = elim (Bool-cases (free == taken)) [
  | inl same ↦ let e : free ≡ taken = ground arith in cc
  | inr other ↦ other
]

inserted-IsClosed :
    (now : ℕ) (id : RecordId) (request : PaymentRequest) (rows written : List PaymentRequest)
    (taken : Bool)
    → any (has_id request.id) rows ≡ taken
    → (if taken then rows else rows ++ request ∷ []) ≡ written
    → IsClosed now id rows
    → IsClosed now id written
inserted-IsClosed now id request rows written true taken h closed = subst (IsClosed now id) h closed
inserted-IsClosed now id request rows written false free h (has, answered) =
    let other = other-id id request.id rows has free in
    subst (IsClosed now id) h (
      any-append (has_id id) rows request ∙ rw has refl,
      any-append (opens now id) rows request ∙ rw (answered, other) refl,
    )

created-IsClosed :
    (now : ℕ) (id : RecordId) (request : PaymentRequest) (rows written : List PaymentRequest)
    → create_payment_request request rows ≡ ok written
    → IsClosed now id rows
    → IsClosed now id written
unfolding create_payment_request
created-IsClosed now id request rows written h closed =
    inserted-IsClosed now id request rows written (any (has_id request.id) rows) refl
      (ok-injective (throw_if-passed _ internal_error _ h).1) closed

RequestStep-IsClosed :
    (time : ℕ) (id : RecordId) {rows written : List PaymentRequest}
    → RequestStep rows written
    → IsClosed time id rows
    → IsClosed time id written
unfolding expire_payments resolve_payments
RequestStep-IsClosed time id (created request rows written h) closed =
    created-IsClosed time id request rows written h closed
RequestStep-IsClosed time id (overdue now game_id rows) (taken, answered) =
    let keeps = expire_payment-Settles now game_id in
    (any-has_id _ time id rows keeps ∙ taken, any-opens _ time id rows keeps answered)
RequestStep-IsClosed time id (settled now request_id transaction_id rows) (taken, answered) =
    let keeps = accept_payment-Settles now request_id transaction_id in
    (any-has_id _ time id rows keeps ∙ taken, any-opens _ time id rows keeps answered)
RequestStep-IsClosed time id (resolved request_id state rows) (taken, answered) =
    let keeps = resolve_payment-Settles request_id state in
    (any-has_id _ time id rows keeps ∙ taken, any-opens _ time id rows keeps answered)

pub RequestRun-IsClosed :
    (time : ℕ) (id : RecordId) {rows written : List PaymentRequest}
    → RequestRun rows written
    → IsClosed time id rows
    → IsClosed time id written
RequestRun-IsClosed time id unwritten closed = closed
RequestRun-IsClosed time id (then_step run step) closed =
    RequestStep-IsClosed time id step (RequestRun-IsClosed time id run closed)

shut_later :
    (now later : ℕ) (id : RecordId) (row : PaymentRequest)
    → now ≤ later
    → opens now id row ≡ false
    → opens later id row ≡ false
shut_later now later id row h shut = ground arith

pub unopened :
    (now later : ℕ) (id : RecordId) (rows : List PaymentRequest)
    → now ≤ later
    → any (opens now id) rows ≡ false
    → any (opens later id) rows ≡ false
unopened now later id [] order h = refl
unopened now later id (row ∷ rows) order h =
    let (here, rest) = or-false (opens now id row) (any (opens now id) rows) h in
    rw (shut_later now later id row order here, unopened now later id rows order rest) refl

-- An accepted row is closed, and one whose time is up by then is not open either.
accept_payment-shut :
    (now : ℕ) (id transaction_id : RecordId) (row : PaymentRequest)
    → opens now id (accept_payment now id transaction_id row) ≡ false
accept_payment-shut now id transaction_id row = ground arith

all-shut :
    (now : ℕ) (id transaction_id : RecordId) (rows : List PaymentRequest)
    → any (opens now id) (map (accept_payment now id transaction_id) rows) ≡ false
all-shut now id transaction_id [] = refl
all-shut now id transaction_id (row ∷ rows) =
    rw (accept_payment-shut now id transaction_id row, all-shut now id transaction_id rows) refl

opens-has_id :
    (now : ℕ) (id : RecordId) (row : PaymentRequest)
    → opens now id row ≡ true
    → has_id id row ≡ true
opens-has_id now id row h = ground arith

any-opens-has_id :
    (now : ℕ) (id : RecordId) (rows : List PaymentRequest)
    → any (opens now id) rows ≡ true
    → any (has_id id) rows ≡ true
any-opens-has_id now id [] h = cc
any-opens-has_id now id (row ∷ rows) h = elim (Bool-cases (opens now id row)) [
  | inl here ↦ rw (opens-has_id now id row here) refl
  | inr shut ↦ or-intro _ _ (any-opens-has_id now id rows (or-right _ _ h shut))
]

-- Settling a request that was open closes it from then on.
pub accepted-IsClosed :
    (now later : ℕ) (id transaction_id : RecordId) (rows : List PaymentRequest)
    → any (opens now id) rows ≡ true
    → IsClosed later id (map (accept_payment later id transaction_id) rows)
accepted-IsClosed now later id transaction_id rows h =
    let keeps = accept_payment-Settles later id transaction_id in
    (
      any-has_id _ later id rows keeps ∙ any-opens-has_id now id rows h,
      all-shut later id transaction_id rows,
    )
