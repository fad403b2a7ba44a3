-- ===== src/Store/Status.antt =====
-- The values of `coaching_sessions.status` and `.payment_status`: the constants of
-- backend/internal/coaching/service.go and backend/internal/payments/payments.go, closed by the
-- check constraints of backend/migrations.
use dating_coach.Base.{ℕ, ◌≡◌, arith, Bool, true, ◌||◌, ◌==◌}

pub data Status : Type 0 where
  pending_payment pending scheduled declined expired completed cancelled no_show : Status

pub data PaymentStatus : Type 0 where
  not_required awaiting authorized paid releasing released expiring failed refund_due refunded :
      PaymentStatus

abbrev status_code : Status → ℕ
status_code pending_payment = 0
status_code pending = 1
status_code scheduled = 2
status_code declined = 3
status_code expired = 4
status_code completed = 5
status_code cancelled = 6
status_code no_show = 7

abbrev payment_code : PaymentStatus → ℕ
payment_code not_required = 0
payment_code awaiting = 1
payment_code authorized = 2
payment_code paid = 3
payment_code releasing = 4
payment_code released = 5
payment_code expiring = 6
payment_code failed = 7
payment_code refund_due = 8
payment_code refunded = 9

-- Equality of the stored texts.
abbrev pub status_eq : Status → Status → Bool
status_eq a b = status_code a == status_code b

abbrev pub payment_eq : PaymentStatus → PaymentStatus → Bool
payment_eq a b = payment_code a == payment_code b

pub status_eq→eq : (a b : Status) → status_eq a b ≡ true → a ≡ b
status_eq→eq a b h = ground arith

pub status_eq_refl : (a : Status) → status_eq a a ≡ true
status_eq_refl a = ground arith

pub payment_eq→eq : (a b : PaymentStatus) → payment_eq a b ≡ true → a ≡ b
payment_eq→eq a b h = ground arith

-- The statuses that hold a slot: the predicate of the exclusion constraint and of ListBookedSlots.
abbrev pub holds_slot : Status → Bool
holds_slot s = status_eq s pending_payment || status_eq s pending || status_eq s scheduled
