-- ===== src/Notify/Backoff.antt =====
-- retryDelay of backend/internal/notify/outbox.go.
use dating_coach.Base.{
  ℕ, zero, suc, ◌*◌, ◌^◌, ◌≤◌, ◌<◌, ◌≡◌, sym, ap, ◌∙◌, ltb→le, arith, ltb, leb, if◌then◌else◌, inl,
  inr, Bool-cases,
}
use dating_coach.Store.Rows.{Time, hour}

abbrev pub second : Time
second = 1000000000

abbrev pub max_attempts : ℕ
max_attempts = 32

abbrev pub min_retry_delay : Time
min_retry_delay = 10 * second

abbrev pub max_retry_delay : Time
max_retry_delay = hour

-- The loop: at most `failed` doublings, each from below the maximum.
unfoldable pub doubled : ℕ → Time → Time
doubled zero d = d
doubled (suc n) d = let rest = doubled n (d * 2) in if ltb d max_retry_delay then rest else d

abbrev pub min_of : ℕ → ℕ → ℕ
min_of a b = if leb a b then a else b

unfoldable pub retry_delay : ℕ → Time
retry_delay failed = min_of (doubled failed min_retry_delay) max_retry_delay

doubled_power : (n d : ℕ) → d * 2 ^ suc n ≡ d * 2 * 2 ^ n
doubled_power n d = grind arith

power_grows : (n d : ℕ) → d ≤ d * 2 ^ n
power_grows zero d = omega arith
power_grows (suc n) d = let h = power_grows n (d * 2) in rw (doubled_power n d) (omega arith)

min_of_large : (a b : ℕ) → b ≤ a → min_of a b ≡ b
min_of_large a b h = ground arith

doubled_min : (n d : ℕ) → min_of (doubled n d) max_retry_delay ≡ min_of (d * 2 ^ n) max_retry_delay
unfolding doubled
doubled_min zero d = let e : d ≡ d * 2 ^ 0 = omega arith in ap (λ x. min_of x max_retry_delay) e
doubled_min (suc n) d = elim (Bool-cases (ltb d max_retry_delay)) [
  | inl l ↦
      rw l (doubled_min n (d * 2) ∙ ap (λ x. min_of x max_retry_delay) (sym (doubled_power n d)))
  | inr l ↦
      let h = power_grows (suc n) d in
      let m : max_retry_delay ≤ d = ltb→le d max_retry_delay l in
      rw l (
        min_of_large d max_retry_delay m
        ∙ sym (min_of_large (d * 2 ^ suc n) max_retry_delay (omega arith)))
]

positive_min : (a : ℕ) → min_retry_delay ≤ a → 0 < min_of a max_retry_delay
positive_min a h = ground arith

-- After any number of failed attempts the loop gives the doubled minimum with the maximum as its cap:
-- ten seconds times two to the number of failures, at most one hour.
pub retry_delay_lem :
    (failed : ℕ) → retry_delay failed ≡ min_of (min_retry_delay * 2 ^ failed) max_retry_delay
unfolding retry_delay
retry_delay_lem failed = doubled_min failed min_retry_delay

pub delay_is_positive : (n : ℕ) → 0 < retry_delay n
delay_is_positive n =
    rw (retry_delay_lem n) (positive_min (min_retry_delay * 2 ^ n) (power_grows n min_retry_delay))
