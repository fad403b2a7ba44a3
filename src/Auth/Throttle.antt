-- ===== src/Auth/Throttle.antt =====
-- How many requests a rate limiter allows (RateLimiter.Allow of backend/internal/auth/ratelimit.go).
use dating_coach.Base.{
  ap, &&_split, ◌∙◌, ◌-◌, ℕ, suc, ◌+◌, ◌*◌, ◌/◌, ◌≤◌, ◌<◌, Bool, true, false, ◌&&◌, ◌≡◌, refl, sym,
  subst, arith, Option, none, some, List, [], ◌∷◌, String, text_eq, eq_iff, ◌==◌, ==→eq, Bool-cases,
  inl, inr, if◌then◌else◌,
}
use native.Mathlib.Nat.{mul-div-le, lt-mul-div-succ}
use dating_coach.Store.Rows.{Time}
use dating_coach.Auth.Gate.{
  Bucket, Buckets, Limiter, Hit, incremented, expiring, answered, bucket_of, allow, has_passed,
}

abbrev pub in_window : Limiter → String → ℕ → Hit → Bool
in_window l key i h = text_eq key h.key && i == h.now / l.window

abbrev counts : Option Bool → Bool
counts none = false
counts (some b) = b

-- The requests of one client in one window that are allowed.
abbrev pub allowed : Limiter → String → ℕ → List Hit → Buckets → ℕ
allowed l key i [] buckets = 0
allowed l key i (h ∷ hs) buckets =
    let rest = allowed l key i hs (allow l h buckets).1 in
    if in_window l key i h && counts (allow l h buckets).0 then suc rest else rest

-- A key of this window holds until the window ends.
abbrev HoldsUntil : Limiter → ℕ → Option Time → Type 0
HoldsUntil l i none = Unit
HoldsUntil l i (some t) = l.window * (i + 1) ≤ t

abbrev Holds : Limiter → ℕ → Option Bucket → Type 0
Holds l i none = Unit
Holds l i (some b) = HoldsUntil l i b.expires_at

abbrev spent : Option Bucket → ℕ
spent none = 0
spent (some b) = b.count

end_of_window : (w n i : ℕ) → 0 < w → (i == n / w) ≡ true → (w * i ≤ n) × (n < w * (i + 1))
end_of_window w n i v e =
    let d = ==→eq i (n / w) e in
    subst (λ j. (w * j ≤ n) × (n < w * (j + 1))) (sym d) (mul-div-le n w, lt-mul-div-succ n v)

not_passed :
    (l : Limiter) (i now : ℕ) (o : Option Time)
    → HoldsUntil l i o
    → now < l.window * (i + 1)
    → has_passed now o ≡ false
not_passed l i now none k m = refl
not_passed l i now (some t) k m = ground (arith, k, m)

expiring-Holds :
    (l : Limiter) (h : Hit) (i : ℕ) (b : Bucket)
    → Holds l i (some b)
    → l.window * i ≤ h.now
    → Holds l i (some (expiring l h b)) × ((expiring l h b).count ≡ b.count)
expiring-Holds l h i b k m = elim (Bool-cases (b.count == 1 && h.expires)) [
  | inl e ↦ rw e (omega arith, refl)
  | inr e ↦ rw e (k, refl)
]

incremented-Holds :
    (l : Limiter) (i now : ℕ) (o : Option Bucket)
    → Holds l i o
    → now < l.window * (i + 1)
    → Holds l i (some (incremented now o)) × ((incremented now o).count ≡ spent o + 1)
incremented-Holds l i now none k m = (tt, refl)
incremented-Holds l i now (some b) k m = rw (not_passed l i now b.expires_at k m) (k, refl)

-- What one request of this window does to its key.
counted-Holds :
    (l : Limiter) (h : Hit) (i : ℕ) (o : Option Bucket)
    → (l.window * i ≤ h.now) × (h.now < l.window * (i + 1))
    → Holds l i o
    → Holds l i (some (expiring l h (incremented h.now o)))
      × ((expiring l h (incremented h.now o)).count ≡ spent o + 1)
      × ((incremented h.now o).count ≡ spent o + 1)
counted-Holds l h i o (m, n) k =
    let (a, b) = incremented-Holds l i h.now o k n in
    let (c, d) = expiring-Holds l h i (incremented h.now o) a m in (c, d ∙ b, b)

answered_within :
    (l : Limiter) (h : Hit) (b : Bucket) → counts (answered l h b) ≡ true → b.count ≤ l.limit
answered_within l h b e = ground (arith, e)

-- A request of another window, or one that Redis does not count, leaves the key.
key_elsewhere :
    (l : Limiter) (key : String) (i : ℕ) (h : Hit) (buckets : Buckets)
    → (in_window l key i h && h.increments) ≡ false
    → ((allow l h buckets).1 key i ≡ buckets key i)
      × ((in_window l key i h && counts (allow l h buckets).0) ≡ false)
unfolding allow
key_elsewhere l key i h buckets e = elim (Bool-cases h.increments) [
  | inl a ↦
      let w : in_window l key i h ≡ false = ground (arith, e, a) in (rw (a, w) refl, rw w refl)
  | inr a ↦ (rw a refl, rw a (ground arith))
]

same_bucket :
    (l : Limiter) (key : String) (i : ℕ) (h : Hit) (buckets : Buckets)
    → in_window l key i h ≡ true
    → bucket_of l h buckets ≡ incremented h.now (buckets key i)
same_bucket l key i h buckets w =
    let (a, b) = &&_split (text_eq key h.key) (i == h.now / l.window) w in
    let k : key ≡ h.key = (eq_iff key h.key).0 a in
    let j : i ≡ h.now / l.window = ==→eq i (h.now / l.window) b in
    ap (λ x. incremented h.now (buckets x (h.now / l.window))) (sym k)
    ∙ ap (λ x. incremented h.now (buckets key x)) (sym j)

key_counted :
    (l : Limiter) (key : String) (i : ℕ) (h : Hit) (buckets : Buckets)
    → (in_window l key i h && h.increments) ≡ true
    → 0 < l.window
    → Holds l i (buckets key i)
    → Holds l i ((allow l h buckets).1 key i)
      × (spent ((allow l h buckets).1 key i) ≡ spent (buckets key i) + 1)
      × ((counts (allow l h buckets).0 ≡ true) → spent (buckets key i) + 1 ≤ l.limit)
unfolding allow
key_counted l key i h buckets e v k =
    let (w, a) = &&_split (in_window l key i h) h.increments e in
    let (_, b) = &&_split (text_eq key h.key) (i == h.now / l.window) w in
    let (c, d, n) = counted-Holds l h i (buckets key i) (end_of_window l.window h.now i v b) k in
    let s = same_bucket l key i h buckets w in
    let q : (allow l h buckets).0 ≡ answered l h (incremented h.now (buckets key i)) =
      rw (a, s) refl in
    (
      rw (a, w, s) c,
      rw (a, w, s) d,
      λ t.
          subst (λ x. x ≤ l.limit) n
            (answered_within l h (incremented h.now (buckets key i)) (sym (ap counts q) ∙ t)),
    )

-- However many requests a client makes in one window, in whatever order with those of other clients and
-- windows, and whichever calls of Redis fail, the limiter allows at most as many as are left of its
-- limit: none of them is allowed once the key counts that many. The window has a positive length, and
-- the key, if it exists, does not expire before its window ends. Requests that a failing Redis lets
-- past the limiter are not counted.
pub at_most_limit_allowed :
    (l : Limiter) (key : String) (i : ℕ) (hs : List Hit) (buckets : Buckets)
    → 0 < l.window
    → Holds l i (buckets key i)
    → allowed l key i hs buckets ≤ l.limit - spent (buckets key i)
at_most_limit_allowed l key i [] buckets v k = omega arith
at_most_limit_allowed l key i (h ∷ hs) buckets v k =
    let o = (allow l h buckets).1 in
    elim (Bool-cases (in_window l key i h && h.increments)) [
      | inl e ↦
          let (c, d, f) = key_counted l key i h buckets e v k in
          let r = at_most_limit_allowed l key i hs o v c in
          elim (Bool-cases (in_window l key i h && counts (allow l h buckets).0)) [
            | inl g ↦
                let u = f (&&_split (in_window l key i h) (counts (allow l h buckets).0) g).1 in
                rw g (omega arith)
            | inr g ↦ rw g (omega arith)
          ]
      | inr e ↦
          let (c, d) = key_elsewhere l key i h buckets e in
          let r =
            subst (λ x. allowed l key i hs o ≤ l.limit - spent x) c
              (at_most_limit_allowed l key i hs o v (subst (Holds l i) (sym c) k)) in
          rw d r
    ]
