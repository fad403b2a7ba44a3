-- ===== src/Coaching/Sound/Sweeps.antt =====
-- The invariant through ExpirePending.

use dating_coach.Coaching.Mail.{
  mail_coach_calendar_update, mail_client_expired, get_session_parties,
}
use dating_coach.Coaching.Sound.Handlers.{notified-Lands, settle-WorldSound, WorldSound}
use dating_coach.Coaching.Effects.{
  mail_coach_calendar_update-SameSessions, mail_client_expired-SameSessions,
  get_session_parties-SameSessions, same_after, SameSessions,
}
use dating_coach.Coaching.World.{ok, err, Result, set_sessions, World, Env}
use dating_coach.Coaching.Sound.{update_all-IsSound, IsSound}
use dating_coach.Coaching.Lifecycle.Statements.{expired_row-IsConsistent}
use dating_coach.Coaching.Lifecycle.{IsConsistent}
use dating_coach.Base.{
  ltb, length, ◌+◌, subst, inr, &&_split, not, inl, ==→eq, ◌==◌, ◌&&◌, Bool-cases, All-sort_by, ℕ,
  zero, suc, ◌≡◌, refl, arith, Bool, true, Option, some, List, [], ◌∷◌, All, take, select,
}
use dating_coach.Store.Rows.{CoachingSession, Time}
use dating_coach.Store.Table.{Rows, find_row}
use dating_coach.Store.Sweeps.{
  expired_row, expire_pending_sessions, overdue, overdue_batch, in_batch,
}
use dating_coach.Coaching.Sweep
use dating_coach.Coaching.Calendar.{Shrinks, Apart, Exclusive}

-- Every row is the row under its key.
found_self-below :
    (t : CoachingSession) (ts rows : Rows)
    → All (Apart t) rows
    → All (λ r. find_row r.id ts ≡ some r) rows
    → All (λ r. find_row r.id (t ∷ ts) ≡ some r) rows
unfolding find_row
found_self-below t ts [] a h = tt
found_self-below t ts (r ∷ rs) a h =
    (ground (arith, h.0, a.0.keys), found_self-below t ts rs a.1 h.1)

found_self : (rows : Rows) → Exclusive rows → All (λ r. find_row r.id rows ≡ some r) rows
found_self [] x = tt
found_self (t ∷ ts) x =
    (unfold find_row in ground arith, found_self-below t ts ts x.0 (found_self ts x.1))

-- A row of the batch: it stands in the table, and its deadline has passed.
record Due (now : Time) (rows : Rows) (r : CoachingSession) : Type 0 where
  in_table : find_row r.id rows ≡ some r
  is_overdue : overdue now r ≡ true

Due-select :
    (held : ℕ → Bool) (now : Time) (rows xs : Rows)
    → All (λ r. find_row r.id rows ≡ some r) xs
    → All (Due now rows) (select (λ r. overdue now r && not (held r.id)) xs)
Due-select held now rows [] h = tt
Due-select held now rows (x ∷ xs) h = elim (Bool-cases (overdue now x && not (held x.id))) [
  | inl g ↦
      rw g (
        record { in_table = h.0; is_overdue = (&&_split _ _ g).0 },
        Due-select held now rows xs h.1,
      )
  | inr g ↦ rw g (Due-select held now rows xs h.1)
]

pub All-take {ℓ κ} :
    {A : Type ℓ} (P : A → Type κ) (n : ℕ) (xs : List A) → All P xs → All P (take n xs)
All-take P zero xs h = tt
All-take P (suc n) [] h = tt
All-take P (suc n) (x ∷ xs) h = (h.0, All-take P n xs h.1)

batch-Due :
    (limit : ℕ) (held : ℕ → Bool) (now : Time) (rows : Rows)
    → Exclusive rows
    → All (Due now rows) (overdue_batch limit held now rows)
unfolding overdue_batch
batch-Due limit held now rows x =
    All-take (Due now rows) limit _
      (All-sort_by _ (Due now rows) _ (Due-select held now rows rows (found_self rows x)))

same_row :
    (now : Time) (rows : Rows) (s r : CoachingSession)
    → Due now rows s
    → find_row r.id rows ≡ some r
    → s.id == r.id ≡ true
    → overdue now r ≡ true
same_row now rows s r d e k =
    let id : s.id ≡ r.id = ==→eq _ _ k in
    let found : find_row r.id rows ≡ some s = subst (λ i. find_row i rows ≡ some s) id d.in_table in
    let same : s ≡ r = ground (arith, found, e) in
    subst (λ q. overdue now q ≡ true) same d.is_overdue

in_batch-overdue :
    (now : Time) (rows batch : Rows) (r : CoachingSession)
    → All (Due now rows) batch
    → find_row r.id rows ≡ some r
    → in_batch batch r ≡ true
    → overdue now r ≡ true
unfolding in_batch
in_batch-overdue now rows [] r d e k = cc
in_batch-overdue now rows (s ∷ batch) r d e k = elim (Bool-cases (s.id == r.id)) [
  | inl here ↦ same_row now rows s r d.0 e here
  | inr there ↦ in_batch-overdue now rows batch r d.1 e (rw there at k)
]

expired-Improves :
    (now : Time) (rows batch xs : Rows)
    → All (Due now rows) batch
    → All (λ r. find_row r.id rows ≡ some r) xs
    → All (λ r. in_batch batch r ≡ true → IsConsistent r → IsConsistent (expired_row now r)) xs
expired-Improves now rows batch [] d h = tt
expired-Improves now rows batch (x ∷ xs) d h = (
  λ g c. expired_row-IsConsistent now c (in_batch-overdue now rows batch x d h.0 g),
  expired-Improves now rows batch xs d h.1,
)

expired-Shrinks : (now : Time) (r : CoachingSession) → Shrinks r (expired_row now r)
unfolding expired_row
expired-Shrinks now r = ground arith

pub expire_pending_sessions-IsSound :
    (limit : ℕ) (held : ℕ → Bool) (now : Time) (rows : Rows)
    → IsSound rows
    → IsSound (expire_pending_sessions limit held now rows).1
unfolding expire_pending_sessions
expire_pending_sessions-IsSound limit held now rows v =
    let batch = overdue_batch limit held now rows in
    update_all-IsSound (in_batch batch) (expired_row now) (λ r g. expired-Shrinks now r) rows
      (expired-Improves now rows batch rows (batch-Due limit held now rows v.exclusive)
        (found_self rows v.exclusive))
      v

pub notify_expired-SameSessions :
    (xs : List CoachingSession) (w : World) → SameSessions w (Sweep.notify_expired xs w).1
unfolding Sweep.notify_expired
notify_expired-SameSessions [] w = refl
notify_expired-SameSessions (s ∷ xs) w =
    same_after (get_session_parties s.id w) _ w (get_session_parties-SameSessions s.id w) λ p w1.
      same_after (mail_client_expired p w1) _ w1 (mail_client_expired-SameSessions p w1) λ _ w2.
        same_after (mail_coach_calendar_update p w2) _ w2
          (mail_coach_calendar_update-SameSessions p w2) λ _ w3. notify_expired-SameSessions xs w3

pub expire_batch-WorldSound :
    (env : Env) (w : World) → WorldSound w → WorldSound (Sweep.expire_batch env w).1
unfolding Sweep.expire_batch
expire_batch-WorldSound env w v =
    let swept = expire_pending_sessions Sweep.expire_batch_size env.held env.db_now w.db.sessions in
    let sound =
      expire_pending_sessions-IsSound Sweep.expire_batch_size env.held env.db_now w.db.sessions v in
    settle-WorldSound env w _ v (
      notified-Lands (length swept.0) (Sweep.notify_expired swept.0 (set_sessions w swept.1))
        (set_sessions w swept.1) (notify_expired-SameSessions swept.0 (set_sessions w swept.1))
        sound)

next_pass-WorldSound :
    (again : ℕ → World → Option Sweep.Pass × World) (total : ℕ) (r : Result ℕ × World)
    → WorldSound r.1
    → ((n : ℕ) (w : World) → WorldSound w → WorldSound (again n w).1)
    → WorldSound (Sweep.next_pass again total r).1
next_pass-WorldSound again total (err e, w) v k = v
next_pass-WorldSound again total (ok n, w) v k = elim (Bool-cases (ltb n Sweep.expire_batch_size)) [
  | inl last ↦ rw (last, Sweep.next_pass) v
  | inr full ↦ rw (full, Sweep.next_pass) (k (total + n) w v)
]

pub expire_pending-WorldSound :
    (fuel : ℕ) (env : Env) (total : ℕ) (w : World)
    → WorldSound w
    → WorldSound (Sweep.expire_pending fuel env total w).1
unfolding Sweep.expire_pending
expire_pending-WorldSound zero env total w v = v
expire_pending-WorldSound (suc fuel) env total w v =
    next_pass-WorldSound (Sweep.expire_pending fuel env) total (Sweep.expire_batch env w)
      (expire_batch-WorldSound env w v) (expire_pending-WorldSound fuel env)
