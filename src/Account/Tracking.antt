-- ===== src/Account/Tracking.antt =====
-- What the outbox, the queues and the users have to say of one another for a recorded deletion to be
-- carried out (backend/internal/account).
use dating_coach.Base.{
  ℕ, Bool, true, false, ◌&&◌, ◌||◌, ◌≡◌, refl, sym, subst, arith, List, [], ◌∷◌, ◌++◌, ◌==◌, any,
  All, All-map, update_where, All-update_where,
}
use dating_coach.Store.Rows.{Time}
use dating_coach.Store.Users.{User, is_live}
use dating_coach.Store.Deletions.{
  DeletionRow, Deletions, recorded_for, mark_deletion_published, published_row,
}
use dating_coach.Account.Queue.{garbled, misnamed, job, Delivery, Broker, publish_job}
use dating_coach.Auth.World.{AuthState}

abbrev pub carries : ℕ → Delivery → Bool
carries i d = elim d.body [ garbled ↦ false | misnamed ↦ false | job j ↦ j == i ]

-- A job for this user stands in a queue.
abbrev pub queued : ℕ → Broker → Bool
queued i b = any (carries i) b.work || any (carries i) b.retry || any (carries i) b.dead

-- A row of the outbox waits to be published, or its job stands in a queue.
abbrev pub IsPursued : Broker → DeletionRow → Type 0
IsPursued b d = (is_live d.published_at || queued d.user_id b) ≡ true

-- A user who is marked deleted has a row in the outbox.
abbrev pub IsRecorded : Deletions → User → Type 0
IsRecorded rows u = (is_live u.deleted_at || any (recorded_for u.id) rows) ≡ true

abbrev pub IsTracked : AuthState → Type 0
IsTracked s = All (IsPursued s.broker) s.deletions × All (IsRecorded s.deletions) s.users

-- Queues that hold at least the jobs of others.
abbrev pub HoldsMore : Broker → Broker → Type 0
HoldsMore b c = (i : ℕ) → queued i b ≡ true → queued i c ≡ true

pub HoldsMore-IsPursued :
    (b c : Broker) (rows : Deletions)
    → HoldsMore b c
    → All (IsPursued b) rows
    → All (IsPursued c) rows
HoldsMore-IsPursued b c rows k h =
    All-map (λ d p. let q = k d.user_id in ground (arith, p, q)) rows h

module _ {ℓ} {A : Type ℓ} where
  pub any-append : (p : A → Bool) (xs ys : List A) → any p (xs ++ ys) ≡ any p xs || any p ys
  any-append p [] ys = refl
  any-append p (x ∷ xs) ys = ground (arith, any-append p xs ys)

  pub any-update_where :
      (q p : A → Bool) (f : A → A) (xs : List A)
      → ((x : A) → q (f x) ≡ q x)
      → any q (update_where p f xs) ≡ any q xs
  any-update_where q p f [] k = refl
  any-update_where q p f (x ∷ xs) k = ground (arith, k x, any-update_where q p f xs k)

pub publish_job-HoldsMore : (i : ℕ) (b : Broker) → HoldsMore b (publish_job i b)
unfolding publish_job
publish_job-HoldsMore i b j h =
    let e = any-append (carries j) b.work (record { body = job i; attempts = 0 } ∷ []) in
    ground (arith, e, h)

pub publish_job-queued : (i : ℕ) (b : Broker) → queued i (publish_job i b) ≡ true
unfolding publish_job
publish_job-queued i b =
    let e = any-append (carries i) b.work (record { body = job i; attempts = 0 } ∷ []) in
    ground (arith, e)

marked_row :
    (i : ℕ) (now : Time) (b : Broker) (d : DeletionRow)
    → queued i b ≡ true
    → d.user_id ≡ i
    → IsPursued b (published_row now d)
unfolding published_row
marked_row i now b d q e = let q' = subst (λ k. queued k b ≡ true) (sym e) q in ground (arith, q')

-- A row is marked once its job is queued.
pub mark-IsPursued :
    (i : ℕ) (now : Time) (b : Broker) (rows : Deletions)
    → queued i b ≡ true
    → All (IsPursued b) rows
    → All (IsPursued b) (mark_deletion_published i now rows)
unfolding mark_deletion_published published_row
mark-IsPursued i now b rows q h =
    All-update_where (IsPursued b) (λ d. recorded_for i d && is_live d.published_at)
      (published_row now) rows (λ d p m. marked_row i now b d q (ground (arith, m))) h

pub mark-recorded :
    (i j : ℕ) (now : Time) (rows : Deletions)
    → any (recorded_for j) (mark_deletion_published i now rows) ≡ any (recorded_for j) rows
unfolding mark_deletion_published published_row
mark-recorded i j now rows =
    any-update_where (recorded_for j) _ (published_row now) rows (λ d. refl)
