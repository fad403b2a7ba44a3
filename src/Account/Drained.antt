-- ===== src/Account/Drained.antt =====
-- A pass of the relay that the broker and the database answer (Drain of
-- backend/internal/account/relay.go).
use dating_coach.Base.{
  each_is_found, ==-refl, ℕ, ◌≤◌, Bool, true, not, ◌&&◌, ◌||◌, ◌≡◌, refl, ◌∙◌, arith, inl, inr,
  List, [], ◌∷◌, ◌==◌, any, any-select, any-sort_by, length-sort_by, take_all, All, All-map, map,
  length, select, sort_by, Bool-cases,
}
use dating_coach.Store.Rows.{Time}
use dating_coach.Store.Users.{is_live}
use dating_coach.Store.Deletions.{
  DeletionRow, Deletions, pending_deletions, mark_deletion_published, published_row,
}
use dating_coach.Account.Queue.{publish_job}
use dating_coach.Account.Worker.{set_broker}
use dating_coach.Account.Relay.{RelayEnv, publish_all, drain, relay_batch, marked_published}
use dating_coach.Account.Completion.{parked, IsPublished}
use dating_coach.Auth.World.{AuthState}

pub record IsReachable (env : RelayEnv) : Type 0 where
  pub publishes : (i : ℕ) → env.publishes i ≡ true
  pub marks : (i : ℕ) → env.marks i ≡ true

-- A row that is still to be published is in the rest of the batch.
abbrev IsAhead : List ℕ → DeletionRow → Type 0
IsAhead is d = (not (is_live d.published_at) || any (λ i. i == d.user_id) is) ≡ true

marked-IsAhead :
    (i : ℕ) (now : Time) (is : List ℕ) (rows : Deletions)
    → All (IsAhead (i ∷ is)) rows
    → All (IsAhead is) (mark_deletion_published i now rows)
unfolding mark_deletion_published published_row
marked-IsAhead i now is [] h = tt
marked-IsAhead i now is (d ∷ rows) h =
    let rest = marked-IsAhead i now is rows h.1 in let k = h.0 in (ground (arith, k), rest)

publish_all-IsPublished :
    (env : RelayEnv) (is : List ℕ) (s : AuthState)
    → IsReachable env
    → All (IsAhead is) s.deletions
    → All IsPublished (publish_all env is s).deletions
      × ((i : ℕ) → parked i (publish_all env is s).broker ≡ parked i s.broker)
unfolding publish_all publish_job
publish_all-IsPublished env [] s r h = (All-map (λ d k. ground (arith, k)) s.deletions h, λ i. refl)
publish_all-IsPublished env (i ∷ is) s r h =
    simp (r.publishes i, r.marks i)
      (publish_all-IsPublished env is
        (marked_published env i (set_broker s (publish_job i s.broker))) r
        (marked-IsAhead i env.now is s.deletions h))

any-map :
    {A B : Type 0} (p : B → Bool) (f : A → B) (xs : List A)
    → any p (map f xs) ≡ any (λ x. p (f x)) xs
any-map p f [] = refl
any-map p f (x ∷ xs) = ground (arith, any-map p f xs)

ahead :
    (rows : Deletions) (i : ℕ)
    → length (select (λ d. is_live d.published_at) rows) ≤ relay_batch
    → any (λ j. j == i) (pending_deletions relay_batch rows)
      ≡ any (λ (d : DeletionRow). is_live d.published_at && d.user_id == i) rows
unfolding pending_deletions
ahead rows i l =
    let live = select (λ (d : DeletionRow). is_live d.published_at) rows in
    let key : DeletionRow → ℕ = λ d. d.requested_at in
    let q : length (sort_by key live) ≤ relay_batch = rw (length-sort_by key live) l in
    rw (take_all relay_batch (sort_by key live) q) (
      any-map (λ j. j == i) (λ (d : DeletionRow). d.user_id) (sort_by key live)
      ∙ any-sort_by key (λ (d : DeletionRow). d.user_id == i) live
      ∙ any-select (λ (d : DeletionRow). d.user_id == i) (λ d. is_live d.published_at) rows)

found-IsAhead :
    (rows : Deletions) (d : DeletionRow)
    → length (select (λ d. is_live d.published_at) rows) ≤ relay_batch
    → ((p : DeletionRow → Bool) → p d ≡ true → any p rows ≡ true)
    → IsAhead (pending_deletions relay_batch rows) d
found-IsAhead rows d l k = elim (Bool-cases (is_live d.published_at)) [
  | inr n ↦ rw n refl
  | inl n ↦
      let q =
        k (λ e. is_live e.published_at && e.user_id == d.user_id) (rw n (==-refl d.user_id)) in
      rw n (ahead rows d.user_id l ∙ q)
]

-- A batch that is not full has every row that waits.
batch-IsAhead :
    (rows : Deletions)
    → length (select (λ d. is_live d.published_at) rows) ≤ relay_batch
    → All (IsAhead (pending_deletions relay_batch rows)) rows
batch-IsAhead rows l = All-map (λ d k. found-IsAhead rows d l k) rows (each_is_found rows)

-- A drain of a batch that is not full publishes every row, and leaves the other queues alone.
pub drain-IsPublished :
    (env : RelayEnv) (s : AuthState)
    → IsReachable env
    → length (select (λ d. is_live d.published_at) s.deletions) ≤ relay_batch
    → All IsPublished (drain env s).deletions
      × ((i : ℕ) → parked i (drain env s).broker ≡ parked i s.broker)
unfolding drain
drain-IsPublished env s r l =
    publish_all-IsPublished env (pending_deletions relay_batch s.deletions) s r
      (batch-IsAhead s.deletions l)
