-- ===== src/Coaching/Profiles/Approval.antt =====
-- Who decides that a coach is approved (SetCoachApproval and UpsertProfile of
-- backend/internal/coaching/service.go).
use dating_coach.Base.{
  ==→eq, ℕ, Bool, true, ◌&&◌, ◌≡◌, inl, inr, refl, sym, ◌∙◌, ap, subst, arith, Option, none, some,
  List, [], ◌∷◌, String, ltb, ◌==◌, any, find_first, update_where, if◌then◌else◌, Bool-cases,
  Option-cases,
}
use dating_coach.Base.Outcomes.{give, Outcome, done, failed, bind}
use dating_coach.Store.Rows.{Time, ApprovalStatus}
use dating_coach.Store.Coaches.{
  Coach, Coaches, UpsertCoachProfile, has_user, edited_coach, decided_coach, upsert_coach_profile,
  set_coach_approval,
}
use dating_coach.Auth.World.{AuthService}
use dating_coach.Coaching.World.{internal, Service, Error, find_user}
use dating_coach.Coaching.Profiles.{
  not_found, max_hourly_rate_cents, CoachesState, CoachView, CoachesRun, get_coach, stored_coach,
  normalise_phases, or_utc, with_phases, exists, upsert_profile, valid_approval_status,
  decide_coach,
}

-- A coach saves a profile, or an admin decides on one.
pub data Request : Type 0 where
  saves : Time → UpsertCoachProfile → Request
  decides : Time → ℕ → String → Request

abbrev pub serve : Service → AuthService → Request → CoachesState → CoachesState
serve svc texts (saves now input) s = (upsert_profile svc texts now input s).1
serve svc texts (decides now i text) s = (decide_coach texts now i text s).1

abbrev pub serve_all : Service → AuthService → List Request → CoachesState → CoachesState
serve_all svc texts [] s = s
serve_all svc texts (q ∷ qs) s = serve_all svc texts qs (serve svc texts q s)

abbrev pub or_before : ApprovalStatus → Option ApprovalStatus → ApprovalStatus
or_before b none = b
or_before b (some a) = a

-- The last decision about this coach that names a status, or else the status before.
abbrev pub last_decision : AuthService → ℕ → List Request → ApprovalStatus → ApprovalStatus
last_decision texts i [] before = before
last_decision texts i (saves now input ∷ qs) before = last_decision texts i qs before
last_decision texts i (decides now j text ∷ qs) before =
    last_decision texts i qs
      (if j == i then or_before before (valid_approval_status texts text) else before)

-- The coach has a profile, with this status.
abbrev pub HasStatus : ℕ → ApprovalStatus → Coaches → Type 0
HasStatus i a cs = (c : Coach) × (find_first (has_user i) cs ≡ some c) × (c.approval_status ≡ a)

pub get_coach-keeps : (i : ℕ) (s : CoachesState) → (get_coach i s).1 ≡ s
unfolding get_coach
get_coach-keeps i s = elim (Option-cases (find_first (has_user i) s.coaches)) [
  | inl n ↦ simp n refl
  | inr (c, n) ↦ elim (Option-cases (find_user i s.users)) [
    | inl m ↦ simp (n, m) refl
    | inr (u, m) ↦ simp (n, m) refl
  ]
]

-- The row of this coach after an UPDATE of the rows that pass a test.
update_where-HasStatus :
    (i : ℕ) (a b : ApprovalStatus) (p : Coach → Bool) (f : Coach → Coach) (cs : Coaches)
    → ((c : Coach) → (if p c then f c else c).user_id ≡ c.user_id)
    → ((c : Coach)
        → has_user i c ≡ true
        → c.approval_status ≡ a
        → (if p c then f c else c).approval_status ≡ b)
    → HasStatus i a cs
    → HasStatus i b (update_where p f cs)
update_where-HasStatus i a b p f [] u k (c, e, h) = ground (arith, e)
update_where-HasStatus i a b p f (d ∷ ds) u k (c, e, h) = elim (Bool-cases (has_user i d)) [
  | inl m ↦
      let same : d ≡ c = ground (arith, e, m) in
      (if p d then f d else d, rw (u d, m) refl, k d m (ap (λ x. x.approval_status) same ∙ h))
  | inr m ↦
      let (x, n, q) = update_where-HasStatus i a b p f ds u k (c, ground (arith, e, m), h) in
      (x, rw (u d, m) n, q)
]

found_any :
    (i : ℕ) (c : Coach) (cs : Coaches)
    → find_first (has_user i) cs ≡ some c
    → any (has_user i) cs ≡ true
found_any i c [] e = ground (arith, e)
found_any i c (d ∷ ds) e = ground (arith, e, found_any i c ds)

upsert-HasStatus :
    (i : ℕ) (a : ApprovalStatus) (arg : UpsertCoachProfile) (now : Time) (b : Bool) (cs : Coaches)
    → HasStatus i a cs
    → HasStatus i a (upsert_coach_profile arg now b cs).1
unfolding upsert_coach_profile
upsert-HasStatus i a arg now b cs (c, e, h) = elim (Bool-cases (any (has_user arg.user_id) cs)) [
  | inl m ↦ rw m (
      update_where-HasStatus i a a (has_user arg.user_id) (edited_coach arg now) cs
        (λ d. ground arith) (λ d n q. ground (arith, q)) (c, e, h))
  | inr m ↦ elim (Bool-cases (arg.user_id == i)) [
    | inl n ↦
        let same : arg.user_id ≡ i = ==→eq arg.user_id i n in
        let found : any (has_user arg.user_id) cs ≡ true =
          subst (λ j. any (has_user j) cs ≡ true) (sym same) (found_any i c cs e) in
        ground (arith, m, found)
    | inr n ↦ elim (Bool-cases b) [
      | inl q ↦ simp (m, q, n) (c, e, h)
      | inr q ↦ simp (m, q) (c, e, h)
    ]
  ]
]

approval-HasStatus :
    (i j : ℕ) (a b : ApprovalStatus) (now : Time) (cs : Coaches)
    → HasStatus i a cs
    → HasStatus i (if j == i then b else a) (set_coach_approval j b now cs).1
unfolding set_coach_approval
approval-HasStatus i j a b now cs h =
    update_where-HasStatus i a (if j == i then b else a) (has_user j) (decided_coach b now) cs
      (λ c. ground arith) (λ c m n. ground (arith, m, n)) h

pub viewed-keeps :
    (i : ℕ) (s : CoachesState) (g : CoachView → CoachView)
    → (bind (get_coach i s) (λ v. give (g v))).1 ≡ s
viewed-keeps i s g = go (get_coach i s) (get_coach-keeps i s)
  where
    go : (r : Outcome Error CoachView × CoachesState) → r.1 ≡ s → (bind r (λ v. give (g v))).1 ≡ s
    go (done v, t) e = e
    go (failed x, t) e = e

-- What a stored row is followed by leaves the table.
pub stored_then :
    (P : Coaches → Type 0) (r : Option Coach × Coaches) (e : Error) (s : CoachesState)
    (f : Coach → CoachesRun CoachView)
    → ((c : Coach) (t : CoachesState) → (f c t).1 ≡ t)
    → P r.1
    → P (bind (stored_coach r e s) f).1.coaches
stored_then P (none, cs) e s f k h = h
stored_then P (some c, cs) e s f k h =
    subst (λ t. P t.coaches) (sym (k c (record s { coaches = cs }))) h

saves-HasStatus :
    (svc : Service) (texts : AuthService) (i : ℕ) (a : ApprovalStatus) (now : Time)
    (input : UpsertCoachProfile) (s : CoachesState)
    → HasStatus i a s.coaches
    → HasStatus i a (upsert_profile svc texts now input s).1.coaches
unfolding upsert_profile
saves-HasStatus svc texts i a now input s h =
    elim (Option-cases (svc.load_location (or_utc input.timezone))) [
      | inl m ↦ simp m h
      | inr (zone, m) ↦
          elim (Bool-cases
            (svc.payments.enabled && ltb max_hourly_rate_cents input.hourly_rate_cents)) [
              | inl n ↦ simp (m, n) h
              | inr n ↦ elim (Option-cases (normalise_phases texts input.phases)) [
                | inl p ↦ simp (m, n, p) h
                | inr (phases, p) ↦
                    simp (m, n, p)
                      (stored_then (HasStatus i a)
                        (upsert_coach_profile (with_phases input phases) now
                          (exists (find_user input.user_id s.users)) s.coaches)
                        internal s (λ c. get_coach c.user_id) (λ c. get_coach-keeps c.user_id)
                        (upsert-HasStatus i a (with_phases input phases) now
                          (exists (find_user input.user_id s.users)) s.coaches h))
              ]
            ]
    ]

decides-HasStatus :
    (texts : AuthService) (i j : ℕ) (a : ApprovalStatus) (now : Time) (text : String)
    (s : CoachesState)
    → HasStatus i a s.coaches
    → HasStatus i
        (if j == i then or_before a (valid_approval_status texts text) else a)
        (decide_coach texts now j text s).1.coaches
unfolding decide_coach
decides-HasStatus texts i j a now text s h =
    elim (Option-cases (valid_approval_status texts text)) [
      | inl m ↦ rw m (elim (Bool-cases (j == i)) [ inl e ↦ rw e h | inr e ↦ rw e h ])
      | inr (b, m) ↦ rw m (
          stored_then (HasStatus i (if j == i then b else a)) (set_coach_approval j b now s.coaches)
            not_found s _
            (λ c t.
              viewed-keeps c.user_id t
                (λ v. record v { row = record (v.row) { approval_status = c.approval_status } }))
            (approval-HasStatus i j a b now s.coaches h))
    ]

-- A coach who has a profile keeps it, with the status of the last decision.
pub serve_all-HasStatus :
    (svc : Service) (texts : AuthService) (i : ℕ) (a : ApprovalStatus) (qs : List Request)
    (s : CoachesState)
    → HasStatus i a s.coaches
    → HasStatus i (last_decision texts i qs a) (serve_all svc texts qs s).coaches
serve_all-HasStatus svc texts i a [] s h = h
serve_all-HasStatus svc texts i a (saves now input ∷ qs) s h =
    serve_all-HasStatus svc texts i a qs (upsert_profile svc texts now input s).1
      (saves-HasStatus svc texts i a now input s h)
serve_all-HasStatus svc texts i a (decides now j text ∷ qs) s h =
    serve_all-HasStatus svc texts i
      (if j == i then or_before a (valid_approval_status texts text) else a) qs
      (decide_coach texts now j text s).1 (decides-HasStatus texts i j a now text s h)
