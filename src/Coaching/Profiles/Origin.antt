-- ===== src/Coaching/Profiles/Origin.antt =====
-- Where an approval comes from (SetCoachApproval and UpsertProfile of
-- backend/internal/coaching/service.go).
use dating_coach.Base.{
  ==→eq, ℕ, Bool, false, ◌&&◌, ◌≡◌, ◌⊎◌, inl, inr, refl, arith, Option, none, some, List, [], ◌∷◌,
  String, ltb, ◌==◌, any, find_first, update_where, if◌then◌else◌, Bool-cases, Option-cases,
}
use dating_coach.Store.Rows.{Time, ApprovalStatus, approval_pending}
use dating_coach.Store.Coaches.{
  Coach, Coaches, UpsertCoachProfile, has_user, edited_coach, decided_coach, new_coach,
  upsert_coach_profile, set_coach_approval,
}
use dating_coach.Auth.World.{AuthService}
use dating_coach.Coaching.World.{internal, not_found, Service, find_user}
use dating_coach.Coaching.Clock.{max_hourly_rate_cents}
use dating_coach.Coaching.Profiles.{
  CoachesState, get_coach, normalise_phases, or_utc, with_phases, exists, upsert_profile,
  valid_approval_status, decide_coach,
}
use dating_coach.Coaching.Profiles.Approval.{
  Request, saves, decides, serve_all, last_decision, HasStatus, get_coach-keeps, viewed-keeps,
  stored_then, serve_all-HasStatus,
}

abbrev Missing : ℕ → Coaches → Type 0
Missing i cs = find_first (has_user i) cs ≡ none

-- The table holds this status for the coach, or no profile.
abbrev pub Known : ℕ → Option ApprovalStatus → Coaches → Type 0
Known i none cs = Missing i cs
Known i (some a) cs = HasStatus i a cs

-- What a sequence of requests makes of a coach without a profile: none of them saves one, or one that
-- this coach saves starts as pending, and later decisions count.
abbrev pub Saved : AuthService → ℕ → List Request → Coaches → Type 0
Saved texts i [] cs = Missing i cs
Saved texts i (saves now input ∷ qs) cs =
    Saved texts i qs cs
    ⊎ ((input.user_id ≡ i) × HasStatus i (last_decision texts i qs approval_pending) cs)
Saved texts i (decides now j text ∷ qs) cs = Saved texts i qs cs

abbrev pub Decided : AuthService → ℕ → Option ApprovalStatus → List Request → Coaches → Type 0
Decided texts i none qs cs = Saved texts i qs cs
Decided texts i (some a) qs cs = HasStatus i (last_decision texts i qs a) cs

-- No profile, or a new one.
abbrev Begun : ℕ → ℕ → Coaches → Type 0
Begun i j cs = Missing i cs ⊎ ((j ≡ i) × HasStatus i approval_pending cs)

updated-Missing :
    (i : ℕ) (p : Coach → Bool) (f : Coach → Coach) (cs : Coaches)
    → ((c : Coach) → (if p c then f c else c).user_id ≡ c.user_id)
    → Missing i cs
    → Missing i (update_where p f cs)
updated-Missing i p f [] u m = refl
updated-Missing i p f (d ∷ ds) u m = elim (Bool-cases (has_user i d)) [
  | inl h ↦ ground (arith, h, m)
  | inr h ↦
      let t : has_user i (if p d then f d else d) ≡ false = rw (u d) h in
      rw t (updated-Missing i p f ds u (ground (arith, h, m)))
]

upsert-Begun :
    (i : ℕ) (arg : UpsertCoachProfile) (now : Time) (b : Bool) (cs : Coaches)
    → Missing i cs
    → Begun i arg.user_id (upsert_coach_profile arg now b cs).1
unfolding upsert_coach_profile
upsert-Begun i arg now b cs m = elim (Bool-cases (any (has_user arg.user_id) cs)) [
  | inl a ↦ inl (
      rw a
        (updated-Missing i (has_user arg.user_id) (edited_coach arg now) cs (λ c. ground arith) m))
  | inr a ↦ elim (Bool-cases b) [
    | inr c ↦ inl (rw (a, c) m)
    | inl c ↦ elim (Bool-cases (arg.user_id == i)) [
      | inr n ↦ inl (rw (a, c, n) m)
      | inl n ↦ inr (==→eq arg.user_id i n, rw (a, c) (new_coach arg now, rw n refl, refl))
    ]
  ]
]

saves-Begun :
    (svc : Service) (texts : AuthService) (i : ℕ) (now : Time) (input : UpsertCoachProfile)
    (s : CoachesState)
    → Missing i s.coaches
    → Begun i input.user_id (upsert_profile svc texts now input s).1.coaches
unfolding upsert_profile
saves-Begun svc texts i now input s h =
    elim (Option-cases (svc.load_location (or_utc input.timezone))) [
      | inl m ↦ simp m (inl h)
      | inr (zone, m) ↦
          elim (Bool-cases
            (svc.payments.enabled && ltb max_hourly_rate_cents input.hourly_rate_cents)) [
              | inl n ↦ simp (m, n) (inl h)
              | inr n ↦ elim (Option-cases (normalise_phases texts input.phases)) [
                | inl p ↦ simp (m, n, p) (inl h)
                | inr (phases, p) ↦
                    simp (m, n, p)
                      (stored_then (Begun i input.user_id)
                        (upsert_coach_profile (with_phases input phases) now
                          (exists (find_user input.user_id s.users)) s.coaches)
                        internal s (λ c. get_coach c.user_id) (λ c. get_coach-keeps c.user_id)
                        (upsert-Begun i (with_phases input phases) now
                          (exists (find_user input.user_id s.users)) s.coaches h))
              ]
            ]
    ]

decides-Missing :
    (texts : AuthService) (i j : ℕ) (now : Time) (text : String) (s : CoachesState)
    → Missing i s.coaches
    → Missing i (decide_coach texts now j text s).1.coaches
unfolding decide_coach set_coach_approval
decides-Missing texts i j now text s h = elim (Option-cases (valid_approval_status texts text)) [
  | inl m ↦ rw m h
  | inr (b, m) ↦ rw m (
      stored_then (Missing i) (set_coach_approval j b now s.coaches) not_found s _
        (λ c t.
          viewed-keeps c.user_id t
            (λ v. record v { row = record (v.row) { approval_status = c.approval_status } }))
        (updated-Missing i (has_user j) (decided_coach b now) s.coaches (λ c. ground arith) h))
]

serve_all-Saved :
    (svc : Service) (texts : AuthService) (i : ℕ) (qs : List Request) (s : CoachesState)
    → Missing i s.coaches
    → Saved texts i qs (serve_all svc texts qs s).coaches
serve_all-Saved svc texts i [] s h = h
serve_all-Saved svc texts i (saves now input ∷ qs) s h =
    let s' = (upsert_profile svc texts now input s).1 in
    elim (saves-Begun svc texts i now input s h) [
      | inl m ↦ inl (serve_all-Saved svc texts i qs s' m)
      | inr (e, k) ↦ inr (e, serve_all-HasStatus svc texts i approval_pending qs s' k)
    ]
serve_all-Saved svc texts i (decides now j text ∷ qs) s h =
    serve_all-Saved svc texts i qs (decide_coach texts now j text s).1
      (decides-Missing texts i j now text s h)

-- Through any sequence of saved profiles and decisions, by any coaches and about any coaches, valid or
-- refused: a coach who has a profile keeps it, and its approval status is the one that the last decision
-- about this coach with a known status gave, or the status before if there is none. A coach who has none
-- either stays without, or one of the coach's own saves created it, as pending, and its status is the
-- one that the last decision after that save gave, or pending. So saving a profile approves nobody.
pub approval_is_last_decision :
    (svc : Service) (texts : AuthService) (i : ℕ) (before : Option ApprovalStatus)
    (qs : List Request) (s : CoachesState)
    → Known i before s.coaches
    → Decided texts i before qs (serve_all svc texts qs s).coaches
approval_is_last_decision svc texts i none qs s h = serve_all-Saved svc texts i qs s h
approval_is_last_decision svc texts i (some a) qs s h = serve_all-HasStatus svc texts i a qs s h
