-- ===== src/Coaching/Offers/Kept.antt =====
-- OpenSlots against assertBookable (backend/internal/coaching/service.go).
use dating_coach.Base.{
  ℕ, ◌-◌, ◌*◌, ◌≤◌, ◌≡◌, refl, sym, subst, ◌∙◌, arith, Bool, true, false, Option, none, some, [],
  ◌∷◌, String, ◌&&◌, ltb, leb, any, any-select, any-sort_by, All, All-map, Bool-cases, Option-cases,
  inl, inr, select,
}
use dating_coach.Store.Rows.{CoachingSession, CoachRow, Time, minute, hour, session_end}
use dating_coach.Store.Table.{Rows, find_row}
use dating_coach.Store.Sweeps.{list_booked_slots, booked_between}
use dating_coach.Coaching.Slots
use dating_coach.Coaching.World.{
  Service, Db, Env, World, Result, ok, err, find_coach, participant, guard, required, after,
  not_found, invalid_input, Error,
}
use dating_coach.Coaching.Offers
use dating_coach.Coaching.Offers.Fit.{IsCalendar, IsOffered, offers-IsOffered}

-- What a request that succeeds answers.
abbrev pub Answers : {A : Type 0} → (A → Type 0) → Result A × World → Type 0
Answers P (ok a, w) = P a
Answers P (err e, w) = Unit {0}

abbrev pub IsBookable : Service → Db → ℕ → Option ℕ → Time → Offers.Slot → Type 0
IsBookable svc db coach_id exclude to slot =
    session_end slot.start slot.duration_minutes ≤ to
    → Slots.assert_bookable svc db coach_id slot.start slot.duration_minutes false exclude ≡ ok tt

narrowed :
    (i : ℕ) (a b c d : Time) (p : CoachingSession → Bool) (rows : Rows)
    → a ≤ c
    → d ≤ b
    → any (λ r. booked_between i a b r && p r) rows ≡ false
    → any (λ r. booked_between i c d r && p r) rows ≡ false
unfolding booked_between
narrowed i a b c d p [] l k h = refl
narrowed i a b c d p (r ∷ rows) l k h = ground (arith, l, k, h, narrowed i a b c d p rows l k)

searched :
    (i : ℕ) (a b : Time) (p : CoachingSession → Bool) (rows : Rows)
    → any p (list_booked_slots i a b rows) ≡ any (λ r. booked_between i a b r && p r) rows
unfolding list_booked_slots
searched i a b p rows =
    any-sort_by (λ (r : CoachingSession). r.scheduled_time) p (select (booked_between i a b) rows)
    ∙ any-select p (booked_between i a b) rows

-- A search over a longer range of starts sees the sessions of a shorter one.
seen_in_range :
    (i : ℕ) (a b c d : Time) (p : CoachingSession → Bool) (rows : Rows)
    → a ≤ c
    → d ≤ b
    → any p (list_booked_slots i a b rows) ≡ false
    → any p (list_booked_slots i c d rows) ≡ false
seen_in_range i a b c d p rows l k h =
    searched i c d p rows ∙ narrowed i a b c d p rows l k (sym (searched i a b p rows) ∙ h)

not_before :
    (svc : Service) (env : Env) (exclude : Option ℕ) (from : Time)
    → from ≤ Offers.earliest_start svc env exclude from
not_before svc env none from = ground arith
not_before svc env (some i) from = omega arith

slot_free :
    (svc : Service) (env : Env) (db : Db) (coach : CoachRow) (from to : Time) (duration : ℕ)
    (exclude : Option ℕ) (slot : Offers.Slot)
    → IsOffered
        (Offers.search_of svc env db coach from to duration exclude)
        (Slots.list_availability coach.user_id db)
        slot
    → session_end slot.start duration ≤ to
    → Slots.overlaps_booked slot.start duration
        (Slots.booked_near db coach.user_id slot.start duration)
        exclude
      ≡ false
unfolding Slots.overlaps_booked Slots.booked_near Offers.search_of
slot_free svc env db coach from to duration exclude slot o l =
    let m : from ≤ slot.start =
      (let b = not_before svc env exclude from in let f = o.from_on in omega arith) in
    seen_in_range coach.user_id (from - 240 * minute) to (slot.start - 240 * minute)
      (session_end slot.start duration)
      (Slots.collides slot.start (session_end slot.start duration) exclude) db.sessions
      (omega arith) l o.free

slot-IsBookable :
    (svc : Service) (env : Env) (db : Db) (coach_id : ℕ) (coach : CoachRow) (from to : Time)
    (duration : ℕ) (exclude : Option ℕ) (slot : Offers.Slot)
    → find_coach coach_id db.coaches ≡ some coach
    → Slots.is_approved coach.approval_status ≡ true
    → 15 ≤ duration
    → duration ≤ 240
    → IsOffered
        (Offers.search_of svc env db coach from to duration exclude)
        (Slots.list_availability coach.user_id db)
        slot
    → IsBookable svc db coach_id exclude to slot
unfolding Slots.assert_bookable Slots.fits_calendar Offers.search_of
slot-IsBookable svc env db coach_id coach from to duration exclude slot e a l k o x =
    let y = subst (λ d. session_end slot.start d ≤ to) o.asked x in
    let f = slot_free svc env db coach from to duration exclude slot o y in
    let p = o.published in
    let n : leb 15 duration && leb duration 240 ≡ true = ground (arith, l, k) in
    simp (o.asked, n, e, a, p, f) refl

offered_by-Answers :
    (svc : Service) (env : Env) (coach_id : ℕ) (coach : CoachRow) (from to : Time) (duration : ℕ)
    (exclude : Option ℕ) (w : World)
    → IsCalendar (Slots.zone_of svc coach.timezone)
    → find_coach coach_id w.db.coaches ≡ some coach
    → 15 ≤ duration
    → duration ≤ 240
    → Answers
        (All (IsBookable svc w.db coach_id exclude to))
        (Offers.offered_by svc env coach from to duration exclude w)
unfolding Offers.search_of
offered_by-Answers svc env coach_id coach from to duration exclude w c e l k =
    let q = Offers.search_of svc env w.db coach from to duration exclude in
    let windows = Slots.list_availability coach.user_id w.db in
    elim (Bool-cases (Slots.is_approved coach.approval_status)) [
      | inr a ↦ rw a tt
      | inl a ↦ rw a (
          All-map
            (λ slot o.
              slot-IsBookable svc env w.db coach_id coach from to duration exclude slot e a l k o)
            (Offers.all_offers q windows)
            (offers-IsOffered q windows
              (Offers.days Offers.day_fuel q.zone q.to (Offers.midnight q.zone q.from)) c))
    ]

-- A check that passes leaves the world to the rest.
checked :
    {A : Type 0} (P : A → Type 0) (w : World) (m : Result (Unit {0}) × World)
    (f : Unit {0} → World → Result A × World)
    → m.1 ≡ w
    → Answers P (f tt w)
    → Answers P (after m f)
checked P w (ok u, v) f e h = subst (λ v. Answers P (f tt v)) (sym e) h
checked P w (err x, v) f e h = tt

guard_world : (b : Bool) (e : Error) (w : World) → (guard b e w).1 ≡ w
guard_world true e w = refl
guard_world false e w = refl

excluded_world :
    (coach_id actor_id : ℕ) (exclude : Option ℕ) (w : World)
    → (Offers.check_excluded coach_id actor_id exclude w).1 ≡ w
unfolding participant
excluded_world coach_id actor_id none w = refl
excluded_world coach_id actor_id (some i) w = elim (Option-cases (find_row i w.db.sessions)) [
  | inl n ↦ rw n refl
  | inr (s, n) ↦ rw n (ground arith)
]

coach_offers :
    (svc : Service) (env : Env) (coach_id : ℕ) (from to : Time) (duration : ℕ) (exclude : Option ℕ)
    (w : World)
    → ((timezone : String) → IsCalendar (Slots.zone_of svc timezone))
    → 15 ≤ duration
    → duration ≤ 240
    → Answers (All (IsBookable svc w.db coach_id exclude to)) (
        after
          (required (find_coach coach_id w.db.coaches) not_found w)
          (λ coach. Offers.offered_by svc env coach from to duration exclude))
coach_offers svc env coach_id from to duration exclude w c l k =
    elim (Option-cases (find_coach coach_id w.db.coaches)) [
      | inl n ↦ simp n tt
      | inr (coach, n) ↦ simp n (
          offered_by-Answers svc env coach_id coach from to duration exclude w (c coach.timezone) n
            l k)
    ]

-- Every slot that OpenSlots offers and that ends by the end of the range is one that assertBookable
-- accepts, for the duration asked for and the session that a move leaves out; whether the coach takes
-- clients is the caller's question. Durations are within the limits of a booking, and the times of a
-- zone show the date that they were made from.
pub open_slots-IsBookable :
    (svc : Service) (env : Env) (coach_id actor_id : ℕ) (from to : Time)
    (duration exclude : Option ℕ) (w : World)
    → ((timezone : String) → IsCalendar (Slots.zone_of svc timezone))
    → 15 ≤ Offers.or_default duration
    → Offers.or_default duration ≤ 240
    → Answers
        (All (IsBookable svc w.db coach_id exclude to))
        (Offers.open_slots svc env coach_id actor_id from to duration exclude w)
unfolding Offers.open_slots
open_slots-IsBookable svc env coach_id actor_id from to duration exclude w c l k =
    let P = All (IsBookable svc w.db coach_id exclude to) in
    let h = coach_offers svc env coach_id from to (Offers.or_default duration) exclude w c l k in
    checked P w (Offers.check_excluded coach_id actor_id exclude w) _
      (excluded_world coach_id actor_id exclude w)
      (checked P w (guard (ltb from to) invalid_input w) _
        (guard_world (ltb from to) invalid_input w)
        (checked P w (guard (leb (to - from) (30 * 24 * hour)) invalid_input w) _
          (guard_world (leb (to - from) (30 * 24 * hour)) invalid_input w) h))
