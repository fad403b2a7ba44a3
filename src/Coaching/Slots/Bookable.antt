-- ===== src/Coaching/Slots/Bookable.antt =====
-- What assertBookable decides, without the windowed query it decides it by.
use dating_coach.Base.{
  inr, refl, inl, ◌∙◌, ◌-◌, Option-cases, ℕ, ◌≡◌, ◌≤◌, ◌+◌, ◌*◌, ◌↔◌, arith, Bool, true, false, not,
  Option, some, [], ◌∷◌, ◌&&◌, ◌==◌, any, All, select, any-select, any-sort_by,
}
use dating_coach.Store.Status.{holds_slot}
use dating_coach.Store.Rows.{CoachingSession, CoachRow, AvailabilityRow, Time, minute, session_end}
use dating_coach.Store.Table.{Rows}
use dating_coach.Store.Sweeps.{booked_between, list_booked_slots}
use dating_coach.Coaching.World.{Service, Db, ok, find_coach}
use dating_coach.Coaching.Slots
use dating_coach.Coaching.Lifecycle.{IsConsistent}

-- A session of the coach that holds its slot, is not the excluded one, and shares an instant.
abbrev pub occupies : ℕ → Time → ℕ → Option ℕ → CoachingSession → Bool
occupies coach_id start duration exclude s =
    s.coach_id == coach_id
    && holds_slot s.status
    && Slots.collides start (session_end start duration) exclude s

-- The requirements on a booking.
pub record Bookable (svc : Service) (db : Db) (coach_id : ℕ) (start : Time) (duration : ℕ)
    (accepting : Bool) (exclude : Option ℕ) : Type 0 where
  pub long_enough : 15 ≤ duration
  pub short_enough : duration ≤ 240
  pub coach : CoachRow
  pub known : find_coach coach_id db.coaches ≡ some coach
  pub approved : Slots.is_approved coach.approval_status ≡ true
  pub open_to_clients : accepting && not coach.accepting_clients ≡ false
  pub published :
      any
        (λ w.
          w.coach_id == coach.user_id
          && Slots.inside_window ((Slots.zone_of svc coach.timezone).civil start) duration w)
        db.availability
      ≡ true
  pub free : any (occupies coach.user_id start duration exclude) db.sessions ≡ false

-- No stored session is longer than the look-back, so the window of the query hides no collision.
seen_in_window :
    (coach_id : ℕ) (start : Time) (duration : ℕ) (exclude : Option ℕ) (s : CoachingSession)
    → IsConsistent s
    → booked_between coach_id (start - 240 * minute) (session_end start duration) s
        && Slots.collides start (session_end start duration) exclude s
      ≡ occupies coach_id start duration exclude s
unfolding booked_between
seen_in_window coach_id start duration exclude s c = ground (arith, c.duration_fits)

overlaps-occupies :
    (coach_id : ℕ) (start : Time) (duration : ℕ) (exclude : Option ℕ) (rows : Rows)
    → All IsConsistent rows
    → any
        (λ s.
          booked_between coach_id (start - 240 * minute) (session_end start duration) s
          && Slots.collides start (session_end start duration) exclude s)
        rows
      ≡ any (occupies coach_id start duration exclude) rows
overlaps-occupies coach_id start duration exclude [] c = refl
overlaps-occupies coach_id start duration exclude (s ∷ rows) c =
    rw
      (
        seen_in_window coach_id start duration exclude s c.0,
        overlaps-occupies coach_id start duration exclude rows c.1,
      )
      refl

overlaps_booked_lem :
    (db : Db) (coach_id : ℕ) (start : Time) (duration : ℕ) (exclude : Option ℕ)
    → All IsConsistent db.sessions
    → Slots.overlaps_booked start duration (Slots.booked_near db coach_id start duration) exclude
      ≡ any (occupies coach_id start duration exclude) db.sessions
unfolding Slots.overlaps_booked Slots.booked_near list_booked_slots
overlaps_booked_lem db coach_id start duration exclude c =
    let p = Slots.collides start (session_end start duration) exclude in
    let q = booked_between coach_id (start - 240 * minute) (session_end start duration) in
    any-sort_by (λ (r : CoachingSession). r.scheduled_time) p (select q db.sessions)
    ∙ any-select p q db.sessions
    ∙ overlaps-occupies coach_id start duration exclude db.sessions c

windows_lem :
    (db : Db) (coach_id : ℕ) (p : AvailabilityRow → Bool)
    → any p (Slots.list_availability coach_id db)
      ≡ any (λ w. w.coach_id == coach_id && p w) db.availability
unfolding Slots.list_availability
windows_lem db coach_id p =
    any-sort_by (λ (w : AvailabilityRow). w.weekday * 1440 + w.start_minute) p
      (select (λ w. w.coach_id == coach_id) db.availability)
    ∙ any-select p (λ w. w.coach_id == coach_id) db.availability

-- assertBookable accepts a request exactly when it is Bookable: its windowed query of booked
-- sessions and its ordered checks miss nothing, over a table whose rows are consistent.
pub assert_bookable_iff :
    (svc : Service) (db : Db) (coach_id : ℕ) (start : Time) (duration : ℕ) (accepting : Bool)
    (exclude : Option ℕ)
    → All IsConsistent db.sessions
    → (Slots.assert_bookable svc db coach_id start duration accepting exclude ≡ ok tt)
      ↔ Bookable svc db coach_id start duration accepting exclude
unfolding Slots.assert_bookable Slots.fits_calendar
assert_bookable_iff svc db coach_id start duration accepting exclude c =
    elim (Option-cases (find_coach coach_id db.coaches)) [
      | inl e ↦ (λ h. ground (arith, e, h), λ b. ground (arith, e, b.known))
      | inr (coach, e) ↦
          let busy = overlaps_booked_lem db coach.user_id start duration exclude c in
          let open_window =
            windows_lem db coach.user_id
              (Slots.inside_window ((Slots.zone_of svc coach.timezone).civil start) duration) in
          (
            λ h. record {
              long_enough = ground (arith, h);
              short_enough = ground (arith, h);
              coach = coach;
              known = e;
              approved = ground (arith, e, h);
              open_to_clients = ground (arith, e, h);
              published = ground (arith, e, h, open_window);
              free = ground (arith, e, h, busy);
            },
            λ b.
                let same : b.coach ≡ coach = ground (arith, e, b.known) in
                ground (arith, e, busy, open_window, same),
          )
    ]
