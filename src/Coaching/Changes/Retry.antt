-- ===== src/Coaching/Changes/Retry.antt =====
-- The call that SetStatus makes of itself, in backend/internal/coaching/service.go.
use dating_coach.Store.Status.{Status}
use dating_coach.Coaching.World.{World}
use dating_coach.Coaching.Changes
