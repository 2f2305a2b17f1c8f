-- ===== src/Calendar/Service.antt =====
-- services/calendar-service/internal/service/calendar_service.go: how events are created, changed
-- and deleted, and how the months that this concerns are dropped from the cache.
use docflow_web.Base.{ℕ, String, ◌||◌, not, Option, none, some, ◌==◌}
use docflow_web.Base.Exec.{Result, ok, pure, wrap, fail_if, ◌>>=◌, ◌>>◌}
use docflow_web.Base.Postgres.{Postgres}
use docflow_web.Calendar.Domain.{
  EventError, invalid_input, forbidden, Event, EventStats, CreateEventInput, validate_create,
  UpdateEventInput, validate_update,
}
use docflow_web.Calendar.Repository
use docflow_web.Calendar.Repository.{EventDb, App}

-- `cache.EventCache`, of which the repository has no implementation: what a call does to a state of
-- the cache. The service is built without one, too.
pub record EventCache (C : Type 0) : Type 0 where
  pub invalidate_month : String → ℕ → ℕ → C → C

-- What the service is built from. `year` and `month` are those methods of `time.Time`.
pub record CalendarEnv (C : Type 0) : Type 0 where
  pub pg : Postgres
  pub cache : Option (EventCache C)
  pub year : ℕ → ℕ
  pub month : ℕ → ℕ

abbrev pub or_else {ℓ} : {A : Type ℓ} → Option A → A → A
or_else none a = a
or_else (some b) a = b

-- The fields that `UpdateEvent` overwrites.
unfoldable pub apply_update : UpdateEventInput → Event → Event
apply_update i e = record e {
  title = or_else i.title e.title;
  description = or_else i.description e.description;
  start_time = or_else i.start_time e.start_time;
  end_time = or_else i.end_time e.end_time;
}

abbrev pub new_event : CreateEventInput → Event
new_event i = record {
  id = "";
  user_id = i.user_id;
  title = i.title;
  description = i.description;
  event_type = i.event_type;
  ref_id = i.ref_id;
  ref_type = i.ref_type;
  start_time = i.start_time;
  end_time = i.end_time;
  created_at = 0;
  updated_at = 0;
}

abbrev pub lift : {C A : Type 0} → Result EventError A → App C A
lift r w = (r, w)

module _ {C : Type 0} (env : CalendarEnv C) where
  open env use {pg}

  abbrev pub invalidate_in : Option (EventCache C) → String → ℕ → App C (Unit {0})
  invalidate_in none user_id at w = (ok tt, w)
  invalidate_in (some cache) user_id at w =
      (ok tt, record w { out = cache.invalidate_month user_id (env.year at) (env.month at) w.out })

  -- `invalidateMonth`
  unfoldable pub invalidate_month : String → ℕ → App C (Unit {0})
  invalidate_month user_id at = invalidate_in env.cache user_id at

  unfoldable pub create_event : CreateEventInput → App C Event
  create_event raw = do
    input ← lift (validate_create raw)
    event ← wrap "create event" (Repository.create pg (new_event input))
    invalidate_month event.user_id event.start_time
    pure event

  unfoldable pub delete_event : String → String → App C (Unit {0})
  delete_event id deleted_by = do
    fail_if (id == "" || deleted_by == "") invalid_input
    event ← Repository.get_by_id pg id
    fail_if (not (event.user_id == deleted_by)) forbidden
    Repository.delete pg id
    invalidate_month event.user_id event.start_time

  unfoldable pub update_event : UpdateEventInput → App C Event
  update_event raw = do
    input ← lift (validate_update raw)
    event ← Repository.get_by_id pg input.id
    fail_if (not (event.user_id == input.updated_by)) forbidden
    saved ← wrap "update event" (Repository.update pg (apply_update input event))
    invalidate_month saved.user_id event.start_time
    invalidate_month saved.user_id saved.start_time
    pure saved

  unfoldable pub get_event_stats : String → App C EventStats
  get_event_stats user_id = Repository.stats pg user_id
