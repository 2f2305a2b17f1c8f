-- ===== src/Calendar/Repository.antt =====
-- services/calendar-service/internal/repository/event_repository.go, over the table of
-- postgres/005_calendar_init.sql: the statements on one event, and the statistics.
use docflow_web.Base.{
  ℕ, String, Bool, true, Option, none, some, List, ◌∷◌, ◌==◌, if◌then◌else◌, length,
}
use docflow_web.Base.Exec.{Exec, Result, ok, err, sentinel, external, label}
use docflow_web.Base.Postgres.{Postgres, World, statement}
use docflow_web.Base.Table.{select, update_where, delete_where, count_where, find, is_key}
use docflow_web.Calendar.Domain.{EventError, event_not_found, Event, EventStats}

pub record EventDb : Type 0 where
  pub events : List Event

abbrev pub event_key : Event → String
event_key e = e.id

abbrev pub find_event : String → List Event → Option Event
find_event = find event_key

-- `SET title, description, start_time, end_time, updated_at = NOW()`
abbrev pub with_fields : Event → ℕ → Event → Event
with_fields new now e = record e {
  title = new.title;
  description = new.description;
  start_time = new.start_time;
  end_time = new.end_time;
  updated_at = now;
}

abbrev pub insert_row : Event → Option Event → EventDb → Result EventError Event × EventDb
insert_row row none d = (ok row, record { events = row ∷ d.events })
insert_row row (some _) d = (err (external "duplicate key"), d)

-- An UPDATE or DELETE of one event: the error when no row is affected.
abbrev pub affect :
    {A : Type 0} → Option Event → A → EventDb → EventDb → Result EventError A × EventDb
affect none a d d' = (err (sentinel event_not_found), d)
affect (some _) a d d' = (ok a, d')

abbrev pub found : Option Event → Result EventError Event
found none = err (sentinel event_not_found)
found (some e) = ok e

-- The rows that the two queries of `Stats` count: all, or those of one user.
abbrev pub counted : String → Event → Bool
counted user_id e = if user_id == "" then true else e.user_id == user_id

-- `C` is the state of the cache that the service is given.
abbrev pub App : Type 0 → Type 0 → Type 0
App C A = Exec EventError (World EventDb C) A

module _ (pg : Postgres) where
  -- `Create`
  unfoldable pub create : {C : Type 0} → Event → App C Event
  create e = statement pg λ n d.
      let row = record e { id = pg.new_id n; created_at = pg.now n; updated_at = pg.now n } in
      insert_row row (find_event row.id d.events) d

  -- `GetByID`
  unfoldable pub get_by_id : {C : Type 0} → String → App C Event
  get_by_id id = label "get event by id" (statement pg λ n d. (found (find_event id d.events), d))

  -- `Update` returns the event with the `updated_at` that the statement wrote.
  unfoldable pub update : {C : Type 0} → Event → App C Event
  update e = label "update event" (
      statement pg λ n d.
        affect (find_event e.id d.events) (record e { updated_at = pg.now n }) d
          (record {
            events = update_where (is_key event_key e.id) (with_fields e (pg.now n)) d.events;
          }))

  -- `Delete`
  unfoldable pub delete : {C : Type 0} → String → App C (Unit {0})
  delete id = label "delete event" (
      statement pg λ n d.
        affect (find_event id d.events) tt d
          (record { events = delete_where (is_key event_key id) d.events }))

  -- `Stats`
  unfoldable pub stats : {C : Type 0} → String → App C EventStats
  stats user_id = label "get event stats" (
      statement pg λ n d.
        let rows = select (counted user_id) d.events in
        let count : String → ℕ = λ t. count_where (λ e. e.event_type == t) rows in
        (
          ok (record {
            total = length rows;
            deadlines = count "deadline";
            tasks = count "task";
            meetings = count "meeting";
            reminders = count "reminder";
          }),
          d,
        ))
