-- ===== src/Calendar/Tests.antt =====
-- A small calendar with two events, and runs of the theorems on it.
use docflow_web.Base.{ℕ, suc, ◌≡◌, ◌≢◌, ◌≤◌, refl, true, none, some, List, [], ◌∷◌, ne_of_eq_false}
use docflow_web.Base.Exec.{program, ok}
use docflow_web.Base.Postgres.{World, statement}
use docflow_web.Base.Table.{find}
use docflow_web.Base.Text.{trim_space}
use docflow_web.Calendar.Domain.{Event, CreateEventInput, type_valid, validate_create}
use docflow_web.Calendar.Repository
use docflow_web.Calendar.Repository.{EventDb, find_event}
use docflow_web.Calendar.Service
use docflow_web.Calendar.Service.{CalendarEnv, EventCache}
use docflow_web.Calendar.Owners.{Request, serve, serve_events-spared}
use docflow_web.Calendar.Order.{end_only, update_event-end_only, create_event-ordered}

-- A cache that counts how often a month was dropped.
abbrev counter : EventCache ℕ
counter = record { invalidate_month = λ user_id year month n. suc n }

abbrev env : CalendarEnv ℕ
env = record {
  pg = record { fault = λ _. none; now = λ n. 100; new_id = λ _. "n" };
  cache = some counter;
  year = λ at. 1970;
  month = λ at. 1;
}

abbrev standup : Event
standup = record {
  id = "a";
  user_id = "al";
  title = "Standup";
  description = "";
  event_type = "meeting";
  ref_id = "";
  ref_type = "";
  start_time = 10;
  end_time = 20;
  created_at = 1;
  updated_at = 1;
}

abbrev review : Event
review = record standup { id = "b"; user_id = "bo" }

abbrev world : World EventDb ℕ
world = record { calls = 0; db = record { events = standup ∷ review ∷ [] }; out = 0 }

finds_standup : find_event "a" world.db.events ≡ some standup
unfolding find
finds_standup = refl

not_al : "bo" ≢ standup.user_id
not_al = ne_of_eq_false "bo" "al" refl

abbrev requests : List Request
requests = Request.delete "a" "bo" ∷ Request.update (end_only "b" "bo" 5) ∷ []

serve_events-spared_example : find_event "a" (serve env world requests).db.events ≡ some standup
serve_events-spared_example =
    serve_events-spared env "al" world requests "a" standup (not_al, (not_al, tt)) finds_standup
      refl

update_event-end_only_example :
    let out = Service.update_event env (end_only "a" "al" 5) world in
    (out.0 ≡ ok (record standup { end_time = 5; updated_at = 100 }))
    × (find_event "a" out.1.db.events ≡ some (record standup { end_time = 5; updated_at = 100 }))
update_event-end_only_example =
    update_event-end_only env "a" "al" 5 world (λ n. refl) (ne_of_eq_false "a" "" refl)
      (ne_of_eq_false "al" "" refl) finds_standup refl

abbrev lunch : CreateEventInput
lunch = record {
  title = "Lunch";
  description = "";
  event_type = "";
  user_id = "al";
  ref_id = "";
  ref_type = "";
  start_time = 30;
  end_time = 0;
}

abbrev stored_lunch : Event
stored_lunch = record {
  id = "n";
  user_id = "al";
  title = "Lunch";
  description = "";
  event_type = "reminder";
  ref_id = "";
  ref_type = "";
  start_time = 30;
  end_time = 30;
  created_at = 100;
  updated_at = 100;
}

creates : (Service.create_event env lunch world).0 ≡ ok stored_lunch
unfolding Service.create_event Service.invalidate_month Repository.create validate_create trim_space
    statement program find
creates = refl

create_event-ordered_example :
    (type_valid stored_lunch.event_type ≡ true)
    × (stored_lunch.start_time ≤ stored_lunch.end_time)
    × ((Service.create_event env lunch world).1.db.events ≡ stored_lunch ∷ world.db.events)
create_event-ordered_example = create_event-ordered env lunch world creates
