-- ===== src/Calendar/Order.antt =====
-- Whether an event ends after it starts: what `CreateEvent` sees to, and `UpdateEvent` does not.
use docflow_web.Base.{
  ℕ, String, ◌≡◌, ◌≢◌, ◌≤◌, refl, sym, ap, ◌∙◌, suc, Bool, true, false, not, ◌||◌, ◌==◌, Option,
  none, some, ◌∷◌, arith, eq_iff, ltb, nat_eq, if◌then◌else◌,
}
use mathlib.Core.Path.{subst}
use docflow_web.Base.Exec.{
  program, Result, ok, err, sentinel, ◌>>=◌, pure, wrap, returned, ok_of_wrap, wrap_state, passes,
  bind_runs, wrap_runs,
}
use docflow_web.Base.Postgres.{World, statement}
use docflow_web.Base.Table.{update_where, is_key, find-update_hit, find_key}
use docflow_web.Calendar.Domain.{
  Event, EventError, invalid_input, CreateEventInput, UpdateEventInput, validate_create,
  validate_update, normal_create, type_valid,
}
use docflow_web.Calendar.Repository
use docflow_web.Calendar.Repository.{EventDb, App, event_key, find_event, with_fields}
use docflow_web.Calendar.Service
use docflow_web.Calendar.Service.{CalendarEnv, EventCache, apply_update}

-- An update of the end alone.
abbrev pub end_only : String → String → ℕ → UpdateEventInput
end_only id by to = record {
  id = id;
  title = none;
  description = none;
  start_time = none;
  end_time = some to;
  updated_by = by;
}

end_only-valid :
    (id by : String) (to : ℕ)
    → id ≢ ""
    → by ≢ ""
    → validate_update (end_only id by to) ≡ ok (end_only id by to)
unfolding validate_update
end_only-valid id by to has_id has_by = ground (arith, eq_iff id "", eq_iff by "")

-- What passes the tests of `CreateEventInput.Validate`.
create_passed :
    (a b c d : Bool) (x j : CreateEventInput)
    → (if a
        then err (sentinel invalid_input)
        else if not b
        then err (sentinel invalid_input)
        else if c
        then err (sentinel invalid_input)
        else if d
        then err (sentinel invalid_input)
        else ok x)
      ≡ ok j
    → (b ≡ true) × (c ≡ false) × (d ≡ false) × (x ≡ j)
create_passed true b c d x j h = cc
create_passed false false c d x j h = cc
create_passed false true true d x j h = cc
create_passed false true false true x j h = cc
create_passed false true false false x j h = (refl, refl, refl, ground arith)

ordered : (a b : ℕ) → ltb b a ≡ false → a ≤ b
ordered a b h = ground arith

validate_create-ordered :
    (i j : CreateEventInput)
    → validate_create i ≡ ok j
    → (type_valid j.event_type ≡ true) × (j.start_time ≤ j.end_time)
unfolding validate_create
validate_create-ordered i j h =
    let k = normal_create i in
    let (typed, starts, order, same) =
      create_passed (k.title == "" || k.user_id == "") (type_valid k.event_type)
        (nat_eq k.start_time 0) (ltb k.end_time k.start_time) k j h in
    subst (λ (x : CreateEventInput). (type_valid x.event_type ≡ true) × (x.start_time ≤ x.end_time))
      same (typed, ordered k.start_time k.end_time order)

module _ {C : Type 0} (env : CalendarEnv C) where
  open env use {pg}

  abbrev EventWorld : Type 0
  EventWorld = World EventDb C

  get_by_id-runs :
      (id : String) (w : EventWorld) {e : Event}
      → pg.fault w.calls ≡ none
      → find_event id w.db.events ≡ some e
      → Repository.get_by_id pg id w ≡ (ok e, record w { calls = suc w.calls })
  unfolding Repository.get_by_id program statement
  get_by_id-runs id w f h = ground arith

  update-runs :
      (e : Event) (w : EventWorld) {old : Event}
      → pg.fault w.calls ≡ none
      → find_event e.id w.db.events ≡ some old
      → Repository.update pg e w ≡ (
        ok (record e { updated_at = pg.now w.calls }),
        record w {
          calls = suc w.calls;
          db = record {
            events =
                update_where (is_key event_key e.id) (with_fields e (pg.now w.calls)) w.db.events;
          };
        },
      )
  unfolding Repository.update program statement
  update-runs e w f h = ground arith

  -- What follows the write returns, and leaves the table alone.
  telling_in :
      (o : Option (EventCache C)) (a b : ℕ) (user_id : String) (e : Event) (w : EventWorld)
      → let m = Service.invalidate_in env o user_id a >>= λ (_ : Unit {0}).
          Service.invalidate_in env o user_id b >>= λ _. pure e in
        ((m w).0 ≡ ok e) × ((m w).1.db ≡ w.db)
  unfolding program
  telling_in none a b user_id e w = (refl, refl)
  telling_in (some cache) a b user_id e w = (refl, refl)

  telling :
      (a b : ℕ) (user_id : String) (e : Event) (w : EventWorld)
      → let m = Service.invalidate_month env user_id a >>= λ (_ : Unit {0}).
          Service.invalidate_month env user_id b >>= λ _. pure e in
        ((m w).0 ≡ ok e) × ((m w).1.db ≡ w.db)
  unfolding Service.invalidate_month
  telling a b user_id e w = telling_in env.cache a b user_id e w

  -- If no statement fails, `UpdateEvent` of the end alone, by the event's own user, is not checked
  -- against the start that is stored: any end is written, also one before the start.
  pub update_event-end_only :
      (id by : String) (to : ℕ) (w : EventWorld) {row : Event}
      → ((n : ℕ) → pg.fault n ≡ none)
      → id ≢ ""
      → by ≢ ""
      → find_event id w.db.events ≡ some row
      → row.user_id ≡ by
      → let out = Service.update_event env (end_only id by to) w in
        let now = pg.now (suc w.calls) in
        (out.0 ≡ ok (record row { end_time = to; updated_at = now }))
        × (find_event id out.1.db.events ≡ some (record row { end_time = to; updated_at = now }))
  unfolding Service.update_event Service.apply_update
  update_event-end_only id by to w {row} up has_id has_by h mine =
      let i = end_only id by to in
      let now = pg.now (suc w.calls) in
      let changed = record row { end_time = to } in
      let saved = record row { end_time = to; updated_at = now } in
      let own : row.id ≡ id = find_key event_key id w.db.events h in
      let at_own : find_event row.id w.db.events ≡ some row =
        subst (λ k. find_event k w.db.events ≡ some row) (sym own) h in
      let read : EventWorld = record w { calls = suc w.calls } in
      let wrote : EventWorld = record w {
        calls = suc (suc w.calls);
        db = record {
          events = update_where (is_key event_key row.id) (with_fields changed now) w.db.events;
        };
      } in
      let valid : Service.lift (validate_update i) w ≡ (ok i, w) =
        ap (λ (r : Result EventError UpdateEventInput). (r, w))
          (end_only-valid id by to has_id has_by) in
      let run : Service.update_event env i w
          ≡ (Service.invalidate_month env row.user_id row.start_time >>= λ (_ : Unit {0}).
                Service.invalidate_month env row.user_id row.start_time >>= λ _. pure saved)
              wrote =
        bind_runs _ _ w w valid
        ∙ bind_runs _ _ w read (get_by_id-runs id w (up _) h)
        ∙ passes _ _ _ read (ground (arith, mine, eq_iff row.user_id by))
        ∙ bind_runs _ _ read wrote
            (wrap_runs _ _ read wrote (update-runs changed read (up _) at_own)) in
      let (said, kept) = telling row.start_time row.start_time row.user_id saved wrote in
      let stored : find_event id wrote.db.events ≡ some saved =
        find-update_hit event_key (is_key event_key row.id) (with_fields changed now) (λ r. refl) id
          w.db.events h ((eq_iff row.id row.id).1 refl) in
      (
        ap (λ (p : Result EventError Event × EventWorld). p.0) run ∙ said,
        ap (λ (p : Result EventError Event × EventWorld). find_event id p.1.db.events) run
            ∙ ap (λ (d : EventDb). find_event id d.events) kept
            ∙ stored,
      )

  create-ok :
      (e : Event) (w : EventWorld) {a : Event}
      → (Repository.create pg e w).0 ≡ ok a
      → (a ≡ record e {
        id = pg.new_id w.calls;
        created_at = pg.now w.calls;
        updated_at = pg.now w.calls;
      })
        × ((Repository.create pg e w).1.db ≡ record { events = a ∷ w.db.events })
  unfolding Repository.create statement
  create-ok e w h = (ground arith, ground arith)

  told_in :
      (o : Option (EventCache C)) (at : ℕ) (user_id : String) (e a : Event) (w : EventWorld)
      → let m = Service.invalidate_in env o user_id at >>= λ (_ : Unit {0}). pure e in
        (m w).0 ≡ ok a → (a ≡ e) × ((m w).1.db ≡ w.db)
  unfolding program
  told_in none at user_id e a w h = (ground arith, refl)
  told_in (some cache) at user_id e a w h = (ground arith, refl)

  -- If `CreateEvent` answers with an event, it has one of the four types, does not end before it
  -- starts, and is the row that the table has gained.
  pub create_event-ordered :
      (i : CreateEventInput) (w : EventWorld) {a : Event}
      → (Service.create_event env i w).0 ≡ ok a
      → (type_valid a.event_type ≡ true)
        × (a.start_time ≤ a.end_time)
        × ((Service.create_event env i w).1.db.events ≡ a ∷ w.db.events)
  unfolding Service.create_event Service.invalidate_month
  create_event-ordered i w {a} h =
      let r = returned _ (Service.lift (validate_create i)) w h in
      let make = wrap "create event" (Repository.create pg (Service.new_event r.value)) in
      let s = returned _ make w r.second in
      let (made, stored) = create-ok (Service.new_event r.value) w (ok_of_wrap _ _ w s.first) in
      let (same, kept) =
        told_in env.cache s.value.start_time s.value.user_id s.value a (make w).1 s.second in
      let (typed, order) = validate_create-ordered i r.value r.first in
      let whole = same ∙ made in
      (
        ap (λ (e : Event). type_valid e.event_type) whole ∙ typed,
        subst (λ (e : Event). e.start_time ≤ e.end_time) (sym whole) order,
        ap (λ (v : EventWorld). v.db.events) r.state
            ∙ ap (λ (v : EventWorld). v.db.events) s.state
            ∙ ap (λ (d : EventDb). d.events) kept
            ∙ ap (λ (v : EventWorld). v.db.events) (wrap_state _ _ w)
            ∙ ap (λ (d : EventDb). d.events) stored
            ∙ ap (λ (e : Event). e ∷ w.db.events) (sym same),
      )
