-- ===== src/Calendar/Owners.antt =====
-- Whose events a request to the calendar service may touch.
use docflow_web.Base.{
  ℕ, String, ◌≡◌, ◌≢◌, refl, sym, ap, ◌∙◌, true, false, ◌==◌, Option, none, some, List, [], ◌∷◌,
  arith, eq_iff, eq_of_not, Bool-cases, inl, inr, All,
}
use mathlib.Core.Path.{subst}
use docflow_web.Base.Exec.{program, ok}
use docflow_web.Base.Postgres.{Postgres, World, statement}
use docflow_web.Base.Table.{
  update_where, delete_where, is_key, find-cons, find-delete_where, find-update_miss, find_key,
  same_row,
}
use docflow_web.Base.Moves.{
  Preorder, Moves, Moves-wrap, Moves-label, Moves-pure, Moves-bind, Moves-fail_if,
}
use docflow_web.Base.Statements.{on_db, Moves-statement, Moves-query}
use docflow_web.Calendar.Domain.{Event, CreateEventInput, UpdateEventInput, validate_update}
use docflow_web.Calendar.Repository
use docflow_web.Calendar.Repository.{EventDb, App, event_key, find_event, with_fields, insert_row}
use docflow_web.Calendar.Service
use docflow_web.Calendar.Service.{CalendarEnv, EventCache, apply_update}

-- The events of `owner` are all found as they were.
abbrev pub spares : String → Preorder EventDb
spares owner = record {
  rel = λ d e.
      (id : String) (row : Event)
      → find_event id d.events ≡ some row
      → row.user_id ≡ owner
      → find_event id e.events ≡ some row;
  stay = λ d id row h o. h;
  trans = λ c d e p q id row h o. q id row (p id row h o) o;
}

module _ (owner : String) (d : EventDb) where
  abbrev Spared : EventDb → Type 0
  Spared e = (spares owner).rel d e

  insert_row-Spared :
      (row : Event) (o : Option Event)
      → find_event row.id d.events ≡ o
      → Spared (insert_row row o d).1
  insert_row-Spared row none e id r h mine =
      rw (find-cons event_key id row d.events) (ground (arith, eq_iff row.id id))
  insert_row-Spared row (some _) e id r h mine = h

  -- An event of another user is another event.
  missed :
      (k : String) (old : Event)
      → find_event k d.events ≡ some old
      → old.user_id ≢ owner
      → (id : String) (row : Event) → find_event id d.events ≡ some row
      → row.user_id ≡ owner
      → is_key event_key k row ≡ false
  missed k old e other id row h mine = elim (Bool-cases (is_key event_key k row)) [
    | inl m ↦
        absurd
          (other (ap (λ (t : Event). t.user_id) (same_row event_key k id d.events e h m) ∙ mine))
    | inr m ↦ m
  ]

  update-Spared :
      (k : String) (old new : Event) (now : ℕ)
      → find_event k d.events ≡ some old
      → old.user_id ≢ owner
      → Spared
          (record { events = update_where (is_key event_key k) (with_fields new now) d.events })
  update-Spared k old new now e other id row h mine =
      find-update_miss event_key (is_key event_key k) (with_fields new now) (λ r. refl) id d.events
        h (missed k old e other id row h mine)

  delete-Spared :
      (k : String) (old : Event)
      → find_event k d.events ≡ some old
      → old.user_id ≢ owner
      → Spared (record { events = delete_where (is_key event_key k) d.events })
  delete-Spared k old e other id row h mine =
      rw (find-delete_where event_key k id d.events) (elim (Bool-cases (k == id)) [
        | inl m ↦
            let one : row.id ≡ id = find_key event_key id d.events h in
            let hit : is_key event_key k row ≡ true =
              rw (one, (eq_iff k id).0 m) ((eq_iff id id).1 refl) in
            differ (sym hit ∙ missed k old e other id row h mine)
        | inr m ↦ rw m h
      ])
    where
      differ : {P : Type 0} → true ≡ false → P
      differ q = cc

module _ {C : Type 0} (owner : String) where
  -- The program spares the owner's events.
  abbrev Keeps : {A : Type 0} → App C A → World EventDb C → Type 0
  Keeps m w = Moves (on_db {O = C} (spares owner)) m w

  module _ (pg : Postgres) where
    Keeps-get_by_id : (id : String) (w : World EventDb C) → Keeps (Repository.get_by_id pg id) w
    unfolding Repository.get_by_id
    Keeps-get_by_id id w = Moves-label _ _ _ w (Moves-query _ pg _ w (λ n d. refl))

    get_by_id-found :
        (id : String) (w : World EventDb C) {e : Event}
        → (Repository.get_by_id pg id w).0 ≡ ok e
        → find_event id (Repository.get_by_id pg id w).1.db.events ≡ some e
    unfolding Repository.get_by_id program statement
    get_by_id-found id w h = ground arith

    Keeps-create : (e : Event) (w : World EventDb C) → Keeps (Repository.create pg e) w
    unfolding Repository.create
    Keeps-create e w = Moves-statement _ pg _ w (insert_row-Spared owner w.db _ _ refl)

    Keeps-update :
        (e : Event) (w : World EventDb C) {old : Event}
        → find_event e.id w.db.events ≡ some old
        → old.user_id ≢ owner
        → Keeps (Repository.update pg e) w
    unfolding Repository.update
    Keeps-update e w {old} h other = Moves-label _ _ _ w (
        Moves-statement _ pg _ w
          (rw h (update-Spared owner w.db e.id old e (pg.now w.calls) h other)))

    Keeps-delete :
        (id : String) (w : World EventDb C) {old : Event}
        → find_event id w.db.events ≡ some old
        → old.user_id ≢ owner
        → Keeps (Repository.delete pg id) w
    unfolding Repository.delete
    Keeps-delete id w {old} h other =
        Moves-label _ _ _ w
          (Moves-statement _ pg _ w (rw h (delete-Spared owner w.db id old h other)))

-- The requests that change events.
pub data Request : Type 0 where
  create : CreateEventInput → Request
  update : UpdateEventInput → Request
  delete : String → String → Request

-- The request is not made in the name of the owner.
abbrev pub ByOther : String → Request → Type 0
ByOther owner (create i) = Unit
ByOther owner (update i) = i.updated_by ≢ owner
ByOther owner (delete id by) = by ≢ owner

same_actor : (i j : UpdateEventInput) → validate_update i ≡ ok j → j.updated_by ≡ i.updated_by
unfolding validate_update
same_actor i j h = ground arith

module _ {C : Type 0} (env : CalendarEnv C) where
  open env use {pg}

  abbrev pub respond : Request → World EventDb C → World EventDb C
  respond (create i) w = (Service.create_event env i w).1
  respond (update i) w = (Service.update_event env i w).1
  respond (delete id by) w = (Service.delete_event env id by w).1

  abbrev pub serve : World EventDb C → List Request → World EventDb C
  serve w [] = w
  serve w (r ∷ rs) = serve (respond r w) rs

  module _ (owner : String) where
    Keeps-invalidate_month :
        (user_id : String) (at : ℕ) (w : World EventDb C)
        → Keeps owner (Service.invalidate_month env user_id at) w
    unfolding Service.invalidate_month
    Keeps-invalidate_month user_id at w = go env.cache
      where
        go : (o : Option (EventCache C)) → Keeps owner (Service.invalidate_in env o user_id at) w
        go none = record { at = λ id row h o. h }
        go (some cache) = record { at = λ id row h o. h }

    Keeps-create_event :
        (i : CreateEventInput) (w : World EventDb C) → Keeps owner (Service.create_event env i) w
    unfolding Service.create_event
    Keeps-create_event i w =
        Moves-bind _ _ _ w (record { at = λ id row h o. h })
          λ j _.
            Moves-bind _ _ _ w (Moves-wrap _ _ _ w (Keeps-create owner pg _ w))
              λ e _. Moves-bind _ _ _ _ (Keeps-invalidate_month _ _ _) λ _ _. Moves-pure _ _ _

    Keeps-delete_event :
        (id by : String) (w : World EventDb C)
        → by ≢ owner
        → Keeps owner (Service.delete_event env id by) w
    unfolding Service.delete_event
    Keeps-delete_event id by w other = Moves-fail_if _ _ _ _ w λ _.
        Moves-bind _ _ _ w (Keeps-get_by_id owner pg id w) λ e found. Moves-fail_if _ _ _ _ _ λ own.
          Moves-bind _ _ _ _
            (Keeps-delete owner pg id _ (get_by_id-found owner pg id w found)
              (λ mine. other (sym (eq_of_not _ _ own) ∙ mine)))
            λ _ _. Keeps-invalidate_month _ _ _

    Keeps-update_event :
        (i : UpdateEventInput) (w : World EventDb C)
        → i.updated_by ≢ owner
        → Keeps owner (Service.update_event env i) w
    unfolding Service.update_event Service.apply_update
    Keeps-update_event i w other =
        Moves-bind _ _ _ w (record { at = λ id row h o. h })
          λ j checked. Moves-bind _ _ _ w (Keeps-get_by_id owner pg j.id w) λ e found.
            Moves-fail_if _ _ _ _ _ λ own.
              let row = get_by_id-found owner pg j.id w found in
              Moves-bind _ _ _ _
                (Moves-wrap _ _ _ _ (
                  Keeps-update owner pg (apply_update j e) _
                    (subst
                      (λ k.
                        find_event k (Repository.get_by_id pg {C = C} j.id w).1.db.events ≡ some e)
                      (sym (find_key event_key j.id _ row)) row)
                    (λ mine.
                      other (sym (same_actor i j checked) ∙ sym (eq_of_not _ _ own) ∙ mine))))
                λ saved _.
                  Moves-bind _ _ _ _ (Keeps-invalidate_month _ _ _)
                    λ _ _. Moves-bind _ _ _ _ (Keeps-invalidate_month _ _ _) λ _ _. Moves-pure _ _ _

    Keeps-respond :
        (r : Request) (w : World EventDb C)
        → ByOther owner r
        → (spares owner).rel w.db (respond r w).db
    Keeps-respond (create i) w other = (Keeps-create_event i w).at
    Keeps-respond (update i) w other = (Keeps-update_event i w other).at
    Keeps-respond (delete id by) w other = (Keeps-delete_event id by w other).at

    -- After any requests of other users, and any failures, an event of `owner` is found with the
    -- very same fields.
    pub serve_events-spared :
        (w : World EventDb C) (rs : List Request) (id : String) (row : Event)
        → All (ByOther owner) rs
        → find_event id w.db.events ≡ some row
        → row.user_id ≡ owner
        → find_event id (serve w rs).db.events ≡ some row
    serve_events-spared w [] id row others h mine = h
    serve_events-spared w (r ∷ rs) id row (other, others) h mine =
        serve_events-spared (respond r w) rs id row others (Keeps-respond r w other id row h mine)
          mine
