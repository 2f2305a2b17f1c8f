-- ===== src/Document/Writes.antt =====
-- What the programs inside the methods of document_service.go do to the table of documents.
use docflow_web.Base.{
  ℕ, String, ◌≡◌, refl, Bool, Option, none, some, List, arith, eq_iff, Option-cases, inl, inr,
}
use docflow_web.Base.Exec.{program, pure}
use docflow_web.Base.Table.{is_key, update_where, find_key, find-update_hit}
use docflow_web.Base.Postgres.{Postgres, statement}
use docflow_web.Base.Paging.{Window}
use docflow_web.Base.Moves.{Moves-wrap, Moves-pure, Moves-bind, Moves-if}
use docflow_web.Base.Statements.{Moves-query}
use docflow_web.Document.Domain.{Document, HistoryEntry}
use docflow_web.Document.Repository
use docflow_web.Document.Repository.{
  DocumentDb, DocumentWorld, with_responsible, App, document_key, find_document, is_late,
}
use docflow_web.Document.Service
use docflow_web.Document.Service.{DocumentEnv, new_document}
use docflow_web.Document.Lifecycle.{here}
use docflow_web.Document.Effects.{Lives, Lives-create_entry}

-- The table has a row for the id, in the status of `t`.
abbrev pub IsStill : String → Document → List Document → Type 0
IsStill id t ts = (old : Document) × (find_document id ts ≡ some old) × (old.status ≡ t.status)

module _ (pg : Postgres) (id who : String) (w : DocumentWorld) where
  written :
      {t : Document}
      → pg.fault w.calls ≡ none
      → find_document id w.db.documents ≡ some t
      → (Repository.set_responsible pg id who w).1.db.documents
        ≡ update_where
            (is_key document_key id)
            (with_responsible who (pg.now w.calls))
            w.db.documents
  unfolding Repository.set_responsible program statement
  written up e = ground arith

  unwritten :
      {text : String}
      → pg.fault w.calls ≡ some text
      → (Repository.set_responsible pg id who w).1.db.documents ≡ w.db.documents
  unfolding Repository.set_responsible program statement
  unwritten down = ground arith

  pub set_responsible-IsStill :
      {t : Document}
      → find_document id w.db.documents ≡ some t
      → IsStill id t (Repository.set_responsible pg id who w).1.db.documents
  set_responsible-IsStill {t} e = elim (Option-cases (pg.fault w.calls)) [
    | inl up ↦ rw (written up e) (
        let f = with_responsible who (pg.now w.calls) in
        let own = (eq_iff t.id id).1 (find_key document_key id w.db.documents e) in
        (
          f t,
          find-update_hit document_key (is_key document_key id) f (λ r. refl) id w.db.documents e
              own,
          refl,
        ))
    | inr (_, down) ↦ rw (unwritten down) (t, e, refl)
  ]

module _ (env : DocumentEnv) where
  open env use {pg}

  pub Lives-notify_document_event :
      (t : Document) (category title body : String) (w : DocumentWorld)
      → Lives (Service.notify_document_event env t category title body) w
  unfolding Service.notify_document_event pure
  Lives-notify_document_event t category title body w =
      Moves-if _ env.has_notification _ _ w (record { at = here }) (record { at = here })

  pub Lives-create_calendar_event :
      (t : Document) (event_type : String) (w : DocumentWorld)
      → Lives (Service.create_calendar_event env t event_type) w
  unfolding Service.create_calendar_event
  Lives-create_calendar_event t event_type w = go t.deadline
    where
      go : (at : Option ℕ) → Lives (Service.events_at env t event_type at) w
      go none = Moves-pure _ tt w
      go (some at) = Moves-if _ env.has_calendar _ _ w (record { at = here }) (Moves-pure _ tt w)

  pub Lives-when_some :
      {A : Type 0} (o : Option A) (m : App (Unit {0})) (w : DocumentWorld)
      → Lives m w
      → Lives (Service.when_some env o m) w
  Lives-when_some none m w h = Moves-pure _ tt w
  Lives-when_some (some _) m w h = h

  pub record_history-same :
      (e : HistoryEntry) (w : DocumentWorld)
      → (Service.record_history env e w).1.db.documents ≡ w.db.documents
  unfolding Repository.create_entry program statement
  record_history-same e w = ground arith

  pub Lives-record_history :
      (e : HistoryEntry) (w : DocumentWorld) → Lives (Service.record_history env e) w
  Lives-record_history e w =
      Moves-bind _ _ _ w (Moves-wrap _ _ _ w (Lives-create_entry pg e w)) (λ a _. Moves-pure _ tt _)

  pub Lives-list :
      {R : Type 0} (count_msg list_msg : String) (table : DocumentDb → List R)
      (newest_first : ℕ → List R → List R) (p : R → Bool) (f : Window) (w : DocumentWorld)
      → Lives (Repository.list_where pg count_msg list_msg table newest_first p f) w
  Lives-list count_msg list_msg table newest_first p f w =
      Moves-bind _ _ _ w (Moves-wrap _ _ _ w (Moves-query _ pg _ w (λ n d. refl))) λ total _.
        Moves-bind _ _ _ _ (Moves-wrap _ _ _ _ (Moves-query _ pg _ _ (λ n d. refl)))
          λ rows _. Moves-pure _ _ _
