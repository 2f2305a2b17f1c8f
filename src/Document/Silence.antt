-- ===== src/Document/Silence.antt =====
-- Which programs inside the methods of document_service.go cannot fail with a sentinel, and which
-- change no table when they do.
use docflow_web.Base.{ℕ, String, ◌≡◌, refl, Option, none, some}
use docflow_web.Base.Exec.{◌>>=◌, pure, cause_of}
use docflow_web.Base.Refusals.{
  Plain, Clean, Quiet, Plain-pure, Plain-wrap, Clean-label, Quiet-label, Plain-if, Plain-bind,
}
use docflow_web.Base.Statements.{Quiet-statement, Plain-statement, Clean-statement}
use docflow_web.Document.Domain.{DocumentError, Document, HistoryEntry}
use docflow_web.Document.Repository
use docflow_web.Document.Repository.{
  DocumentDb, DocumentWorld, App, find_document, affect, insert_row, insert_entry,
}
use docflow_web.Document.Service
use docflow_web.Document.Service.{DocumentEnv}

pub affect-same :
    {A : Type 0} (o : Option Document) (a : A) (d d' : DocumentDb) (s : DocumentError)
    → cause_of (affect o a d d').0 ≡ some s
    → (affect o a d d').1 ≡ d
affect-same none a d d' s e = refl
affect-same (some _) a d d' s e = cc

pub insert_row-plain :
    (row : Document) (o : Option Document) (d : DocumentDb) → cause_of (insert_row row o d).0 ≡ none
insert_row-plain row none d = refl
insert_row-plain row (some _) d = refl

pub insert_entry-plain :
    (e : HistoryEntry) (o : Option Document) (d : DocumentDb)
    → cause_of (insert_entry e o d).0 ≡ none
insert_entry-plain e none d = refl
insert_entry-plain e (some _) d = refl

module _ (env : DocumentEnv) where
  open env use {pg}

  pub Quiet-get : (id : String) (w : DocumentWorld) → Quiet (Repository.get_by_id pg id) w
  unfolding Repository.get_by_id
  Quiet-get id w = Quiet-label _ _ w (Quiet-statement pg _ w refl)

  pub Clean-set_responsible :
      (id who : String) (w : DocumentWorld) → Clean (Repository.set_responsible pg id who) w
  unfolding Repository.set_responsible
  Clean-set_responsible id who w = Clean-label _ _ w (Clean-statement pg _ w (affect-same _ _ _ _))

  pub Plain-history :
      (e : HistoryEntry) (w : DocumentWorld) → Plain (Service.record_history env e) w
  unfolding Repository.create_entry
  Plain-history e w =
      Plain-bind _ _ w
        (Plain-wrap _ _ w (Plain-wrap _ _ w (Plain-statement pg _ w (insert_entry-plain _ _ w.db))))
        λ _ _. Plain-pure tt _

  pub Plain-notify :
      (t : Document) (category title body : String) (w : DocumentWorld)
      → Plain (Service.notify_document_event env t category title body) w
  unfolding Service.notify_document_event
  Plain-notify t category title body w =
      Plain-if env.has_notification _ _ w (record { at = refl }) (Plain-pure tt w)

  pub Plain-calendar :
      (t : Document) (event_type : String) (w : DocumentWorld)
      → Plain (Service.create_calendar_event env t event_type) w
  unfolding Service.create_calendar_event
  Plain-calendar t event_type w = go t.deadline
    where
      go : (at : Option ℕ) → Plain (Service.events_at env t event_type at) w
      go none = Plain-pure tt w
      go (some at) = Plain-if env.has_calendar _ _ w (record { at = refl }) (Plain-pure tt w)

  pub Plain-when_some :
      {A : Type 0} (o : Option A) (m : App (Unit {0})) (w : DocumentWorld)
      → Plain m w
      → Plain (Service.when_some env o m) w
  Plain-when_some none m w h = Plain-pure tt w
  Plain-when_some (some _) m w h = h

  -- What follows the last write of a document: history, notification, answer.
  pub Plain-report :
      (e : HistoryEntry) (t answer : Document) (category title body : String) (w : DocumentWorld)
      → Plain
          (Service.record_history env e >>= λ (_ : Unit {0}).
            Service.notify_document_event env t category title body >>= λ _. pure answer)
          w
  Plain-report e t answer category title body w =
      Plain-bind _ _ w (Plain-history e w)
        λ _ _. Plain-bind _ _ _ (Plain-notify t category title body _) λ _ _. Plain-pure answer _
