-- ===== src/Document/Service.antt =====
-- services/document-service/internal/service/document_service.go, but for the export.
use Prim.Native.String
use docflow_web.Base.{
  ℕ, String, Bool, true, false, ◌||◌, not, Option, none, some, List, [], ◌∷◌, ◌++◌, ◌==◌,
  if◌then◌else◌, map,
}
use docflow_web.Base.Text.{trim_space}
use docflow_web.Base.Exec.{Result, ok, pure, wrap, ignore, fail_if, ◌>>=◌, ◌>>◌}
use docflow_web.Base.Postgres.{Postgres}
use docflow_web.Base.Paging.{normalize}
use docflow_web.Document.Domain.{
  DocumentError, invalid_input, invalid_transition, forbidden, Document, HistoryEntry,
  CreateDocumentInput, validate_create, UpdateDocumentInput, validate_update, ListFilter,
  AdvancedFilter, HistoryFilter, DocumentStats, status_draft, status_assigned, status_overdue,
  status_archived, status_valid, can_transition,
}
use docflow_web.Document.Repository
use docflow_web.Document.Repository.{DocumentWorld, App, NotificationInput, EventInput}

-- What the service is built from. A client that is nil is `false`. `map_order` is the order in
-- which Go happens to range over a map's keys, `quote` is the verb %q, `clock` is `time.Now()`
-- after so many statements.
pub record DocumentEnv : Type 0 where
  pub pg : Postgres
  pub clock : ℕ → ℕ
  pub has_notification : Bool
  pub has_calendar : Bool
  pub newest_first : ℕ → List Document → List Document
  pub latest_first : ℕ → List HistoryEntry → List HistoryEntry
  pub map_order : List String → List String
  pub quote : String → String

infixr 65 ◌<>◌
abbrev pub ◌<>◌ : String → String → String
a <> b = String.◌++◌ a b

abbrev pub entry : String → String → String → String → String → HistoryEntry
entry document_id changed_by field old new = record {
  id = "";
  document_id = document_id;
  changed_by = changed_by;
  field = field;
  old_value = old;
  new_value = new;
  changed_at = 0;
}

abbrev pub lift : {A : Type 0} → Result DocumentError A → App A
lift r w = (r, w)

-- The keys of `recipients`: the creator, and the responsible unless nil, empty or the same.
abbrev pub second : String → Option String → List String
second creator none = []
second creator (some who) = if who == "" || who == creator then [] else who ∷ []

unfoldable pub recipients : Document → List String
recipients t = t.creator_id ∷ second t.creator_id t.responsible_id

abbrev pub or_empty : Option String → String
or_empty none = ""
or_empty (some s) = s

abbrev pub or_else {ℓ} : {A : Type ℓ} → Option A → A → A
or_else none a = a
or_else (some b) a = b

abbrev pub or_keep {ℓ} : {A : Type ℓ} → Option A → Option A → Option A
or_keep none old = old
or_keep (some a) old = some a

-- The fields that `UpdateDocument` overwrites; the file and the tags of the input are not read.
unfoldable pub apply_update : UpdateDocumentInput → Document → Document
apply_update i t = record t {
  title = or_else i.title t.title;
  description = or_else i.description t.description;
  doc_type = or_else i.doc_type t.doc_type;
  deadline = or_keep i.deadline t.deadline;
}

abbrev pub new_document : CreateDocumentInput → Document
new_document i = record {
  id = "";
  title = i.title;
  description = i.description;
  doc_type = i.doc_type;
  status = status_draft;
  creator_id = i.creator_id;
  responsible_id = i.responsible_id;
  deadline = i.deadline;
  file_url = i.file_url;
  tags = i.tags;
  is_overdue = false;
  created_at = 0;
  updated_at = 0;
  archived_at = none;
}

abbrev pub system_actor : String
system_actor = "00000000-0000-0000-0000-000000000000"

-- `if newStatus != domain.StatusOverdue { doc.IsOverdue = false }`
abbrev pub clear_overdue : String → Document → Document
clear_overdue to t = if to == status_overdue then t else record t { is_overdue = false }

module _ (env : DocumentEnv) where
  open env use {pg}

  abbrev pub record_history : HistoryEntry → App (Unit {0})
  record_history e = wrap "record history" (Repository.create_entry pg e) >>= λ _. pure tt

  -- `time.Now()`
  abbrev pub read_clock : App ℕ
  read_clock w = (ok (env.clock w.calls), w)

  abbrev pub notification : Document → String → String → String → String → NotificationInput
  notification t category title body user = record {
    user_id = user;
    document_id = t.id;
    notif_category = category;
    title = title;
    body = body;
    ref_id = t.id;
    ref_type = "document";
  }

  abbrev pub post_notifications : List NotificationInput → App (Unit {0})
  post_notifications ns w =
      (ok tt, record w { out = record (w.out) { notifications = ns ++ w.out.notifications } })

  -- `notifyDocumentEvent`
  unfoldable pub notify_document_event : Document → String → String → String → App (Unit {0})
  notify_document_event t category title body =
      if env.has_notification
      then post_notifications
          (map (notification t category title body) (env.map_order (recipients t)))
      else pure tt

  abbrev pub event : Document → String → ℕ → String → EventInput
  event t event_type at user = record {
    user_id = user;
    title = "Deadline: " <> t.title;
    description = trim_space t.description;
    event_type = event_type;
    start_at = at;
    end_at = at;
    all_day = false;
    ref_id = t.id;
    ref_type = "document";
  }

  abbrev pub post_events : List EventInput → App (Unit {0})
  post_events es w = (ok tt, record w { out = record (w.out) { events = es ++ w.out.events } })

  abbrev pub events_at : Document → String → Option ℕ → App (Unit {0})
  events_at t event_type none = pure tt
  events_at t event_type (some at) =
      if env.has_calendar
      then post_events (map (event t event_type at) (env.map_order (recipients t)))
      else pure tt

  -- `createCalendarEvent`
  unfoldable pub create_calendar_event : Document → String → App (Unit {0})
  create_calendar_event t event_type = events_at t event_type t.deadline

  abbrev pub when_some {ℓ} : {A : Type ℓ} → Option A → App (Unit {0}) → App (Unit {0})
  when_some none m = pure tt
  when_some (some _) m = m

  unfoldable pub create_document : CreateDocumentInput → App Document
  create_document raw = do
    input ← lift (validate_create raw)
    doc ← wrap "create document" (Repository.create pg (new_document input))
    record_history (entry doc.id input.creator_id "status" "" doc.status)
    notify_document_event doc "new_document" "New document created"
        ("Document " <> env.quote doc.title <> " was created")
    when_some doc.deadline (create_calendar_event doc "document_due")
    pure doc

  unfoldable pub get_document : String → App Document
  get_document id = do fail_if (id == "") invalid_input; Repository.get_by_id pg id

  unfoldable pub update_document : UpdateDocumentInput → App Document
  update_document raw = do
    input ← lift (validate_update raw)
    doc ← Repository.get_by_id pg input.id
    fail_if (doc.status == status_archived) forbidden
    saved ← wrap "update document" (Repository.update pg (apply_update input doc))
    record_history (entry doc.id input.actor_id "document" "" "fields updated")
    when_some input.deadline (create_calendar_event saved "document_due")
    pure saved

  unfoldable pub delete_document : String → String → App (Unit {0})
  delete_document id actor_id = do
    fail_if (id == "" || actor_id == "") invalid_input
    doc ← Repository.get_by_id pg id
    fail_if (not (doc.status == status_draft)) forbidden
    Repository.delete pg id

  unfoldable pub list_documents : ListFilter → App (List Document × ℕ)
  list_documents f = Repository.list pg env.newest_first (normalize f.page f.page_size)

  -- The part of `AssignResponsible` that a draft goes through.
  abbrev pub leave_draft : String → String → Document → App Document
  leave_draft id actor_id doc =
      if doc.status == status_draft
      then (do
        wrap "transition to assigned" (Repository.update_status pg id status_assigned)
        record_history (entry id actor_id "status" doc.status status_assigned)
        pure (record doc { status = status_assigned }))
      else pure doc

  unfoldable pub assign_responsible : String → String → String → App Document
  assign_responsible id responsible_id actor_id = do
    fail_if (id == "" || responsible_id == "" || actor_id == "") invalid_input
    doc ← Repository.get_by_id pg id
    fail_if (doc.status == status_archived) forbidden
    wrap "assign responsible" (Repository.set_responsible pg id responsible_id)
    record_history (entry id actor_id "responsible_id" (or_empty doc.responsible_id) responsible_id)
    assigned ← leave_draft id actor_id (record doc { responsible_id = some responsible_id })
    notify_document_event assigned "assigned" "Document assigned to you"
        ("You were assigned as responsible for document " <> env.quote assigned.title)
    pure assigned

  -- The two writes of `ChangeStatus`, with the document as they leave it in memory.
  abbrev pub write_status : String → String → Document → App Document
  write_status id new_status doc =
      if new_status == status_archived
      then (do
        wrap "archive document" (Repository.archive pg id)
        now ← read_clock
        pure (record doc { status = status_archived; archived_at = some now }))
      else (do
        wrap "change status" (Repository.update_status pg id new_status)
        pure (record doc { status = new_status }))

  unfoldable pub change_status : String → String → String → App Document
  change_status id new_status actor_id = do
    fail_if (id == "" || actor_id == "") invalid_input
    fail_if (not (status_valid new_status)) invalid_input
    doc ← Repository.get_by_id pg id
    fail_if (not (can_transition doc.status new_status)) invalid_transition
    written ← write_status id new_status doc
    let changed = clear_overdue new_status written
    record_history (entry id actor_id "status" doc.status new_status)
    notify_document_event changed "status_changed" "Document status changed" (
        "Document "
        <> env.quote changed.title
        <> " status changed from "
        <> doc.status
        <> " to "
        <> new_status)
    pure changed

  abbrev pub archive_found : String → String → Document → App Document
  archive_found id actor_id doc = do
    fail_if (not (can_transition doc.status status_archived)) invalid_transition
    wrap "archive document" (Repository.archive pg id)
    now ← read_clock
    record_history (entry id actor_id "status" doc.status status_archived)
    pure (record doc { status = status_archived; archived_at = some now })

  unfoldable pub archive_document : String → String → App Document
  archive_document id actor_id = do
    fail_if (id == "" || actor_id == "") invalid_input
    doc ← Repository.get_by_id pg id
    if doc.status == status_archived then pure doc else archive_found id actor_id doc

  unfoldable pub get_document_history : HistoryFilter → App (List HistoryEntry × ℕ)
  get_document_history f = do
    fail_if (f.document_id == "") invalid_input
    Repository.list_history pg env.latest_first f.document_id (normalize f.page f.page_size)

  unfoldable pub filter_documents : AdvancedFilter → App (List Document × ℕ)
  filter_documents f = Repository.filter pg env.newest_first f (normalize f.page f.page_size)

  -- One round of the loop that follows the update in `MarkOverdue`.
  abbrev pub report_overdue : Document → App (Unit {0})
  report_overdue t = do
    ignore (Repository.create_entry pg (entry t.id system_actor "status" t.status status_overdue))
    notify_document_event (record t { status = status_overdue; is_overdue = true }) "overdue"
        "Document is overdue" ("Document " <> env.quote t.title <> " has passed its deadline")

  unfoldable pub report_all : List Document → App (Unit {0})
  report_all [] = pure tt
  report_all (t ∷ ts) = report_overdue t >> report_all ts

  abbrev pub mark_found : List Document → App (List String)
  mark_found [] = pure []
  mark_found (t ∷ ts) = do
    let ids = map (λ (u : Document). u.id) (t ∷ ts)
    wrap "mark documents overdue" (Repository.mark_overdue_by_ids pg ids)
    report_all (t ∷ ts)
    pure ids

  unfoldable pub mark_overdue : App (List String)
  mark_overdue = do
    docs ← wrap "find overdue documents" (Repository.find_overdue pg)
    mark_found docs

  unfoldable pub get_document_stats : App DocumentStats
  get_document_stats = Repository.stats pg
