-- ===== src/Document/Progress.antt =====
-- Where no statement fails, the service answers: what it takes for `ChangeStatus` and
-- `AssignResponsible` to succeed, and what they leave behind.
use docflow_web.Base.{
  ℕ, String, ◌≡◌, ◌≢◌, refl, ap, ◌∙◌, suc, false, ◌==◌, none, some, ◌∷◌, arith, eq_iff,
}
use docflow_web.Base.Exec.{
  program, ok, Result, ◌>>=◌, pure, passes, bind_runs, wrap_runs, pure_runs,
}
use docflow_web.Base.Postgres.{Postgres, statement}
use docflow_web.Base.Table.{update_where, is_key, find-update_hit, find_key}
use docflow_web.Document.Domain.{
  Document, HistoryEntry, DocumentError, status_archived, status_assigned, status_draft,
}
use docflow_web.Document.Repository
use docflow_web.Document.Repository.{
  DocumentDb, DocumentWorld, document_key, find_document, with_status, with_responsible,
}
use docflow_web.Document.Service
use docflow_web.Document.Service.{DocumentEnv, entry, clear_overdue}
use docflow_web.Document.Lifecycle.{Edge, can_transition_of_Edge}
use docflow_web.Document.Invariants.{Edge-status_valid}

-- The world after an UPDATE of one row by its id.
abbrev pub updated : String → (Document → Document) → DocumentWorld → DocumentWorld
updated id f w = record w {
  calls = suc w.calls;
  db = record (w.db) { documents = update_where (is_key document_key id) f w.db.documents };
}

-- The world after an INSERT into the history.
abbrev pub logged : Postgres → HistoryEntry → DocumentWorld → DocumentWorld
logged pg e w = record w {
  calls = suc w.calls;
  db = record (w.db) {
    history = record e { id = pg.new_id w.calls; changed_at = pg.now w.calls } ∷ w.db.history;
  };
}

pub find-updated :
    (id : String) (f : Document → Document) (w : DocumentWorld) {row : Document}
    → ((r : Document) → document_key (f r) ≡ document_key r)
    → find_document id w.db.documents ≡ some row
    → find_document id (updated id f w).db.documents ≡ some (f row)
find-updated id f w {row} same e =
    find-update_hit document_key (is_key document_key id) f same id w.db.documents e
      ((eq_iff row.id id).1 (find_key document_key id w.db.documents e))

module _ (pg : Postgres) where
  get_by_id-runs :
      (id : String) (w : DocumentWorld) {t : Document}
      → pg.fault w.calls ≡ none
      → find_document id w.db.documents ≡ some t
      → Repository.get_by_id pg id w ≡ (ok t, record w { calls = suc w.calls })
  unfolding Repository.get_by_id program statement
  get_by_id-runs id w f e = ground arith

  update_status-runs :
      (id to : String) (w : DocumentWorld) {t : Document}
      → pg.fault w.calls ≡ none
      → find_document id w.db.documents ≡ some t
      → Repository.update_status pg id to w
        ≡ (ok tt, updated id (with_status to (pg.now w.calls)) w)
  unfolding Repository.update_status program statement
  update_status-runs id to w f e = ground arith

  set_responsible-runs :
      (id who : String) (w : DocumentWorld) {t : Document}
      → pg.fault w.calls ≡ none
      → find_document id w.db.documents ≡ some t
      → Repository.set_responsible pg id who w
        ≡ (ok tt, updated id (with_responsible who (pg.now w.calls)) w)
  unfolding Repository.set_responsible program statement
  set_responsible-runs id who w f e = ground arith

  create_entry-runs :
      (e : HistoryEntry) (w : DocumentWorld) {t : Document}
      → pg.fault w.calls ≡ none
      → find_document e.document_id w.db.documents ≡ some t
      → Repository.create_entry pg e w
        ≡ (ok (record e { id = pg.new_id w.calls; changed_at = pg.now w.calls }), logged pg e w)
  unfolding Repository.create_entry program statement
  create_entry-runs e w f h = ground arith

module _ (env : DocumentEnv) where
  open env use {pg}

  record_history-runs :
      (e : HistoryEntry) (w : DocumentWorld) {t : Document}
      → pg.fault w.calls ≡ none
      → find_document e.document_id w.db.documents ≡ some t
      → Service.record_history env e w ≡ (ok tt, logged pg e w)
  record_history-runs e w up h =
      bind_runs _ _ w (logged pg e w)
        (wrap_runs _ _ w (logged pg e w) (create_entry-runs pg e w up h))
      ∙ pure_runs tt (logged pg e w)

  -- The last two steps never fail, and leave the tables alone.
  telling :
      (t answer : Document) (category title body : String) (w : DocumentWorld)
      → (((Service.notify_document_event env t category title body >>= λ _. pure answer) w).0
          ≡ ok answer)
        × (((Service.notify_document_event env t category title body >>= λ _. pure answer) w).1.db
            ≡ w.db)
  unfolding program Service.notify_document_event
  telling t answer category title body w = (ground arith, ground arith)

  write_status-runs :
      (id to : String) (row : Document) (w : DocumentWorld)
      → pg.fault w.calls ≡ none
      → find_document id w.db.documents ≡ some row
      → (to == status_archived) ≡ false
      → Service.write_status env id to row w
        ≡ (ok (record row { status = to }), updated id (with_status to (pg.now w.calls)) w)
  write_status-runs id to row w f e open_end =
      let w' = updated id (with_status to (pg.now w.calls)) w in
      rw open_end (
        bind_runs _ _ w w' (wrap_runs _ _ w w' (update_status-runs pg id to w f e))
        ∙ pure_runs _ w')

  leave_draft-runs :
      (id actor : String) (t : Document) (w : DocumentWorld) {row : Document}
      → ((n : ℕ) → pg.fault n ≡ none)
      → find_document id w.db.documents ≡ some row
      → t.status ≡ status_draft
      → let w' = updated id (with_status status_assigned (pg.now w.calls)) w in
        Service.leave_draft env id actor t w ≡ (
          ok (record t { status = status_assigned }),
          logged pg (entry id actor "status" status_draft status_assigned) w',
        )
  leave_draft-runs id actor t w up e draft =
      let f = with_status status_assigned (pg.now w.calls) in
      let w' = updated id f w in
      let done = logged pg (entry id actor "status" status_draft status_assigned) w' in
      rw draft (
        bind_runs _ _ w w'
          (wrap_runs _ _ w w' (update_status-runs pg id status_assigned w (up _) e))
        ∙ bind_runs _ _ w' done
            (record_history-runs _ w' (up _) (find-updated id f w (λ r. refl) e))
        ∙ pure_runs _ done)

  module _ (up : (n : ℕ) → pg.fault n ≡ none) where
    -- A step of the service that runs to the end from one world to the next.
    module _ (id actor : String) (w : DocumentWorld) {row : Document} (has_id : id ≢ "")
        (has_actor : actor ≢ "") (found : find_document id w.db.documents ≡ some row) where
      abbrev after_read : DocumentWorld
      after_read = record w { calls = suc w.calls }

      -- `ChangeStatus` to a status that the diagram allows and that is not `archived`, where no
      -- statement fails: it answers with the row in the new status and, unless that is `overdue`,
      -- with the overdue flag down; the stored row has the new status but the flag that it had; the
      -- history has gained the change.
      pub change_status-returns :
          (to : String)
          → Edge row.status to
          → (to == status_archived) ≡ false
          → let out = Service.change_status env id to actor w in
            let w' = updated id (with_status to (pg.now (suc w.calls))) after_read in
            (out.0 ≡ ok (clear_overdue to (record row { status = to })))
            × (out.1.db ≡ (logged pg (entry id actor "status" row.status to) w').db)
            × (find_document id w'.db.documents ≡ some (with_status to (pg.now (suc w.calls)) row))
      unfolding Service.change_status
      change_status-returns to edge open_end =
          let f = with_status to (pg.now (suc w.calls)) in
          let w' = updated id f after_read in
          let e = entry id actor "status" row.status to in
          let there = find-updated id f after_read (λ r. refl) found in
          let done = logged pg e w' in
          let changed = clear_overdue to (record row { status = to }) in
          let run : Service.change_status env id to actor w
              ≡ (Service.notify_document_event env changed "status_changed"
                      "Document status changed" _
                    >>= λ _. pure changed)
                  done =
            passes _ _ _ w (ground (arith, eq_iff id "", eq_iff actor ""))
            ∙ passes _ _ _ w (rw (Edge-status_valid edge) refl)
            ∙ bind_runs _ _ w after_read (get_by_id-runs pg id w (up _) found)
            ∙ passes _ _ _ after_read (rw (can_transition_of_Edge row.status to edge) refl)
            ∙ bind_runs _ _ after_read w'
                (write_status-runs id to row after_read (up _) found open_end)
            ∙ bind_runs _ _ w' done (record_history-runs e w' (up _) there) in
          let (said, kept) = telling changed changed _ _ _ done in
          (
            ap (λ (p : Result DocumentError Document × DocumentWorld). p.0) run ∙ said,
            ap (λ (p : Result DocumentError Document × DocumentWorld). p.1.db) run ∙ kept,
            there,
          )

      -- `AssignResponsible` on a draft, where no statement fails: it answers with the row assigned,
      -- under the new responsible; the history has gained the new responsible, then the new status.
      pub assign_responsible-leaves_draft :
          (who : String)
          → who ≢ ""
          → row.status ≡ status_draft
          → let out = Service.assign_responsible env id who actor w in
            let w1 = updated id (with_responsible who (pg.now (suc w.calls))) after_read in
            let e1 = entry id actor "responsible_id" (Service.or_empty row.responsible_id) who in
            let w2 = logged pg e1 w1 in
            let w3 = updated id (with_status status_assigned (pg.now w2.calls)) w2 in
            (out.0 ≡ ok (record row { responsible_id = some who; status = status_assigned }))
            × (out.1.db ≡ (logged pg (entry id actor "status" status_draft status_assigned) w3).db)
      unfolding Service.assign_responsible
      assign_responsible-leaves_draft who has_who draft =
          let f = with_responsible who (pg.now (suc w.calls)) in
          let w1 = updated id f after_read in
          let e1 = entry id actor "responsible_id" (Service.or_empty row.responsible_id) who in
          let there = find-updated id f after_read (λ r. refl) found in
          let w2 = logged pg e1 w1 in
          let w3 = updated id (with_status status_assigned (pg.now w2.calls)) w2 in
          let w4 = logged pg (entry id actor "status" status_draft status_assigned) w3 in
          let given = record row { responsible_id = some who } in
          let assigned = record given { status = status_assigned } in
          let run : Service.assign_responsible env id who actor w
              ≡ (Service.notify_document_event env assigned "assigned" "Document assigned to you" _
                    >>= λ _. pure assigned)
                  w4 =
            passes _ _ _ w (ground (arith, eq_iff id "", eq_iff actor "", eq_iff who ""))
            ∙ bind_runs _ _ w after_read (get_by_id-runs pg id w (up _) found)
            ∙ passes _ _ _ after_read (rw draft refl)
            ∙ bind_runs _ _ after_read w1 (
                wrap_runs _ _ after_read w1
                  (set_responsible-runs pg id who after_read (up _) found))
            ∙ bind_runs _ _ w1 w2 (record_history-runs e1 w1 (up _) there)
            ∙ bind_runs _ _ w2 w4 (leave_draft-runs id actor given w2 up there draft) in
          let (said, kept) = telling assigned assigned _ _ _ w4 in
          (
            ap (λ (p : Result DocumentError Document × DocumentWorld). p.0) run ∙ said,
            ap (λ (p : Result DocumentError Document × DocumentWorld). p.1.db) run ∙ kept,
          )
