-- ===== src/Document/Lifecycle.antt =====
-- The life of a document, stated without the code: the diagram of statuses, and the changes that
-- one operation may make to the table of documents.
use docflow_web.Base.{
  ℕ, String, ◌≡◌, ◌≢◌, refl, true, false, none, some, is_some, List, ◌∷◌, map, elem, arith, eq_iff,
  ◌==◌, ◌⊎◌, ◌↔◌, sym, inl, inr,
}
use mathlib.Core.Path.{subst}
use docflow_web.Base.Table.{select, update_where, delete_where, is_key}
use docflow_web.Base.Moves.{Preorder}
use docflow_web.Document.Domain.{
  Document, status_draft, status_assigned, status_in_progress, status_completed, status_overdue,
  status_archived, can_transition, type_valid, status_valid,
}
use docflow_web.Document.Repository.{
  DocumentDb, document_key, find_document, with_status, with_responsible, with_fields, with_archive,
  with_overdue, is_late,
}

pub data Edge (from to : String) : Type 0 where
  assign : from ≡ status_draft → to ≡ status_assigned → Edge from to
  start : from ≡ status_assigned → to ≡ status_in_progress → Edge from to
  miss_assigned : from ≡ status_assigned → to ≡ status_overdue → Edge from to
  finish : from ≡ status_in_progress → to ≡ status_completed → Edge from to
  miss : from ≡ status_in_progress → to ≡ status_overdue → Edge from to
  resume : from ≡ status_overdue → to ≡ status_in_progress → Edge from to
  file :
      status_valid from ≡ true
      → (from == status_archived) ≡ false
      → to ≡ status_archived
      → Edge from to

-- A status that has a way out is one of five.
known_from :
    (from to : String)
    → can_transition from to ≡ true
    → (from ≡ status_draft)
      ⊎ ((from ≡ status_assigned)
          ⊎ ((from ≡ status_in_progress) ⊎ ((from ≡ status_completed) ⊎ (from ≡ status_overdue))))
unfolding can_transition
known_from from to h = grind (
  arith,
  eq_iff status_draft from,
  eq_iff status_assigned from,
  eq_iff status_in_progress from,
  eq_iff status_completed from,
  eq_iff status_overdue from,
)

module _ (to : String) where
  from_draft : can_transition status_draft to ≡ true → Edge status_draft to
  unfolding can_transition status_valid
  from_draft h = grind (arith, eq_iff status_assigned to, eq_iff status_archived to, assign, file)

  from_assigned : can_transition status_assigned to ≡ true → Edge status_assigned to
  unfolding can_transition status_valid
  from_assigned h = grind (
    arith,
    eq_iff status_in_progress to,
    eq_iff status_overdue to,
    eq_iff status_archived to,
    start,
    miss_assigned,
    file,
  )

  from_in_progress : can_transition status_in_progress to ≡ true → Edge status_in_progress to
  unfolding can_transition status_valid
  from_in_progress h = grind (
    arith,
    eq_iff status_completed to,
    eq_iff status_overdue to,
    eq_iff status_archived to,
    finish,
    miss,
    file,
  )

  from_completed : can_transition status_completed to ≡ true → Edge status_completed to
  unfolding can_transition status_valid
  from_completed h = grind (arith, eq_iff status_archived to, file)

  from_overdue : can_transition status_overdue to ≡ true → Edge status_overdue to
  unfolding can_transition status_valid
  from_overdue h =
      grind (arith, eq_iff status_in_progress to, eq_iff status_archived to, resume, file)

pub Edge_of_can_transition : (from to : String) → can_transition from to ≡ true → Edge from to
Edge_of_can_transition from to h = elim (known_from from to h) [
  | inl e ↦ rw e (from_draft to (subst (λ f. can_transition f to ≡ true) e h))
  | inr (inl e) ↦ rw e (from_assigned to (subst (λ f. can_transition f to ≡ true) e h))
  | inr (inr (inl e)) ↦ rw e (from_in_progress to (subst (λ f. can_transition f to ≡ true) e h))
  | inr (inr (inr (inl e))) ↦ rw e (from_completed to (subst (λ f. can_transition f to ≡ true) e h))
  | inr (inr (inr (inr e))) ↦ rw e (from_overdue to (subst (λ f. can_transition f to ≡ true) e h))
]

unfiled_cases :
    (from : String)
    → status_valid from ≡ true
    → (from == status_archived) ≡ false
    → (from ≡ status_draft)
      ⊎ ((from ≡ status_assigned)
          ⊎ ((from ≡ status_in_progress) ⊎ ((from ≡ status_completed) ⊎ (from ≡ status_overdue))))
unfolding status_valid
unfiled_cases from v n = grind (
  arith,
  eq_iff from status_draft,
  eq_iff from status_assigned,
  eq_iff from status_in_progress,
  eq_iff from status_completed,
  eq_iff from status_overdue,
)

filed_can :
    (from : String)
    → status_valid from ≡ true
    → (from == status_archived) ≡ false
    → can_transition from status_archived ≡ true
unfolding can_transition
filed_can from v n = elim (unfiled_cases from v n) [
  | inl e ↦ rw e refl
  | inr (inl e) ↦ rw e refl
  | inr (inr (inl e)) ↦ rw e refl
  | inr (inr (inr (inl e))) ↦ rw e refl
  | inr (inr (inr (inr e))) ↦ rw e refl
]

pub can_transition_of_Edge : (from to : String) → Edge from to → can_transition from to ≡ true
unfolding can_transition
can_transition_of_Edge from to (assign p q) = rw (p, q) refl
can_transition_of_Edge from to (start p q) = rw (p, q) refl
can_transition_of_Edge from to (miss_assigned p q) = rw (p, q) refl
can_transition_of_Edge from to (finish p q) = rw (p, q) refl
can_transition_of_Edge from to (miss p q) = rw (p, q) refl
can_transition_of_Edge from to (resume p q) = rw (p, q) refl
can_transition_of_Edge from to (file v n q) =
    subst (λ t. can_transition from t ≡ true) (sym q) (filed_can from v n)

-- `CanTransition` allows exactly the moves of the diagram; from every status but `archived` a
-- document can be archived, and from `archived` it can go nowhere.
pub can_transition-Edge : (from to : String) → (can_transition from to ≡ true) ↔ Edge from to
can_transition-Edge from to = (Edge_of_can_transition from to, can_transition_of_Edge from to)

-- What `CreateDocument` stores: a draft with a title and a valid type, not overdue, not archived.
pub record IsNew (t : Document) : Type 0 where
  pub is_draft : t.status ≡ status_draft
  pub titled : t.title ≢ ""
  pub typed : type_valid t.doc_type ≡ true
  pub timely : t.is_overdue ≡ false
  pub unfiled : t.archived_at ≡ none

-- What every stored document has: in particular a time of archiving if and only if it is archived.
pub record IsSound (t : Document) : Type 0 where
  pub known : status_valid t.status ≡ true
  pub titled : t.title ≢ ""
  pub typed : type_valid t.doc_type ≡ true
  pub filed : is_some t.archived_at ≡ (t.status == status_archived)

-- One change of the table.
pub data DocumentStep : List Document → List Document → Type 0 where
  created :
      {ts : List Document} (row : Document)
      → find_document row.id ts ≡ none
      → IsNew row
      → DocumentStep ts (row ∷ ts)
  edited :
      {ts : List Document} (old new : Document) (now : ℕ)
      → find_document new.id ts ≡ some old
      → old.status ≢ status_archived
      → (IsSound old → (new.title ≢ "") × (type_valid new.doc_type ≡ true))
      → DocumentStep ts (update_where (is_key document_key new.id) (with_fields new now) ts)
  assigned :
      {ts : List Document} (id who : String) (old : Document) (now : ℕ)
      → find_document id ts ≡ some old
      → old.status ≢ status_archived
      → DocumentStep ts (update_where (is_key document_key id) (with_responsible who now) ts)
  moved :
      {ts : List Document} (id to : String) (old : Document) (now : ℕ)
      → find_document id ts ≡ some old
      → Edge old.status to
      → to ≢ status_archived
      → DocumentStep ts (update_where (is_key document_key id) (with_status to now) ts)
  filed :
      {ts : List Document} (id : String) (old : Document) (now : ℕ)
      → find_document id ts ≡ some old
      → Edge old.status status_archived
      → DocumentStep ts (update_where (is_key document_key id) (with_archive now) ts)
  removed :
      {ts : List Document} (id : String) (old : Document)
      → find_document id ts ≡ some old
      → old.status ≡ status_draft
      → DocumentStep ts (delete_where (is_key document_key id) ts)
  expired :
      {ts : List Document} (seen now : ℕ)
      → DocumentStep ts (
          update_where
            (λ t. elem t.id (map document_key (select (is_late seen) ts)))
            (with_overdue now)
            ts)

pub data DocumentSteps (ts : List Document) : List Document → Type 0 where
  here : DocumentSteps ts ts
  next : {us vs : List Document} → DocumentSteps ts us → DocumentStep us vs → DocumentSteps ts vs

pub steps_trans :
    {ts us vs : List Document} → DocumentSteps ts us → DocumentSteps us vs → DocumentSteps ts vs
steps_trans p here = p
steps_trans p (next q s) = next (steps_trans p q) s

pub one_step : {ts us : List Document} → DocumentStep ts us → DocumentSteps ts us
one_step s = next here s

abbrev pub document_moves : Preorder DocumentDb
document_moves = record {
  rel = λ d e. DocumentSteps d.documents e.documents;
  stay = λ d. here;
  trans = λ d e f. steps_trans;
}
