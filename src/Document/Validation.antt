-- ===== src/Document/Validation.antt =====
-- What `Validate` of the two inputs of document.go establishes, and `UpdateDocument` on a valid input.
use docflow_web.Base.{
  String, ◌≡◌, ◌≢◌, refl, sym, Bool, true, false, not, Option, none, some, List, arith, eq_iff,
  ne_of_eq_false, if◌then◌else◌, ◌==◌,
}
use mathlib.Core.Path.{subst}
use docflow_web.Base.Exec.{ok, err, sentinel}
use docflow_web.Base.Table.{find_key}
use docflow_web.Base.Text.{trim_space}
use docflow_web.Document.Domain.{
  Document, invalid_input, normal_create, CreateDocumentInput, validate_create, UpdateDocumentInput,
  validate_update, type_valid, bad_title, bad_type, trim_option,
}
use docflow_web.Document.Repository.{document_key, find_document}
use docflow_web.Document.Service
use docflow_web.Document.Service.{DocumentEnv, new_document}
use docflow_web.Document.Lifecycle.{IsNew, IsSound}

-- What passes the three tests of `CreateDocumentInput.Validate`.
create_passed :
    (a b c : Bool) (x j : CreateDocumentInput)
    → (if a
        then err (sentinel invalid_input)
        else if b
        then err (sentinel invalid_input)
        else if not c
        then err (sentinel invalid_input)
        else ok x)
      ≡ ok j
    → (a ≡ false) × (c ≡ true) × (x ≡ j)
create_passed true b c x j h = cc
create_passed false true c x j h = cc
create_passed false false false x j h = cc
create_passed false false true x j h = (refl, refl, ground arith)

-- A new document that `Validate` let through is what the abstract life admits.
pub validate_create-IsNew :
    (i j : CreateDocumentInput) → validate_create i ≡ ok j → IsNew (new_document j)
unfolding validate_create
validate_create-IsNew i j h =
    let k = normal_create i in
    let (titled, typed, same) =
      create_passed (k.title == "") (k.creator_id == "") (type_valid k.doc_type) k j h in
    subst (λ x. IsNew (new_document x)) same
      (record {
        is_draft = refl;
        titled = ne_of_eq_false k.title "" titled;
        typed = typed;
        timely = refl;
        unfiled = refl;
      })

-- What `Validate` has established of an edit that it let through.
validate_update_fields :
    (i j : UpdateDocumentInput)
    → validate_update i ≡ ok j
    → (bad_title i.title ≡ false)
      × (bad_type i.doc_type ≡ false)
      × (j.title ≡ trim_option i.title)
      × (j.doc_type ≡ i.doc_type)
unfolding validate_update
validate_update_fields i j h = (ground arith, ground arith, ground arith, ground arith)

title_kept :
    (o : Option String) (old : String)
    → bad_title o ≡ false
    → old ≢ ""
    → Service.or_else (trim_option o) old ≢ ""
title_kept none old h e = e
title_kept (some t) old h e = λ q. ground (arith, eq_iff (trim_space t) "")

type_kept :
    (o : Option String) (old : String)
    → bad_type o ≡ false
    → type_valid old ≡ true
    → type_valid (Service.or_else o old) ≡ true
type_kept none old h e = e
type_kept (some p) old h e = ground arith

-- Such an edit keeps a document sound.
pub apply_update-IsSound :
    (i j : UpdateDocumentInput) (t : Document)
    → validate_update i ≡ ok j
    → IsSound t
    → ((Service.apply_update j t).title ≢ "")
      × (type_valid (Service.apply_update j t).doc_type ≡ true)
unfolding Service.apply_update
apply_update-IsSound i j t h sound =
    let (titled, typed, same_title, same_priority) = validate_update_fields i j h in
    (
      rw same_title (title_kept i.title t.title titled sound.titled),
      rw same_priority (type_kept i.doc_type t.doc_type typed sound.typed),
    )

pub not-false : (b : Bool) → not b ≡ false → b ≡ true
not-false b h = ground arith

-- The row that was found by its id is found by its own id.
pub same_key :
    (id : String) (ts : List Document) {t : Document}
    → find_document id ts ≡ some t
    → find_document t.id ts ≡ some t
same_key id ts {t} e =
    subst (λ k. find_document k ts ≡ some t) (sym (find_key document_key id ts e)) e
