-- ===== src/Mail/Once.antt =====
-- A message that is delivered again.
use Prim.Native.Nat.{suc}
use mathlib.Core.Path.{subst}
use docflow_web.Base.{
  ℕ, String, ◌≡◌, ◌≢◌, refl, ap, ◌∙◌, Bool, true, false, ◌==◌, ◌⊎◌, Option, none, some, List, arith,
  eq_iff, inl, inr, Bool-cases, Option-cases, if◌then◌else◌, nat_eq, length,
}
use docflow_web.Base.Exec.{program, ok, err, external, fail_if, ◌>>=◌, bind_runs, bind_fails}
use docflow_web.Base.Postgres.{statement}
use docflow_web.Base.Redis.{Cache, get, set, get-set, is_live, expiry}
use docflow_web.Mail.Domain.{MailError, MailJob, invalid_input}
use docflow_web.Mail.Repository
use docflow_web.Mail.Repository.{MailEnv, MailDb, MailWorld, App, dedup_key, set_nx, is_none}
use docflow_web.Mail.Service
use docflow_web.Mail.Requests.{Stable, Request, serve_mail}
use docflow_web.Mail.Effects
use docflow_web.Mail.Serving.{serve_mail-keeps}

-- The mark under this key lives until then.
abbrev pub Marked : String → Option ℕ → Cache → Type 0
Marked k until m = (now : ℕ) → is_live now until ≡ true → is_none (get now k m) ≡ false

live_longer :
    (until : Option ℕ) (t ttl now : ℕ)
    → is_live t until ≡ false
    → is_live now until ≡ true
    → is_live now (expiry t ttl) ≡ true
live_longer none t ttl now gone live = cc
live_longer (some end) t ttl now gone live = ground arith

Marked-set :
    (k : String) (until : Option ℕ) (t ttl : ℕ) (key : String) (m : Cache)
    → is_none (get t key m) ≡ true
    → Marked k until m
    → Marked k until (set t ttl key "1" m)
Marked-set k until t ttl key m free h now live =
    rw (get-set t now ttl key k "1" m) (elim (Bool-cases (key == k)) [
      | inr e ↦ rw e (h now live)
      | inl e ↦
          let gone : is_live t until ≡ false = elim (Bool-cases (is_live t until)) [
            | inr g ↦ g
            | inl g ↦
                let here = h t g in
                let there = subst (λ j. is_none (get t j m) ≡ true) ((eq_iff key k).0 e) free in
                absurd (ground (arith, here, there))
          ] in
          rw e (rw (live_longer until t ttl now gone live) refl)
    ])

Marked-set_nx :
    (k : String) (until : Option ℕ) (t ttl : ℕ) (key : String) (m : Cache)
    → Marked k until m
    → Marked k until (set_nx t ttl key m).1
Marked-set_nx k until t ttl key m h = elim (Bool-cases (is_none (get t key m))) [
  | inl e ↦ rw e (Marked-set k until t ttl key m e h)
  | inr e ↦ rw e h
]

set-Marked :
    (t ttl : ℕ) (key : String) (m : Cache) → Marked key (expiry t ttl) (set t ttl key "1" m)
set-Marked t ttl key m now live =
    rw (get-set t now ttl key key "1" m, (eq_iff key key).1 refl) (rw live refl)

-- A guard ends the program and leaves the world alone, or lets it go on.
guarded :
    {A : Type 0} (b : Bool) (s : MailError) (f : Unit {0} → App A) (w : MailWorld)
    → (((fail_if b s >>= f) w).1.out ≡ w.out) ⊎ ((fail_if b s >>= f) w ≡ f tt w)
unfolding program
guarded true s f w = inl refl
guarded false s f w = inr refl

taken :
    {A : Type 0} (b : Bool) (m n : App A)
    → b ≡ true
    → (w : MailWorld) → (if b then m else n) w ≡ m w
taken true m n e w = refl
taken false m n e w = cc

module _ (env : MailEnv) where
  open env use {pg}

  abbrev pub mark_ttl : ℕ
  mark_ttl =
      if nat_eq (Service.service_dedup_ttl env) 0
      then env.dedup_ttl
      else Service.service_dedup_ttl env

  mark_ttl_lem : mark_ttl ≡ Service.service_dedup_ttl env
  mark_ttl_lem = ground arith

  -- Until when the mark of a message lives that is delivered now.
  abbrev pub mark_end : MailWorld → Option ℕ
  mark_end w = expiry (pg.now w.calls) (Service.service_dedup_ttl env)

  -- The world in which the message is processed: only its mark was written.
  abbrev pub marked : MailJob → MailWorld → MailWorld
  marked j w = record w {
    calls = suc w.calls;
    db = record (w.db) {
      marks = set (pg.now w.calls) mark_ttl (dedup_key j.job_id) "1" w.db.marks;
    };
  }

  module _ (cached : env.has_cache ≡ true) where
    abbrev pub is_free : MailJob → MailWorld → Bool
    is_free j w = is_none (get (pg.now w.calls) (dedup_key j.job_id) w.db.marks)

    abbrev pub mark : MailJob → App Bool
    mark j = Repository.mark_dedup env j.job_id (Service.service_dedup_ttl env)

    pub mark_fails :
        (j : MailJob) (w : MailWorld) (text : String)
        → pg.fault w.calls ≡ some text
        → mark j w ≡ (err (external text), record w { calls = suc w.calls })
    unfolding Repository.mark_dedup statement
    mark_fails j w text e = taken _ _ _ cached w ∙ rw (e, statement) refl

    pub mark_new :
        (j : MailJob) (w : MailWorld)
        → pg.fault w.calls ≡ none
        → is_free j w ≡ true
        → mark j w ≡ (ok true, marked j w)
    unfolding Repository.mark_dedup statement
    mark_new j w e free = taken _ _ _ cached w ∙ rw (e, statement) (rw free refl)

    mark_held :
        (j : MailJob) (w : MailWorld)
        → pg.fault w.calls ≡ none
        → is_free j w ≡ false
        → mark j w ≡ (ok false, record w { calls = suc w.calls })
    unfolding Repository.mark_dedup statement
    mark_held j w e held = taken _ _ _ cached w ∙ rw (e, statement) (rw held refl)

    -- A query has nothing sent.
    stored_silent :
        (id : String) (w : MailWorld) → (Repository.get_job_by_job_id env id w).1.out ≡ w.out
    unfolding Repository.get_job_by_job_id statement
    stored_silent id w = ground arith

    -- The message asks the mail server for nothing, or there was no mark and it is processed.
    mark-cases :
        (j : MailJob) (w : MailWorld)
        → (((mark j >>= Service.process_once env j) w).1.out ≡ w.out)
          ⊎ ((is_free j w ≡ true)
              × ((mark j >>= Service.process_once env j) w ≡ Service.process env j (marked j w)))
    mark-cases j w = elim (Option-cases (pg.fault w.calls)) [
      | inr (text, e) ↦ inl (
          ap (λ r. r.1.out) (bind_fails _ (Service.process_once env j) w _ (mark_fails j w text e)))
      | inl e ↦ elim (Bool-cases (is_free j w)) [
        | inl free ↦ inr (free, bind_runs _ (Service.process_once env j) w _ (mark_new j w e free))
        | inr held ↦ inl (
            ap (λ r. r.1.out) (bind_runs _ (Service.process_once env j) w _ (mark_held j w e held))
            ∙ stored_silent j.job_id (record w { calls = suc w.calls }))
      ]
    ]

    delivery-cases :
        (j : MailJob) (w : MailWorld)
        → ((Service.handle_queued_job env j w).1.out ≡ w.out)
          ⊎ ((is_none (get (pg.now w.calls) (dedup_key j.job_id) w.db.marks) ≡ true)
              × (Service.handle_queued_job env j w ≡ Service.process env j (marked j w)))
    unfolding Service.handle_queued_job
    delivery-cases j w = elim (guarded (nat_eq (length j.recipient) 0) invalid_input _ w) [
      | inl e ↦ inl e
      | inr e ↦ rw e (elim (guarded (j.job_id == "") invalid_input _ w) [
        | inl f ↦ inl f
        | inr f ↦ rw f (mark-cases j w)
      ])
    ]

    abbrev Held : String → Option ℕ → MailDb → Type 0
    Held k until d = Marked k until d.marks

    Held-Stable : (k : String) (until : Option ℕ) → Stable env (Held k until) (λ _. Unit {0})
    Held-Stable k until = record {
      marks = λ now ttl key d h. Marked-set_nx k until now ttl key d.marks h;
      counters = λ c d h. h;
      templates = λ t d h. h;
      rows = λ n j d e gone h. (h, tt);
      changes = λ id f d same o h. h;
      own = λ id o. o;
    }

    -- A message that led to a mail has left its mark.
    sent-Marked :
        (j : MailJob) (w : MailWorld)
        → (Service.handle_queued_job env j w).1.out ≢ w.out
        → Marked (dedup_key j.job_id) (mark_end w) (Service.handle_queued_job env j w).1.db.marks
    sent-Marked j w sent = elim (delivery-cases j w) [
      | inl same ↦ absurd (sent same)
      | inr (_, run) ↦ rw run (
          (Effects.Keeps-process env (Held (dedup_key j.job_id) (mark_end w)) (λ _. Unit {0})
              (Held-Stable (dedup_key j.job_id) (mark_end w)) j).at
            (marked j w)
            (rw mark_ttl_lem (
              set-Marked (pg.now w.calls) (Service.service_dedup_ttl env) (dedup_key j.job_id)
                w.db.marks)))
    ]

    marked-silent :
        (j : MailJob) (w : MailWorld)
        → is_none (get (pg.now w.calls) (dedup_key j.job_id) w.db.marks) ≡ false
        → (Service.handle_queued_job env j w).1.out ≡ w.out
    marked-silent j w held = elim (delivery-cases j w) [
      | inl same ↦ same
      | inr (free, _) ↦ absurd (ground (arith, held, free))
    ]

    -- Once a message of the queue has led to a call of the mail server, the message delivered
    -- again, or any other with the same job id, leads to none, whatever requests and messages come
    -- in between and whichever calls fail, until the mark expires. The service has a cache.
    pub handle_queued_job-once :
        (j again : MailJob) (rs : List Request) (w : MailWorld)
        → (Service.handle_queued_job env j w).1.out ≢ w.out
        → again.job_id ≡ j.job_id
        → is_live
            (pg.now (serve_mail env (Service.handle_queued_job env j w).1 rs).calls)
            (mark_end w)
          ≡ true
        → (Service.handle_queued_job env again
            (serve_mail env (Service.handle_queued_job env j w).1 rs)).1.out
          ≡ (serve_mail env (Service.handle_queued_job env j w).1 rs).out
    handle_queued_job-once j again rs w sent same live =
        let v = serve_mail env (Service.handle_queued_job env j w).1 rs in
        let kept =
          serve_mail-keeps env (Held (dedup_key j.job_id) (mark_end w)) (λ _. Unit {0})
            (Held-Stable (dedup_key j.job_id) (mark_end w)) rs (Service.handle_queued_job env j w).1
            (sent-Marked j w sent) in
        marked-silent again v (rw same (kept (pg.now v.calls) live))
