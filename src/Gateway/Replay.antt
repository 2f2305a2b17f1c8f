-- ===== src/Gateway/Replay.antt =====
-- What the idempotency middleware promises: a request that succeeded is answered again from the
-- store, and is not run again.
use Prim.Native.String.{String, [], ◌∷◌}
use docflow_web.Base.{
  ℕ, suc, ◌+◌, ◌≡◌, ◌≢◌, refl, ap, Bool, true, false, ◌==◌, ◌&&◌, Option, none, some, List, [], ◌∷◌,
  if◌then◌else◌, ltb, arith, eq_iff, Bool-cases, inl, inr, All,
}
use docflow_web.Base.Text.{append}
use docflow_web.Base.Redis.{Cache, get, del, set, get-set, get-del}
use docflow_web.Gateway.Idempotency.{
  cache_key, marker, Response, Request, Meeting, is_guarded, is_success, usable, response_ttl,
  looked_up, save, run, replay_or_run, handle, handle_all,
}

size : String → ℕ
size [] = 0
size (c ∷ s) = suc (size s)

size-append : (s t : String) → size (append s t) ≡ size s + size t
unfolding size
size-append [] t = omega arith
size-append (c ∷ s) t = omega (arith, size-append s t)

eq_false_of_ne : (a b : String) → a ≢ b → (a == b) ≡ false
eq_false_of_ne a b n = ground (arith, eq_iff a b)

-- The marker of a key is not the key's own entry.
marker_differs : (key : String) → (marker key == cache_key key) ≡ false
unfolding size
marker_differs key = eq_false_of_ne _ _ λ e.
    let longer = size-append (cache_key key) ":processing" in
    let same = ap size e in omega (arith, longer, same)

-- Before that second, the key has this text.
abbrev Held : String → String → ℕ → Cache → Type 0
Held k body until m = (now : ℕ) → ltb now until ≡ true → get now k m ≡ some body

Held-del :
    (j k body : String) (until : ℕ) (m : Cache)
    → (j == k) ≡ false
    → Held k body until m
    → Held k body until (del j m)
Held-del j k body until m other h now live = rw (get-del now j k m, other) (h now live)

Held-set :
    (at ttl : ℕ) (j k v body : String) (until : ℕ) (m : Cache)
    → (j == k) ≡ false
    → Held k body until m
    → Held k body until (set at ttl j v m)
Held-set at ttl j k v body until m other h now live =
    rw (get-set at now ttl j k v m, other) (h now live)

set-Held :
    (at : ℕ) (k body : String) (m : Cache)
    → Held k body (at + response_ttl) (set at response_ttl k body m)
set-Held at k body m now live =
    rw (get-set at now response_ttl k k body m, (eq_iff k k).1 refl) (rw live refl)

-- Either of two stores that hold it.
Held-if :
    (k body : String) (until : ℕ) (b : Bool) (m n : Cache)
    → Held k body until m
    → Held k body until n
    → Held k body until (if b then m else n)
Held-if k body until true m n h i = h
Held-if k body until false m n h i = i

module _ {S : Type 0} (recode : String → Option String) (key_error : String) where
  run-Held :
      (k body : String) (until : ℕ) (q : Request S) (v : Meeting) (m : Cache) (s : S)
      → (marker q.key == k) ≡ false
      → (cache_key q.key == k) ≡ false
      → Held k body until m
      → Held k body until (run recode key_error q v m s).1
  run-Held k body until q v m s a b h =
      let r = (q.handler s).0 in
      let noted = if v.marked then set v.begun 30 (marker q.key) "1" m else m in
      let kept = save recode key_error q v r noted in
      let i = Held-if k body until v.marked _ m (Held-set _ 30 _ k "1" body until m a h) h in
      let j =
        Held-if k body until (is_success r.0 && v.saved) _ noted
          (Held-set _ response_ttl _ k r.1 body until noted b i) i in
      Held-if k body until v.unmarked _ kept (Held-del _ k body until kept a j) j

  run_saves :
      (q : Request S) (v : Meeting) (m : Cache) (s : S)
      → is_success (q.handler s).0.0 ≡ true
      → v.saved ≡ true
      → Held
          (cache_key q.key)
          (q.handler s).0.1
          (v.ended + response_ttl)
          (run recode key_error q v m s).1
  run_saves q v m s success saved =
      let body = (q.handler s).0.1 in
      let until = v.ended + response_ttl in
      let noted = if v.marked then set v.begun 30 (marker q.key) "1" m else m in
      let here = set-Held v.ended (cache_key q.key) body noted in
      rw (success, saved)
        (Held-if (cache_key q.key) body until v.unmarked _ _
          (Held-del (marker q.key) (cache_key q.key) body until _ (marker_differs q.key) here) here)

  -- A request that may come between: its marker is another key, and if its own entry is this one, it
  -- begins before the entry expires and its GET reaches Redis.
  pub record Spares (k : String) (until : ℕ) (q : Request S × Meeting) : Type 0 where
    pub apart : (marker q.0.key == k) ≡ false
    pub early : cache_key q.0.key ≡ k → ltb q.1.begun until ≡ true
    pub reaches : cache_key q.0.key ≡ k → q.1.got ≡ true

  module _ (k body text : String) (until : ℕ) (sends : recode body ≡ some text) where
    found :
        (q : Request S) (v : Meeting) (m : Cache)
        → Spares k until (q, v)
        → Held k body until m
        → cache_key q.key ≡ k
        → usable recode (looked_up v (cache_key q.key) m) ≡ some text
    found q v m o h e =
        let got = o.reaches e in let here = h v.begun (o.early e) in rw (got, e, here) sends

    handle-Held :
        (q : Request S) (v : Meeting) (m : Cache) (s : S)
        → Spares k until (q, v)
        → Held k body until m
        → Held k body until (handle recode key_error q v m s).1
    unfolding handle
    handle-Held q v m s o h = elim (Bool-cases (is_guarded q.method)) [
      | inr g ↦ rw g h
      | inl g ↦ rw g (elim (Bool-cases (q.key == "")) [
        | inl e ↦ rw e h
        | inr e ↦
            rw e (answered (usable recode (looked_up v (cache_key q.key) m)) (found q v m o h))
      ])
    ]
      where
        answered :
            (a : Option String)
            → (cache_key q.key ≡ k → a ≡ some text)
            → Held k body until (replay_or_run recode key_error a q v m s).1
        answered (some t) own = h
        answered none own = elim (Bool-cases (cache_key q.key == k)) [
          | inl e ↦
              let none_is = own ((eq_iff (cache_key q.key) k).0 e) in
              absurd (ground (arith, none_is))
          | inr e ↦ run-Held k body until q v m s o.apart e h
        ]

    handle_all-Held :
        (qs : List (Request S × Meeting)) (m : Cache) (s : S)
        → All (λ q. Spares k until q) qs
        → Held k body until m
        → Held k body until (handle_all recode key_error qs m s).0
    handle_all-Held [] m s a h = h
    handle_all-Held ((q, v) ∷ qs) m s (o, a) h = handle_all-Held qs _ _ a (handle-Held q v m s o h)

  replays :
      (q : Request S) (v : Meeting) (m : Cache) (s : S) {text : String}
      → is_guarded q.method ≡ true
      → (q.key == "") ≡ false
      → usable recode (looked_up v (cache_key q.key) m) ≡ some text
      → handle recode key_error q v m s ≡ ((200, text), m, s)
  unfolding handle
  replays q v m s g n sends = rw (g, n, sends) refl

  runs :
      (q : Request S) (v : Meeting) (m : Cache) (s : S)
      → is_guarded q.method ≡ true
      → (q.key == "") ≡ false
      → usable recode (looked_up v (cache_key q.key) m) ≡ none
      → handle recode key_error q v m s ≡ run recode key_error q v m s
  unfolding handle
  runs q v m s g n h = rw (g, n, h) refl

  -- A POST, PATCH or PUT with a key for which it finds no usable entry is run by its handler. If the
  -- handler answers with a status 2xx and a JSON object and the SET of the response reaches Redis,
  -- then for 24 hours another POST, PATCH or PUT with the same key whose GET reaches Redis, whatever
  -- its route, its user and its handler, is answered with status 200 and that object and changes
  -- nothing. In between may come any requests whose marker is not this key's entry; those with the
  -- same key begin within the 24 hours and have a GET that reaches Redis. All other commands may
  -- fail.
  pub handle-runs_once :
      (first again : Request S) (v v' : Meeting) (qs : List (Request S × Meeting)) (m : Cache)
      (s : S) {text : String}
      → is_guarded first.method ≡ true
      → (first.key == "") ≡ false
      → usable recode (looked_up v (cache_key first.key) m) ≡ none
      → is_success (first.handler s).0.0 ≡ true
      → recode (first.handler s).0.1 ≡ some text
      → v.saved ≡ true
      → All (λ q. Spares (cache_key first.key) (v.ended + response_ttl) q) qs
      → is_guarded again.method ≡ true
      → again.key ≡ first.key
      → v'.got ≡ true
      → ltb v'.begun (v.ended + response_ttl) ≡ true
      → let out = handle recode key_error first v m s in
        let later = handle_all recode key_error qs out.1 out.2 in
        (out.0 ≡ (first.handler s).0)
        × (out.2 ≡ (first.handler s).1)
        × (handle recode key_error again v' later.0 later.1 ≡ ((200, text), later.0, later.1))
  handle-runs_once first again v v' qs m s {text} g n miss success sends saved others g' same got
        live =
      let k = cache_key first.key in
      let body = (first.handler s).0.1 in
      let until = v.ended + response_ttl in
      let ran = runs first v m s g n miss in
      let stored : Held k body until (handle recode key_error first v m s).1 =
        rw ran (run_saves first v m s success saved) in
      let out = handle recode key_error first v m s in
      let later = handle_all-Held k body text until sends qs out.1 out.2 others stored in
      let hit = later v'.begun live in
      (
        ap (λ (o : Response × Cache × S). o.0) ran,
        ap (λ (o : Response × Cache × S). o.2) ran,
        replays again v' _ _ g' (rw same n) (rw (got, same, hit) sends),
      )
