-- ===== src/Realtime/Delivery.antt =====
-- What each subscriber gets: the messages in order, each once, whatever the others do.
use egreen_quanta_tes.Base.{
  ℕ, suc, ◌≤◌, ◌==◌, ◌≡◌, refl, sym, ap, ◌∙◌, Bool, true, false, some, List, [], ◌∷◌, ◌++◌, inl,
  inr, length, length-append, find, find-yes, find-no, find-some, ltb→lt, ◌&&◌, Bool-cases, ltb,
  arith, if◌then◌else◌, subst,
}
use mathlib.Core.List.{append_assoc}
use egreen_quanta_tes.Realtime.{
  Queue, Event, subscribed, left, read, published, max_queue, has_id, put, publish, has_room,
  subscribe, close_if, tail, get_if, on_queue, run_event, run,
}

append_nothing {ℓ} : {A : Type ℓ} → (xs : List A) → xs ++ [] ≡ xs
append_nothing [] = refl
append_nothing (x ∷ xs) = ap (λ ys. x ∷ ys) (append_nothing xs)

module _ {ℓ} {A : Type ℓ} (id : ℕ) where
  -- One queue on its own: what an event does to it, what its subscriber has read, and what was published.
  abbrev pub one_event : Event A → Queue A → Queue A
  one_event (subscribed k) q = q
  one_event (left k) q = close_if (k == id) q
  one_event (read k) q = get_if (k == id) q
  one_event (published m) q = put m q

  abbrev pub run_one : List (Event A) → Queue A → Queue A
  run_one [] q = q
  run_one (e ∷ es) q = run_one es (one_event e q)

  abbrev head_of : List A → List A
  head_of [] = []
  head_of (m ∷ ms) = m ∷ []

  abbrev got : Event A → Queue A → List A
  got (subscribed k) q = []
  got (left k) q = []
  got (read k) q = if k == id then head_of q.pending else []
  got (published m) q = []

  abbrev pub delivered : List (Event A) → Queue A → List A
  delivered [] q = []
  delivered (e ∷ es) q = got e q ++ delivered es (one_event e q)

  abbrev sent : Event A → List A
  sent (subscribed k) = []
  sent (left k) = []
  sent (read k) = []
  sent (published m) = m ∷ []

  abbrev pub all_sent : List (Event A) → List A
  all_sent [] = []
  all_sent (e ∷ es) = sent e ++ all_sent es

  find-publish :
      (m : A) (qs : List (Queue A)) (q : Queue A)
      → find (has_id id) qs ≡ some q
      → find (has_id id) (publish m qs) ≡ some (put m q)
  unfolding publish
  find-publish m [] q h = ground arith
  find-publish m (r ∷ qs) q h = elim (Bool-cases (has_id id r)) [
    | inl y ↦
        find-yes (has_id id) (put m r) (publish m qs) y
        ∙ ap (λ s. some (put m s)) (find-some (has_id id) r q qs y h)
    | inr out ↦
        find-no (has_id id) (put m r) (publish m qs) out
        ∙ find-publish m qs q (sym (find-no (has_id id) r qs out) ∙ h)
  ]

  find-on :
      (k : ℕ) (f : Bool → Queue A → Queue A) (same : (b : Bool) (r : Queue A) → (f b r).id ≡ r.id)
      (qs : List (Queue A)) (q : Queue A)
      → find (has_id id) qs ≡ some q
      → find (has_id id) (on_queue k f qs) ≡ some (f (k == id) q)
  find-on k f same [] q h = ground arith
  find-on k f same (r ∷ qs) q h = elim (Bool-cases (has_id id r)) [
    | inl y ↦
        find-yes (has_id id) (f (has_id k r) r) (on_queue k f qs)
          (ap (λ i. i == id) (same (has_id k r) r) ∙ y)
        ∙ ap (λ b. some (f b r)) (one_id r.id y)
        ∙ ap (λ s. some (f (k == id) s)) (find-some (has_id id) r q qs y h)
    | inr out ↦
        find-no (has_id id) (f (has_id k r) r) (on_queue k f qs)
          (ap (λ i. i == id) (same (has_id k r) r) ∙ out)
        ∙ find-on k f same qs q (sym (find-no (has_id id) r qs out) ∙ h)
  ]
    where
      one_id : (i : ℕ) → (i == id) ≡ true → (i == k) ≡ (k == id)
      one_id i y = ground arith

  find-subscribe :
      (k : ℕ) (qs : List (Queue A)) (q : Queue A)
      → find (has_id id) qs ≡ some q
      → find (has_id id) (subscribe k qs) ≡ some q
  unfolding subscribe
  find-subscribe k [] q h = ground arith
  find-subscribe k (r ∷ qs) q h = elim (Bool-cases (has_id id r)) [
    | inl y ↦ find-yes (has_id id) r _ y ∙ ap some (find-some (has_id id) r q qs y h)
    | inr out ↦
        find-no (has_id id) r _ out ∙ find-subscribe k qs q (sym (find-no (has_id id) r qs out) ∙ h)
  ]

  find-event :
      (e : Event A) (qs : List (Queue A)) (q : Queue A)
      → find (has_id id) qs ≡ some q
      → find (has_id id) (run_event e qs) ≡ some (one_event e q)
  find-event (subscribed k) qs q h = find-subscribe k qs q h
  find-event (left k) qs q h = find-on k close_if (λ b r. refl) qs q h
  find-event (read k) qs q h = find-on k get_if (λ b r. refl) qs q h
  find-event (published m) qs q h = find-publish m qs q h

  -- What becomes of a queue in the broker is what becomes of it on its own: no other subscriber, slow or
  -- gone, has an influence on it.
  find-run :
      (es : List (Event A)) (qs : List (Queue A)) (q : Queue A)
      → find (has_id id) qs ≡ some q
      → find (has_id id) (run es qs) ≡ some (run_one es q)
  find-run [] qs q h = h
  find-run (e ∷ es) qs q h = find-run es (run_event e qs) (one_event e q) (find-event e qs q h)

  -- The queue stays within its bound.
  one_event-bound :
      (e : Event A) (q : Queue A)
      → length q.pending ≤ max_queue
      → length (one_event e q).pending ≤ max_queue
  one_event-bound (subscribed k) q h = h
  one_event-bound (left k) q h = h
  one_event-bound (read k) q h = shorter (k == id) q.pending h
    where
      shorter :
          (b : Bool) (ms : List A)
          → length ms ≤ max_queue
          → length (if b then tail ms else ms) ≤ max_queue
      shorter false ms h = h
      shorter true [] h = h
      shorter true (m ∷ ms) h = omega arith
  one_event-bound (published m) q h = fits q.live (ltb (length q.pending) max_queue) refl
    where
      fits :
          (l b : Bool)
          → ltb (length q.pending) max_queue ≡ b
          → length (if l && b then q.pending ++ m ∷ [] else q.pending) ≤ max_queue
      fits true true e =
          rw (length-append q.pending (m ∷ []))
            (omega (arith, ltb→lt (length q.pending) max_queue e))
      fits true false e = h
      fits false b e = h

  live-before : (e : Event A) (q : Queue A) → (one_event e q).live ≡ true → q.live ≡ true
  live-before (subscribed k) q h = h
  live-before (left k) q h = ground arith
  live-before (read k) q h = h
  live-before (published m) q h = ground arith

  live-run : (es : List (Event A)) (q : Queue A) → (run_one es q).live ≡ true → q.live ≡ true
  live-run [] q h = h
  live-run (e ∷ es) q h = live-before e q (live-run es (one_event e q) h)

  -- One event of a subscriber that stays: what it reads, then what is pending, is what was pending, then
  -- what is sent.
  one_event-kept :
      (e : Event A) (q : Queue A)
      → (one_event e q).live ≡ true
      → got e q ++ (one_event e q).pending ≡ q.pending ++ sent e
  one_event-kept (subscribed k) q h = sym (append_nothing q.pending)
  one_event-kept (left k) q h = sym (append_nothing q.pending)
  one_event-kept (read k) q h = split (k == id) q.pending ∙ sym (append_nothing q.pending)
    where
      split :
          (b : Bool) (ms : List A)
          → (if b then head_of ms else []) ++ (if b then tail ms else ms) ≡ ms
      split false ms = refl
      split true [] = refl
      split true (m ∷ ms) = refl
  one_event-kept (published m) q h = rw h refl

  queue-value : (q q' : Queue A) → some q ≡ some q' → q ≡ q'
  queue-value q q' e = cc

  delivered-all_sent :
      (es : List (Event A)) (q : Queue A)
      → length q.pending ≤ max_queue
      → (run_one es q).live ≡ true
      → (delivered es q ++ (run_one es q).pending ≡ q.pending ++ all_sent es)
        × (length (run_one es q).pending ≤ max_queue)
  delivered-all_sent [] q b h = (sym (append_nothing q.pending), b)
  delivered-all_sent (e ∷ es) q b h =
      let q' = one_event e q in
      let (rest, bound) = delivered-all_sent es q' (one_event-bound e q b) h in
      (
        append_assoc (got e q) (delivered es q') (run_one es q').pending
            ∙ ap (λ ms. got e q ++ ms) rest
            ∙ sym (append_assoc (got e q) q'.pending (all_sent es))
            ∙ ap (λ ms. ms ++ all_sent es) (one_event-kept e q (live-run es q' h))
            ∙ append_assoc q.pending (sent e) (all_sent es),
        bound,
      )

  -- A subscriber that the broker still has after some events has read and has pending, together and in
  -- order, exactly what was pending before and then every message published since, each once, whatever
  -- the other subscribers do; and its queue is within the bound.
  pub run-all_sent :
      (es : List (Event A)) (qs : List (Queue A)) (q q' : Queue A)
      → find (has_id id) qs ≡ some q
      → length q.pending ≤ max_queue
      → find (has_id id) (run es qs) ≡ some q'
      → q'.live ≡ true
      → (delivered es q ++ q'.pending ≡ q.pending ++ all_sent es) × (length q'.pending ≤ max_queue)
  run-all_sent es qs q q' before bound after h =
      let same = queue-value (run_one es q) q' (sym (find-run es qs q before) ∙ after) in
      let (kept, within) = delivered-all_sent es q bound (ap (λ r. r.live) same ∙ h) in
      (
        ap (λ r. delivered es q ++ r.pending) (sym same) ∙ kept,
        subst (λ r. length r.pending ≤ max_queue) same within,
      )

  abbrev pub count_reads : List (Event A) → ℕ
  count_reads [] = 0
  count_reads (subscribed k ∷ es) = count_reads es
  count_reads (left k ∷ es) = count_reads es
  count_reads (read k ∷ es) = let rest = count_reads es in if k == id then suc rest else rest
  count_reads (published m ∷ es) = count_reads es

  Reads : List (Event A) → Type ℓ
  Reads es =
      (q : Queue A) (pre more : List A)
      → q.pending ≡ pre ++ more
      → length pre ≤ count_reads es
      → (rest : List A) × (delivered es q ≡ pre ++ rest)

  -- A read of the queue's own subscriber takes the first message, that of another one none.
  read-first :
      (es : List (Event A)) (b : Bool) (q : Queue A) (m : A) (pre more : List A)
      → Reads es
      → q.pending ≡ m ∷ pre ++ more
      → suc (length pre) ≤ (if b then suc (count_reads es) else count_reads es)
      → (rest : List A) × ((if b then head_of q.pending else []) ++ delivered es (get_if b q)
          ≡ m ∷ pre ++ rest)
  unfolding Reads
  read-first es false q m pre more later e h = later (get_if false q) (m ∷ pre) more e h
  read-first es true q m pre more later e h =
      let (rest, same) = later (get_if true q) pre more (ap tail e) (omega arith) in
      (rest, ap (λ p. head_of p ++ delivered es (get_if true q)) e ∙ ap (λ ms. m ∷ ms) same)

  Reads-all : (es : List (Event A)) → Reads es
  unfolding Reads
  Reads-all es q [] more e h = (delivered es q, refl)
  Reads-all [] q (m ∷ pre) more e h = ground arith
  Reads-all (subscribed k ∷ es) q (m ∷ pre) more e h = Reads-all es q (m ∷ pre) more e h
  Reads-all (left k ∷ es) q (m ∷ pre) more e h =
      Reads-all es (close_if (k == id) q) (m ∷ pre) more e h
  Reads-all (read k ∷ es) q (m ∷ pre) more e h =
      read-first es (k == id) q m pre more (Reads-all es) e h
  Reads-all (published p ∷ es) q (m ∷ pre) more e h =
      filled (has_room q) (λ more e. Reads-all es (put p q) (m ∷ pre) more e h)
    where
      filled :
          (b : Bool)
          → ((more : List A)
              → (if has_room q then q.pending ++ p ∷ [] else q.pending) ≡ m ∷ pre ++ more
              → (rest : List A) × (delivered es (put p q) ≡ m ∷ pre ++ rest))
          → (rest : List A) × (delivered es (put p q) ≡ m ∷ pre ++ rest)
      filled b later = elim (Bool-cases (has_room q)) [
        | inl y ↦
            later (more ++ p ∷ [])
              (rw y (ap (λ ms. ms ++ p ∷ []) e ∙ append_assoc (m ∷ pre) more (p ∷ [])))
        | inr out ↦ later more (rw out e)
      ]

  -- What is pending is read first: after as many reads of a subscriber as messages are pending it has
  -- read them all, in order, whatever else happens in between, even when it is dropped.
  pub delivered-pending :
      (es : List (Event A)) (q : Queue A)
      → length q.pending ≤ count_reads es
      → (rest : List A) × (delivered es q ≡ q.pending ++ rest)
  unfolding Reads
  delivered-pending es q h = Reads-all es q q.pending [] (sym (append_nothing q.pending)) h
