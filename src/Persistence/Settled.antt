-- ===== src/Persistence/Settled.antt =====
-- src/persistence.rs: what each step does to the value that was handed over last.
use escrow.Common.{
  ◌≡◌, refl, sym, ap, ◌∙◌, inl, inr, Bool, true, false, ◌&&◌, Option, none, some, List, [], ◌∷◌,
  ◌++◌, arith, if◌then◌else◌, Bool-cases, text_keys, side_keys, nat_eq,
}
use escrow.Persistence.{
  AsyncJsonWriter, is_async, received, flushed, timed_out, disconnected, WorkerEvent, receives,
  stored, times_out, disconnects, run_worker, write_json, schedule, Event, schedules, writes_now,
  worker, step, steps,
}

abbrev pub last : {T : Type 0} → Option T → List T → Option T
last d [] = d
last d (v ∷ vs) = last (some v) vs

abbrev pub first : {T : Type 0} → Option T → Option T → Option T
first none d = d
first (some v) d = some v

-- The value that was handed over last.
abbrev pub newest : {T : Type 0} → AsyncJsonWriter T → Option T
newest s = last (first s.pending s.file) s.channel

-- The value that the events hand over last, after `d`.
abbrev pub handed_over : {T : Type 0} → Option T → List (Event T) → Option T
handed_over d [] = d
handed_over d (schedules k v ∷ es) = handed_over (some v) es
handed_over d (writes_now k v ∷ es) = handed_over (some v) es
handed_over d (worker e ∷ es) = handed_over d es

-- The writes of the thread succeed.
abbrev WorkerStores : {T : Type 0} → WorkerEvent T → Type 0
WorkerStores receives = Unit
WorkerStores (times_out k) = k ≡ stored
WorkerStores (disconnects k) = k ≡ stored

-- No value is written past the channel, and the writes succeed.
abbrev pub AllStored : {T : Type 0} → List (Event T) → Type 0
AllStored [] = Unit
AllStored (writes_now k v ∷ es) = ⊥
AllStored (schedules k v ∷ es) = (k ≡ stored) × AllStored es
AllStored (worker e ∷ es) = WorkerStores e × AllStored es

-- Nothing waits where the thread does not work.
abbrev pub IsSettled : {T : Type 0} → AsyncJsonWriter T → Type 0
IsSettled s = (is_async s.mode && s.working ≡ false) → (s.channel ≡ []) × (s.pending ≡ none)

module _ {T : Type 0} where
  last-append : (d : Option T) (vs : List T) (v : T) → last d (vs ++ (v ∷ [])) ≡ some v
  last-append d [] v = refl
  last-append d (w ∷ vs) v = last-append (some w) vs v

  newest-received :
      (vs : List T) (s : AsyncJsonWriter T) → s.channel ≡ vs → newest (received vs s) ≡ newest s
  newest-received [] s h = refl
  newest-received (v ∷ vs) s h = ap (λ c. last (first s.pending s.file) c) (sym h)

  newest-flushed :
      (p : Option T) (s : AsyncJsonWriter T)
      → s.pending ≡ p
      → newest (flushed stored p s) ≡ newest s
  unfolding flushed write_json
  newest-flushed none s h = refl
  newest-flushed (some v) s h = ap (λ o. last (first o s.file) s.channel) (sym h)

  newest-timed_out :
      (vs : List T) (s : AsyncJsonWriter T) → newest (timed_out stored vs s) ≡ newest s
  unfolding timed_out
  newest-timed_out [] s = newest-flushed s.pending s refl
  newest-timed_out (v ∷ vs) s = refl

  newest-disconnected :
      (vs : List T) (s : AsyncJsonWriter T) → newest (disconnected stored vs s) ≡ newest s
  unfolding disconnected flushed
  newest-disconnected [] s = newest-flushed s.pending s refl
  newest-disconnected (v ∷ vs) s = refl

  newest-either :
      (b : Bool) (x y s : AsyncJsonWriter T)
      → newest x ≡ newest s
      → newest y ≡ newest s
      → newest (if b then x else y) ≡ newest s
  newest-either true x y s h k = h
  newest-either false x y s h k = k

  newest-run_worker :
      (e : WorkerEvent T) (s : AsyncJsonWriter T)
      → WorkerStores e
      → newest (run_worker e s) ≡ newest s
  unfolding run_worker
  newest-run_worker receives s q =
      newest-either s.working (received s.channel s) s s (newest-received s.channel s refl) refl
  newest-run_worker (times_out k) s q = rw q (
      newest-either s.working (timed_out stored s.channel s) s s (newest-timed_out s.channel s)
        refl)
  newest-run_worker (disconnects k) s q = rw q (
      newest-either s.working (disconnected stored s.channel s) s s
        (newest-disconnected s.channel s) refl)

  newest-schedule :
      (v : T) (s : AsyncJsonWriter T) → IsSettled s → newest (schedule stored v s) ≡ some v
  unfolding schedule write_json
  newest-schedule v s h = elim (Bool-cases (is_async s.mode && s.working)) [
    | inl w ↦ rw w (last-append (first s.pending s.file) s.channel v)
    | inr w ↦ rw (w, (h w).0, (h w).1) refl
  ]

  IsSettled-schedule :
      (v : T) (s : AsyncJsonWriter T) → IsSettled s → IsSettled (schedule stored v s)
  unfolding schedule write_json
  IsSettled-schedule v s h = elim (Bool-cases (is_async s.mode && s.working)) [
    | inl w ↦ rw w (λ n. absurd (ground (arith, w, n)))
    | inr w ↦ rw w h
  ]

  IsSettled-received :
      (vs : List T) (s : AsyncJsonWriter T)
      → s.channel ≡ vs
      → IsSettled s
      → IsSettled (received vs s)
  IsSettled-received [] s e h = h
  IsSettled-received (v ∷ vs) s e h = λ n. absurd (cc (e, (h n).0))

  IsSettled-flushed :
      (p : Option T) (s : AsyncJsonWriter T)
      → s.pending ≡ p
      → IsSettled s
      → IsSettled (flushed stored p s)
  unfolding flushed write_json
  IsSettled-flushed none s e h = h
  IsSettled-flushed (some v) s e h = λ n. ((h n).0, refl)

  IsSettled-timed_out :
      (vs : List T) (s : AsyncJsonWriter T) → IsSettled s → IsSettled (timed_out stored vs s)
  unfolding timed_out
  IsSettled-timed_out [] s h = IsSettled-flushed s.pending s refl h
  IsSettled-timed_out (v ∷ vs) s h = h

  pending-flushed :
      (p : Option T) (s : AsyncJsonWriter T) → s.pending ≡ p → (flushed stored p s).pending ≡ none
  unfolding flushed write_json
  pending-flushed none s h = h
  pending-flushed (some v) s h = refl

  channel-flushed :
      (p : Option T) (s : AsyncJsonWriter T) → (flushed stored p s).channel ≡ s.channel
  unfolding flushed write_json
  channel-flushed none s = refl
  channel-flushed (some v) s = refl

  IsSettled-disconnected :
      (vs : List T) (s : AsyncJsonWriter T)
      → s.channel ≡ vs
      → IsSettled s
      → IsSettled (disconnected stored vs s)
  unfolding disconnected flushed
  IsSettled-disconnected [] s e h =
      λ n. (channel-flushed s.pending s ∙ e, pending-flushed s.pending s refl)
  IsSettled-disconnected (v ∷ vs) s e h = h

  IsSettled-either :
      (b : Bool) (x y : AsyncJsonWriter T)
      → IsSettled x
      → IsSettled y
      → IsSettled (if b then x else y)
  IsSettled-either true x y h k = h
  IsSettled-either false x y h k = k

  IsSettled-run_worker :
      (e : WorkerEvent T) (s : AsyncJsonWriter T)
      → WorkerStores e
      → IsSettled s
      → IsSettled (run_worker e s)
  unfolding run_worker
  IsSettled-run_worker receives s q h =
      IsSettled-either s.working (received s.channel s) s (IsSettled-received s.channel s refl h) h
  IsSettled-run_worker (times_out k) s q h = rw q (
      IsSettled-either s.working (timed_out stored s.channel s) s
        (IsSettled-timed_out s.channel s h) h)
  IsSettled-run_worker (disconnects k) s q h = rw q (
      IsSettled-either s.working (disconnected stored s.channel s) s
        (IsSettled-disconnected s.channel s refl h) h)

  pub newest-steps :
      (es : List (Event T)) (s : AsyncJsonWriter T)
      → IsSettled s
      → AllStored es
      → (newest (steps es s) ≡ handed_over (newest s) es) × IsSettled (steps es s)
  unfolding step
  newest-steps [] s h a = (refl, h)
  newest-steps (schedules k v ∷ es) s h (q, a) = rw q (
      let later = newest-steps es (schedule stored v s) (IsSettled-schedule v s h) a in
      (later.0 ∙ ap (λ d. handed_over d es) (newest-schedule v s h), later.1))
  newest-steps (writes_now k v ∷ es) s h a = absurd a
  newest-steps (worker e ∷ es) s h (q, a) =
      let later = newest-steps es (run_worker e s) (IsSettled-run_worker e s q h) a in
      (later.0 ∙ ap (λ d. handed_over d es) (newest-run_worker e s q), later.1)
