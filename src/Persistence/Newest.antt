-- ===== src/Persistence/Newest.antt =====
-- src/persistence.rs: the newest value reaches the file.
use escrow.Common.{
  ◌≡◌, refl, sym, ap, ◌∙◌, inl, inr, true, false, Option, none, some, List, [], ◌∷◌, arith,
  Bool-cases, text_keys, side_keys, nat_eq,
}
use escrow.Persistence.{
  AsyncJsonWriter, flushed, timed_out, receives, stored, times_out, run_worker, write_json,
  write_now, Event, writes_now, worker, step, steps,
}
use escrow.Persistence.Settled.{
  last, first, newest, handed_over, AllStored, IsSettled, newest-steps,
}

-- The thread takes everything that waits, and the debounce ends.
abbrev pub drain : {T : Type 0} → List T → List (Event T)
drain [] = worker (times_out stored) ∷ []
drain (v ∷ vs) = worker receives ∷ drain vs

module _ {T : Type 0} where
  file-flushed :
      (p : Option T) (s : AsyncJsonWriter T)
      → s.pending ≡ p
      → (flushed stored p s).file ≡ first p s.file
  unfolding flushed write_json
  file-flushed none s h = refl
  file-flushed (some v) s h = refl

  receive_one :
      (v : T) (vs : List T) (s : AsyncJsonWriter T)
      → s.working ≡ true
      → s.channel ≡ v ∷ vs
      → run_worker receives s ≡ record s { channel = vs; pending = some v }
  unfolding run_worker
  receive_one v vs s w c = simp (w, c) refl

  time_out :
      (s : AsyncJsonWriter T)
      → s.working ≡ true
      → s.channel ≡ []
      → run_worker (times_out stored) s ≡ flushed stored s.pending s
  unfolding run_worker timed_out
  time_out s w c = simp (w, c) refl

  file-drain :
      (vs : List T) (s : AsyncJsonWriter T)
      → s.working ≡ true
      → s.channel ≡ vs
      → (steps (drain vs) s).file ≡ last (first s.pending s.file) vs
  unfolding step
  file-drain [] s w c = ap (λ r. r.file) (time_out s w c) ∙ file-flushed s.pending s refl
  file-drain (v ∷ vs) s w c =
      ap (λ r. (steps (drain vs) r).file) (receive_one v vs s w c)
      ∙ file-drain vs (record s { channel = vs; pending = some v }) w refl

  stopped : (s : AsyncJsonWriter T) → s.working ≡ false → steps (drain []) s ≡ s
  unfolding step run_worker
  stopped s w = simp w refl

  file-drain-newest :
      (s : AsyncJsonWriter T) → IsSettled s → (steps (drain s.channel) s).file ≡ newest s
  file-drain-newest s h = elim (Bool-cases s.working) [
    | inl w ↦ file-drain s.channel s w refl
    | inr w ↦
        let empty = h (ground (arith, w)) in
        ap (λ vs. (steps (drain vs) s).file) empty.0
        ∙ ap (λ r. r.file) (stopped s w)
        ∙ ap (λ o. first o s.file) (sym empty.1)
        ∙ ap (λ vs. last (first s.pending s.file) vs) (sym empty.0)
  ]

  -- Whatever the order in which values are handed over and the thread runs, or if there is no thread: once
  -- the thread has taken what waits and its debounce has ended, the file holds the value that was handed
  -- over last, if every write succeeds. The file may have held anything before, also what a failed write
  -- left.
  pub file-steps :
      (es : List (Event T)) (s : AsyncJsonWriter T)
      → IsSettled s
      → AllStored es
      → (steps (drain (steps es s).channel) (steps es s)).file ≡ handed_over (newest s) es
  file-steps es s h a =
      let after = newest-steps es s h a in file-drain-newest (steps es s) after.1 ∙ after.0

-- A value that is written at once is overwritten by an older one that still waits.
pub file-writes_now :
    {T : Type 0} (v p : T) (s : AsyncJsonWriter T)
    → s.working ≡ true
    → s.pending ≡ some p
    → (steps (writes_now stored v ∷ drain s.channel) s).file ≡ last (some p) s.channel
unfolding step write_now write_json
file-writes_now v p s w h =
    file-drain s.channel (record s { file = some v }) w refl
    ∙ ap (λ o. last (first o (some v)) s.channel) h
