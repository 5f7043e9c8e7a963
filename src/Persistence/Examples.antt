-- ===== src/Persistence/Examples.antt =====
-- src/persistence.rs: a writer with a thread.
use escrow.Common.{
  ℕ, ◌≡◌, refl, true, false, none, some, List, [], ◌∷◌, text_keys, side_keys, nat_eq,
}
use escrow.Persistence.{
  AsyncJsonWriter, new, stored, write_failed, receives, times_out, Event, schedules, writes_now,
  worker, step, steps,
}
use escrow.Persistence.Settled.{newest, handed_over, IsSettled}
use escrow.Persistence.Newest.{drain, file-steps}

abbrev writer : AsyncJsonWriter ℕ
writer = new false true none

abbrev events : List (Event ℕ)
events =
    schedules stored 1
    ∷ worker receives
    ∷ schedules stored 2
    ∷ worker (times_out stored)
    ∷ schedules stored 3
    ∷ []

abbrev inline_writer : AsyncJsonWriter ℕ
inline_writer = new false false none

-- Without a thread the value is written at once.
no_thread : (steps (schedules stored 4 ∷ []) inline_writer).file ≡ some 4
unfolding new step
no_thread = refl

older_wins :
    (steps
      (schedules stored 1 ∷ worker receives ∷ writes_now stored 2 ∷ worker (times_out stored) ∷ [])
      writer).file
    ≡ some 1
unfolding new step
older_wins = refl

-- A write that fails may leave an empty file.
lost :
    (steps
      (schedules stored 1 ∷ worker receives ∷ worker (times_out (write_failed none)) ∷ [])
      writer).file
    ≡ none
unfolding new step
lost = refl

writer-IsSettled : IsSettled writer
unfolding new
writer-IsSettled = λ h. (refl, refl)

file-steps_example :
    (steps (drain (steps events writer).channel) (steps events writer)).file
    ≡ handed_over (newest writer) events
file-steps_example =
    file-steps events writer writer-IsSettled (refl, (tt, (refl, (refl, (refl, tt)))))
