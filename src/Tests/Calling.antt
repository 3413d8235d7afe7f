-- ===== src/Tests/Calling.antt =====
-- A call whose frames come before and after it is asked for, and which ends.
use fitz_ts.Base.{ℕ, ◌≡◌, refl, [], ◌∷◌, List, true, false}
use fitz_ts.Domains.Rpc.{
  Event, pushes, ends, fails, nexts, returns, times_out, run, create_rpc_iterator, abort_error,
}
use fitz_ts.Domains.Rpc.Frames.{left, answers}
use fitz_ts.Domains.Rpc.Calls.{asked, created, answers-run}

abbrev history : List (Event ℕ)
history =
    pushes 1
    ∷ pushes 2
    ∷ nexts 10
    ∷ nexts 11
    ∷ nexts 12
    ∷ pushes 3
    ∷ pushes 4
    ∷ ends
    ∷ nexts 13
    ∷ pushes 5
    ∷ nexts 14
    ∷ []

frames_of_history : left (run history (created true false)).1 ≡ 1 ∷ 2 ∷ 3 ∷ 4 ∷ []
unfolding create_rpc_iterator run fitz_ts.Domains.Rpc.step fitz_ts.Domains.Rpc.push
    fitz_ts.Domains.Rpc.end fitz_ts.Domains.Rpc.next
frames_of_history = refl

answers-run_example :
    (answers 12 (run history (created true false)).1 ≡ asked 12 history)
    × ((run history (created true false)).0.armed ≡ false)
    × ((run history (created true false)).0.listening ≡ false)
unfolding create_rpc_iterator run fitz_ts.Domains.Rpc.step fitz_ts.Domains.Rpc.push
    fitz_ts.Domains.Rpc.end fitz_ts.Domains.Rpc.next
answers-run_example =
    answers-run true false history 12
      (tt, (tt, (refl, (refl, (refl, (tt, (tt, (tt, (refl, (tt, (refl, tt))))))))))) refl
