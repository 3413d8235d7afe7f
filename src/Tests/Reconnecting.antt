-- ===== src/Tests/Reconnecting.antt =====
-- The reconnect loop on small worlds.
use fitz_ts.Base.{ℕ, ◌/◌, ◌≡◌, refl, arith, [], ◌∷◌, some, none, false, ltb, if◌then◌else◌}
use fitz_ts.Recovery.Backoff.{jittered_backoff_ms, IsJitter}
use fitz_ts.Recovery.Reconnect.{
  World, Options, connecting, failing, transient, connected, scheduled, run_loop, reconnect,
}
use fitz_ts.Recovery.Reconnect.Laws.{
  IsBounded, Ends, attempts_made, reconnect-Ends, reconnect_connects,
}

abbrev third : ℕ → ℕ
third c = c / 3

third-IsJitter : IsJitter third
third-IsJitter c h = omega arith

-- Two attempts fail, the third succeeds.
abbrev flaky : World
flaky = record {
  closes = λ k. false;
  turn = λ k. if ltb k 2 then failing transient false else connecting;
  random = third;
}

reconnect-Ends_example :
    Ends
      (IsBounded 5 250)
      (reconnect flaky (record { max_attempts = some 5; backoff_ms = 100; max_backoff_ms = 250 }) 6)
reconnect-Ends_example = reconnect-Ends flaky 100 250 5 third-IsJitter

abbrev unlimited : Options
unlimited = record { max_attempts = none; backoff_ms = 100; max_backoff_ms = 250 }

reconnect_connects_example :
    reconnect flaky unlimited 3 ≡ some (attempts_made flaky 250 0 3 100 [], connected)
reconnect_connects_example =
    reconnect_connects flaky unlimited 2 ((refl, refl), ((refl, refl), tt)) refl refl refl

flaky_delays :
    reconnect flaky unlimited 3
    ≡ some (scheduled 1 133 ∷ scheduled 2 250 ∷ scheduled 3 250 ∷ [], connected)
unfolding reconnect run_loop jittered_backoff_ms
flaky_delays = refl
