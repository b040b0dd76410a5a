-- ===== src/Tests/Sends.antt =====
-- Examples for the calls of `_send` of leader_follower/leader.py, together.
use kv_replication_lab.Prelude.{
  ℕ, ◌*◌, ◌≤◌, ◌<◌, arith, ◌≡◌, refl, Bool, true, false, some, get_elem?, List, [], ◌∷◌, All,
  length, nat_eq,
}
use kv_replication_lab.Common.Replies.{Reply, http_error}
use kv_replication_lab.Common.Server.{ReplicateResponse}
use kv_replication_lab.Common.Waiting.{returned, raised}
use kv_replication_lab.LeaderFollower.Sending.{
  max_concurrent_replicate_calls, created, queued, posting, ended, Sends, Event, spawn, resume,
  answer, initial, run,
}
use kv_replication_lab.LeaderFollower.Sending.Limit.{total, out, requests_out_le}
use kv_replication_lab.LeaderFollower.Sending.Closing.{Either, closed_fates}
use kv_replication_lab.LeaderFollower.Sending.Progress.{
  work, IsEnded, IsEnabled, enabled-Works, first_event, follow, no_deadlock, sends_end,
}

abbrev is_ok : ℕ → Bool
is_ok status = nat_eq status 200

abbrev two_calls : List Event
two_calls = spawn ∷ spawn ∷ resume 1 ∷ resume 0 ∷ answer 1 http_error ∷ []

both_ran :
    run is_ok two_calls initial
    ≡ record { value = 255; is_closed = false; phases = posting ∷ ended (returned false) ∷ [] }
unfolding run
both_ran = refl

requests_out_le_example :
    total out (run is_ok two_calls initial).phases ≤ max_concurrent_replicate_calls
requests_out_le_example = requests_out_le is_ok two_calls

-- One call may go on; it waits, and another has not begun. The client has been closed.
abbrev closed_now : Sends
closed_now = record { value = 1; is_closed = true; phases = queued ∷ created ∷ [] }

both_told :
    run is_ok (resume 1 ∷ resume 0 ∷ []) closed_now
    ≡ record { value = 1; is_closed = true; phases = ended raised ∷ ended (returned false) ∷ [] }
unfolding run
both_told = refl

closed_fates_example :
    (get_elem? closed_now.phases 0 ≡ some queued
      → Either queued (ended raised) 0 (run is_ok (resume 1 ∷ resume 0 ∷ []) closed_now))
    × (get_elem? closed_now.phases 0 ≡ some created
        → Either created
            (ended (returned false))
            0
            (run is_ok (resume 1 ∷ resume 0 ∷ []) closed_now))
closed_fates_example = closed_fates is_ok closed_now 0 refl (resume 1 ∷ resume 0 ∷ [])

abbrev no_reply : ℕ → Reply ReplicateResponse
no_reply i = http_error

abbrev one_out : Sends
one_out = record { value = 255; is_closed = false; phases = posting ∷ created ∷ [] }

some_work : {m n : ℕ} → m < n → 0 < n
some_work h = omega (arith, h)

sends_end_example :
    All IsEnded
      (follow is_ok
        (work (run is_ok two_calls initial))
        (λ n. first_event no_reply)
        (run is_ok two_calls initial)).phases
    × (work (run is_ok two_calls initial) ≤ 3 * length (run is_ok two_calls initial).phases)
    × (0 < work (run is_ok two_calls initial)
        → (e : Event) × IsEnabled (run is_ok two_calls initial) e)
sends_end_example =
    sends_end is_ok (λ n. first_event no_reply)
      (λ n s limited (e, enabled).
        no_deadlock no_reply s limited (some_work (enabled-Works is_ok s e enabled)))
      two_calls
