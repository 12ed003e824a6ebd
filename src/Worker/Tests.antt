-- ===== src/Worker/Tests.antt =====
-- A run of the worker that is stopped in the middle of its first cycle.
use mailgate.Common.{length, suc, ◌≤◌, ◌≡◌, true, [], ◌∷◌, arith}
use mailgate.Samples.{sample_database, sample_world}
use mailgate.Worker.{step, stopped, Event, signal, run_worker, started}
use mailgate.Worker.Stopping.{steps, run_worker-Stops}

abbrev sample_step : Event
sample_step = step (record { is_database_there = true; worlds = λ m. sample_world })

sample_enough : 4 ≤ steps (sample_step ∷ sample_step ∷ sample_step ∷ sample_step ∷ [])
unfolding steps
sample_enough = omega arith

run_worker-Stops_example :
    ((run_worker
        (sample_step ∷ sample_step ∷ signal ∷ sample_step ∷ sample_step ∷ sample_step ∷ sample_step
          ∷ [])
        (started sample_database)).phase
      ≡ stopped)
    × (length
          (run_worker
            (sample_step ∷ sample_step ∷ signal ∷ sample_step ∷ sample_step ∷ sample_step
              ∷ sample_step ∷ [])
            (started sample_database)).cycles
        ≤ suc
            (length (run_worker (sample_step ∷ sample_step ∷ []) (started sample_database)).cycles))
run_worker-Stops_example =
    run_worker-Stops sample_database (sample_step ∷ sample_step ∷ [])
      (sample_step ∷ sample_step ∷ sample_step ∷ sample_step ∷ []) sample_enough
