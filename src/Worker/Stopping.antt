-- ===== src/Worker/Stopping.antt =====
-- worker/mailgate_worker/__main__.py: the loop ends when it is told to.
use mailgate.Common.{
  length, length-append, before, after, Bool-cases, ℕ, suc, ◌+◌, ◌≤◌, max, ◌≡◌, refl, inl, inr,
  true, List, [], ◌∷◌, ◌++◌, arith,
}
use mailgate.Models.{Database}
use mailgate.Worker.{
  handle, step, Phase, testing, checking, syncing, waiting, stopped, Worker, Event, signal, others,
  run_cycle, step_from, request_stop, run_worker, started,
}

-- the steps of the worker itself
unfoldable pub steps : List Event → ℕ
steps [] = 0
steps (step a ∷ es) = suc (steps es)
steps (signal ∷ es) = steps es
steps (others f ∷ es) = steps es

-- How far the end of the loop is, once the stop event is set.
rank : Phase → ℕ
rank testing = 1
rank checking = 4
rank syncing = 3
rank waiting = 2
rank stopped = 0

-- The cycle that still comes before the next test of the stop event.
pending : Phase → ℕ
pending testing = 0
pending checking = 1
pending syncing = 1
pending waiting = 0
pending stopped = 0

handle-stopping :
    (e : Event) (w : Worker)
    → w.stop_event ≡ true
    → ((handle e w).stop_event ≡ true)
      × (rank (handle e w).phase + steps (e ∷ []) ≤ max (rank w.phase) (steps (e ∷ [])))
      × (pending (handle e w).phase + length (handle e w).cycles
          ≤ pending w.phase + length w.cycles)
unfolding handle run_cycle rank pending steps
handle-stopping signal w h = (refl, omega arith, omega arith)
handle-stopping (others f) w h = (h, omega arith, omega arith)
handle-stopping (step a) w h = by_phase w.phase refl
  where
    by_phase :
        (p : Phase)
        → w.phase ≡ p
        → ((step_from p a w).stop_event ≡ true)
          × (rank (step_from p a w).phase + 1 ≤ max (rank p) 1)
          × (pending (step_from p a w).phase + length (step_from p a w).cycles
              ≤ pending p + length w.cycles)
    by_phase testing e = rw h (refl, omega arith, omega arith)
    by_phase checking e = elim (Bool-cases a.is_database_there) [
      | inl there ↦ rw there (h, omega arith, omega arith)
      | inr gone ↦ rw gone (h, omega arith, omega arith)
    ]
    by_phase syncing e = (h, omega arith, omega (arith, length-append w.cycles (_ ∷ [])))
    by_phase waiting e = (h, omega arith, omega arith)
    by_phase stopped e = rw e (h, omega arith, omega arith)

steps-cons : (e : Event) (es : List Event) → steps (e ∷ es) ≡ steps (e ∷ []) + steps es
unfolding steps
steps-cons (step a) es = omega arith
steps-cons signal es = omega arith
steps-cons (others f) es = omega arith

rank-stopped : (p : Phase) → rank p ≡ 0 → p ≡ stopped
unfolding rank
rank-stopped testing h = absurd (omega (arith, h))
rank-stopped checking h = absurd (omega (arith, h))
rank-stopped syncing h = absurd (omega (arith, h))
rank-stopped waiting h = absurd (omega (arith, h))
rank-stopped stopped h = refl

run_worker-stopping :
    (es : List Event) (w : Worker)
    → w.stop_event ≡ true
    → (rank (run_worker es w).phase + steps es ≤ max (rank w.phase) (steps es))
      × (length (run_worker es w).cycles ≤ pending w.phase + length w.cycles)
unfolding run_worker rank steps
run_worker-stopping [] w h = (omega (arith, max-zero (rank w.phase)), omega arith)
  where
    max-zero : (n : ℕ) → max n 0 ≡ n
    max-zero n = omega arith
run_worker-stopping (e ∷ es) w h =
    let (still, nearer, fewer) = handle-stopping e w h in
    let (near, few) = run_worker-stopping es (handle e w) still in
    (omega (arith, steps-cons e es, nearer, near), omega (arith, fewer, few))

pub run_worker-append :
    (es fs : List Event) (w : Worker) → run_worker (es ++ fs) w ≡ run_worker fs (run_worker es w)
unfolding run_worker
run_worker-append [] fs w = refl
run_worker-append (e ∷ es) fs w = run_worker-append es fs (handle e w)

-- Whatever the database, the servers and other processes do, and wherever the loop stands when a signal
-- comes: four more steps end the worker, further ones change nothing of that, and at most one more cycle
-- synchronises the mailboxes.
pub run_worker-Stops :
    (db : Database) (before after : List Event)
    → 4 ≤ steps after
    → ((run_worker (before ++ signal ∷ after) (started db)).phase ≡ stopped)
      × (length (run_worker (before ++ signal ∷ after) (started db)).cycles
          ≤ suc (length (run_worker before (started db)).cycles))
unfolding run_worker rank pending
run_worker-Stops db before after h =
    let w : Worker = run_worker before (started db) in
    let (near, few) = run_worker-stopping after (request_stop w) refl in
    rw (run_worker-append before (signal ∷ after) (started db))
      (rank-stopped _ (omega (arith, near, far w.phase, h)), omega (arith, few, at_most w.phase))
  where
    far : (p : Phase) → rank p ≤ 4
    far testing = omega arith
    far checking = omega arith
    far syncing = omega arith
    far waiting = omega arith
    far stopped = omega arith

    at_most : (p : Phase) → pending p ≤ 1
    at_most testing = omega arith
    at_most checking = omega arith
    at_most syncing = omega arith
    at_most waiting = omega arith
    at_most stopped = omega arith
