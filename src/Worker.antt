-- ===== src/Worker.antt =====
-- worker/mailgate_worker/__main__.py: the loop that synchronises the mailboxes until it is told to stop.
pub mod Stopping
mod Tests
use mailgate.Common.{if◌then◌else◌, ℕ, Bool, true, false, List, [], ◌∷◌, ◌++◌}
use mailgate.Ingestion.Sync.{World, sync_all_mailboxes}
use mailgate.Models.{Mailbox, Database}

-- Where the loop of `main` stands: before the test of the stop event, before `check_database`, before
-- `sync_all_mailboxes`, in the wait, or behind the loop.
pub data Phase : Type 0 where
  testing checking syncing waiting stopped : Phase

pub record Worker : Type 0 where
  pub phase : Phase
  pub stop_event : Bool
  pub db : Database
  -- what the cycles have logged: the messages processed and the errors
  pub cycles : List (ℕ × ℕ)

-- What a step meets: whether `SELECT 1` works, and what the run of each mailbox meets.
pub record Answers : Type 0 where
  pub is_database_there : Bool
  pub worlds : Mailbox → World

-- A step of the worker, a SIGTERM or SIGINT, or a transaction of another process.
pub data Event : Type 0 where
  step : Answers → Event
  signal : Event
  others : (Database → Database) → Event

abbrev pub moved : Phase → Worker → Worker
moved p w = record w { phase = p }

-- one cycle of `sync_all_mailboxes`, with its log line
unfoldable pub run_cycle : Answers → Worker → Worker
run_cycle a w =
    let (processed, errors, db) = sync_all_mailboxes a.worlds w.db in
    record {
      phase = waiting;
      stop_event = w.stop_event;
      db = db;
      cycles = w.cycles ++ (processed, errors) ∷ [];
    }

abbrev pub step_from : Phase → Answers → Worker → Worker
step_from testing a w = if w.stop_event then moved stopped w else moved checking w
step_from checking a w = if a.is_database_there then moved syncing w else moved waiting w
step_from syncing a w = run_cycle a w
step_from waiting a w = moved testing w
step_from stopped a w = w

-- `request_stop`
abbrev pub request_stop : Worker → Worker
request_stop w = record w { stop_event = true }

unfoldable pub handle : Event → Worker → Worker
unfolding run_cycle
handle (step a) w = step_from w.phase a w
handle signal w = request_stop w
handle (others f) w = record w { db = f w.db }

-- the loop of `main`, over what happens
unfoldable pub run_worker : List Event → Worker → Worker
unfolding handle
run_worker [] w = w
run_worker (e ∷ es) w = run_worker es (handle e w)

-- `main`, up to the loop
abbrev pub started : Database → Worker
started db = record { phase = testing; stop_event = false; db = db; cycles = [] }

-- `main` with `--check-once`: the exit status
unfoldable pub check_once : Bool → ℕ
check_once is_database_there = if is_database_there then 0 else 1
