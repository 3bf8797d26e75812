-- ===== src/App/Termination/Tests.antt =====
-- A run that is asked to terminate while it starts, and the theorems about it.
use generic_target.Base.{true, some}
use generic_target.Base.Int.{pos}
use generic_target.App.Termination.{Process, new_process, waits}

-- The signal comes before the application waits, and a thread stands behind its test.
abbrev asked_early : Process
asked_early = record new_process {
  phase = waits;
  semaphore = some 1;
  initialized = true;
  handlers = true;
  threads = true;
  asking = 1;
  requests = 1;
  result = pos 0;
}
