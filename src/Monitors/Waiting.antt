-- ===== src/Monitors/Waiting.antt =====
-- `thread_wait` of src/jelatine/thread.c up to the wait for the condition and from there on. The lock
-- of the virtual machine is recursive: `depth` is how often the thread has it. What the condition
-- variable does is left open: the other threads' calls stand between the two halves.
use jelatine.Common.{ℕ, ◌+◌, Bool, true, false, ◌&&◌, ◌==◌, if◌then◌else◌, set}
use jelatine.Monitors.{MonitorTable, slot, home, Found, search, Entered, enter}

-- Whether the thread waits, for a condition and with the table and the lock as they are then, or the
-- function returns, with its answer, whether it has thrown an InterruptedException, and the lock.
pub data Waiting : Type 0 where
  waits : MonitorTable → ℕ → ℕ → Waiting
  returns : Bool → Bool → ℕ → Waiting
  looping : Waiting

-- The monitor in the bucket `i`, which the thread has once: it is given up. `fresh` is the condition
-- that is allocated where the monitor has none.
unfoldable pub give_up : ℕ → ℕ → ℕ → MonitorTable → Waiting
give_up i fresh depth t =
    let entry = slot t.buckets i in
    let cond = if entry.cond == 0 then fresh else entry.cond in
    Waiting.waits
      (record t { buckets = set t.buckets i (record entry { owner = 0; count = 0; cond = cond }) })
      cond depth

unfoldable pub wait : ℕ → ℕ → ℕ → Bool → ℕ → ℕ → MonitorTable → Waiting
wait fuel self ref interrupted fresh depth t =
    elim (search fuel t.buckets (home t.capacity ref) ref) [
      | Found.at_slot i ↦
          if interrupted
          then Waiting.returns true true depth
          else if ((slot t.buckets i).owner == self) && ((slot t.buckets i).count == 1)
          then give_up i fresh (depth + 1) t
          else Waiting.returns true false (depth + 1)
      | Found.absent ↦ Waiting.returns false interrupted depth
      | Found.searching ↦ Waiting.looping
    ]

-- Behind the wait the lock is released and the monitor is entered again.
abbrev pub wake : ℕ → ℕ → ℕ → MonitorTable → Entered
wake fuel self ref t = enter fuel self ref t
