-- ===== src/Monitors/Tests.antt =====
-- The monitors at concrete tables.
use mathlib.Core.Path.{subst}
use jelatine.Common.{
  ℕ, ◌≡◌, ◌≢◌, ◌<◌, refl, true, false, none, some, [], ◌∷◌, arith, ◌==◌, if◌then◌else◌, sym, ◌∙◌,
}
use jelatine.Monitors.{
  Monitor, MonitorTable, free_monitor, monitor_init, search, Found, probe, place, enter,
  enter_found, enter_new, resize, exit, Entered,
}
use jelatine.Monitors.View.{scan, monitor_of}
use jelatine.Monitors.Validity.{IsValid}
use jelatine.Monitors.Entering.{Entering, enter_monitor, enter-Entering}
use jelatine.Monitors.Exiting.{Exiting, exit-Exiting, monitor_init-IsValid}
use jelatine.Monitors.Exclusion.{
  System, update, Reach, start, later, enters, mutual_exclusion, contended-owner,
  acquired-injective,
}
use jelatine.Monitors.Purging.{
  clear_dead, count_live, move_home, chain_home, move_all_home, chain_all_home, tm_purge,
}
use jelatine.Monitors.Waiting.{Waiting, wait, give_up}

enter-Entering_example :
    Entering 8 monitor_init (enter_monitor 1 (monitor_of monitor_init 8)) (enter 1 1 8 monitor_init)
enter-Entering_example =
    enter-Entering 2 1 monitor_init monitor_init-IsValid.0 1 8 (omega arith) 1 (omega arith)
      (omega arith)

-- The thread 1 has entered the monitor of 8, whose bucket is 1.
abbrev mine : Monitor
mine = record { next = none; ref = 8; owner = 1; count = 1; cond = 0 }

abbrev one : MonitorTable
one = record {
  capacity = 4;
  entries = 1;
  buckets = free_monitor ∷ mine ∷ free_monitor ∷ free_monitor ∷ [];
}

enter-one : enter 1 1 8 monitor_init ≡ Entered.acquired one
unfolding enter search monitor_init enter_new probe resize place
enter-one = refl

abbrev one_state : System
one_state = record { table = one; inside = update (λ i r. 0) 1 8 1 }

one_is_reached : Reach one_state
unfolding monitor_init
one_is_reached =
    later start
      (enters 1 1 8 {t = one} (omega arith) (omega arith) (omega arith) (omega arith) enter-one)

mutual_exclusion_example : ◌≡◌ {A = ℕ} 1 1
mutual_exclusion_example =
    mutual_exclusion one_is_reached 1 1 8 (omega arith) (omega arith) (omega arith) (omega arith)
      (omega arith)

two_contended : enter 1 2 8 one ≡ Entered.contended
unfolding enter search enter_found
two_contended = refl

contended-owner_example :
    (j : ℕ) × (j ≢ 2)
    × (0 < one_state.inside j 8)
    × (enough : ℕ) × (t : MonitorTable) × (exit enough j 8 one ≡ some (true, t))
contended-owner_example =
    contended-owner one_is_reached 1 2 8 (omega arith) (omega arith) (omega arith) two_contended

one_valid : (k : ℕ) × (steps : ℕ) × IsValid k steps one
unfolding monitor_of scan monitor_init
one_valid =
    let (t, e, valid, view) =
      enter-Entering 2 1 monitor_init monitor_init-IsValid.0 1 8 (omega arith) 1 (omega arith)
        (omega arith) in
    subst (λ u. (k : ℕ) × (steps : ℕ) × IsValid k steps u)
      (sym (acquired-injective (sym enter-one ∙ e))) valid

exit-Exiting_example : Exiting 1 8 one (exit one_valid.1 1 8 one)
exit-Exiting_example =
    exit-Exiting one_valid.0 one_valid.1 one one_valid.2 1 8 (omega arith) one_valid.1 (omega arith)

-- The thread 2 waits on the monitor that the thread 1 is in: it returns true, with the lock once more.
wait_other : wait 2 2 8 false 500 0 one ≡ Waiting.returns true false 1
unfolding wait search
wait_other = refl

-- The first thread gives its monitor up.
wait-one :
    wait 2 1 8 false 500 0 one
    ≡ Waiting.waits
        (record one {
          buckets =
              free_monitor
              ∷ record mine { owner = 0; count = 0; cond = 500 }
              ∷ free_monitor
              ∷ free_monitor
              ∷ [];
        })
        500
        1
unfolding wait give_up search
wait-one = refl

-- The monitors of 16, 48 and 24: the second of them, whose bucket is that of the first, stands
-- in that of the third, which stands in the bucket 0.
abbrev full : MonitorTable
full = record {
  capacity = 4;
  entries = 3;
  buckets =
      record { next = none; ref = 24; owner = 3; count = 1; cond = 0 }
      ∷ free_monitor
      ∷ record { next = some 3; ref = 16; owner = 1; count = 1; cond = 0 }
      ∷ record { next = some 0; ref = 48; owner = 2; count = 1; cond = 0 }
      ∷ [];
}

-- The collection that follows the death of the first object leaves its bucket free, with a chain.
abbrev purged : MonitorTable
purged = record {
  capacity = 4;
  entries = 2;
  buckets =
      record { next = none; ref = 48; owner = 2; count = 1; cond = 0 }
      ∷ free_monitor
      ∷ record free_monitor { next = some 0 }
      ∷ record { next = none; ref = 24; owner = 3; count = 1; cond = 0 }
      ∷ [];
}

tm_purge-full : tm_purge (λ r. if r == 16 then false else true) full ≡ purged
unfolding tm_purge clear_dead count_live move_home chain_home move_all_home chain_all_home
tm_purge-full = refl

-- The thread 5 enters the monitor of 80: the monitor of 48, which the thread 2 is in, was found before,
-- and is not found any more.
abbrev entered : MonitorTable
entered = record purged {
  entries = 3;
  buckets =
      record { next = none; ref = 48; owner = 2; count = 1; cond = 0 }
      ∷ free_monitor
      ∷ record { next = none; ref = 80; owner = 5; count = 1; cond = 0 }
      ∷ record { next = none; ref = 24; owner = 3; count = 1; cond = 0 }
      ∷ [];
}

enter-purged :
    (search 9 purged.buckets 2 48 ≡ Found.at_slot 0)
    × (enter 2 5 80 purged ≡ Entered.acquired entered)
    × (search 9 entered.buckets 2 48 ≡ Found.absent)
unfolding enter enter_new search probe place resize
enter-purged = (refl, refl, refl)
