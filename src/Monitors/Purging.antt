-- ===== src/Monitors/Purging.antt =====
-- `tm_purge` of src/jelatine/thread.c, which runs during a collection and takes the monitors of dead
-- objects out of the table.
use jelatine.Common.{ℕ, zero, suc, ◌+◌, Bool, none, some, List, [], ◌∷◌, ◌==◌, if◌then◌else◌, set}
use jelatine.Monitors.{Monitor, MonitorTable, free_monitor, slot, home}

-- The first loop: the monitors of unmarked objects are cleared, and the others are counted.
unfoldable pub clear_dead : (ℕ → Bool) → List Monitor → List Monitor
clear_dead is_marked [] = []
clear_dead is_marked (entry ∷ buckets) =
    (if entry.ref == 0 then entry else if is_marked entry.ref then entry else free_monitor)
    ∷ clear_dead is_marked buckets

unfoldable pub count_live : (ℕ → Bool) → List Monitor → ℕ
count_live is_marked [] = 0
count_live is_marked (entry ∷ buckets) =
    (if entry.ref == 0 then 0 else if is_marked entry.ref then 1 else 0)
    + count_live is_marked buckets

-- One round of the second loop, at the bucket `i`: its monitor goes to its own bucket, where that
-- is free or has another's monitor, which comes here.
unfoldable pub move_home : ℕ → ℕ → List Monitor → List Monitor
move_home capacity i buckets =
    let entry = record (slot buckets i) { next = none } in
    let hash = home capacity entry.ref in
    let other = slot buckets hash in
    if entry.ref == 0
    then buckets
    else if i == hash
    then set buckets i entry
    else if other.ref == 0
    then set (set buckets hash entry) i free_monitor
    else if home capacity other.ref == hash
    then set buckets i entry
    else set (set buckets hash entry) i other

-- One round of the third loop: a monitor that is not in its own bucket is chained behind it.
unfoldable pub chain_home : ℕ → ℕ → List Monitor → List Monitor
chain_home capacity i buckets =
    let entry = slot buckets i in
    let hash = home capacity entry.ref in
    if entry.ref == 0
    then buckets
    else if i == hash
    then buckets
    else set (set buckets i (record entry { next = (slot buckets hash).next })) hash
        (record (slot buckets hash) { next = some i })

-- The second and the third loop, with the number of rounds that are left.
unfoldable pub move_all_home : ℕ → ℕ → ℕ → List Monitor → List Monitor
move_all_home zero capacity i buckets = buckets
move_all_home (suc rounds) capacity i buckets =
    move_all_home rounds capacity (i + 1) (move_home capacity i buckets)

unfoldable pub chain_all_home : ℕ → ℕ → ℕ → List Monitor → List Monitor
chain_all_home zero capacity i buckets = buckets
chain_all_home (suc rounds) capacity i buckets =
    chain_all_home rounds capacity (i + 1) (chain_home capacity i buckets)

unfoldable pub tm_purge : (ℕ → Bool) → MonitorTable → MonitorTable
tm_purge is_marked t = record t {
  entries = count_live is_marked t.buckets;
  buckets =
      chain_all_home t.capacity t.capacity 0
        (move_all_home t.capacity t.capacity 0 (clear_dead is_marked t.buckets));
}
