-- ===== src/Monitors.antt =====
-- The monitors of src/jelatine/thread.c: a table of buckets in which a monitor whose bucket is taken
-- stands in the next free one and is chained behind the monitor in its own (`tm_hash`, `tm_rehash`,
-- `tm_purge`, `monitor_init`, `monitor_enter`, `monitor_exit`, `thread_notify`). A pointer to a
-- bucket is its index, and a reference, a thread and a condition are numbers, 0 for NULL. Every
-- function runs under the lock of the virtual machine, so it is one step; the search along a chain
-- runs on fuel. A pointer has 8 bytes.
pub mod Slots
pub mod Chains
pub mod Placing
pub mod Rechaining
pub mod Probing
pub mod Growing
pub mod View
pub mod Validity
pub mod Entering
pub mod Exiting
pub mod Nesting
pub mod Exclusion
pub mod Purging
pub mod Waiting
mod Tests
use jelatine.Common.{
  ℕ, zero, suc, ◌+◌, ◌-◌, ◌*◌, ◌/◌, ◌%◌, ◌^◌, bit_and, Bool, true, false, Option, none, some, List,
  [], ◌∷◌, ltb, ◌==◌, if◌then◌else◌, get_or, set, replicate,
}

-- `struct monitor_t`
pub record Monitor : Type 0 where
  pub next : Option ℕ
  pub ref : ℕ
  pub owner : ℕ
  pub count : ℕ
  pub cond : ℕ

abbrev pub free_monitor : Monitor
free_monitor = record { next = none; ref = 0; owner = 0; count = 0; cond = 0 }

-- The table in `struct thread_manager_t`.
pub record MonitorTable : Type 0 where
  pub capacity : ℕ
  pub entries : ℕ
  pub buckets : List Monitor

abbrev pub slot : List Monitor → ℕ → Monitor
slot buckets i = get_or buckets i free_monitor

abbrev pub tm_hash : ℕ → ℕ
tm_hash ref = ref / 2 ^ 3

abbrev pub home : ℕ → ℕ → ℕ
home capacity ref = bit_and (tm_hash ref) (capacity - 1)

abbrev pub tm_capacity : ℕ
tm_capacity = 4

unfoldable pub monitor_init : MonitorTable
monitor_init = record {
  capacity = tm_capacity;
  entries = 0;
  buckets = replicate tm_capacity free_monitor;
}

-- Where the search along a chain ends: at a bucket, at NULL, or nowhere on this fuel.
pub data Found : Type 0 where
  at_slot : ℕ → Found
  absent : Found
  searching : Found

-- `while (entry && (entry->ref != ref)) entry = entry->next`
unfoldable pub search : ℕ → List Monitor → ℕ → ℕ → Found
search zero buckets i ref = Found.searching
search (suc fuel) buckets i ref =
    let rest : Found = elim (slot buckets i).next [
      | none ↦ Found.absent
      | some k ↦ search fuel buckets k ref
    ] in
    if (slot buckets i).ref == ref then Found.at_slot i else rest

-- `while (tm.buckets[i].ref != JNULL) i = (i + 1) & (tm.capacity - 1)`, which goes around once.
unfoldable pub probe : ℕ → ℕ → List Monitor → ℕ → Option ℕ
probe zero capacity buckets i = none
probe (suc fuel) capacity buckets i =
    let rest = probe fuel capacity buckets (bit_and (i + 1) (capacity - 1)) in
    if (slot buckets i).ref == 0 then some i else rest

-- The entry `m` at the bucket `i`, chained if there was a clash.
unfoldable pub place : List Monitor → ℕ → ℕ → Monitor → List Monitor
place buckets hash i m =
    if i == hash
    then set buckets i (record m { next = none })
    else set (set buckets i (record m { next = (slot buckets hash).next })) hash
        (record (slot buckets hash) { next = some i })

-- The loop of `tm_rehash`; `none` is a search for a free bucket without end.
unfoldable pub rehash_loop : ℕ → List Monitor → List Monitor → Option (List Monitor)
rehash_loop capacity [] buckets = some buckets
rehash_loop capacity (entry ∷ rest) buckets =
    let hash = home capacity entry.ref in
    elim (entry.ref == 0) [
      | true ↦ rehash_loop capacity rest buckets
      | false ↦ elim (probe capacity capacity buckets hash) [
        | none ↦ none
        | some j ↦ rehash_loop capacity rest (place buckets hash j entry)
      ]
    ]

unfoldable pub rehash : Bool → MonitorTable → Option MonitorTable
rehash grow t =
    let capacity = if grow then t.capacity * 2 % 2 ^ 64 else t.capacity / 2 in
    elim (rehash_loop capacity t.buckets (replicate capacity free_monitor)) [
      | none ↦ none
      | some buckets ↦ some (record t { capacity = capacity; buckets = buckets })
    ]

-- One round of `monitor_enter`.
pub data Entered : Type 0 where
  acquired : MonitorTable → Entered
  contended : Entered
  looping : Entered

-- A monitor that is in the table, at the bucket `i`.
unfoldable pub enter_found : ℕ → ℕ → MonitorTable → Entered
enter_found thread i t =
    let entry = slot t.buckets i in
    if entry.owner == 0
    then Entered.acquired
        (record t { buckets = set t.buckets i (record entry { owner = thread; count = 1 }) })
    else if entry.owner == thread
    then Entered.acquired (record t {
      buckets = set t.buckets i (record entry { count = (entry.count + 1) % 2 ^ 64 });
    })
    else Entered.contended

abbrev pub of_rehash : Option MonitorTable → Entered
of_rehash none = Entered.looping
of_rehash (some t) = Entered.acquired t

-- The check after an insertion.
unfoldable pub resize : MonitorTable → Entered
resize t =
    if t.entries == t.capacity
    then of_rehash (rehash true t)
    else if ltb t.entries (t.capacity / 4)
    then of_rehash (rehash false t)
    else Entered.acquired t

-- The insertion of a new monitor.
unfoldable pub enter_new : ℕ → ℕ → MonitorTable → Entered
enter_new thread ref t =
    let hash = home t.capacity ref in
    elim (probe t.capacity t.capacity t.buckets hash) [
      | none ↦ Entered.looping
      | some i ↦ resize (record t {
        entries = t.entries + 1;
        buckets =
            place t.buckets hash i
              (record (slot t.buckets i) { ref = ref; owner = thread; count = 1 });
      })
    ]

unfoldable pub enter : ℕ → ℕ → ℕ → MonitorTable → Entered
enter fuel thread ref t = elim (search fuel t.buckets (home t.capacity ref) ref) [
  | Found.at_slot i ↦ enter_found thread i t
  | Found.absent ↦ enter_new thread ref t
  | Found.searching ↦ Entered.looping
]

-- `monitor_exit`: whether the thread owned the monitor, and the table; `none` where the search does
-- not end on the fuel.
unfoldable pub exit_found : ℕ → ℕ → MonitorTable → Bool × MonitorTable
exit_found thread i t =
    let entry = slot t.buckets i in
    if entry.owner == thread
    then (
      true,
      record t {
        buckets = set t.buckets i (record entry {
          owner = if entry.count == 1 then 0 else entry.owner;
          count = (entry.count + (2 ^ 64 - 1)) % 2 ^ 64;
        });
      },
    )
    else (false, t)

unfoldable pub exit : ℕ → ℕ → ℕ → MonitorTable → Option (Bool × MonitorTable)
exit fuel thread ref t = elim (search fuel t.buckets (home t.capacity ref) ref) [
  | Found.at_slot i ↦ some (exit_found thread i t)
  | Found.absent ↦ some (false, t)
  | Found.searching ↦ none
]

-- `thread_notify`: the result, and the condition that is signalled or 0.
unfoldable pub notify : ℕ → ℕ → ℕ → MonitorTable → Option (Bool × ℕ)
notify fuel self ref t = elim (search fuel t.buckets (home t.capacity ref) ref) [
  | Found.at_slot i ↦
      some
        (if (slot t.buckets i).owner == self then (true, (slot t.buckets i).cond) else (false, 0))
  | Found.absent ↦ some (false, 0)
  | Found.searching ↦ none
]
