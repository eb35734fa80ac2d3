-- ===== src/Streaming/Locks.antt =====
-- The goroutines of internal/streaming/upstream.go around `connMutex`, a `sync.RWMutex`: any number
-- of readers, or one writer. The map holds pointers: a connection has an address, and its fields lie
-- in a heap, where keepAlive and subscribeToAllEvents write them without this lock. The monitor is
-- followed step by step; the other goroutines take the lock to read or to write, and which pointers
-- they store or remove is not restricted. A connection that is made later lies at an address that
-- nobody has looked at, with the fields that it is made with.
use mercury_relay.Prelude.{
  ℕ, suc, ◌+◌, String, ◌==◌, ◌≡◌, true, false, Bool, [], ◌∷◌, ℤ, Dict, erase, if◌then◌else◌,
}
use mercury_relay.Streaming.Connections.{UpstreamConnection, timed_out, subscribe_to_all_events}

-- Where `monitorConnections` stands: between two ticks; in its loop, with the entries left, under
-- `RLock`; in `removeConnection`, which waits for `Lock` while the loop's `RLock` is still held; and
-- returned, after the context is done.
pub data Monitor : Type 0 where
  waiting returned : Monitor
  scanning : Dict ℕ → Monitor
  removing : String → Dict ℕ → Monitor

-- The read locks that the monitor holds.
abbrev pub held : Monitor → ℕ
held waiting = 0
held returned = 0
held (scanning entries) = 1
held (removing url entries) = 1

abbrev pub Heap : Type 0 → Type 0
Heap W = ℕ → UpstreamConnection W

pub record State (W : Type 0) : Type 0 where
  pub monitor : Monitor
  pub readers : ℕ  -- the other goroutines that hold `RLock`
  pub writer : Bool  -- one of them holds `Lock`
  pub connections : Dict ℕ
  pub heap : Heap W

-- The heap with another connection at an address.
abbrev pub write_at : {W : Type 0} → ℕ → UpstreamConnection W → Heap W → Heap W
write_at ref conn heap other = if ref == other then conn else heap other

module _ {W : Type 0} (timeout : ℤ) where
  pub data Step : State W → State W → Type 0 where
    -- The monitor's tick: `RLock`, and the range over the map.
    tick :
        (s : State W)
        → s.monitor ≡ waiting
        → s.writer ≡ false
        → Step s (record s { monitor = scanning s.connections })
    keep :
        (s : State W) (now : ℕ) (url : String) (ref : ℕ) (entries : Dict ℕ)
        → s.monitor ≡ scanning ((url, ref) ∷ entries)
        → timed_out timeout now (s.heap ref) ≡ false
        → Step s (record s { monitor = scanning entries })
    expire :
        (s : State W) (now : ℕ) (url : String) (ref : ℕ) (entries : Dict ℕ)
        → s.monitor ≡ scanning ((url, ref) ∷ entries)
        → timed_out timeout now (s.heap ref) ≡ true
        → Step s (record s { monitor = removing url entries })
    -- `Lock` in `removeConnection`: when nobody reads or writes.
    remove :
        (s : State W) (url : String) (entries : Dict ℕ)
        → s.monitor ≡ removing url entries
        → s.readers + held s.monitor ≡ 0
        → s.writer ≡ false
        → Step s (record s { monitor = scanning entries; connections = erase url s.connections })
    unlock : (s : State W) → s.monitor ≡ scanning [] → Step s (record s { monitor = waiting })
    context_done : (s : State W) → s.monitor ≡ waiting → Step s (record s { monitor = returned })
    -- Another goroutine reads.
    read_lock : (s : State W) → s.writer ≡ false → Step s (record s { readers = suc s.readers })
    read_unlock : (s : State W) (n : ℕ) → s.readers ≡ suc n → Step s (record s { readers = n })
    -- Another goroutine writes.
    write_lock :
        (s : State W)
        → s.readers + held s.monitor ≡ 0
        → s.writer ≡ false
        → Step s (record s { writer = true })
    write_unlock :
        (s : State W) (conns : Dict ℕ)
        → s.writer ≡ true
        → Step s (record s { writer = false; connections = conns })
    -- `keepAlive` after a ping that could be written, and the end of `subscribeToAllEvents`, on any
    -- connection and without the lock.
    pinged :
        (s : State W) (ref now : ℕ)
        → Step s (record s { heap = write_at ref (record (s.heap ref) { last_ping = now }) s.heap })
    subscribed :
        (s : State W) (ref now : ℕ)
        → Step s (record s {
          heap = write_at ref (subscribe_to_all_events true now (s.heap ref)) s.heap;
        })

  -- Any number of steps.
  pub data Steps : State W → State W → Type 0 where
    done : {s : State W} → Steps s s
    then : {s t u : State W} → Step s t → Steps t u → Steps s u
