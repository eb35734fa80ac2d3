-- ===== src/Streaming/Deadlock.antt =====
-- A connection that times out stops the manager (internal/streaming/upstream.go).
use mercury_relay.Prelude.{
  ℕ, String, ◌≡◌, refl, true, false, [], ◌∷◌, ℤ, Dict, arith, Bool-cases, inl, inr, any,
}
use mercury_relay.Streaming.Connections.{timed_out}
use mercury_relay.Streaming.Locks.{
  Monitor, waiting, scanning, removing, held, State, Step, Steps, done, then,
}
use mercury_relay.Streaming.Locks

module _ {W : Type 0} (timeout : ℤ) where
  -- Waiting for the lock that it keeps from itself.
  pub record IsStuck (url : String) (entries conns : Dict ℕ) (s : State W) : Type 0 where
    pub at : s.monitor ≡ removing url entries
    pub unwritten : s.writer ≡ false
    pub unchanged : s.connections ≡ conns

  step-IsStuck :
      (url : String) (entries conns : Dict ℕ) {s t : State W}
      → IsStuck url entries conns s
      → Step timeout s t
      → IsStuck url entries conns t
  step-IsStuck url entries conns stuck (Locks.tick s at free) = absurd (ground (arith, stuck.at))
  step-IsStuck url entries conns stuck (Locks.keep s now u conn es at t) =
      absurd (ground (arith, stuck.at))
  step-IsStuck url entries conns stuck (Locks.expire s now u conn es at t) =
      absurd (ground (arith, stuck.at))
  step-IsStuck url entries conns stuck (Locks.remove s u es at none_reads free) =
      absurd (ground (arith, stuck.at))
  step-IsStuck url entries conns stuck (Locks.unlock s at) = absurd (ground (arith, stuck.at))
  step-IsStuck url entries conns stuck (Locks.context_done s at) = absurd (ground (arith, stuck.at))
  step-IsStuck url entries conns stuck (Locks.pinged s ref now) = record {
    at = stuck.at;
    unwritten = stuck.unwritten;
    unchanged = stuck.unchanged;
  }
  step-IsStuck url entries conns stuck (Locks.subscribed s ref now) = record {
    at = stuck.at;
    unwritten = stuck.unwritten;
    unchanged = stuck.unchanged;
  }
  step-IsStuck url entries conns stuck (Locks.read_lock s free) = record {
    at = stuck.at;
    unwritten = stuck.unwritten;
    unchanged = stuck.unchanged;
  }
  step-IsStuck url entries conns stuck (Locks.read_unlock s n e) = record {
    at = stuck.at;
    unwritten = stuck.unwritten;
    unchanged = stuck.unchanged;
  }
  step-IsStuck url entries conns stuck (Locks.write_lock s none_reads free) =
      absurd (ground (arith, stuck.at))
  step-IsStuck url entries conns stuck (Locks.write_unlock s cs e) =
      absurd (ground (arith, stuck.unwritten))

  -- Once the monitor waits for the write lock while it holds the read lock, it waits for ever: after
  -- any number of steps of any goroutines it still does, nobody holds the lock to write, and the map
  -- holds the connections that it held, whatever is written to their fields.
  pub Steps-IsStuck :
      (url : String) (entries conns : Dict ℕ) {s t : State W}
      → IsStuck url entries conns s
      → Steps timeout s t
      → IsStuck url entries conns t
  Steps-IsStuck url entries conns stuck done = stuck
  Steps-IsStuck url entries conns stuck (then step steps) =
      Steps-IsStuck url entries conns (step-IsStuck url entries conns stuck step) steps

  -- From the monitor's loop over entries of which one has timed out, to the wait for the lock.
  scan :
      (now : ℕ) (entries : Dict ℕ) (s : State W)
      → s.monitor ≡ scanning entries
      → s.writer ≡ false
      → any (λ entry. timed_out timeout now (s.heap entry.1)) entries ≡ true
      → (t : State W) × (url : String) × (rest : Dict ℕ) × (Steps timeout s t
          × IsStuck url rest s.connections t)
  scan now [] s at free h = absurd (ground arith)
  scan now ((url, ref) ∷ entries) s at free h =
      elim (Bool-cases (timed_out timeout now (s.heap ref))) [
        | inl e ↦ (
          record s { monitor = removing url entries },
          url,
          entries,
          (
            then (Locks.expire s now url ref entries at e) done,
            record { at = refl; unwritten = free; unchanged = refl },
          ),
        )
        | inr e ↦
            let (t, u, rest, (steps, stuck)) =
              scan now entries (record s { monitor = scanning entries }) refl free (ground arith) in
            (t, u, rest, (then (Locks.keep s now url ref entries at e) steps, stuck))
      ]

  -- A tick of the monitor that finds the lock free and a connection that has timed out can be
  -- followed by steps of the monitor alone to where it waits for the lock that it holds.
  pub tick-IsStuck :
      (now : ℕ) (s : State W)
      → s.monitor ≡ waiting
      → s.writer ≡ false
      → any (λ entry. timed_out timeout now (s.heap entry.1)) s.connections ≡ true
      → (t : State W) × (url : String) × (rest : Dict ℕ) × (Steps timeout s t
          × IsStuck url rest s.connections t)
  tick-IsStuck now s at free h =
      let (t, u, rest, (steps, stuck)) =
        scan now s.connections (record s { monitor = scanning s.connections }) refl free h in
      (t, u, rest, (then (Locks.tick s at free) steps, stuck))
