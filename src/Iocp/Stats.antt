-- ===== src/Iocp/Stats.antt =====
-- `PrintStatistics` of chapter06/iocpserver.cpp. The printed numbers are the result.
pub mod Reports
use network_programming_for.Base.{
  ℕ, ◌+◌, ◌-◌, ◌/◌, ◌^◌, List, [], ◌∷◌, ◌++◌, Option, none, some, ◌==◌, if◌then◌else◌, u32,
}
use network_programming_for.Iocp.State.{Server}

-- `a / b` on `ULONG`, a fault at 0.
pub divide : ℕ → ℕ → Option ℕ
divide a b = if b == 0 then none else some (a / b)

-- `(tick - start) / 1000` on `ULONG`.
abbrev pub seconds_since : ℕ → ℕ → ℕ
seconds_since tick start = u32 (tick + 2 ^ 32 - start) / 1000

infixl 5 ◌>>=◌
abbrev ◌>>=◌ : {A B : Type 0} → Option A → (A → Option B) → Option B
none >>= f = none
some a >>= f = f a

-- The totals over the lifetime of the server.
pub average_rates : Server → ℕ → Option (List ℕ)
unfolding divide
average_rates g elapsed = do
  sent ← divide g.bytes_sent elapsed
  read ← divide g.bytes_read elapsed
  some (sent ∷ g.bytes_sent ∷ read ∷ g.bytes_read ∷ [])

-- The rates since the last report, after which the counters of that period start anew.
pub current_rates : Server → (tick elapsed : ℕ) → Option (List ℕ × Server)
unfolding divide
current_rates g tick elapsed = do
  sent ← divide g.bytes_sent_last elapsed
  read ← divide g.bytes_read_last elapsed
  rate ← divide g.connections_last elapsed
  some (
    sent ∷ read ∷ rate ∷ g.connections ∷ [],
    record g {
      bytes_sent_last = 0;
      bytes_read_last = 0;
      connections_last = 0;
      start_time_last = tick;
    },
  )

-- The second part of the report is left out where the period is shorter than a second.
pub with_current :
    Server → (tick : ℕ) → (totals : List ℕ) → (elapsed : ℕ) → Option (List ℕ × Server)
unfolding current_rates
with_current g tick totals elapsed =
    if elapsed == 0
    then some (totals, g)
    else current_rates g tick elapsed >>= λ r. some (totals ++ r.0, r.1)

unfoldable pub print_statistics : Server → (tick : ℕ) → Option (List ℕ × Server)
unfolding average_rates with_current
print_statistics g tick =
    if seconds_since tick g.start_time == 0
    then some ([], g)
    else average_rates g (seconds_since tick g.start_time) >>= λ totals.
        with_current g tick totals (seconds_since tick g.start_time_last)
