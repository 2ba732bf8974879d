-- ===== src/Iocp/Stats/Reports.antt =====
-- The report of `PrintStatistics` of chapter06/iocpserver.cpp, at every moment.
use network_programming_for.Base.{ℕ, ◌≡◌, ◌≢◌, List, none, some, arith, ◌⊎◌}
use network_programming_for.Iocp.State.{Server}
use network_programming_for.Iocp.Stats.{print_statistics}

-- What a report leaves of the counters.
pub record Reported (g h : Server) (tick : ℕ) : Type 0 where
  pub totals_kept :
      (h.bytes_read ≡ g.bytes_read)
      × (h.bytes_sent ≡ g.bytes_sent)
      × (h.connections ≡ g.connections)
      × (h.start_time ≡ g.start_time)
  pub period :
      (h ≡ g)
      ⊎ ((h.bytes_read_last ≡ 0)
          × (h.bytes_sent_last ≡ 0)
          × (h.connections_last ≡ 0)
          × (h.start_time_last ≡ tick))

-- At every moment and with any counters PrintStatistics ends, with no division by zero.
pub print_statistics-ne-none : (g : Server) (tick : ℕ) → print_statistics g tick ≢ none
unfolding print_statistics
print_statistics-ne-none g tick = ground arith

-- If PrintStatistics ends, the totals and the start time are what they were, and either nothing
-- has changed at all or all three counters of the last period are 0 and the period starts at the
-- tick.
pub print_statistics-Reported :
    (g h : Server) (tick : ℕ) (printed : List ℕ)
    → print_statistics g tick ≡ some (printed, h)
    → Reported g h tick
unfolding print_statistics
print_statistics-Reported g h tick printed e = ground arith
