-- ===== src/Tests.antt =====
-- Runs of the model on small inputs. Pools, node indices and keys of the quote cache are numbers here,
-- and the counters that a progress report passes on are of the unit type.
mod Store
mod Graph
mod Config
mod Stream
mod Enumerate
mod Quote
mod Cache
mod Dag
mod Heuristic
