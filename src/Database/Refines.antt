-- ===== src/Database/Refines.antt =====
-- The store on Postgres refines the in-memory store, whatever calls write.
use pakta.Base.{All, String, List, [], ◌∷◌}
use pakta.Settlement.Store.{Store}
use pakta.Database.Tables.{Tables}
use pakta.Database.Writes.{
  Represents, Write, upserts, marks, settles, records, moves, remembers, IsAllowed, write_tables,
  write_store, run_tables, run_store,
}
use pakta.Database.Steps.{
  after_upsert, after_mark, after_settlement, after_event, after_cursor, after_fingerprint,
}

-- Every call that writes keeps the two stores in step.
write-Represents :
    (owner : String → String) (w : Write) (db : Tables) (s : Store)
    → IsAllowed owner w
    → Represents owner db s
    → Represents owner (write_tables w db) (write_store w s)
unfolding write_tables write_store
write-Represents owner (upserts p) db s h rep = after_upsert owner db s rep p h
write-Represents owner (marks id status tx) db s h rep = after_mark owner db s rep id status tx
write-Represents owner (settles r) db s h rep = after_settlement owner db s rep r h
write-Represents owner (records e) db s h rep = after_event owner db s rep e
write-Represents owner (moves name c) db s h rep = after_cursor owner db s rep name c
write-Represents owner (remembers f note) db s h rep = after_fingerprint owner db s rep f note

-- However many calls write, with one payable for an id hash and settlements that name their proof
-- and gate, tables that hold what the in-memory store holds go on to hold what it holds.
pub run-Represents :
    (owner : String → String) (ws : List Write) (db : Tables) (s : Store)
    → All (IsAllowed owner) ws
    → Represents owner db s
    → Represents owner (run_tables ws db) (run_store ws s)
unfolding run_tables run_store
run-Represents owner [] db s hs rep = rep
run-Represents owner (w ∷ ws) db s hs rep =
    run-Represents owner ws (write_tables w db) (write_store w s) hs.1
      (write-Represents owner w db s hs.0 rep)
