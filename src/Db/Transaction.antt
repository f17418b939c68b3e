-- ===== src/Db/Transaction.antt =====
-- `get_db`: the request's changes to the tables are kept if it returns and undone if it raises.
use mojodns.Prelude.{Exec, Result, ok, err}
use mojodns.Db.{World, Db}

abbrev commit_or_rollback : {S A : Type 0} → Result A → Db → World S → Result A × World S
commit_or_rollback (ok a) before w = (ok a, w)
commit_or_rollback (err e) before w = (err e, record w { db = before })

-- A request handler with `db: Session = Depends(get_db)`.
unfoldable pub with_db : {S A : Type 0} → Exec (World S) A → Exec (World S) A
with_db handler w = let (r, w') = handler w in commit_or_rollback r w.db w'
