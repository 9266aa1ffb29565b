-- ===== src/Tests/Operations.antt =====
-- Operations on accounts (backend/src/services/users.js) at concrete inputs.
use zvpn.Base.{codes}
use zvpn.Accounts.Operations.{left_by, extend_user, add_traffic}
use zvpn.Accounts.Steps.{here, one_more, extends, adds, Reaches-IsConsistent}
use zvpn.Metering.Tables.{Database}
use zvpn.Metering.Ledger.{IsConsistent}
use zvpn.Tests.Usage.{db as entered, db-IsConsistent}

abbrev extended : Database
extended = left_by (extend_user 100 (codes "1") 3 entered)

Reaches_example : IsConsistent (left_by (add_traffic 110 (codes "1") 5 extended))
Reaches_example =
    Reaches-IsConsistent entered (left_by (add_traffic 110 (codes "1") 5 extended))
      (one_more extended (left_by (add_traffic 110 (codes "1") 5 extended))
        (one_more entered extended here (extends 100 (codes "1") 3)) (adds 110 (codes "1") 5))
      db-IsConsistent
