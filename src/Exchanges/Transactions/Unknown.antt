-- ===== src/Exchanges/Transactions/Unknown.antt =====
-- src/handlers/json_rpc/exchanges/transactions.rs: an exchange id that no exchange has.
use blockchain_api.Prelude.{String, Option, none, some, ◌≡◌, refl}
use blockchain_api.Exchanges.{from_id}
use blockchain_api.Exchanges.Ledger.{DatabaseError}
use blockchain_api.Exchanges.Transactions.{World, Run, stored, mark_failed}

pub mark_failed-unknown :
    (W : World) (session_id exchange_id : String) (reason tx_hash : Option String) (run : Run W.Net)
    → from_id exchange_id ≡ none
    → mark_failed W session_id exchange_id reason tx_hash run
      ≡ (some (DatabaseError.bad_argument "Invalid exchange id"), run)
unfolding mark_failed stored
mark_failed-unknown W session_id exchange_id reason tx_hash run e = rw (e, stored) refl
