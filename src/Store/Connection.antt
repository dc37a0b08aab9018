-- ===== src/Store/Connection.antt =====
-- `Open`, `Ping`, `Migrate` and `Close` of internal/store/postgres.go. What the calls of the pool
-- return is an argument.
use learn_go_project.Errors.{Result, with_prefix}
use learn_go_project.Exec.{Exec, ◌>>◌}
use learn_go_project.Resources.{pool, Log, acquire, call_on, close_if_failed}

-- `Open`, of what pgxpool.New and Ping return
unfoldable pub open_store : Result (Unit {0}) → Result (Unit {0}) → Exec Log (Unit {0})
unfolding acquire call_on close_if_failed
open_store new_pool ping = do
  acquire pool (with_prefix "configure postgres" new_pool)
  close_if_failed pool (call_on pool (with_prefix "ping postgres" ping))

-- `Migrate`
unfoldable pub migrate : Result (Unit {0}) → Exec Log (Unit {0})
unfolding call_on
migrate executed = call_on pool (with_prefix "apply database migration" executed)
