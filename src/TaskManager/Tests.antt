-- ===== src/TaskManager/Tests.antt =====
-- A concrete task manager, and its theorem at concrete events. A handler is a number.
use asio.Prelude.{true, ℕ, ◌≡◌, List, [], ◌∷◌, ◌++◌, none, Bytes, arith, bytes_key}
use asio.Package.{Package, new_package, default_header, set_isorder}
use asio.Platform.Sample.{sample_name}
use asio.TaskManager.{TaskManager}
use asio.TaskManager.Order.{Event, arrives, stops, handle_all, ordered, wanted, ordered_per_session}

abbrev manager : TaskManager ℕ Bytes
manager = record {
  pre_task = none;
  handlers = (sample_name, 5) ∷ [];
  workers = [] ∷ [] ∷ [];
  pooled = [];
  pool_running = true;
}

abbrev in_order : Package Bytes
in_order = record (new_package Bytes) {
  header = set_isorder 1 default_header;
  type_name = sample_name;
}

abbrev events : List (Event Bytes)
events =
    arrives 1 in_order
    ∷ arrives 3 in_order
    ∷ arrives 2 (new_package Bytes)
    ∷ stops
    ∷ arrives 1 in_order
    ∷ []

ordered_per_session_example :
    ordered 1 (handle_all (λ p. p) events manager)
    ≡ ordered 1 manager ++ wanted (λ p. p) 1 manager events
ordered_per_session_example = ordered_per_session (λ p. p) 1 events manager (omega arith)
