-- ===== src/AsioServer/Server/Invariant.antt =====
-- asio/internal/AsioServer.cpp, class AsioServer: any run of a server keeps it sound.
use asio.Prelude.{ℕ, ◌+◌, false, List, [], ◌∷◌, Leaves, nat_key, Leaves}
use asio.Prelude.Int.{ℤ}
use asio.Platform.{Platform}
use asio.AsioServer.Server.{Service, AsioServer}
use asio.AsioServer.Server.Events.{Event, accepts}

module _ (env : Platform) {U W : Type 0} (limit : ℤ) (service : Service env.Message U W) where
  -- The next id, if the io_service is not stopped.
  abbrev pub next_after : Event env.Message U → ℕ → ℕ
  next_after (accepts false) n = n + 1
  next_after other n = n

  abbrev pub next_after_all : List (Event env.Message U) → ℕ → ℕ
  next_after_all [] n = n
  next_after_all (e ∷ es) n = next_after_all es (next_after e n)
