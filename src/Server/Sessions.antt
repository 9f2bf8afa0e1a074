-- ===== src/Server/Sessions.antt =====
-- The map of the sessions, `std::map<std::uint32_t, std::unique_ptr<TcpSession>>` in the order of its
-- keys, and the callback by which a session leaves it.
use assignment_logger_analyz.Prelude.{ℕ, ltb, ◌==◌, if◌then◌else◌, List, [], ◌∷◌}
use assignment_logger_analyz.Session.Host.{Host}
use assignment_logger_analyz.Session.State.{Session}

module _ (h : Host) where
  abbrev pub Table : Type 0
  Table = List (ℕ × Session h)

  unfoldable pub ids : Table → List ℕ
  ids [] = []
  ids ((k, s) ∷ t) = k ∷ ids t

  -- std::map::emplace: a key that is there keeps its session.
  unfoldable pub emplace : ℕ → Session h → Table → Table
  emplace id s [] = (id, s) ∷ []
  emplace id s ((k, s') ∷ t) =
      let later = emplace id s t in
      if ltb k id then (k, s') ∷ later else if k == id then (k, s') ∷ t else (id, s) ∷ (k, s') ∷ t

  unfoldable pub erase : ℕ → Table → Table
  erase id [] = []
  erase id ((k, s) ∷ t) = let later = erase id t in if k == id then t else (k, s) ∷ later

  -- A session after a call, and its place in the table: it is gone where the call told the owner that
  -- the session is closed.
  unfoldable pub settle : ℕ → Session h → Session h → Table → Table
  unfolding erase
  settle k s s' t = if ltb s.notified s'.notified then erase k ((k, s') ∷ t) else (k, s') ∷ t

  -- A call on the session `id`.
  unfoldable pub run_on : ℕ → (Session h → Session h) → Table → Table
  unfolding settle
  run_on id f [] = []
  run_on id f ((k, s) ∷ t) =
      let later = run_on id f t in
      let settled = settle k s (f s) t in if k == id then settled else (k, s) ∷ later
