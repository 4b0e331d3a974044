-- ===== src/Loop/Releasing.antt =====
-- The end of a read of file events when the request that is freed cannot be read any more
-- (core/inotify.cc, `inotifyHandler`).
use no_js.Base.{ℕ, ◌≤◌, ◌<◌}
use no_js.Base.Dict.{Dict, occurs}
use no_js.Env.{Request, Sqe}
use no_js.Loop.Calls.{Calls}

-- An address that is allocated once at most, below the next one.
abbrev Once : ℕ → Dict Request → Dict Sqe → ℕ → Type 0
Once p h g n = (occurs p h ≤ 1) × (p < n)
