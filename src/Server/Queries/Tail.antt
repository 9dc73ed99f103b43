-- ===== src/Server/Queries/Tail.antt =====
-- The last lines of a log, which handleGetTaskLog keeps one at a time.
use myqueue.Prelude.{ℕ, ◌-◌, List, length, drop}
use myqueue.Prelude.Text.{Bytes}

-- The last `n` of the lines.
abbrev pub last_lines : ℕ → List Bytes → List Bytes
last_lines n lines = drop (length lines - n) lines
