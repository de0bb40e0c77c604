-- ===== src/Lean/Line.antt =====
-- internal/lean: a row of telemetry is read back from its line.
use genesis_ssmp.Base.{◌≡◌, true, Bytes, starts_plain, ends_plain, Without}
use genesis_ssmp.God.Edit.{newline}

-- The fields make one line, with a printing byte at either end.
IsLine : Bytes → Type 0
IsLine s = (starts_plain s ≡ true) × (ends_plain s ≡ true) × Without newline s
