-- ===== src/CommandLine/Patterns/Ending.antt =====
-- cli/src/Command.cpp: the constructor of Command ends on every pattern.
use klevret.Prelude.{ℕ, suc, length}
use klevret.Prelude.{if◌then◌else◌}
use klevret.WrapperForParsing.{WrapperForParsing, is_end}

-- The characters to come, the current one included.
abbrev left : WrapperForParsing → ℕ
left w = if is_end w then 0 else suc (length w.rest)
