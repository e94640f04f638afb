-- ===== src/Tests/RegexTests.antt =====
-- `KernRe`.
use pi_ghost.Base.{true, false, codes}
use pi_ghost.Regex.KernRe.{KernRe}

abbrev star_rx : KernRe
star_rx = record { regex = record { pattern = codes "\\*"; ignore_case = false }; cache = false }

abbrev word_rx : KernRe
word_rx = record { regex = record { pattern = codes "(\\w+)"; ignore_case = true }; cache = false }
