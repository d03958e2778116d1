-- ===== src/Tests/Levels.antt =====
-- The theorems on level operations at the resting book.
use babo_matching_engine.Tree.{Side}
use babo_matching_engine.Book.{Which, side}
use babo_matching_engine.Tests.Scenario.{resting}

abbrev s : Side
s = side Which.asks resting
