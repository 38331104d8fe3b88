-- ===== src/Tests/Restart.antt =====
-- The first values of Luby's sequence.
use glucose.Prelude.{◌≡◌, refl, some}
use glucose.Restart.{luby, grow, shrink}
use glucose.Restart.Sequence.{IsLuby, luby-IsLuby}

fifth : luby 5 ≡ some 1
unfolding luby grow shrink
fifth = refl

luby-IsLuby_example : IsLuby 5 (luby 5)
luby-IsLuby_example = luby-IsLuby 5
