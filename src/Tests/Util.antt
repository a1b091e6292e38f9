-- ===== src/Tests/Util.antt =====
-- monkutil's numbers and byte slices at concrete inputs.
use thelonious.Base.{ℕ, ◌≡◌, refl, List, [], ◌∷◌}
use thelonious.Util.Big.{big_bytes}

big_bytes_runs : big_bytes 65536 ≡ 1 ∷ 0 ∷ 0 ∷ []
unfolding big_bytes
big_bytes_runs = refl

abbrev three : List ℕ
three = 1 ∷ 2 ∷ 3 ∷ []
