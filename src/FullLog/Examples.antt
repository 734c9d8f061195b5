-- ===== src/FullLog/Examples.antt =====
-- Caps of small logs.
use encode_system.Prelude.{ℕ, List, [], ◌∷◌}

-- two lines and the start of a third
abbrev three_lines : List ℕ
three_lines = 97 ∷ 98 ∷ 10 ∷ 99 ∷ 10 ∷ 100 ∷ 101 ∷ []
