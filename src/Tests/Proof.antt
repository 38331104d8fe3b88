-- ===== src/Tests/Proof.antt =====
-- The binary proof format.
use glucose.Prelude.{◌≡◌, refl, some, [], ◌∷◌, ◌++◌, arith}
use glucose.Lit.{var, sign}
use glucose.Proof.{write_lits, write_line}
use glucose.Proof.Read.{read_clause, read_clause-write_lits}

-- The literal 300 takes two bytes: its number is 302, which is 2 * 128 + 46.
deleted : write_line 100 (0 ∷ 300 ∷ []) ≡ 100 ∷ 2 ∷ 174 ∷ 2 ∷ 0 ∷ []
unfolding write_line var sign
deleted = refl

read_clause-write_lits_example :
    read_clause 3 (write_lits (0 ∷ 300 ∷ []) ++ 97 ∷ []) ≡ some (0 ∷ 300 ∷ [], 97 ∷ [])
read_clause-write_lits_example = read_clause-write_lits 3 (0 ∷ 300 ∷ []) (97 ∷ []) (omega arith)
