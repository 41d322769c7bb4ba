-- ===== src/Examples/Cnf.antt =====
-- The reader of CNF files on a small file, and its theorems applied to it.
use fabko.Base.{ℕ, suc, ◌+◌, ◌<◌, ◌≤◌, pos, negsuc, [], ◌∷◌, ◌≡◌, refl, arith}
use fabko.Text.Join.{Text}
use fabko.Text.Stream.{read_word, read_integer, lines_of}
use fabko.Sat.Types.{Model}
use fabko.Sat.Watcher.{ok}
use fabko.Sat.Cnf.{
  VectorGrowth, CnfFile, content, read_literals, clause_of_line, read_lines, finish,
  make_model_from_cnf_file,
}
use fabko.Sat.Cnf.Laws.{IsReadable, read_literals_enough, make_model_from_cnf_file-IsReadable}
use fabko.Examples.Solver.{lit, list_env, default_configuration}

pub suc_grows : (n : ℕ) → n < n + suc n
suc_grows n = omega arith

pub le_self : (n : ℕ) → n ≤ n
le_self n = omega arith

instance abbrev pub doubling : VectorGrowth
doubling = record {
  grown = λ n. n + suc n;
  reserved = λ n. n;
  grown-lt = suc_grows;
  reserved-le = le_self;
}

-- "p cnf 2 2", "1 -2 0" and "2 0".
abbrev pub file : CnfFile
file = content (
    112 ∷ 32 ∷ 99 ∷ 110 ∷ 102 ∷ 32 ∷ 50 ∷ 32 ∷ 50 ∷ 10 ∷ 49 ∷ 32 ∷ 45 ∷ 50 ∷ 32 ∷ 48 ∷ 10 ∷ 50 ∷ 32
    ∷ 48 ∷ 10 ∷ [])

abbrev pub model_of_file : Model
model_of_file = record {
  literals = lit (pos 1) ∷ lit (pos 2) ∷ [];
  clauses = (lit (pos 1) ∷ lit (negsuc 1) ∷ []) ∷ (lit (pos 2) ∷ []) ∷ [];
  conf = default_configuration;
}

pub read_file : make_model_from_cnf_file tt file ≡ ok model_of_file
unfolding make_model_from_cnf_file read_lines read_word read_integer lines_of read_literals finish
read_file = refl

-- "p cnf 1 1", then three clauses "1": the vector has grown to a capacity of three.
three_clauses : CnfFile
three_clauses =
    content (112 ∷ 32 ∷ 99 ∷ 110 ∷ 102 ∷ 32 ∷ 49 ∷ 32 ∷ 49 ∷ 10 ∷ 49 ∷ 10 ∷ 49 ∷ 10 ∷ 49 ∷ [])

read_three_clauses :
    make_model_from_cnf_file tt three_clauses
    ≡ ok (record {
      literals = lit (pos 1) ∷ [];
      clauses = (lit (pos 1) ∷ []) ∷ (lit (pos 1) ∷ []) ∷ (lit (pos 1) ∷ []) ∷ [];
      conf = default_configuration;
    })
unfolding three_clauses make_model_from_cnf_file read_lines read_word read_integer lines_of
    read_literals finish
read_three_clauses = refl

make_model_from_cnf_file-IsReadable_example : IsReadable model_of_file
make_model_from_cnf_file-IsReadable_example =
    make_model_from_cnf_file-IsReadable tt file model_of_file read_file

-- "1 0".
abbrev short_line : Text
short_line = 49 ∷ 32 ∷ 48 ∷ []

read_literals_enough_example : read_literals 9 short_line ≡ clause_of_line short_line
read_literals_enough_example = read_literals_enough 9 short_line (omega arith)
