-- ===== src/Core/Sample.antt =====
-- Concrete dependencies for the tests: ids and times are numbers.
use nomai.Base.{ℕ, [], ◌∷◌}
use nomai.Core.{Deps}

abbrev pub sample : Deps
sample = record {
  Ulid = ℕ;
  number = λ n. n;
  number_inj = λ a b e. e;
  ulid_to_string = λ n. n ∷ [];
  Time = ℕ;
  to_rfc3339 = λ n. n ∷ [];
  Number = ℕ;
  SqlError = ℕ;
  IoError = ℕ;
}
