-- ===== src/Example/Tests.antt =====
-- The example with a clock that counts, and texts of one digit.
use lite_speed_store.Base.{ℕ, ◌≡◌, arith, List, some, [], ◌∷◌}
use lite_speed_store.Example.{main, main_shows}

abbrev digit : List ℕ → List ℕ
digit d = 49 ∷ []

abbrev elapsed : ℕ → List ℕ
elapsed i = i ∷ 0 ∷ 0 ∷ 0 ∷ 0 ∷ 0 ∷ 0 ∷ 0 ∷ []

abbrev second : List ℕ → List ℕ → List ℕ
second a b = b

abbrev cast : ℕ → List ℕ
cast n = n ∷ []

main_shows_example :
    main digit second second cast elapsed (λ i. i)
    ≡ some (record {
      operation = 49 ∷ 32 ∷ 109 ∷ 115 ∷ [];
      average = 5 ∷ [];
      total = 49 ∷ 32 ∷ 109 ∷ 115 ∷ [];
    })
main_shows_example = main_shows digit second second cast elapsed (λ i. i) (λ i. omega arith)
