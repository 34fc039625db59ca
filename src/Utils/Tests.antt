-- ===== src/Utils/Tests.antt =====
-- A queue of two items, of which three are put.
use qiskit_ibm_provider.Common.{ℕ, ◌≡◌, ◌≤◌, [], ◌∷◌, length}
use qiskit_ibm_provider.Utils.{put_all, newest, put_all-newest}

put_all-newest_example :
    (put_all {A = ℕ} 2 [] (7 ∷ 8 ∷ 9 ∷ []) ≡ newest 2 (7 ∷ 8 ∷ 9 ∷ []))
    × (length (put_all {A = ℕ} 2 [] (7 ∷ 8 ∷ 9 ∷ [])) ≤ 2)
put_all-newest_example = put_all-newest 1 (7 ∷ 8 ∷ 9 ∷ [])
