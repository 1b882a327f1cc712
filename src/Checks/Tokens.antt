-- ===== src/Checks/Tokens.antt =====
-- Nonces and fencing epochs at concrete inputs.
use agentbridge.Base.{ℕ, ◌≤◌, ◌<◌, String, ◌≢◌, refl, true, Option, some, [], ◌∷◌, string_eq, arith}
use agentbridge.Base.Dict.{lookup}
use agentbridge.Guards.ReplayOnce.{accepted, accepted-le_one}
use agentbridge.Guards.Fencing.{Fences, acquire, check, is_valid}
use agentbridge.Guards.FencingEpoch.{acquire_call, renew_call, fence_run, epoch_of, acquire-fences}

abbrev stamp_of : String → Option ℕ
stamp_of n = some 1000

accepted-le_one_example :
    accepted stamp_of 300
      ("ann", "1000:abcdefabcdefabcdef")
      ((("ann", "1000:abcdefabcdefabcdef"), 990)
        ∷ (("ann", "1000:abcdefabcdefabcdef"), 1200)
        ∷ (("ann", "1000:abcdefabcdefabcdef"), 1800)
        ∷ [])
      []
    ≤ 1
accepted-le_one_example =
    accepted-le_one stamp_of 300 ("ann", "1000:abcdefabcdefabcdef") 900
      ((("ann", "1000:abcdefabcdefabcdef"), 990)
        ∷ (("ann", "1000:abcdefabcdefabcdef"), 1200)
        ∷ (("ann", "1000:abcdefabcdefabcdef"), 1800)
        ∷ [])
      [] (ground arith, (ground arith, (ground arith, tt)))

abbrev fences : Fences
fences = ("main", record { owner = "a"; epoch = 3; expires = 5000 }) ∷ []

acquire-fences_example :
    (epoch_of "main" fences < 4)
    × ((old : ℕ) (other : String) (later : ℕ)
        → old < 4
        → check "main" other old later (
            fence_run
              (renew_call "main" "b" 4 1000 6500 ∷ acquire_call "main" "c" 1000 9000 ∷ [])
              (acquire "main" "b" 1000 6000 fences).1)
          ≢ some true)
unfolding acquire lookup is_valid
acquire-fences_example =
    acquire-fences "main" "b" 1000 6000 4 fences
      (renew_call "main" "b" 4 1000 6500 ∷ acquire_call "main" "c" 1000 9000 ∷ []) refl
