-- ===== src/Tests/Publisher.antt =====
-- A saga on concrete inputs.
use ligp_v.Prelude.{ℕ, zero, suc, ◌+◌, ◌≡◌, refl, some, [], ◌∷◌, arith, eq_iff, string_eq}
use ligp_v.Dict.{get}
use ligp_v.Publisher.Saga.{
  Receipt, Attempt, accepted, raised, SagaCoordinator, new_saga, execute, get_status, published,
  failed,
}
use ligp_v.Publisher.Saga.Outcome.{World, scripted, done, execute-published, execute-failed}
use ligp_v.Publisher.Saga.Frame.{IsFinal, execute_frame}

abbrev receipt : Receipt
receipt = record { url = some "https://blog/1"; post_id = some ""; video_id = some "v1" }

-- One failure, then success.
abbrev script : ℕ → Attempt
script zero = raised "busy"
script (suc n) = accepted receipt

abbrev down : ℕ → Attempt
down n = raised "down"

abbrev coordinator : (ℕ → Attempt) → SagaCoordinator World ℕ
coordinator s = record { publishers = ("blog", scripted s) ∷ []; max_retries = 3; sagas = [] }

abbrev start : World
start = record { publishes = 0; deleted = [] }

execute-published_example :
    ((execute "s1" "t" 7 "blog" (coordinator script) start).0.1
      ≡ done receipt 2 (new_saga "s1" "t" "blog"))
    × (get_status "s1" (execute "s1" "t" 7 "blog" (coordinator script) start).0.0 ≡ some published)
    × ((execute "s1" "t" 7 "blog" (coordinator script) start).1
        ≡ record start { publishes = 0 + 1 + 1 })
unfolding get
execute-published_example =
    execute-published script "s1" "t" "blog" 7 (coordinator script) start refl 1 receipt
      (("busy", refl), tt) refl (omega arith)

execute-failed_example :
    ((execute "s1" "t" 7 "blog" (coordinator down) start).0.1.status ≡ failed)
    × ((execute "s1" "t" 7 "blog" (coordinator down) start).0.1.attempts ≡ 3)
    × ((execute "s1" "t" 7 "blog" (coordinator down) start).0.1.error ≡ some "down")
    × (get "s1" (execute "s1" "t" 7 "blog" (coordinator down) start).0.0.sagas
        ≡ some (execute "s1" "t" 7 "blog" (coordinator down) start).0.1)
    × ((execute "s1" "t" 7 "blog" (coordinator down) start).1 ≡ record start { publishes = 0 + 3 })
unfolding get
execute-failed_example =
    execute-failed down "s1" "t" "blog" 7 (coordinator down) start refl 2 refl
      (("down", refl), (("down", refl), (("down", refl), tt)))

execute_frame_example :
    IsFinal (execute "s1" "t" 7 "email" (coordinator script) start).0.1.status
    × (get "s1" (execute "s1" "t" 7 "email" (coordinator script) start).0.0.sagas
        ≡ some (execute "s1" "t" 7 "email" (coordinator script) start).0.1)
    × (get "s2" (execute "s1" "t" 7 "email" (coordinator script) start).0.0.sagas
        ≡ get "s2" (coordinator script).sagas)
execute_frame_example =
    execute_frame "s1" "t" "email" 7 (coordinator script) start "s2"
      (λ e. absurd (ground (arith, eq_iff "s2" "s1")))
