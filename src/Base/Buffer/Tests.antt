-- ===== src/Base/Buffer/Tests.antt =====
-- Runs of the buffer at concrete values.
use mmorpg_game_server.Common.{◌≡◌, refl, none, some, List, [], ◌∷◌, ◌++◌, take, drop}
use mmorpg_game_server.Base.Buffer.{create, readable, append, prepend, read_as_string, read_fd}
use mmorpg_game_server.Base.Buffer.Refine.{
  create-IsValid, Holds, append_refines, prepend_refines, read_as_string_refines, read_fd_refines,
}
use mmorpg_game_server.Base.Buffer.Run.{
  Op, appends, prepends, reads, retrieves, receives, sends, run, spec_step, spec_run, run_refines,
}

abbrev calls : List Op
calls =
    appends (1 ∷ 2 ∷ 3 ∷ [])
    ∷ prepends (9 ∷ [])
    ∷ receives (some (4 ∷ 5 ∷ []))
    ∷ reads 2
    ∷ sends (some 1)
    ∷ receives none
    ∷ retrieves 1
    ∷ reads 7
    ∷ []

handed_out :
    spec_run [] calls ≡ some ([] ∷ [] ∷ [] ∷ (9 ∷ 1 ∷ []) ∷ (2 ∷ []) ∷ [] ∷ [] ∷ (4 ∷ 5 ∷ []) ∷ [])
unfolding spec_run spec_step
handed_out = refl

run_refines_example : run create calls ≡ spec_run (readable create) calls
run_refines_example = run_refines create calls create-IsValid

append_refines_example : Holds (append create (1 ∷ 2 ∷ [])) (readable create ++ (1 ∷ 2 ∷ []))
append_refines_example = append_refines create (1 ∷ 2 ∷ []) create-IsValid

prepend_refines_example : Holds (prepend create (1 ∷ 2 ∷ [])) ((1 ∷ 2 ∷ []) ++ readable create)
prepend_refines_example = prepend_refines create (1 ∷ 2 ∷ []) create-IsValid

read_as_string_refines_example :
    ((read_as_string create 3).0 ≡ take 3 (readable create))
    × Holds (read_as_string create 3).1 (drop 3 (readable create))
read_as_string_refines_example = read_as_string_refines create 3 create-IsValid

read_fd_refines_test :
    Holds (read_fd create (some (4 ∷ 5 ∷ []))) (readable create ++ (4 ∷ 5 ∷ []))
    × (read_fd create none ≡ create)
read_fd_refines_test = read_fd_refines create (4 ∷ 5 ∷ []) create-IsValid
