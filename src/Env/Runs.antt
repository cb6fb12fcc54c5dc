-- ===== src/Env/Runs.antt =====
-- Runs of the environment.
use sylar_net_server_framewo.Common.{ℕ, ◌≡◌, ◌↔◌, true, none, List, [], ◌∷◌}
use sylar_net_server_framewo.Env.Defs.{Env, init}
use sylar_net_server_framewo.Env.Arguments.{Opt, flag, valued, Reads, add_all, started, init_iff}

abbrev empty : Env
empty = record { args = λ k. none; helps = []; program = []; exe = []; cwd = [] }

-- "-d -c x" for "/b/s"
abbrev arguments : List (List ℕ)
arguments = (45 ∷ 100 ∷ []) ∷ (45 ∷ 99 ∷ []) ∷ (120 ∷ []) ∷ []

abbrev options : List Opt
options = flag 100 [] ∷ valued 99 [] (120 ∷ []) ∷ []

abbrev exe : List ℕ
exe = 47 ∷ 98 ∷ 47 ∷ 115 ∷ []

init_example :
    (init exe (115 ∷ []) arguments empty ≡ (true, add_all options (started exe (115 ∷ []) empty)))
    ↔ Reads arguments
        (started exe (115 ∷ []) empty)
        (add_all options (started exe (115 ∷ []) empty))
init_example =
    init_iff exe (115 ∷ []) arguments empty (add_all options (started exe (115 ∷ []) empty))
