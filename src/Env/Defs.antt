-- ===== src/Env/Defs.antt =====
-- `Env` (util/env.h and env.cc). Texts are lists of character codes without zeros; what `readlink` and
-- `getenv` answer is a parameter.
use sylar_net_server_framewo.Common.{
  ℕ, Bool, true, false, not, ◌&&◌, ◌||◌, Option, none, some, List, [], ◌∷◌, ◌++◌, ◌==◌,
  if◌then◌else◌,
}
use sylar_net_server_framewo.Addr.Lookup.{same_text}

abbrev pub dash : ℕ
dash = 45

abbrev pub slash : ℕ
slash = 47

-- `m_args` is a function from keys; `m_helps` are pairs of a key and a description.
pub record Env : Type 0 where
  pub args : List ℕ → Option (List ℕ)
  pub helps : List (List ℕ × List ℕ)
  pub program : List ℕ
  pub exe : List ℕ
  pub cwd : List ℕ

-- `Env::add`
unfoldable pub add : List ℕ → List ℕ → Env → Env
add key val e = record e { args = λ k. if same_text key k then some val else e.args k }

-- `Env::has`, `del` and `get`
unfoldable pub has : List ℕ → Env → Bool
has key e = elim (e.args key) [ none ↦ false | some v ↦ true ]

unfoldable pub del : List ℕ → Env → Env
del key e = record e { args = λ k. if same_text key k then none else e.args k }

unfoldable pub get : List ℕ → List ℕ → Env → List ℕ
get key default_value e = elim (e.args key) [ none ↦ default_value | some v ↦ v ]

-- The loop of `Env::init` over the arguments behind the first, with `now_key`.
unfoldable pub init_loop : Option (List ℕ) → List (List ℕ) → Env → Bool × Env
init_loop none [] e = (true, e)
init_loop (some k) [] e = (true, add k [] e)
init_loop none ([] ∷ rest) e = (false, e)
init_loop (some k) ([] ∷ rest) e = init_loop none rest (add k [] e)
init_loop none ((c ∷ []) ∷ rest) e = (false, e)
init_loop (some k) ((c ∷ []) ∷ rest) e =
    let given = init_loop none rest (add k (c ∷ []) e) in if c == dash then (false, e) else given
init_loop none ((c ∷ d ∷ arg) ∷ rest) e =
    let keyed = init_loop (some (d ∷ arg)) rest e in if c == dash then keyed else (false, e)
init_loop (some k) ((c ∷ d ∷ arg) ∷ rest) e =
    let keyed = init_loop (some (d ∷ arg)) rest (add k [] e) in
    let given = init_loop none rest (add k (c ∷ d ∷ arg) e) in if c == dash then keyed else given

-- `m_exe.substr(0, m_exe.find_last_of("/"))`
unfoldable pub has_slash : List ℕ → Bool
has_slash [] = false
has_slash (c ∷ s) = (c == slash) || has_slash s

unfoldable pub before_last_slash : List ℕ → List ℕ
before_last_slash [] = []
before_last_slash (c ∷ s) =
    let rest = before_last_slash s in if (c == slash) && not (has_slash s) then [] else c ∷ rest

-- `Env::init`, with what `readlink` gives and the program's name and arguments
unfoldable pub init : List ℕ → List ℕ → List (List ℕ) → Env → Bool × Env
init path program arguments e =
    init_loop none arguments
      (record e { exe = path; cwd = before_last_slash path ++ slash ∷ []; program = program })

-- `Env::removeHelp` and `addHelp`
unfoldable pub drop_helps : List ℕ → List (List ℕ × List ℕ) → List (List ℕ × List ℕ)
drop_helps key [] = []
drop_helps key (h ∷ hs) =
    let rest = drop_helps key hs in if same_text h.0 key then rest else h ∷ rest

unfoldable pub remove_help : List ℕ → Env → Env
remove_help key e = record e { helps = drop_helps key e.helps }

unfoldable pub add_help : List ℕ → List ℕ → Env → Env
add_help key desc e =
    let e' = remove_help key e in record e' { helps = e'.helps ++ (key, desc) ∷ [] }

-- `Env::getEnv`, with what `getenv` gives
unfoldable pub get_env : Option (List ℕ) → List ℕ → List ℕ
get_env none default_value = default_value
get_env (some v) default_value = v

-- `Env::getAbsolutePath`, and `getAbsoluteWorkPath` with the work path of the configuration
unfoldable pub get_absolute_path : List ℕ → Env → List ℕ
get_absolute_path [] e = slash ∷ []
get_absolute_path (c ∷ path) e = if c == slash then c ∷ path else e.cwd ++ c ∷ path

unfoldable pub get_absolute_work_path : List ℕ → List ℕ → List ℕ
get_absolute_work_path work_path [] = slash ∷ []
get_absolute_work_path work_path (c ∷ path) =
    if c == slash then c ∷ path else work_path ++ (slash ∷ c ∷ path)

-- `Env::getConfigPath`
unfoldable pub get_config_path : Env → List ℕ
get_config_path e = get_absolute_path (get (99 ∷ []) (99 ∷ 111 ∷ 110 ∷ 102 ∷ []) e) e
