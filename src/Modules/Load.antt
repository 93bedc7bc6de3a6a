-- ===== src/Modules/Load.antt =====
-- compiler/compiler.cpp: the loop of compileModules that reads the modules. readFile, the reading of a
-- number and the first free address when a module is parsed are parameters.
use aike.Base.{
  ℕ, zero, suc, Bool, false, ◌||◌, List, [], ◌∷◌, ◌++◌, Option, none, some, Bytes, bytes_eq,
  if◌then◌else◌, length, map,
}
use aike.Mangle.Text.{codes}
use aike.Types.Syntax.{Location}
use aike.Types.Content.{nowhere}
use aike.Tree.Ast.{Ast, module_}
use aike.Tree.Visit.{module_gather_imports}
use aike.Modules.Graph.{Import}
use aike.Modules.Paths.{get_module_name, get_module_path}
use aike.Parse.Terms.{Number}
use aike.Parse.Front.{Front, read, parse_module}

-- PendingModule
pub record Pending : Type 0 where
  pub name : Bytes
  pub imported_at : Location
  pub path : Bytes

-- `modules` in their order; `ready` is the map readyModules, `sources` the one of Output, each as the
-- list of its entries, the newest one first.
pub record Loader : Type 0 where
  pub modules : List Ast
  pub ready : List (Bytes × ℕ)
  pub sources : List (Bytes × Bytes)
  pub queue : List Pending

-- How the loop ends: at the end of the queue, at a file that cannot be read, or in a parse without a
-- tree. `running` is the end of the fuel.
pub data Loaded : Type 0 where
  loaded : Loader → Loaded
  missing : Pending → Loaded
  rejected : Front → Loaded
  running : Loaded

-- `readyModules.count(name)`
unfoldable pub is_ready : List (Bytes × ℕ) → Bytes → Bool
unfolding bytes_eq
is_ready [] n = false
is_ready ((m, _) ∷ ms) n = bytes_eq m n || is_ready ms n

abbrev pub prelude : Bytes
prelude = codes "std.prelude"

unfoldable pub with_prelude : Bool → Bytes → Ast → Ast
unfolding bytes_eq
with_prelude false name (module_ c n body is) =
    if bytes_eq name prelude then module_ c n body is else module_ c n body (is ++ prelude ∷ [])
with_prelude _ name root = root

abbrev pub pending_of : Import → Pending
pending_of (n, l) = record { name = n; imported_at = l; path = get_module_path n }

abbrev pub input_of : Bytes → Pending
input_of file = record { name = get_module_name file; imported_at = nowhere; path = file }

-- The root of the module and its text are kept, and its imports queued.
unfoldable pub keep_module : Pending → Bytes → Ast → List Pending → Loader → Loader
unfolding module_gather_imports get_module_path
keep_module pm text root rest s = record {
  modules = s.modules ++ root ∷ [];
  ready = (pm.name, length s.modules) ∷ s.ready;
  sources = (pm.path, text) ∷ s.sources;
  queue = rest ++ map pending_of (module_gather_imports root);
}

module _ (read_file : Bytes → Option Bytes) (strtod : Bytes → Number) (address : ℕ → ℕ)
    (disable_prelude : Bool) where
  -- What is known of a module once parseModule has ended, and the loop goes on.
  abbrev pub on_parsed :
      Pending → Bytes → List Pending → Loader → Front → (Loader → Loaded) → Loaded
  on_parsed pm text rest s (read root) go =
      go (keep_module pm text (with_prelude disable_prelude pm.name root) rest s)
  on_parsed pm text rest s f go = rejected f

  abbrev pub on_file : Pending → List Pending → Loader → Option Bytes → (Loader → Loaded) → Loaded
  on_file pm rest s none go = missing pm
  on_file pm rest s (some text) go =
      on_parsed pm text rest s
        (parse_module strtod pm.path text pm.name (address (length s.modules))) go

  -- A round for the first one in the queue.
  abbrev pub on_pending : List Pending → Loader → (Loader → Loaded) → Loaded
  on_pending [] s go = loaded s
  on_pending (pm ∷ rest) s go =
      if is_ready s.ready pm.name
      then go (record s { queue = rest })
      else on_file pm rest s (read_file pm.path) go

  -- `while (!pendingModules.empty())`
  unfoldable pub load : ℕ → Loader → Loaded
  unfolding is_ready with_prelude keep_module parse_module
  load zero s = running
  load (suc fuel) s = on_pending s.queue s (λ t. load fuel t)

  unfoldable pub load_modules : ℕ → List Bytes → Loaded
  unfolding load get_module_name
  load_modules fuel inputs =
      load fuel (record { modules = []; ready = []; sources = []; queue = map input_of inputs })
