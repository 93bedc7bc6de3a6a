-- ===== src/Modules/Ready.antt =====
-- compiler/compiler.cpp: the loop of compileModules that reads the modules ends, with all that they import.
use aike.Base.{
  ℕ, zero, suc, ◌+◌, ◌*◌, ◌≤◌, ◌<◌, ◌≡◌, ◌≢◌, refl, sym, ap, subst, Bool, true, false, List, [],
  ◌∷◌, Option, none, some, Bytes, if◌then◌else◌, length, length-append, map, Elem, arith, inl, inr,
}
use aike.Tree.Ast.{Ast}
use aike.Tree.Visit.{module_gather_imports}
use aike.Modules.Graph.{Import}
use aike.Modules.Paths.{get_module_name}
use aike.Modules.Load.{
  Pending, Loader, Loaded, loaded, missing, rejected, running, is_ready, with_prelude, pending_of,
  keep_module, on_parsed, on_file, on_pending, load, load_modules,
}
use aike.Modules.Loading.{
  HasEntry, is_ready-HasEntry, Origin, IsNamed, Recorded, Waits, IsCovered, IsLoading,
  keep-IsLoading,
}
use aike.Modules.Waiting.{
  unread, unread-nil, unread-lt, Waits-split, pending_of-Elem, input_of-Elem, Waits-input_of,
  length-pending_of, length-input_of, skip-IsLoading, input_of-IsNamed, AddsPrelude,
  with_prelude-AddsPrelude,
}
use aike.Parse.Terms.{Number}
use aike.Parse.Front.{Front, read, bad_token, bad_syntax, failed_assertion, no_fuel, parse_module}

module _ (read_file : Bytes → Option Bytes) (strtod : Bytes → Number) (address : ℕ → ℕ)
    (disable_prelude : Bool) (inputs known : List Bytes) (k : ℕ) where
  -- The imports of each module that can be read are among the known names, and at most `k`.
  abbrev pub ImportsKnown : Type 0
  ImportsKnown =
      (pm : Pending) (text : Bytes) (n : ℕ) (root : Ast)
      → read_file pm.path ≡ some text
      → parse_module strtod pm.path text pm.name (address n) ≡ read root
      → let is = module_gather_imports (with_prelude disable_prelude pm.name root) in
        (length is ≤ k) × ((i : Import) → Elem i is → Elem i.0 known)

  -- The module is the tree of the text in the file of its name, with the prelude added.
  abbrev pub IsRead : Origin
  IsRead i n root' =
      (path : Bytes) × (text : Bytes) × (root : Ast) × IsNamed inputs path n
      × (read_file path ≡ some text)
      × (parse_module strtod path text n (address i) ≡ read root)
      × AddsPrelude disable_prelude n root root'

  -- What parseModule gives on the text in the file of a name, where this is no tree.
  abbrev pub HasNoTree : Front → Type 0
  HasNoTree f =
      (i : ℕ) × (n : Bytes) × (path : Bytes) × (text : Bytes) × IsNamed inputs path n
      × (read_file path ≡ some text)
      × (parse_module strtod path text n (address i) ≡ f)
      × ((root : Ast) → f ≢ read root)

  -- Every input and every import of a module has an entry under its name, and each entry gives the
  -- position of the module that was read for it; or a file cannot be read, or a text has no tree.
  unfoldable pub IsLoaded : Loaded → Type 0
  unfolding Recorded
  IsLoaded (loaded s) =
      ((f : Bytes) → Elem f inputs → HasEntry (get_module_name f) s.ready)
      × ((m : Ast)
          → Elem m s.modules
          → (i : Import) → Elem i (module_gather_imports m)
          → HasEntry i.0 s.ready)
      × Recorded IsRead s.modules s.ready
      × (length s.modules ≡ length s.ready)
  IsLoaded (missing pm) = IsNamed inputs pm.path pm.name × (read_file pm.path ≡ none)
  IsLoaded (rejected f) = HasNoTree f
  IsLoaded running = ⊥

  ready_at_end : (s : Loader) (n : Bytes) → s.queue ≡ [] → IsCovered s n → HasEntry n s.ready
  ready_at_end s n q (inl h) = is_ready-HasEntry n s.ready h
  ready_at_end s n q (inr h) = absurd (subst (Waits n) q h)

  abbrev QueueKnown : Loader → Type 0
  QueueKnown s = (n : Bytes) → Waits n s.queue → Elem n known

  abbrev cost : Loader → ℕ
  cost s = length s.queue + unread k known s.ready

  keep-cost :
      (s : Loader) (pm : Pending) (text : Bytes) (root : Ast) (rest : List Pending)
      → s.queue ≡ pm ∷ rest
      → Elem pm.name known
      → is_ready s.ready pm.name ≡ false
      → length (module_gather_imports root) ≤ k
      → cost (keep_module pm text root rest s) < cost s
  unfolding keep_module
  keep-cost s pm text root rest q e r few = omega (
    arith,
    length-append rest (map pending_of (module_gather_imports root)),
    length-pending_of (module_gather_imports root),
    unread-lt k known pm.name (length s.modules) s.ready e r,
    ap length q,
    few,
  )

  -- The rest of the loop does what is asked of it, where less work is left than `n`.
  abbrev GoesOn : ℕ → (Loader → Loaded) → Type 0
  GoesOn n go =
      (t : Loader) → IsLoading IsRead inputs t → QueueKnown t → cost t < n → IsLoaded (go t)

  module _ (all : ImportsKnown) (s : Loader) (l : IsLoading IsRead inputs s) (w : QueueKnown s)
      (go : Loader → Loaded) (again : GoesOn (cost s) go) (pm : Pending) (rest : List Pending)
      (q : s.queue ≡ pm ∷ rest) where
    waiting : (n : Bytes) → Waits n (pm ∷ rest) → Elem n known
    waiting n h = w n (subst (Waits n) (sym q) h)

    first_named : IsNamed inputs pm.path pm.name
    first_named = l.named pm (subst (Elem pm) (sym q) (inl refl))

    no_tree :
        (text : Bytes) (f : Front)
        → read_file pm.path ≡ some text
        → parse_module strtod pm.path text pm.name (address (length s.modules)) ≡ f
        → ((root : Ast) → f ≢ read root)
        → HasNoTree f
    no_tree text f t e n = (length s.modules, pm.name, pm.path, text, first_named, t, e, n)

    skipped : is_ready s.ready pm.name ≡ true → IsLoaded (go (record s { queue = rest }))
    skipped r =
        again (record s { queue = rest }) (skip-IsLoading IsRead inputs s pm rest l q r)
          (λ n h. waiting n (inr h)) (omega (arith, ap length q))

    kept :
        (text : Bytes) (root : Ast)
        → is_ready s.ready pm.name ≡ false
        → IsRead (length s.modules) pm.name root
        → let is = module_gather_imports root in
          (length is ≤ k) × ((i : Import) → Elem i is → Elem i.0 known)
          → IsLoaded (go (keep_module pm text root rest s))
    unfolding keep_module
    kept text root r from (few, names) =
        again (keep_module pm text root rest s)
          (keep-IsLoading IsRead inputs s pm text root rest l q r from)
          (λ n h. elim (Waits-split n rest (map pending_of (module_gather_imports root)) h) [
            | inl a ↦ waiting n (inr a)
            | inr b ↦
                let (i, m, same) = pending_of-Elem n (module_gather_imports root) b in
                subst (λ x. Elem x known) same (names i m)
          ])
          (keep-cost s pm text root rest q (waiting pm.name (inl refl)) r few)

    parsed :
        (text : Bytes) (f : Front)
        → is_ready s.ready pm.name ≡ false
        → read_file pm.path ≡ some text
        → parse_module strtod pm.path text pm.name (address (length s.modules)) ≡ f
        → IsLoaded (on_parsed read_file strtod address disable_prelude pm text rest s f go)
    unfolding IsLoaded
    parsed text (read root) r t e =
        kept text (with_prelude disable_prelude pm.name root) r
          (
            pm.path,
            text,
            root,
            first_named,
            t,
            e,
            with_prelude-AddsPrelude disable_prelude pm.name root,
          )
          (all pm text (length s.modules) root t e)
    parsed text (bad_token p l) r t e = no_tree text _ t e (λ root. cc)
    parsed text (bad_syntax p l) r t e = no_tree text _ t e (λ root. cc)
    parsed text failed_assertion r t e = no_tree text _ t e (λ root. cc)
    parsed text no_fuel r t e = no_tree text _ t e (λ root. cc)

    filed :
        (o : Option Bytes)
        → is_ready s.ready pm.name ≡ false
        → read_file pm.path ≡ o
        → IsLoaded (on_file read_file strtod address disable_prelude pm rest s o go)
    unfolding IsLoaded
    filed none r e = (first_named, e)
    filed (some text) r e =
        parsed text (parse_module strtod pm.path text pm.name (address (length s.modules))) r e refl

    taken_up :
        (b : Bool)
        → is_ready s.ready pm.name ≡ b
        → IsLoaded (
            if b
            then go (record s { queue = rest })
            else on_file read_file strtod address disable_prelude pm rest s (read_file pm.path) go)
    taken_up true r = skipped r
    taken_up false r = filed (read_file pm.path) r refl

  on_pending-IsLoaded :
      ImportsKnown
      → (s : Loader) → IsLoading IsRead inputs s
      → QueueKnown s
      → (go : Loader → Loaded) → GoesOn (cost s) go
      → (ps : List Pending) → s.queue ≡ ps
      → IsLoaded (on_pending read_file strtod address disable_prelude ps s go)
  unfolding IsLoaded
  on_pending-IsLoaded all s l w go again [] q = (
    λ f h. ready_at_end s (get_module_name f) q (l.starts f h),
    λ m h i e. ready_at_end s i.0 q (l.imports m h i e),
    l.recorded,
    l.paired,
  )
  on_pending-IsLoaded all s l w go again (pm ∷ rest) q =
      taken_up all s l w go again pm rest q (is_ready s.ready pm.name) refl

  load-IsLoaded :
      ImportsKnown → (fuel : ℕ) → GoesOn fuel (load read_file strtod address disable_prelude fuel)
  unfolding load
  load-IsLoaded all zero s l w c = absurd (omega arith)
  load-IsLoaded all (suc fuel) s l w c =
      on_pending-IsLoaded all s l w (load read_file strtod address disable_prelude fuel)
        (λ t l' w' c'. load-IsLoaded all fuel t l' w' (omega (arith, c, c'))) s.queue refl

  -- Where the names of the inputs and of all imports that can come up are among finitely many known
  -- ones, the loop ends, with fuel above the number of inputs and, for each of those names, one more
  -- than the imports of a module. It ends with a file that cannot be read, with a file whose text has
  -- no tree, or with a list of modules and the map of their names. In the map each name stands once,
  -- with the position of the module that is the tree of the text in its file, the prelude added. In
  -- each case the file is an input of its module's name or the path of that name. Every input and
  -- every import of the modules is in the map, which has as many entries as there are modules.
  pub load_modules-IsLoaded :
      ImportsKnown
      → ((f : Bytes) → Elem f inputs → Elem (get_module_name f) known)
      → (fuel : ℕ) → length inputs + length known * suc k < fuel
      → IsLoaded (load_modules read_file strtod address disable_prelude fuel inputs)
  unfolding load_modules Recorded
  load_modules-IsLoaded all names fuel enough =
      load-IsLoaded all fuel _
        (record {
          starts = λ f h. inr (Waits-input_of f inputs h);
          imports = λ m h. absurd h;
          recorded = tt;
          named = input_of-IsNamed inputs inputs (λ f h. h);
          paired = refl;
        })
        (λ n h. let (f, m, e) = input_of-Elem n inputs h in subst (λ x. Elem x known) e (names f m))
        (omega (arith, enough, length-input_of inputs, unread-nil k known))
