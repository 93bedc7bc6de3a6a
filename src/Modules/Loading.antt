-- ===== src/Modules/Loading.antt =====
-- compiler/compiler.cpp: the modules that compileModules has when its loop ends.
use aike.Base.{
  ℕ, zero, suc, ◌≡◌, ◌⊎◌, refl, some, get_elem?, sym, ap, subst, true, false, List, [], ◌∷◌, ◌++◌,
  Bytes, bytes_eq, bytes_eq_refl, bytes_eq→eq, Bool-cases, length, length-append, map, Elem,
  Elem-of_append, arith, inl, inr,
}
use aike.Tree.Ast.{Ast}
use aike.Tree.Visit.{module_gather_imports}
use aike.Modules.Graph.{Import}
use aike.Modules.Paths.{get_module_name, get_module_path}
use aike.Modules.Load.{Pending, Loader, is_ready, pending_of, keep_module}

abbrev pub Waits : Bytes → List Pending → Type 0
Waits n [] = ⊥
Waits n (pm ∷ pms) = (pm.name ≡ n) ⊎ Waits n pms

abbrev pub IsCovered : Loader → Bytes → Type 0
IsCovered s n = (is_ready s.ready n ≡ true) ⊎ Waits n s.queue

-- What is known of the module at a position, with the name it is there under.
abbrev pub Origin : Type 1
Origin = ℕ → Bytes → Ast → Type 0

-- The file of a module: an input, or where the name of an import leads to.
abbrev pub IsNamed : List Bytes → Bytes → Bytes → Type 0
IsNamed inputs path n = (Elem path inputs × (get_module_name path ≡ n)) ⊎ (path ≡ get_module_path n)

-- The map has an entry for the name.
abbrev pub HasEntry : Bytes → List (Bytes × ℕ) → Type 0
HasEntry n [] = ⊥
HasEntry n ((m, i) ∷ rs) = (m ≡ n) ⊎ HasEntry n rs

-- Each name is there once, and its entry is the position of its module.
unfoldable pub Recorded : Origin → List Ast → List (Bytes × ℕ) → Type 0
Recorded comes_from ms [] = Unit {0}
Recorded comes_from ms ((n, i) ∷ rs) =
    (i ≡ length rs)
    × (¬ HasEntry n rs)
    × ((root : Ast) × (get_elem? ms i ≡ some root) × comes_from i n root)
    × Recorded comes_from ms rs

-- What holds in each round.
pub record IsLoading (comes_from : Origin) (inputs : List Bytes) (s : Loader) : Type 0 where
  pub starts : (n : Bytes) → Elem n inputs → IsCovered s (get_module_name n)
  pub imports :
      (m : Ast)
      → Elem m s.modules
      → (i : Import) → Elem i (module_gather_imports m)
      → IsCovered s i.0
  pub recorded : Recorded comes_from s.modules s.ready
  pub named : (pm : Pending) → Elem pm s.queue → IsNamed inputs pm.path pm.name
  pub paired : length s.modules ≡ length s.ready

get_elem?-front :
    (ms : List Ast) (m : Ast) (i : ℕ) (root : Ast)
    → get_elem? ms i ≡ some root
    → get_elem? (ms ++ m ∷ []) i ≡ some root
get_elem?-front [] m i root h = cc
get_elem?-front (k ∷ ms) m zero root h = h
get_elem?-front (k ∷ ms) m (suc i) root h = get_elem?-front ms m i root h

get_elem?-behind : (ms : List Ast) (m : Ast) → get_elem? (ms ++ m ∷ []) (length ms) ≡ some m
get_elem?-behind [] m = refl
get_elem?-behind (k ∷ ms) m = get_elem?-behind ms m

Recorded-append :
    (comes_from : Origin) (ms : List Ast) (m : Ast) (rs : List (Bytes × ℕ))
    → Recorded comes_from ms rs
    → Recorded comes_from (ms ++ m ∷ []) rs
unfolding Recorded
Recorded-append o ms m [] h = tt
Recorded-append o ms m ((n, i) ∷ rs) (at, new, (root, there, from), rest) =
    (at, new, (root, get_elem?-front ms m i root there, from), Recorded-append o ms m rs rest)

pub is_ready-cons :
    (n m : Bytes) (i : ℕ) (ms : List (Bytes × ℕ))
    → is_ready ms n ≡ true
    → is_ready ((m, i) ∷ ms) n ≡ true
unfolding is_ready
is_ready-cons n m i ms h = ground (arith, h)

pub is_ready-head : (n : Bytes) (i : ℕ) (ms : List (Bytes × ℕ)) → is_ready ((n, i) ∷ ms) n ≡ true
unfolding is_ready
is_ready-head n i ms = rw (bytes_eq_refl n)

pub is_ready-HasEntry : (n : Bytes) (rs : List (Bytes × ℕ)) → is_ready rs n ≡ true → HasEntry n rs
unfolding is_ready
is_ready-HasEntry n [] h = cc
is_ready-HasEntry n ((m, i) ∷ rs) h = elim (Bool-cases (bytes_eq m n)) [
  | inl e ↦ inl (bytes_eq→eq m n e)
  | inr e ↦ inr (is_ready-HasEntry n rs (ground (arith, h, e)))
]

HasEntry-is_ready : (n : Bytes) (rs : List (Bytes × ℕ)) → HasEntry n rs → is_ready rs n ≡ true
unfolding is_ready
HasEntry-is_ready n [] h = absurd h
HasEntry-is_ready n ((m, i) ∷ rs) (inl e) =
    subst (λ k. is_ready ((m, i) ∷ rs) k ≡ true) e (is_ready-head m i rs)
HasEntry-is_ready n ((m, i) ∷ rs) (inr h) = is_ready-cons n m i rs (HasEntry-is_ready n rs h)

Waits-front : (n : Bytes) (ps qs : List Pending) → Waits n ps → Waits n (ps ++ qs)
Waits-front n (p ∷ ps) qs (inl h) = inl h
Waits-front n (p ∷ ps) qs (inr h) = inr (Waits-front n ps qs h)
Waits-front n [] qs h = absurd h

Waits-behind : (n : Bytes) (ps qs : List Pending) → Waits n qs → Waits n (ps ++ qs)
Waits-behind n [] qs h = h
Waits-behind n (p ∷ ps) qs h = inr (Waits-behind n ps qs h)

Waits-pending_of : (i : Import) (is : List Import) → Elem i is → Waits i.0 (map pending_of is)
Waits-pending_of i [] h = absurd h
Waits-pending_of i (j ∷ is) (inl e) = inl (ap (λ k. k.0) e)
Waits-pending_of i (j ∷ is) (inr h) = inr (Waits-pending_of i is h)

-- The first one of the queue is ready, and is left out.
pub skip-IsCovered :
    (s : Loader) (pm : Pending) (rest : List Pending) (n : Bytes)
    → is_ready s.ready pm.name ≡ true
    → (is_ready s.ready n ≡ true) ⊎ Waits n (pm ∷ rest)
    → IsCovered (record s { queue = rest }) n
skip-IsCovered s pm rest n r (inl h) = inl h
skip-IsCovered s pm rest n r (inr (inl e)) = inl (subst (λ k. is_ready s.ready k ≡ true) e r)
skip-IsCovered s pm rest n r (inr (inr h)) = inr h

keep-IsCovered :
    (s : Loader) (pm : Pending) (text : Bytes) (root : Ast) (rest : List Pending) (n : Bytes)
    → (is_ready s.ready n ≡ true) ⊎ Waits n (pm ∷ rest)
    → IsCovered (keep_module pm text root rest s) n
unfolding keep_module
keep-IsCovered s pm text root rest n (inl h) = inl (is_ready-cons n pm.name _ s.ready h)
keep-IsCovered s pm text root rest n (inr (inl e)) = inl (
    subst (λ k. is_ready ((pm.name, length s.modules) ∷ s.ready) k ≡ true) e
      (is_ready-head pm.name _ s.ready))
keep-IsCovered s pm text root rest n (inr (inr h)) = inr (Waits-front n rest _ h)

pending_of-IsNamed :
    (inputs : List Bytes) (pm : Pending) (is : List Import)
    → Elem pm (map pending_of is)
    → IsNamed inputs pm.path pm.name
pending_of-IsNamed inputs pm [] h = absurd h
pending_of-IsNamed inputs pm (i ∷ is) (inl e) =
    subst (λ p. IsNamed inputs p.path p.name) e (inr refl)
pending_of-IsNamed inputs pm (i ∷ is) (inr h) = pending_of-IsNamed inputs pm is h

pub keep-IsLoading :
    (comes_from : Origin) (inputs : List Bytes) (s : Loader) (pm : Pending) (text : Bytes)
    (root : Ast) (rest : List Pending)
    → IsLoading comes_from inputs s
    → s.queue ≡ pm ∷ rest
    → is_ready s.ready pm.name ≡ false
    → comes_from (length s.modules) pm.name root
    → IsLoading comes_from inputs (keep_module pm text root rest s)
unfolding keep_module Recorded
keep-IsLoading comes_from inputs s pm text root rest l q r from = record {
  starts = λ n h. cover (get_module_name n) (l.starts n h);
  imports = λ m h i k. elim (Elem-of_append m s.modules (root ∷ []) h) [
    | inl e ↦ cover i.0 (l.imports m e i k)
    | inr (inl e) ↦ inr (
        Waits-behind i.0 rest _ (
          Waits-pending_of i (module_gather_imports root)
            (subst (λ t. Elem i (module_gather_imports t)) (sym e) k)))
    | inr (inr e) ↦ absurd e
  ];
  recorded = (
    l.paired,
    λ h. cc (r, HasEntry-is_ready pm.name s.ready h),
    (root, get_elem?-behind s.modules root, from),
    Recorded-append comes_from s.modules root s.ready l.recorded,
  );
  named = λ p h. elim (Elem-of_append p rest _ h) [
    | inl e ↦ l.named p (subst (Elem p) (sym q) (inr e))
    | inr e ↦ pending_of-IsNamed inputs p (module_gather_imports root) e
  ];
  paired = omega (arith, length-append s.modules (root ∷ []), l.paired);
}
  where
    cover : (n : Bytes) → IsCovered s n → IsCovered (keep_module pm text root rest s) n
    cover n h =
        keep-IsCovered s pm text root rest n
          (subst (λ ps. (is_ready s.ready n ≡ true) ⊎ Waits n ps) q h)
