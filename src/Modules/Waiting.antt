-- ===== src/Modules/Waiting.antt =====
-- compiler/compiler.cpp: the queue of the loop of compileModules that reads the modules, and what is
-- still to be read.
use Prim.Native.Nat.mul
use aike.Base.{
  bytes_eq, bytes_eq_refl, bytes_eq→eq, ℕ, suc, ◌+◌, ◌*◌, ◌≤◌, ◌≡◌, ◌≢◌, ◌⊎◌, ◌∙◌, refl, sym, ap,
  subst, Bool, true, false, List, [], ◌∷◌, ◌++◌, Bytes, if◌then◌else◌, length, map, Elem,
  Bool-cases, arith, inl, inr,
}
use aike.Tree.Ast.{Ast, module_}
use aike.Modules.Graph.{Import}
use aike.Modules.Paths.{get_module_name}
use aike.Mangle.Text.{codes}
use aike.Modules.Load.{prelude, Pending, Loader, is_ready, with_prelude, pending_of, input_of}
use aike.Modules.Loading.{
  Origin, IsNamed, Waits, IsCovered, IsLoading, is_ready-cons, is_ready-head, skip-IsCovered,
}

-- The names that are not ready yet, each with one more than its imports at most.
unfoldable pub unread : ℕ → List Bytes → List (Bytes × ℕ) → ℕ
unread k [] r = 0
unread k (u ∷ us) r = (if is_ready r u then 0 else suc k) + unread k us r

pub unread-nil : (k : ℕ) (us : List Bytes) → unread k us [] ≡ length us * suc k
unfolding unread is_ready
unread-nil k [] = sym (mul.zero (suc k))
unread-nil k (u ∷ us) = ap (λ n. suc k + n) (unread-nil k us) ∙ sym (mul.suc (length us) (suc k))

pub unread-le :
    (k : ℕ) (us : List Bytes) (n : Bytes) (i : ℕ) (r : List (Bytes × ℕ))
    → unread k us ((n, i) ∷ r) ≤ unread k us r
unfolding unread
unread-le k [] n i r = omega arith
unread-le k (u ∷ us) n i r =
    let rest = unread-le k us n i r in
    elim (Bool-cases (is_ready r u)) [
      | inl e ↦ ground (arith, rest, e, is_ready-cons u n i r e)
      | inr e ↦ ground (arith, rest, e)
    ]

pub unread-lt :
    (k : ℕ) (us : List Bytes) (n : Bytes) (i : ℕ) (r : List (Bytes × ℕ))
    → Elem n us
    → is_ready r n ≡ false
    → suc k + unread k us ((n, i) ∷ r) ≤ unread k us r
unfolding unread
unread-lt k [] n i r h e = absurd h
unread-lt k (u ∷ us) n i r (inl same) e =
    let rest = unread-le k us n i r in
    let was : is_ready r u ≡ false = subst (λ m. is_ready r m ≡ false) (sym same) e in
    let now : is_ready ((n, i) ∷ r) u ≡ true =
      subst (λ m. is_ready ((n, i) ∷ r) m ≡ true) (sym same) (is_ready-head n i r) in
    rw (was, now) (omega (arith, rest))
unread-lt k (u ∷ us) n i r (inr h) e =
    let rest = unread-lt k us n i r h e in
    elim (Bool-cases (is_ready r u)) [
      | inl f ↦ rw (f, is_ready-cons u n i r f) (omega (arith, rest))
      | inr f ↦ ground (arith, rest, f)
    ]

pub Waits-split : (n : Bytes) (ps qs : List Pending) → Waits n (ps ++ qs) → Waits n ps ⊎ Waits n qs
Waits-split n [] qs h = inr h
Waits-split n (p ∷ ps) qs (inl h) = inl (inl h)
Waits-split n (p ∷ ps) qs (inr h) = elim (Waits-split n ps qs h) [
  | inl a ↦ inl (inr a)
  | inr b ↦ inr b
]

pub pending_of-Elem :
    (n : Bytes) (is : List Import)
    → Waits n (map pending_of is)
    → (i : Import) × Elem i is × (i.0 ≡ n)
pending_of-Elem n [] h = absurd h
pending_of-Elem n (i ∷ is) (inl e) = (i, inl refl, e)
pending_of-Elem n (i ∷ is) (inr h) = let (j, m, e) = pending_of-Elem n is h in (j, inr m, e)

pub input_of-Elem :
    (n : Bytes) (fs : List Bytes)
    → Waits n (map input_of fs)
    → (f : Bytes) × Elem f fs × (get_module_name f ≡ n)
input_of-Elem n [] h = absurd h
input_of-Elem n (f ∷ fs) (inl e) = (f, inl refl, e)
input_of-Elem n (f ∷ fs) (inr h) = let (g, m, e) = input_of-Elem n fs h in (g, inr m, e)

pub Waits-input_of :
    (f : Bytes) (fs : List Bytes) → Elem f fs → Waits (get_module_name f) (map input_of fs)
Waits-input_of f [] h = absurd h
Waits-input_of f (g ∷ fs) (inl e) = inl (ap get_module_name e)
Waits-input_of f (g ∷ fs) (inr h) = inr (Waits-input_of f fs h)

pub length-pending_of : (is : List Import) → length (map pending_of is) ≡ length is
length-pending_of [] = refl
length-pending_of (i ∷ is) = ap suc (length-pending_of is)

pub length-input_of : (fs : List Bytes) → length (map input_of fs) ≡ length fs
length-input_of [] = refl
length-input_of (f ∷ fs) = ap suc (length-input_of fs)

pub skip-IsLoading :
    (comes_from : Origin) (inputs : List Bytes) (s : Loader) (pm : Pending) (rest : List Pending)
    → IsLoading comes_from inputs s
    → s.queue ≡ pm ∷ rest
    → is_ready s.ready pm.name ≡ true
    → IsLoading comes_from inputs (record s { queue = rest })
skip-IsLoading comes_from inputs s pm rest l q r = record {
  starts = λ n h. cover (get_module_name n) (l.starts n h);
  imports = λ m h i e. cover i.0 (l.imports m h i e);
  recorded = l.recorded;
  named = λ p h. l.named p (subst (Elem p) (sym q) (inr h));
  paired = l.paired;
}
  where
    cover : (n : Bytes) → IsCovered s n → IsCovered (record s { queue = rest }) n
    cover n h =
        skip-IsCovered s pm rest n r (subst (λ ps. (is_ready s.ready n ≡ true) ⊎ Waits n ps) q h)

pub input_of-IsNamed :
    (inputs fs : List Bytes)
    → ((f : Bytes) → Elem f fs → Elem f inputs)
    → (pm : Pending) → Elem pm (map input_of fs)
    → IsNamed inputs pm.path pm.name
input_of-IsNamed inputs [] all pm h = absurd h
input_of-IsNamed inputs (f ∷ fs) all pm (inl e) =
    subst (λ p. IsNamed inputs p.path p.name) e (inl (all f (inl refl), refl))
input_of-IsNamed inputs (f ∷ fs) all pm (inr h) =
    input_of-IsNamed inputs fs (λ g m. all g (inr m)) pm h

-- The second tree is the first one, with the prelude as one more import of its Module node, unless the
-- prelude is left out or this is the prelude.
abbrev pub AddsPrelude : Bool → Bytes → Ast → Ast → Type 0
AddsPrelude true n root root' = root' ≡ root
AddsPrelude false n (module_ c m body is) root' =
    ((n ≡ codes "std.prelude") × (root' ≡ module_ c m body is))
    ⊎ ((n ≢ codes "std.prelude") × (root' ≡ module_ c m body (is ++ codes "std.prelude" ∷ [])))
AddsPrelude false n root root' = root' ≡ root

pub with_prelude-AddsPrelude :
    (b : Bool) (n : Bytes) (root : Ast) → AddsPrelude b n root (with_prelude b n root)
unfolding with_prelude
with_prelude-AddsPrelude true n root = refl
with_prelude-AddsPrelude false n (module_ c m body is) = elim (Bool-cases (bytes_eq n prelude)) [
  | inl e ↦ inl (bytes_eq→eq n prelude e, rw e)
  | inr e ↦ inr (λ h. cc (e, subst (λ k. bytes_eq n k ≡ true) h (bytes_eq_refl n)), rw e)
]
with_prelude-AddsPrelude false n root = refl
