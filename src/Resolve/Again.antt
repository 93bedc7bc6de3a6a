-- ===== src/Resolve/Again.antt =====
-- compiler/resolve.cpp: resolveMembers leaves a tree in which it has found every member, as it is.
use aike.Base.{ℕ, ◌+◌, ◌≡◌, refl, sym, subst, List, [], ◌∷◌, Option, none, some}
use aike.Types.Syntax.{TyDef}
use aike.Tree.Ast.{
  Ast, Asts, Common, FieldRef, FieldInits, FieldDecls, literal_void, literal_bool, literal_integer,
  literal_float, literal_string, literal_tuple, literal_array, literal_struct, ident, member, block,
  module_, call, unary, binary, index, assign, if_, for_, while, fn, llvm, fn_decl, var_decl,
  ty_decl, import_, absent, no_inits, init, no_fields, field,
}
use aike.Tree.Visit.{ast_common}
use aike.Resolve.Visits.{
  resolve_member, with_two, resolve_node, resolve_all, resolve_inits, resolve_fields,
  resolve_members,
}
use aike.Resolve.Settled.{
  Settles, with_one-Settles, with_two-Settles, resolve_member-Settles, resolve_refs-Settles,
  RefsAre, AsMany,
}
use aike.Check.State.{Check, Pass, ok, ◌>>=◌, pure}
use aike.Check.Accepts.{Post-ok}
use aike.Check.Ensures.{Ensures, Ensures->>=, Ensures-mono, pure-Ensures}
use aike.Check.Runs.{Runs, Runs->>=, pure-Runs}

abbrev HasCommon : Option Common → Ast → Type 0
HasCommon c n = ast_common n ≡ c

abbrev resolve_both : (ℕ → Option TyDef) → Ast × Ast → Check ((Ast × Ast) × ℕ)
resolve_both defs r =
    with_two (λ (x y : Ast). (x, y)) (resolve_node defs r.0) (resolve_node defs r.1)

settled : {A : Type 0} {p : Check A} {P Q : A → Type 0} → Ensures p (λ r. P r × Q r) → Ensures p P
settled h = Ensures-mono h (λ r x. x.0)

mutual
  unfolding resolve_node

  resolve_node-Settles :
      (defs : ℕ → Option TyDef) (n : Ast)
      → Ensures
          (resolve_node defs n)
          (λ r. Settles (resolve_node defs) r × HasCommon (ast_common n) r.0)
  resolve_node-Settles defs (literal_void c) = pure-Ensures _ (pure-Runs refl, refl)
  resolve_node-Settles defs (literal_bool c b) = pure-Ensures _ (pure-Runs refl, refl)
  resolve_node-Settles defs (literal_integer c i) = pure-Ensures _ (pure-Runs refl, refl)
  resolve_node-Settles defs (literal_float c i) = pure-Ensures _ (pure-Runs refl, refl)
  resolve_node-Settles defs (literal_string c s) = pure-Ensures _ (pure-Runs refl, refl)
  resolve_node-Settles defs (literal_tuple c as_) =
      with_one-Settles (literal_tuple c) (resolve_node defs) (resolve_all defs) (HasCommon (some c))
        (λ a. refl) (λ a. refl) (resolve_all-Settles defs as_)
  resolve_node-Settles defs (literal_array c as_) =
      with_one-Settles (literal_array c) (resolve_node defs) (resolve_all defs) (HasCommon (some c))
        (λ a. refl) (λ a. refl) (resolve_all-Settles defs as_)
  resolve_node-Settles defs (block c as_) =
      with_one-Settles (block c) (resolve_node defs) (resolve_all defs) (HasCommon (some c))
        (λ a. refl) (λ a. refl) (resolve_all-Settles defs as_)
  resolve_node-Settles defs (literal_struct c n fs) =
      Ensures->>= (resolve_refs-Settles defs c.type fs) λ r.
        Ensures->>= (resolve_inits-Settles defs fs r.0) λ q. pure-Ensures _ (λ hq hr.
          let (are, runs) = hq hr.0 in
          (
            Runs->>=
                (λ a. resolve_inits defs q.0 a.0 >>= λ b. pure (literal_struct c n b.0, a.1 + b.1))
                (hr.1 q.0 are)
                (Runs->>= (λ b. pure (literal_struct c n b.0, 0 + b.1)) runs (pure-Runs refl)),
            refl,
          ))
  resolve_node-Settles defs (ident c n ts vs r) = pure-Ensures _ (pure-Runs refl, refl)
  resolve_node-Settles defs (llvm c s) = pure-Ensures _ (pure-Runs refl, refl)
  resolve_node-Settles defs (import_ c n) = pure-Ensures _ (pure-Runs refl, refl)
  resolve_node-Settles defs absent = pure-Ensures _ (pure-Runs refl, refl)
  resolve_node-Settles defs (member c e f) =
      Ensures->>= (resolve_member-Settles defs (ast_common e) f) λ g.
        Ensures->>= (resolve_node-Settles defs e) λ e'. pure-Ensures _ (λ he hg. (
          Runs->>= (λ a. resolve_node defs e'.0 >>= λ b. pure (member c b.0 a.0, a.1 + b.1))
              (subst (λ k. Runs (resolve_member defs k g.0) (g.0, 0)) (sym he.1) hg)
              (Runs->>= (λ b. pure (member c b.0 g.0, 0 + b.1)) he.0 (pure-Runs refl)),
          refl,
        ))
  resolve_node-Settles defs (module_ c n body is) =
      with_one-Settles (λ b. module_ c n b is) (resolve_node defs) (resolve_node defs)
        (HasCommon (some c)) (λ a. refl) (λ a. refl) (settled (resolve_node-Settles defs body))
  resolve_node-Settles defs (unary c op e) =
      with_one-Settles (unary c op) (resolve_node defs) (resolve_node defs) (HasCommon (some c))
        (λ a. refl) (λ a. refl) (settled (resolve_node-Settles defs e))
  resolve_node-Settles defs (fn c id decl) =
      with_one-Settles (fn c id) (resolve_node defs) (resolve_node defs) (HasCommon (some c))
        (λ a. refl) (λ a. refl) (settled (resolve_node-Settles defs decl))
  resolve_node-Settles defs (fn_decl c v ts vs attributes body p m) =
      with_one-Settles (λ b. fn_decl c v ts vs attributes b p m) (resolve_node defs)
        (resolve_node defs) (HasCommon (some c)) (λ a. refl) (λ a. refl)
        (settled (resolve_node-Settles defs body))
  resolve_node-Settles defs (var_decl c v e) =
      with_one-Settles (var_decl c v) (resolve_node defs) (resolve_node defs) (HasCommon (some c))
        (λ a. refl) (λ a. refl) (settled (resolve_node-Settles defs e))
  resolve_node-Settles defs (ty_decl c n ts fs) =
      with_one-Settles (ty_decl c n ts) (resolve_node defs) (resolve_fields defs)
        (HasCommon (some c)) (λ a. refl) (λ a. refl) (resolve_fields-Settles defs fs)
  resolve_node-Settles defs (call c e as_) =
      with_two-Settles (call c) (resolve_node defs) (resolve_node defs) (resolve_all defs)
        (HasCommon (some c)) (λ a b. refl) (λ a b. refl) (λ a h. h.0) (λ a h. h)
        (resolve_node-Settles defs e) (resolve_all-Settles defs as_)
  resolve_node-Settles defs (binary c op l r) =
      with_two-Settles (binary c op) (resolve_node defs) (resolve_node defs) (resolve_node defs)
        (HasCommon (some c)) (λ a b. refl) (λ a b. refl) (λ a h. h.0) (λ a h. h.0)
        (resolve_node-Settles defs l) (resolve_node-Settles defs r)
  resolve_node-Settles defs (index c e i) =
      with_two-Settles (index c) (resolve_node defs) (resolve_node defs) (resolve_node defs)
        (HasCommon (some c)) (λ a b. refl) (λ a b. refl) (λ a h. h.0) (λ a h. h.0)
        (resolve_node-Settles defs e) (resolve_node-Settles defs i)
  resolve_node-Settles defs (assign c l r) =
      with_two-Settles (assign c) (resolve_node defs) (resolve_node defs) (resolve_node defs)
        (HasCommon (some c)) (λ a b. refl) (λ a b. refl) (λ a h. h.0) (λ a h. h.0)
        (resolve_node-Settles defs l) (resolve_node-Settles defs r)
  resolve_node-Settles defs (for_ c v i e body) =
      with_two-Settles (for_ c v i) (resolve_node defs) (resolve_node defs) (resolve_node defs)
        (HasCommon (some c)) (λ a b. refl) (λ a b. refl) (λ a h. h.0) (λ a h. h.0)
        (resolve_node-Settles defs e) (resolve_node-Settles defs body)
  resolve_node-Settles defs (while c e body) =
      with_two-Settles (while c) (resolve_node defs) (resolve_node defs) (resolve_node defs)
        (HasCommon (some c)) (λ a b. refl) (λ a b. refl) (λ a h. h.0) (λ a h. h.0)
        (resolve_node-Settles defs e) (resolve_node-Settles defs body)
  resolve_node-Settles defs (if_ c cond t e) =
      with_two-Settles (λ x (r : Ast × Ast). if_ c x r.0 r.1) (resolve_node defs)
        (resolve_node defs) (resolve_both defs) (HasCommon (some c)) (λ a b. refl) (λ a b. refl)
        (λ a h. h.0) (λ a h. h.0) (resolve_node-Settles defs cond)
        (with_two-Settles (λ (x y : Ast). (x, y)) (resolve_both defs) (resolve_node defs)
          (resolve_node defs) (λ r. Unit {0}) (λ a b. refl) (λ a b. tt) (λ a h. h.0) (λ a h. h.0)
          (resolve_node-Settles defs t) (resolve_node-Settles defs e))

  resolve_all-Settles :
      (defs : ℕ → Option TyDef) (xs : Asts)
      → Ensures (resolve_all defs xs) (Settles (resolve_all defs))
  resolve_all-Settles defs Asts.nil = pure-Ensures _ (pure-Runs refl)
  resolve_all-Settles defs (Asts.cons a as_) = settled (
      with_two-Settles (Asts.cons) (resolve_all defs) (resolve_node defs) (resolve_all defs)
        (λ r. Unit {0}) (λ a b. refl) (λ a b. tt) (λ a h. h.0) (λ a h. h)
        (resolve_node-Settles defs a) (resolve_all-Settles defs as_))

  resolve_fields-Settles :
      (defs : ℕ → Option TyDef) (xs : FieldDecls)
      → Ensures (resolve_fields defs xs) (Settles (resolve_fields defs))
  resolve_fields-Settles defs no_fields = pure-Ensures _ (pure-Runs refl)
  resolve_fields-Settles defs (field f e fs) = settled (
      with_two-Settles (field f) (resolve_fields defs) (resolve_node defs) (resolve_fields defs)
        (λ r. Unit {0}) (λ a b. refl) (λ a b. tt) (λ a h. h.0) (λ a h. h)
        (resolve_node-Settles defs e) (resolve_fields-Settles defs fs))

  resolve_inits-Settles :
      (defs : ℕ → Option TyDef) (fs : FieldInits) (gs : List FieldRef)
      → Ensures
          (resolve_inits defs fs gs)
          (λ q. AsMany fs gs → RefsAre q.0 gs × Runs (resolve_inits defs q.0 gs) (q.0, 0))
  resolve_inits-Settles defs no_inits gs = pure-Ensures _ (λ h. (h, pure-Runs refl))
  resolve_inits-Settles defs (init f e fs) [] = pure-Ensures _ (λ h. absurd h)
  resolve_inits-Settles defs (init f e fs) (g ∷ gs) =
      Ensures->>= (resolve_node-Settles defs e) λ e'.
        Ensures->>= (resolve_inits-Settles defs fs gs) λ q. pure-Ensures _ (λ hq he many.
          let (are, runs) = hq many in
          (
            (refl, are),
            Runs->>= (λ a. resolve_inits defs q.0 gs >>= λ b. pure (init g a.0 b.0, a.1 + b.1)) he.0
                (Runs->>= (λ b. pure (init g e'.0 b.0, 0 + b.1)) runs (pure-Runs refl)),
          ))

-- Where resolveMembers ends with no report, a later call on the tree that it leaves, with the same
-- definitions of structs and whatever was reported by then, comes to its end: it counts no reference,
-- reports nothing and changes nothing. Both calls have null constraints.
pub resolve_members-again :
    (defs : ℕ → Option TyDef) (root root' : Ast) (k : ℕ) (s s' later : Pass)
    → s.constraints ≡ none
    → resolve_members defs root s ≡ ok ((root', k), s')
    → s'.errors ≡ []
    → later.constraints ≡ none
    → resolve_members defs root' later ≡ ok ((root', 0), later)
unfolding resolve_members
resolve_members-again defs root root' k s s' later n e q m =
    (Post-ok (λ r. Settles (resolve_node defs) r × HasCommon (ast_common root) r.0) s s'
        (resolve_node defs root s) (root', k) ((resolve_node-Settles defs root).ensures s n) e
        q).0.runs
      later m
