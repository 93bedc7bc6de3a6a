-- ===== src/Check/Sound.antt =====
-- compiler/typecheck.cpp: a tree that type and typeckVerify accept obeys the rules of typing.
use aike.Base.{ℕ, ◌≡◌, refl, Option, none, some}
use aike.Types.Syntax.{Ty, Tys, TyDef, void, bool, integer, float, string, nil, cons}
use aike.Types.Traverse.{type_member}
use aike.Tree.Ast.{
  Ast, Asts, Common, FieldInits, FieldDecls, literal_void, literal_bool, literal_integer,
  literal_float, literal_string, literal_tuple, literal_array, literal_struct, ident, member, block,
  module_, call, unary, binary, index, assign, if_, for_, while, fn, llvm, fn_decl, var_decl,
  ty_decl, import_, absent, no_inits, init, no_fields, field,
}
use aike.Check.Literals.{default_type}
use aike.Check.Nodes.{
  init_must_equal, type_node, type_all, type_tuple, type_elements, type_inits, type_fields,
}
use aike.Check.Typing.{
  Initializes, Typed, AllTyped, TupleTyped, ElementsTyped, InitsTyped, FieldsTyped,
}
use aike.Check.Labels.{
  MayHave, type_or-MayHave, IsLabelled, AllLabelled, InitsLabelled, DeclsLabelled,
}
use aike.Check.Ensures.{
  Ensures, Ensures->>=, Ensures-mono, pure-Ensures, stop-Ensures, if_verifying-Ensures,
  of_member-Ensures, node_must_equal-Ensures,
}
use aike.Check.LiteralsHold.{
  own_or_fresh-Ensures, fields_of_tuple-Ensures, element_of_array-Ensures, tuple_type-Ensures,
  array_type-Ensures, validate_literal_struct-Ensures,
}
use aike.Check.RulesHold.{
  type_ident-Ensures, finish_member-Ensures, finish_block-Ensures, finish_module-Ensures,
  finish_call-Ensures,
}
use aike.Check.OperatorsHold.{
  default_void, finish_unary-Ensures, finish_binary-Ensures, finish_index-Ensures,
  finish_assign-Ensures,
}
use aike.Check.StatementsHold.{
  type_field-Ensures, finish_else-Ensures, finish_if-Ensures, finish_for-Ensures,
  finish_while-Ensures, finish_fn-Ensures, type_fn_body-Ensures, finish_var_decl-Ensures,
}

-- A node that is there gets its own type, if it has one, or the one of its kind.
default-label : (t : Ty) (c : Common) → MayHave t c → (default_type t c).type ≡ some t
default-label t c h = rw (type_or-MayHave t c h)

init_must_equal-Ensures :
    (defs : ℕ → Option TyDef) (t : Ty) (o : Option ℕ) (e : Ast)
    → Ensures (init_must_equal defs t o e) (λ u. Initializes defs t o e)
unfolding init_must_equal
init_must_equal-Ensures defs t none e = pure-Ensures _ tt
init_must_equal-Ensures defs t (some i) e =
    Ensures->>= (of_member-Ensures (type_member defs t i))
      λ u. Ensures-mono (node_must_equal-Ensures e u) (λ _ fits at. (u, at, fits))

mutual
  unfolding type_node Typed IsLabelled

  pub type_node-Typed :
      (defs : ℕ → Option TyDef) (n : Ast)
      → IsLabelled n
      → Ensures (type_node defs n) (λ n'. Typed defs n')
  type_node-Typed defs (literal_void c) h = pure-Ensures _ (default-label void c h)
  type_node-Typed defs (literal_bool c b) h = pure-Ensures _ (default-label bool c h)
  type_node-Typed defs (literal_integer c i) h = pure-Ensures _ (default-label integer c h)
  type_node-Typed defs (literal_float c i) h = pure-Ensures _ (default-label float c h)
  type_node-Typed defs (literal_string c s) h = pure-Ensures _ (default-label string c h)
  type_node-Typed defs (literal_tuple c as_) h = Ensures->>= (tuple_type-Ensures c.type as_) λ t.
      Ensures->>= (fields_of_tuple-Ensures t) λ ts.
        Ensures->>= (type_tuple-Typed defs as_ ts h)
          λ as'. pure-Ensures _ (λ all is _. (ts, (λ i. some (is i)), all))
  type_node-Typed defs (literal_array c as_) h = Ensures->>= (array_type-Ensures c.type) λ t.
      Ensures->>= (element_of_array-Ensures t) λ u.
        Ensures->>= (type_elements-Typed defs as_ u h)
          λ as'. pure-Ensures _ (λ all is _. (u, (λ i. some (is i)), all))
  type_node-Typed defs (literal_struct c n fs) h = Ensures->>= (own_or_fresh-Ensures c.type) λ t.
      Ensures->>= (type_inits-Typed defs fs t h) λ fs'.
        Ensures->>= (if_verifying-Ensures (validate_literal_struct-Ensures defs t fs' c.location))
          λ _. pure-Ensures _ (λ complete all _. (t, refl, all, complete))
  type_node-Typed defs (ident c n ts vs r) h = type_ident-Ensures defs c n ts vs r
  type_node-Typed defs (member c e f) h =
      Ensures->>= (type_node-Typed defs e h) λ e'. finish_member-Ensures defs c e' f
  type_node-Typed defs (block c as_) h =
      Ensures->>= (type_all-Typed defs as_ h) λ as'. finish_block-Ensures defs c as'
  type_node-Typed defs (module_ c n body is) h =
      Ensures->>= (type_node-Typed defs body h) λ body'. finish_module-Ensures defs c n body' is
  type_node-Typed defs (call c e as_) (he, ha) = Ensures->>= (type_node-Typed defs e he) λ e'.
      Ensures->>= (type_all-Typed defs as_ ha)
        λ as'. Ensures-mono (finish_call-Ensures defs c e' as') (λ n k all is. k is all)
  type_node-Typed defs (unary c op e) h =
      Ensures->>= (type_node-Typed defs e h) λ e'. finish_unary-Ensures defs c op e'
  type_node-Typed defs (binary c op l r) (hl, hr) = Ensures->>= (type_node-Typed defs l hl) λ l'.
      Ensures->>= (type_node-Typed defs r hr)
        λ r'. Ensures-mono (finish_binary-Ensures defs c op l' r') (λ n k tr tl. k tl tr)
  type_node-Typed defs (index c e i) (he, hi) = Ensures->>= (type_node-Typed defs e he) λ e'.
      Ensures->>= (type_node-Typed defs i hi)
        λ i'. Ensures-mono (finish_index-Ensures defs c e' i') (λ n k ti te. k te ti)
  type_node-Typed defs (assign c l r) (hc, hl, hr) = Ensures->>= (type_node-Typed defs l hl) λ l'.
      Ensures->>= (type_node-Typed defs r hr)
        λ r'. Ensures-mono (finish_assign-Ensures defs c l' r' hc) (λ n k tr tl. k tl tr)
  type_node-Typed defs (if_ c cond t e) (hc, ht, he) =
      Ensures->>= (type_node-Typed defs cond hc) λ cond'.
        Ensures->>= (node_must_equal-Ensures cond' bool) λ _.
          Ensures->>= (type_node-Typed defs t ht) λ t'.
            Ensures->>=
              (finish_else-Ensures defs (type_node defs e) t' e (type_node-Typed defs e he))
              λ e'. finish_if-Ensures defs c cond' t' e'
  type_node-Typed defs (for_ c v i e body) (hc, he, hb) =
      Ensures->>= (type_node-Typed defs e he) λ e'.
        Ensures->>= (type_node-Typed defs body hb)
          λ body'. finish_for-Ensures defs c v i e' body' hc
  type_node-Typed defs (while c e body) (hc, he, hb) = Ensures->>= (type_node-Typed defs e he) λ e'.
      Ensures->>= (type_node-Typed defs body hb) λ body'. finish_while-Ensures defs c e' body' hc
  type_node-Typed defs (fn c id decl) h =
      Ensures->>= (type_node-Typed defs decl h) λ decl'. finish_fn-Ensures defs c id decl'
  type_node-Typed defs (llvm c code) h =
      Ensures->>= (own_or_fresh-Ensures c.type) λ t. pure-Ensures _ (λ _. (t, refl))
  type_node-Typed defs (fn_decl c v ts vs attributes body p m) (hc, hb) =
      Ensures->>=
        (type_fn_body-Ensures defs (type_node defs body) v body (type_node-Typed defs body hb))
        λ body'. pure-Ensures _ (λ there. (default_void c hc, there))
  type_node-Typed defs (var_decl c v e) (hc, he) =
      Ensures->>= (type_node-Typed defs e he) λ e'. finish_var_decl-Ensures defs c v e' hc
  type_node-Typed defs (ty_decl c n ts fs) (hc, hf) =
      Ensures->>= (type_fields-Typed defs fs hf)
        λ fs'. pure-Ensures _ (λ all. (default_void c hc, all))
  type_node-Typed defs (import_ c n) h = pure-Ensures _ (default-label void c h)
  type_node-Typed defs absent h = stop-Ensures

  type_all-Typed :
      (defs : ℕ → Option TyDef) (as_ : Asts)
      → AllLabelled as_
      → Ensures (type_all defs as_) (λ as'. AllTyped defs as')
  type_all-Typed defs Asts.nil h = pure-Ensures _ tt
  type_all-Typed defs (Asts.cons a as_) (ha, hs) =
      Ensures->>= (type_node-Typed defs a ha)
        λ a'. Ensures->>= (type_all-Typed defs as_ hs) λ as'. pure-Ensures _ (λ all is. (is, all))

  type_tuple-Typed :
      (defs : ℕ → Option TyDef) (as_ : Asts) (ts : Tys)
      → AllLabelled as_
      → Ensures (type_tuple defs as_ ts) (λ as'. TupleTyped defs as' ts)
  type_tuple-Typed defs Asts.nil ts h = pure-Ensures _ tt
  type_tuple-Typed defs (Asts.cons a as_) nil (ha, hs) =
      Ensures->>= (type_node-Typed defs a ha) λ a'. stop-Ensures
  type_tuple-Typed defs (Asts.cons a as_) (cons t ts) (ha, hs) =
      Ensures->>= (type_node-Typed defs a ha) λ a'. Ensures->>= (node_must_equal-Ensures a' t) λ _.
        Ensures->>= (type_tuple-Typed defs as_ ts hs)
          λ as'. pure-Ensures _ (λ all fits is. (is, fits, all))

  type_elements-Typed :
      (defs : ℕ → Option TyDef) (as_ : Asts) (t : Ty)
      → AllLabelled as_
      → Ensures (type_elements defs as_ t) (λ as'. ElementsTyped defs as' t)
  type_elements-Typed defs Asts.nil t h = pure-Ensures _ tt
  type_elements-Typed defs (Asts.cons a as_) t (ha, hs) =
      Ensures->>= (type_node-Typed defs a ha) λ a'. Ensures->>= (node_must_equal-Ensures a' t) λ _.
        Ensures->>= (type_elements-Typed defs as_ t hs)
          λ as'. pure-Ensures _ (λ all fits is. (is, fits, all))

  type_inits-Typed :
      (defs : ℕ → Option TyDef) (fs : FieldInits) (t : Ty)
      → InitsLabelled fs
      → Ensures (type_inits defs fs t) (λ fs'. InitsTyped defs fs' t)
  type_inits-Typed defs no_inits t h = pure-Ensures _ tt
  type_inits-Typed defs (init f e fs) t (he, hs) = Ensures->>= (type_node-Typed defs e he) λ e'.
      Ensures->>= (init_must_equal-Ensures defs t f.index e') λ _.
        Ensures->>= (type_inits-Typed defs fs t hs)
          λ fs'. pure-Ensures _ (λ all fits is. (is, fits, all))

  type_fields-Typed :
      (defs : ℕ → Option TyDef) (fs : FieldDecls)
      → DeclsLabelled fs
      → Ensures (type_fields defs fs) (λ fs'. FieldsTyped defs fs')
  type_fields-Typed defs no_fields h = pure-Ensures _ tt
  type_fields-Typed defs (field f e fs) (he, hs) =
      Ensures->>= (type_field-Ensures defs (type_node defs e) f.type e (type_node-Typed defs e he))
        λ e'.
          Ensures->>= (type_fields-Typed defs fs hs) λ fs'. pure-Ensures _ (λ all fits. (fits, all))
