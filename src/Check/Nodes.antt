-- ===== src/Check/Nodes.antt =====
-- compiler/typecheck.cpp: type, which calls the function for the kind of the node, over the tree.
use aike.Base.{ℕ, Option, none, some}
use aike.Types.Syntax.{Ty, Tys, TyDef, void, bool, integer, float, string, nil, cons}
use aike.Types.Traverse.{type_member}
use aike.Tree.Ast.{
  Ast, Asts, FieldInits, FieldDecls, literal_void, literal_bool, literal_integer, literal_float,
  literal_string, literal_tuple, literal_array, literal_struct, ident, member, block, module_, call,
  unary, binary, index, assign, if_, for_, while, fn, llvm, fn_decl, var_decl, ty_decl, import_,
  absent, no_inits, init, no_fields, field,
}
use aike.Check.State.{
  Check, ◌>>=◌, ◌>>◌, pure, stop, null_pointer, failed_assertion, fresh, if_verifying,
  node_must_equal, of_member,
}
use aike.Check.Literals.{
  with_type, default_type, own_or_fresh, tuple_type, fields_of_tuple, array_type, element_of_array,
  validate_literal_struct,
}
use aike.Check.Rules.{type_ident, finish_member, finish_block, finish_module, finish_call}
use aike.Check.Operators.{
  finish_unary, finish_binary, finish_index, finish_assign, finish_else, finish_if, finish_for,
  finish_while, finish_fn, type_fn_body, finish_var_decl, type_field,
}

-- The field of a struct that an initializer names, where its index is known.
unfoldable pub init_must_equal : (ℕ → Option TyDef) → Ty → Option ℕ → Ast → Check (Unit {0})
unfolding type_member node_must_equal
init_must_equal defs t none e = pure tt
init_must_equal defs t (some i) e = do u ← of_member (type_member defs t i); node_must_equal e u

-- `defs` is the memory that holds the definitions of structs.
unfoldable mutual
  unfolding fresh node_must_equal init_must_equal tuple_type array_type validate_literal_struct
      type_ident finish_member finish_block finish_module finish_call finish_unary finish_binary
      finish_index finish_assign finish_else finish_if finish_for finish_while finish_fn
      type_fn_body finish_var_decl type_field

  pub type_node : (ℕ → Option TyDef) → Ast → Check Ast
  type_node defs (literal_void c) = pure (literal_void (default_type void c))
  type_node defs (literal_bool c b) = pure (literal_bool (default_type bool c) b)
  type_node defs (literal_integer c n) = pure (literal_integer (default_type integer c) n)
  type_node defs (literal_float c n) = pure (literal_float (default_type float c) n)
  type_node defs (literal_string c s) = pure (literal_string (default_type string c) s)
  type_node defs (literal_tuple c as_) = do
    t ← tuple_type c.type as_
    ts ← fields_of_tuple t
    as' ← type_tuple defs as_ ts
    pure (literal_tuple (with_type t c) as')
  type_node defs (literal_array c as_) = do
    t ← array_type c.type
    element ← element_of_array t
    as' ← type_elements defs as_ element
    pure (literal_array (with_type t c) as')
  type_node defs (literal_struct c n fs) = do
    t ← own_or_fresh c.type
    fs' ← type_inits defs fs t
    if_verifying (validate_literal_struct defs t fs' c.location)
    pure (literal_struct (with_type t c) n fs')
  type_node defs (ident c n ts vs r) = type_ident c n ts vs r
  type_node defs (member c e f) = do e' ← type_node defs e; finish_member defs c e' f
  type_node defs (block c as_) = do as' ← type_all defs as_; finish_block c as'
  type_node defs (module_ c n body is) = do body' ← type_node defs body; finish_module c n body' is
  type_node defs (call c e as_) = do
    e' ← type_node defs e
    as' ← type_all defs as_
    finish_call c e' as'
  type_node defs (unary c op e) = do e' ← type_node defs e; finish_unary c op e'
  type_node defs (binary c op l r) = do
    l' ← type_node defs l
    r' ← type_node defs r
    finish_binary c op l' r'
  type_node defs (index c e i) = do
    e' ← type_node defs e
    i' ← type_node defs i
    finish_index c e' i'
  type_node defs (assign c l r) = do
    l' ← type_node defs l
    r' ← type_node defs r
    finish_assign c l' r'
  type_node defs (if_ c cond t e) = do
    cond' ← type_node defs cond
    node_must_equal cond' bool
    t' ← type_node defs t
    e' ← finish_else (type_node defs e) t' e
    finish_if c cond' t' e'
  type_node defs (for_ c v i e body) = do
    e' ← type_node defs e
    body' ← type_node defs body
    finish_for c v i e' body'
  type_node defs (while c e body) = do
    e' ← type_node defs e
    body' ← type_node defs body
    finish_while c e' body'
  type_node defs (fn c id decl) = do decl' ← type_node defs decl; finish_fn c id decl'
  type_node defs (llvm c code) = do t ← own_or_fresh c.type; pure (llvm (with_type t c) code)
  type_node defs (fn_decl c v ts vs attributes body p m) = do
    body' ← type_fn_body (type_node defs body) v body
    pure (fn_decl (default_type void c) v ts vs attributes body' p m)
  type_node defs (var_decl c v e) = do e' ← type_node defs e; finish_var_decl c v e'
  type_node defs (ty_decl c n ts fs) = do
    fs' ← type_fields defs fs
    pure (ty_decl (default_type void c) n ts fs')
  type_node defs (import_ c n) = pure (import_ (default_type void c) n)
  type_node defs absent = stop null_pointer

  pub type_all : (ℕ → Option TyDef) → Asts → Check Asts
  type_all defs Asts.nil = pure Asts.nil
  type_all defs (Asts.cons a as_) = do
    a' ← type_node defs a
    as' ← type_all defs as_
    pure (Asts.cons a' as')

  -- A field past the end of the type fails the assertion of the array.
  pub type_tuple : (ℕ → Option TyDef) → Asts → Tys → Check Asts
  type_tuple defs Asts.nil ts = pure Asts.nil
  type_tuple defs (Asts.cons a as_) nil = do a' ← type_node defs a; stop failed_assertion
  type_tuple defs (Asts.cons a as_) (cons t ts) = do
    a' ← type_node defs a
    node_must_equal a' t
    as' ← type_tuple defs as_ ts
    pure (Asts.cons a' as')

  pub type_elements : (ℕ → Option TyDef) → Asts → Ty → Check Asts
  type_elements defs Asts.nil t = pure Asts.nil
  type_elements defs (Asts.cons a as_) t = do
    a' ← type_node defs a
    node_must_equal a' t
    as' ← type_elements defs as_ t
    pure (Asts.cons a' as')

  pub type_inits : (ℕ → Option TyDef) → FieldInits → Ty → Check FieldInits
  type_inits defs no_inits t = pure no_inits
  type_inits defs (init f e fs) t = do
    e' ← type_node defs e
    init_must_equal defs t f.index e'
    fs' ← type_inits defs fs t
    pure (init f e' fs')

  pub type_fields : (ℕ → Option TyDef) → FieldDecls → Check FieldDecls
  type_fields defs no_fields = pure no_fields
  type_fields defs (field f e fs) = do
    e' ← type_field (type_node defs e) f.type e
    fs' ← type_fields defs fs
    pure (field f e' fs')
