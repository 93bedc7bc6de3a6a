-- ===== src/Tree/Reaching.antt =====
-- compiler/visit.cpp: the nodes that visitAst reaches are those that stand in the tree.
use aike.Base.{
  ◌≡◌, ◌≢◌, ◌↔◌, refl, subst, false, List, ◌++◌, Elem, Elem-append, Elem-of_append, inl, inr,
}
use aike.Tree.Ast.{
  Ast, Asts, FieldInits, FieldDecls, literal_tuple, literal_array, literal_struct, member, block,
  module_, call, unary, binary, index, assign, if_, for_, while, fn, fn_decl, var_decl, ty_decl,
  absent, nil, cons, no_inits, init, no_fields, field,
}
use aike.Tree.Visit.{walk, walk_all, walk_inits, walk_fields, visit_ast}
use aike.Tree.Within.{
  IsOneOf, IsInit, IsDefault, IsChild, IsWithin, first, later, first_init, later_init, first_field,
  later_field, tuple_part, array_part, struct_part, member_part, block_part, module_part, callee,
  call_argument, unary_part, binary_left, binary_right, indexed, index_part, assign_left,
  assign_right, if_condition, if_then, if_else, for_range, for_body, while_condition, while_body,
  fn_decl_body, fn_part, var_decl_part, ty_decl_part, root, below,
}

-- The nodes of the walk that leaves nothing out.
abbrev pub Reaches : Ast → Ast → Type 0
Reaches n a = Elem n (walk (λ _. false) a)

one_of-walk_all :
    (n a : Ast) (as_ : Asts) → IsOneOf a as_ → Reaches n a → Elem n (walk_all (λ _. false) as_)
unfolding walk
one_of-walk_all n a _ (first {as_}) e =
    Elem-append n (walk (λ _. false) a) (walk_all (λ _. false) as_) (inl e)
one_of-walk_all n a _ (later {b} {as_} h) e =
    Elem-append n (walk (λ _. false) b) (walk_all (λ _. false) as_)
      (inr (one_of-walk_all n a as_ h e))

init-walk_inits :
    (n a : Ast) (fs : FieldInits) → IsInit a fs → Reaches n a → Elem n (walk_inits (λ _. false) fs)
unfolding walk
init-walk_inits n a _ (first_init {fs}) e =
    Elem-append n (walk (λ _. false) a) (walk_inits (λ _. false) fs) (inl e)
init-walk_inits n a _ (later_init {b} {fs} h) e =
    Elem-append n (walk (λ _. false) b) (walk_inits (λ _. false) fs)
      (inr (init-walk_inits n a fs h e))

default-walk_fields :
    (n a : Ast) (fs : FieldDecls)
    → IsDefault a fs
    → Reaches n a
    → Elem n (walk_fields (λ _. false) fs)
unfolding walk
default-walk_fields n a _ (first_field {fs}) e =
    Elem-append n (walk (λ _. false) a) (walk_fields (λ _. false) fs) (inl e)
default-walk_fields n a _ (later_field {b} {fs} h) e =
    Elem-append n (walk (λ _. false) b) (walk_fields (λ _. false) fs)
      (inr (default-walk_fields n a fs h e))

-- The two parts of a walk below a node.
abbrev front_part : (n a : Ast) (ns : List Ast) → Reaches n a → Elem n (walk (λ _. false) a ++ ns)
front_part n a ns e = Elem-append n (walk (λ _. false) a) ns (inl e)

abbrev back_part : (n a : Ast) (ns : List Ast) → Elem n ns → Elem n (walk (λ _. false) a ++ ns)
back_part n a ns e = Elem-append n (walk (λ _. false) a) ns (inr e)

child-walk : (n a b : Ast) → IsChild a b → Reaches n a → Reaches n b
unfolding walk
child-walk n e _ (tuple_part {as_} h) r = inr (one_of-walk_all n e as_ h r)
child-walk n e _ (array_part {as_} h) r = inr (one_of-walk_all n e as_ h r)
child-walk n e _ (struct_part {fs} h) r = inr (init-walk_inits n e fs h r)
child-walk n _ _ member_part r = inr r
child-walk n e _ (block_part {as_} h) r = inr (one_of-walk_all n e as_ h r)
child-walk n _ _ module_part r = inr r
child-walk n _ _ (callee {a}) r = inr (front_part n a _ r)
child-walk n e _ (call_argument {a} {as_} h) r = inr (back_part n a _ (one_of-walk_all n e as_ h r))
child-walk n _ _ unary_part r = inr r
child-walk n _ _ (binary_left {a}) r = inr (front_part n a _ r)
child-walk n _ _ (binary_right {a}) r = inr (back_part n a _ r)
child-walk n _ _ (indexed {a}) r = inr (front_part n a _ r)
child-walk n _ _ (index_part {a}) r = inr (back_part n a _ r)
child-walk n _ _ (assign_left {a}) r = inr (front_part n a _ r)
child-walk n _ _ (assign_right {a}) r = inr (back_part n a _ r)
child-walk n _ _ (if_condition {a}) r = inr (front_part n a _ r)
child-walk n _ _ (if_then {a} {b}) r = inr (back_part n a _ (front_part n b _ r))
child-walk n _ _ (if_else {a} {b}) r = inr (back_part n a _ (back_part n b _ r))
child-walk n _ _ (for_range {a}) r = inr (front_part n a _ r)
child-walk n _ _ (for_body {a}) r = inr (back_part n a _ r)
child-walk n _ _ (while_condition {a}) r = inr (front_part n a _ r)
child-walk n _ _ (while_body {a}) r = inr (back_part n a _ r)
child-walk n _ _ fn_decl_body r = inr r
child-walk n _ _ fn_part r = inr r
child-walk n _ _ var_decl_part r = inr r
child-walk n e _ (ty_decl_part {fs} h) r = inr (default-walk_fields n e fs h r)

root-walk : (a : Ast) → a ≢ absent → Reaches a a
unfolding walk
root-walk absent h = absurd (h refl)
root-walk a h = inl refl

IsWithin-walk : (n a : Ast) → IsWithin n a → Reaches n a
IsWithin-walk n _ (root h) = root-walk n h
IsWithin-walk n _ (below {a} {b} c w) = child-walk n a b c (IsWithin-walk n a w)

abbrev at_root : (n a : Ast) → a ≢ absent → a ≡ n → IsWithin n a
at_root n a h e = subst (λ m. IsWithin m a) e (root h)

mutual
  unfolding walk

  walk-IsWithin : (x a : Ast) → Reaches x a → IsWithin x a
  walk-IsWithin x absent e = absurd e
  walk-IsWithin x (literal_tuple c as_) (inl e) = at_root x _ (λ h. cc) e
  walk-IsWithin x (literal_tuple c as_) (inr e) =
      let (a, h, w) = walk_all-IsOneOf x as_ e in below (tuple_part h) w
  walk-IsWithin x (literal_array c as_) (inl e) = at_root x _ (λ h. cc) e
  walk-IsWithin x (literal_array c as_) (inr e) =
      let (a, h, w) = walk_all-IsOneOf x as_ e in below (array_part h) w
  walk-IsWithin x (literal_struct c n fs) (inl e) = at_root x _ (λ h. cc) e
  walk-IsWithin x (literal_struct c n fs) (inr e) =
      let (a, h, w) = walk_inits-IsInit x fs e in below (struct_part h) w
  walk-IsWithin x (member c a f) (inl e) = at_root x _ (λ h. cc) e
  walk-IsWithin x (member c a f) (inr e) = below member_part (walk-IsWithin x a e)
  walk-IsWithin x (block c as_) (inl e) = at_root x _ (λ h. cc) e
  walk-IsWithin x (block c as_) (inr e) =
      let (a, h, w) = walk_all-IsOneOf x as_ e in below (block_part h) w
  walk-IsWithin x (module_ c n a is) (inl e) = at_root x _ (λ h. cc) e
  walk-IsWithin x (module_ c n a is) (inr e) = below module_part (walk-IsWithin x a e)
  walk-IsWithin x (call c a as_) (inl e) = at_root x _ (λ h. cc) e
  walk-IsWithin x (call c a as_) (inr e) = elim (Elem-of_append x (walk (λ _. false) a) _ e) [
    | inl h ↦ below callee (walk-IsWithin x a h)
    | inr h ↦ let (m, k, w) = walk_all-IsOneOf x as_ h in below (call_argument k) w
  ]
  walk-IsWithin x (unary c op a) (inl e) = at_root x _ (λ h. cc) e
  walk-IsWithin x (unary c op a) (inr e) = below unary_part (walk-IsWithin x a e)
  walk-IsWithin x (binary c op a b) (inl e) = at_root x _ (λ h. cc) e
  walk-IsWithin x (binary c op a b) (inr e) = elim (Elem-of_append x (walk (λ _. false) a) _ e) [
    | inl h ↦ below binary_left (walk-IsWithin x a h)
    | inr h ↦ below binary_right (walk-IsWithin x b h)
  ]
  walk-IsWithin x (index c a b) (inl e) = at_root x _ (λ h. cc) e
  walk-IsWithin x (index c a b) (inr e) = elim (Elem-of_append x (walk (λ _. false) a) _ e) [
    | inl h ↦ below indexed (walk-IsWithin x a h)
    | inr h ↦ below index_part (walk-IsWithin x b h)
  ]
  walk-IsWithin x (assign c a b) (inl e) = at_root x _ (λ h. cc) e
  walk-IsWithin x (assign c a b) (inr e) = elim (Elem-of_append x (walk (λ _. false) a) _ e) [
    | inl h ↦ below assign_left (walk-IsWithin x a h)
    | inr h ↦ below assign_right (walk-IsWithin x b h)
  ]
  walk-IsWithin x (if_ c a b d) (inl e) = at_root x _ (λ h. cc) e
  walk-IsWithin x (if_ c a b d) (inr e) = elim (Elem-of_append x (walk (λ _. false) a) _ e) [
    | inl h ↦ below if_condition (walk-IsWithin x a h)
    | inr k ↦ elim (Elem-of_append x (walk (λ _. false) b) _ k) [
      | inl h ↦ below if_then (walk-IsWithin x b h)
      | inr h ↦ below if_else (walk-IsWithin x d h)
    ]
  ]
  walk-IsWithin x (for_ c v i a b) (inl e) = at_root x _ (λ h. cc) e
  walk-IsWithin x (for_ c v i a b) (inr e) = elim (Elem-of_append x (walk (λ _. false) a) _ e) [
    | inl h ↦ below for_range (walk-IsWithin x a h)
    | inr h ↦ below for_body (walk-IsWithin x b h)
  ]
  walk-IsWithin x (while c a b) (inl e) = at_root x _ (λ h. cc) e
  walk-IsWithin x (while c a b) (inr e) = elim (Elem-of_append x (walk (λ _. false) a) _ e) [
    | inl h ↦ below while_condition (walk-IsWithin x a h)
    | inr h ↦ below while_body (walk-IsWithin x b h)
  ]
  walk-IsWithin x (fn_decl c v ts vs k a p m) (inl e) = at_root x _ (λ h. cc) e
  walk-IsWithin x (fn_decl c v ts vs k a p m) (inr e) = below fn_decl_body (walk-IsWithin x a e)
  walk-IsWithin x (fn c i a) (inl e) = at_root x _ (λ h. cc) e
  walk-IsWithin x (fn c i a) (inr e) = below fn_part (walk-IsWithin x a e)
  walk-IsWithin x (var_decl c v a) (inl e) = at_root x _ (λ h. cc) e
  walk-IsWithin x (var_decl c v a) (inr e) = below var_decl_part (walk-IsWithin x a e)
  walk-IsWithin x (ty_decl c n ts fs) (inl e) = at_root x _ (λ h. cc) e
  walk-IsWithin x (ty_decl c n ts fs) (inr e) =
      let (a, h, w) = walk_fields-IsDefault x fs e in below (ty_decl_part h) w
  walk-IsWithin x a (inl e) = at_root x _ (λ h. cc) e
  walk-IsWithin x a (inr e) = absurd e

  walk_all-IsOneOf :
      (x : Ast) (as_ : Asts)
      → Elem x (walk_all (λ _. false) as_)
      → (a : Ast) × IsOneOf a as_ × IsWithin x a
  walk_all-IsOneOf x nil e = absurd e
  walk_all-IsOneOf x (cons a as_) e = elim (Elem-of_append x (walk (λ _. false) a) _ e) [
    | inl h ↦ (a, first, walk-IsWithin x a h)
    | inr h ↦ let (b, k, w) = walk_all-IsOneOf x as_ h in (b, later k, w)
  ]

  walk_inits-IsInit :
      (x : Ast) (fs : FieldInits)
      → Elem x (walk_inits (λ _. false) fs)
      → (a : Ast) × IsInit a fs × IsWithin x a
  walk_inits-IsInit x no_inits e = absurd e
  walk_inits-IsInit x (init f a fs) e = elim (Elem-of_append x (walk (λ _. false) a) _ e) [
    | inl h ↦ (a, first_init, walk-IsWithin x a h)
    | inr h ↦ let (b, k, w) = walk_inits-IsInit x fs h in (b, later_init k, w)
  ]

  walk_fields-IsDefault :
      (x : Ast) (fs : FieldDecls)
      → Elem x (walk_fields (λ _. false) fs)
      → (a : Ast) × IsDefault a fs × IsWithin x a
  walk_fields-IsDefault x no_fields e = absurd e
  walk_fields-IsDefault x (field f a fs) e = elim (Elem-of_append x (walk (λ _. false) a) _ e) [
    | inl h ↦ (a, first_field, walk-IsWithin x a h)
    | inr h ↦ let (b, k, w) = walk_fields-IsDefault x fs h in (b, later_field k, w)
  ]

pub visit_ast-IsWithin : (n a : Ast) → Elem n (visit_ast a (λ _. false)) ↔ IsWithin n a
unfolding visit_ast
visit_ast-IsWithin n a = (walk-IsWithin n a, IsWithin-walk n a)
