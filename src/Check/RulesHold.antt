-- ===== src/Check/RulesHold.antt =====
-- compiler/typecheck.cpp: the rules of typing hold at identifiers, members, blocks and calls that are
-- finished with no report.
use aike.Base.{
  ℕ, ◌≡◌, refl, sym, ◌∙◌, subst, Bool, true, false, not, ◌&&◌, List, [], ◌∷◌, Option, none, some,
  Bytes, if◌then◌else◌, length, ltb, ◌==◌, arith, some→eq,
}
use aike.Types.Syntax.{Ty, Tys, TyDef, Location, function, nil, cons, size}
use aike.Types.Traverse.{type_known, type_member, found}
use aike.Types.Unify.{yes, type_equals, TypeConstraints}
use aike.Resolve.Members.{Variable, is_argument_count_valid}
use aike.Tree.Ast.{Ast, Asts, Common, FieldRef, ident}
use aike.Check.State.{
  Checked, Pass, ok, is_null, not_deduced, ambiguous, open_arguments, no_field, argument_count,
  error, if_verifying,
}
use aike.Check.Literals.{count}
use aike.Check.Rules.{
  report_open, type_ident, member_type, finish_member, last_type, finish_block, finish_module,
  types_of, narrow, arguments_must_equal, type_of_call, finish_call,
}
use aike.Check.Typing.{
  HasType, Fits, AllKnown, LastHasType, ArgumentsFit, CallTypes, Typed, AllTyped,
}
use aike.Check.Ensures.{
  Post, Ensures, Ensures->>=, Ensures-mono, pure-Ensures, stop-Ensures, error-Ensures,
  fresh-Ensures, report_if-Ensures, if_verifying-Ensures, ast_type-Ensures, ast_location-Ensures,
  of_member-Ensures, node_must_equal-Ensures, not_false,
}
use aike.Check.LiteralsHold.{own_or_fresh-Ensures}

report_open-Ensures :
    (name : Bytes) (all ts : List Ty) (l : Location)
    → Ensures (report_open name all ts l) (λ u. AllKnown ts)
unfolding report_open
report_open-Ensures name all [] l = pure-Ensures _ tt
report_open-Ensures name all (t ∷ ts) l =
    Ensures->>= (report_if-Ensures (not (type_known t)) (open_arguments name all) l) λ _.
      Ensures-mono (report_open-Ensures name all ts l)
        (λ _ rest one. (not_false (type_known t) one, rest))

one_of_tests : (n : ℕ) → (n == 0) ≡ false → ltb 1 n ≡ false → n ≡ 1
one_of_tests n h g = ground arith

pub type_ident-Ensures :
    (defs : ℕ → Option TyDef) (c : Common) (n : Bytes) (ts : List Ty) (vs : List Variable)
    (r : Bool)
    → Ensures (type_ident c n ts vs r) (λ e. Typed defs e)
unfolding type_ident Typed
type_ident-Ensures defs c n ts vs r = Ensures->>= (own_or_fresh-Ensures c.type) λ t.
    Ensures->>=
      (if_verifying-Ensures (report_if-Ensures (length vs == 0) (not_deduced n) c.location))
      λ _.
        Ensures->>=
          (if_verifying-Ensures (report_if-Ensures (ltb 1 (length vs)) (ambiguous n vs) c.location))
          λ _. Ensures->>= (if_verifying-Ensures (report_open-Ensures n ts ts c.location)) λ _.
            pure-Ensures _
              (λ known few some_ _. (t, refl, one_of_tests (length vs) some_ few, known))

member_type-Ensures :
    (defs : ℕ → Option TyDef) (own t : Ty) (o : Option ℕ)
    → Ensures
        (member_type defs own t o)
        (λ u. is_null o ≡ false → (i : ℕ) × (o ≡ some i) × (type_member defs t i ≡ found u))
member_type-Ensures defs own t none = pure-Ensures _ (λ h. cc)
member_type-Ensures defs own t (some i) =
    Ensures-mono (of_member-Ensures (type_member defs t i)) (λ u h _. (i, refl, h))

pub finish_member-Ensures :
    (defs : ℕ → Option TyDef) (c : Common) (e : Ast) (f : FieldRef)
    → Ensures (finish_member defs c e f) (λ n. Typed defs e → Typed defs n)
unfolding finish_member Typed
finish_member-Ensures defs c e f = Ensures->>= (own_or_fresh-Ensures c.type) λ own.
    Ensures->>= (ast_type-Ensures e) λ u. Ensures->>= (ast_location-Ensures e) λ l.
      Ensures->>= (member_type-Ensures defs own u f.index) λ t.
        Ensures->>=
          (if_verifying-Ensures (report_if-Ensures (is_null f.index) (no_field u f.name) l))
          λ _. pure-Ensures _ (λ there at _ has _ typed.
            let (i, index, found_) = at there in (i, u, t, typed, index, has, found_, refl))

last_type-Ensures : (as_ : Asts) → Ensures (last_type as_) (λ t. LastHasType as_ t)
unfolding last_type LastHasType
last_type-Ensures Asts.nil = pure-Ensures _ refl
last_type-Ensures (Asts.cons a Asts.nil) = ast_type-Ensures a
last_type-Ensures (Asts.cons a (Asts.cons b as_)) = last_type-Ensures (Asts.cons b as_)

pub finish_block-Ensures :
    (defs : ℕ → Option TyDef) (c : Common) (as_ : Asts)
    → Ensures (finish_block c as_) (λ n. AllTyped defs as_ → Typed defs n)
unfolding finish_block Typed
finish_block-Ensures defs c as_ =
    Ensures->>= (last_type-Ensures as_) λ t. pure-Ensures _ (λ last all. (t, refl, all, last))

pub finish_module-Ensures :
    (defs : ℕ → Option TyDef) (c : Common) (name : Bytes) (body : Ast) (is : List Bytes)
    → Ensures (finish_module c name body is) (λ n. Typed defs body → Typed defs n)
unfolding finish_module Typed
finish_module-Ensures defs c name body is =
    Ensures->>= (ast_type-Ensures body) λ t. pure-Ensures _ (λ has typed. (t, refl, typed, has))

-- Candidates are left out only where there are constraints.
narrow-Ensures : (e : Ast) (as_ : Asts) → Ensures (narrow e as_) (λ e'. e ≡ e')
unfolding narrow
narrow-Ensures (ident c name ts vs r) as_ = record { ensures = λ s n. go s n _ s.constraints n }
  where
    go :
        (s : Pass)
        → s.constraints ≡ none
        → (narrowed : Checked (Ast × Pass)) (k : Option TypeConstraints) → k ≡ none
        → Post
            (λ e'. ident c name ts vs r ≡ e')
            s
            (if not (is_null k) && ltb 1 (length vs)
              then narrowed
              else ok (ident c name ts vs r, s))
    go s n narrowed none e = (n, λ q. (q, refl))
    go s n narrowed (some k) e = cc
narrow-Ensures e as_ = pure-Ensures _ refl

arguments_must_equal-Ensures :
    (as_ : Asts) (ts : Tys) → Ensures (arguments_must_equal as_ ts) (λ u. ArgumentsFit as_ ts)
unfolding arguments_must_equal ArgumentsFit
arguments_must_equal-Ensures Asts.nil nil = pure-Ensures _ tt
arguments_must_equal-Ensures (Asts.cons a as_) nil = pure-Ensures _ tt
arguments_must_equal-Ensures Asts.nil (cons t ts) = stop-Ensures
arguments_must_equal-Ensures (Asts.cons a as_) (cons t ts) =
    Ensures->>= (node_must_equal-Ensures a t)
      λ _. Ensures-mono (arguments_must_equal-Ensures as_ ts) (λ _ rest one. (one, rest))

count_valid :
    (l : Location) (params : Tys) (v : Bool) (args : Asts) (b : Bool)
    → Ensures
        (if b
          then arguments_must_equal args params
          else if_verifying (error (argument_count (size params) (count args)) l))
        (λ u. (b ≡ true) × ArgumentsFit args params)
count_valid l params v args true =
    Ensures-mono (arguments_must_equal-Ensures args params) (λ _ h. (refl, h))
count_valid l params v args false = if_verifying-Ensures (error-Ensures _ l)

types_of-Ensures : (as_ : Asts) → Ensures (types_of as_) (λ ts. Unit {0})
unfolding types_of
types_of-Ensures Asts.nil = pure-Ensures _ tt
types_of-Ensures (Asts.cons a as_) =
    Ensures->>= (ast_type-Ensures a)
      λ t. Ensures->>= (types_of-Ensures as_) λ ts. pure-Ensures (cons t ts) (λ _ _. tt)

equals_function :
    (t : Ty) (ts : Tys) (ret : Ty) (v : Bool)
    → type_equals t (function ts ret v) ≡ yes
    → (us : Tys) × (u : Ty) × (w : Bool) × (t ≡ function us u w)
unfolding type_equals
equals_function (function us u w) ts ret v h = (us, u, w, refl)
equals_function t ts ret v h = cc

-- A callee of another type is reported, as its type cannot be equal to that of a function.
not_function :
    (e : Ast) (t : Ty) (ts : Tys) (ret : Ty)
    → Fits e (function ts ret false)
    → HasType e t
    → (us : Tys) × (u : Ty) × (w : Bool) × (t ≡ function us u w)
not_function e t ts ret (t', has, agrees) h =
    equals_function t ts ret false
      (subst (λ v. type_equals v (function ts ret false) ≡ yes) (some→eq (sym has ∙ h)) agrees.0)

type_of_call-Ensures :
    (l : Location) (t : Ty) (e : Ast) (args : Asts)
    → Ensures (type_of_call l t e args) (λ ret. HasType e t → CallTypes e args ret)
unfolding type_of_call
type_of_call-Ensures l (function params ret v) e args =
    Ensures->>= (count_valid l params v args (is_argument_count_valid params v (count args)))
      λ _. pure-Ensures ret (λ (valid, fit) has. (params, v, has, valid, fit))
type_of_call-Ensures l t e args = Ensures->>= (types_of-Ensures args) λ ts.
    Ensures->>= fresh-Ensures λ ret.
      Ensures->>= (node_must_equal-Ensures e (function ts ret false)) λ _.
        pure-Ensures ret
          (λ fits _ _ has. let (us, u, w, eq) = not_function e t ts ret fits has in cc)

pub finish_call-Ensures :
    (defs : ℕ → Option TyDef) (c : Common) (e : Ast) (args : Asts)
    → Ensures (finish_call c e args) (λ n. Typed defs e → AllTyped defs args → Typed defs n)
unfolding finish_call Typed
finish_call-Ensures defs c e args = Ensures->>= (narrow-Ensures e args) λ e'.
    Ensures->>= (ast_type-Ensures e') λ fnty.
      Ensures->>= (type_of_call-Ensures c.location fnty e' args) λ t.
        pure-Ensures _
          (λ types has same typed all. (t, refl, subst (Typed defs) same typed, all, types has))
