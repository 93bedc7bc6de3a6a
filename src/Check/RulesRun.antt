-- ===== src/Check/RulesRun.antt =====
-- compiler/typecheck.cpp: the functions for identifiers, members, blocks and calls leave a node that
-- obeys the typing rules as it is.
use aike.Base.{
  ℕ, ◌≡◌, refl, sym, ap, Bool, true, not, ◌&&◌, List, [], ◌∷◌, Option, none, some, Bytes,
  if◌then◌else◌, length, ltb, ◌==◌,
}
use aike.Types.Syntax.{Ty, Tys, TyDef, Location, function, nil, cons}
use aike.Types.Traverse.{type_known, type_member, found}
use aike.Types.Unify.{TypeConstraints}
use aike.Resolve.Members.{Variable, is_argument_count_valid}
use aike.Tree.Ast.{Ast, Asts, Common, FieldRef, ident, member, block, module_, call}
use aike.Check.State.{Checked, Pass, ok, is_null, not_deduced, ambiguous, open_arguments, no_field}
use aike.Check.Literals.{count}
use aike.Check.Rules.{
  report_open, type_ident, member_type, finish_member, last_type, finish_block, finish_module,
  narrow, arguments_must_equal, type_of_call, finish_call,
}
use aike.Check.Typing.{HasType, AllKnown, LastHasType, ArgumentsFit, CallTypes}
use aike.Check.Runs.{
  Runs, Runs->>=, pure-Runs, report_if-Runs, if_verifying-Runs, ast_type-Runs, ast_location-Runs,
  of_member-Runs, node_must_equal-Runs, with_type_same,
}
use aike.Check.LiteralsRun.{own_or_fresh-Runs}

report_open-Runs :
    (n : Bytes) (all ts : List Ty) (l : Location) → AllKnown ts → Runs (report_open n all ts l) tt
unfolding report_open
report_open-Runs n all [] l h = pure-Runs refl
report_open-Runs n all (t ∷ ts) l (one, rest) =
    Runs->>= _ (report_if-Runs (open_arguments n all) l (not (type_known t)) (rw one))
      (report_open-Runs n all ts l rest)

pub type_ident-Runs :
    (c : Common) (n : Bytes) (ts : List Ty) (vs : List Variable) (r : Bool) (t : Ty)
    → c.type ≡ some t
    → length vs ≡ 1
    → AllKnown ts
    → Runs (type_ident c n ts vs r) (ident c n ts vs r)
unfolding type_ident
type_ident-Runs c n ts vs r t h one known = Runs->>= _ (own_or_fresh-Runs c.type t h) (
    Runs->>= _
      (if_verifying-Runs (report_if-Runs (not_deduced n) c.location (length vs == 0) (rw one)))
      (Runs->>= _
        (if_verifying-Runs
          (report_if-Runs (ambiguous n vs) c.location (ltb 1 (length vs)) (rw one)))
        (Runs->>= _ (if_verifying-Runs (report_open-Runs n ts ts c.location known))
          (pure-Runs (ap (λ k. ident k n ts vs r) (with_type_same t c h))))))

member_type-Runs :
    (defs : ℕ → Option TyDef) (own u : Ty) (o : Option ℕ) (i : ℕ) (t : Ty)
    → o ≡ some i
    → type_member defs u i ≡ found t
    → Runs (member_type defs own u o) t
member_type-Runs defs own u o i t h at = rw h (of_member-Runs (type_member defs u i) t at)

pub finish_member-Runs :
    (defs : ℕ → Option TyDef) (c : Common) (e : Ast) (f : FieldRef) (i : ℕ) (u t : Ty)
    → f.index ≡ some i
    → HasType e u
    → type_member defs u i ≡ found t
    → c.type ≡ some t
    → Runs (finish_member defs c e f) (member c e f)
unfolding finish_member
finish_member-Runs defs c e f i u t index has at h =
    let (l, where_) = ast_location-Runs e u has in
    Runs->>= _ (own_or_fresh-Runs c.type t h) (
      Runs->>= _ (ast_type-Runs e u has) (
        Runs->>= _ where_ (
          Runs->>= _ (member_type-Runs defs t u f.index i t index at) (
            Runs->>= _
              (if_verifying-Runs
                (report_if-Runs (no_field u f.name) l (is_null f.index) (rw index)))
              (pure-Runs (ap (λ k. member k e f) (with_type_same t c h)))))))

last_type-Runs : (as_ : Asts) (t : Ty) → LastHasType as_ t → Runs (last_type as_) t
unfolding last_type LastHasType
last_type-Runs Asts.nil t h = pure-Runs (sym h)
last_type-Runs (Asts.cons a Asts.nil) t h = ast_type-Runs a t h
last_type-Runs (Asts.cons a (Asts.cons b as_)) t h = last_type-Runs (Asts.cons b as_) t h

pub finish_block-Runs :
    (c : Common) (as_ : Asts) (t : Ty)
    → LastHasType as_ t
    → c.type ≡ some t
    → Runs (finish_block c as_) (block c as_)
unfolding finish_block
finish_block-Runs c as_ t last h =
    Runs->>= _ (last_type-Runs as_ t last)
      (pure-Runs (ap (λ k. block k as_) (with_type_same t c h)))

pub finish_module-Runs :
    (c : Common) (n : Bytes) (body : Ast) (is : List Bytes) (t : Ty)
    → HasType body t
    → c.type ≡ some t
    → Runs (finish_module c n body is) (module_ c n body is)
unfolding finish_module
finish_module-Runs c n body is t has h =
    Runs->>= _ (ast_type-Runs body t has)
      (pure-Runs (ap (λ k. module_ k n body is) (with_type_same t c h)))

narrow-Runs : (e : Ast) (as_ : Asts) → Runs (narrow e as_) e
unfolding narrow
narrow-Runs (ident c n ts vs r) as_ = record { runs = λ s q. go s _ s.constraints q }
  where
    go :
        (s : Pass) (narrowed : Checked (Ast × Pass)) (k : Option TypeConstraints)
        → k ≡ none
        → (if not (is_null k) && ltb 1 (length vs) then narrowed else ok (ident c n ts vs r, s))
          ≡ ok (ident c n ts vs r, s)
    go s narrowed none e = refl
    go s narrowed (some k) e = cc
narrow-Runs e as_ = pure-Runs refl

arguments_must_equal-Runs :
    (as_ : Asts) (ts : Tys) → ArgumentsFit as_ ts → Runs (arguments_must_equal as_ ts) tt
unfolding arguments_must_equal ArgumentsFit
arguments_must_equal-Runs Asts.nil nil h = pure-Runs refl
arguments_must_equal-Runs (Asts.cons a as_) nil h = pure-Runs refl
arguments_must_equal-Runs Asts.nil (cons t ts) h = absurd h
arguments_must_equal-Runs (Asts.cons a as_) (cons t ts) (one, rest) =
    Runs->>= _ (node_must_equal-Runs a t one) (arguments_must_equal-Runs as_ ts rest)

type_of_call-Runs :
    (l : Location) (params : Tys) (t : Ty) (v : Bool) (e : Ast) (args : Asts)
    → is_argument_count_valid params v (count args) ≡ true
    → ArgumentsFit args params
    → Runs (type_of_call l (function params t v) e args) t
unfolding type_of_call
type_of_call-Runs l params t v e args valid fit =
    rw valid (Runs->>= _ (arguments_must_equal-Runs args params fit) (pure-Runs refl))

pub finish_call-Runs :
    (c : Common) (e : Ast) (args : Asts) (t : Ty)
    → CallTypes e args t
    → c.type ≡ some t
    → Runs (finish_call c e args) (call c e args)
unfolding finish_call
finish_call-Runs c e args t (params, v, has, valid, fit) h = Runs->>= _ (narrow-Runs e args) (
    Runs->>= _ (ast_type-Runs e (function params t v) has) (
      Runs->>= _ (type_of_call-Runs c.location params t v e args valid fit)
        (pure-Runs (ap (λ k. call k e args) (with_type_same t c h)))))
