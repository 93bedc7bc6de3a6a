-- ===== src/Resolve/TypeNames.antt =====
-- compiler/resolve.cpp: the scopes of ResolveNames, and resolveType with its callback
-- resolveTypeInstance through visitType (compiler/visit.cpp). A type that is changed in place is
-- returned.
use aike.Base.{
  ℕ, ◌≡◌, refl, ap, sym, ◌∙◌, Bool, true, false, ◌&&◌, if◌then◌else◌, List, [], ◌∷◌, ◌++◌, Option,
  none, some, Bytes, append_assoc,
}
use aike.Types.Syntax.{
  Ty, Tys, Location, unknown, void, bool, integer, float, string, tuple, array, pointer, function,
  inst, generic, nil, cons,
}
use aike.Types.Traverse.{visit_type, visit_types}
use aike.Resolve.NameMap.{NameMap, find, top, pop}
use aike.Resolve.Members.{Variable}

-- The maps of ResolveNames. Its other fields are read and set by resolveNamesNode alone.
pub record ResolveNames : Type 0 where
  pub variables : NameMap Variable
  pub typedefs : NameMap ℕ
  pub generics : NameMap ℕ

-- The three sizes that `State` holds.
pub record State : Type 0 where
  pub variables : ℕ
  pub typedefs : ℕ
  pub generics : ℕ

unfoldable pub top_all : ResolveNames → State
unfolding top
top_all rs = record {
  variables = top rs.variables;
  typedefs = top rs.typedefs;
  generics = top rs.generics;
}

unfoldable pub pop_all : State → ResolveNames → ResolveNames
unfolding pop
pop_all offset rs = record {
  variables = pop offset.variables rs.variables;
  typedefs = pop offset.typedefs rs.typedefs;
  generics = pop offset.generics rs.generics;
}

-- `output->error`: the name and its location.
abbrev pub Unresolved : Type 0
Unresolved = Bytes × Location

-- The pointers of an Instance, and the error where there are none.
abbrev pub bound_to :
    Bytes → Location → Option ℕ → Option ℕ → (Option ℕ × Option ℕ) × List Unresolved
bound_to name l (some def) g = ((some def, none), [])
bound_to name l none (some g) = ((none, some g), [])
bound_to name l none none = ((none, none), (name, l) ∷ [])

unfoldable pub resolve_type_instance :
    ResolveNames → Bytes → Location → Option ℕ → Option ℕ → (Option ℕ × Option ℕ) × List Unresolved
unfolding find
resolve_type_instance rs name l none none =
    bound_to name l (find name rs.typedefs) (find name rs.generics)
resolve_type_instance rs name l d g = ((d, g), [])

unfoldable mutual
  unfolding resolve_type_instance

  pub resolve_type : ResolveNames → Ty → Ty × List Unresolved
  resolve_type rs (tuple ts) = let (us, e) = resolve_types rs ts in (tuple us, e)
  resolve_type rs (array t) = let (u, e) = resolve_type rs t in (array u, e)
  resolve_type rs (pointer t) = let (u, e) = resolve_type rs t in (pointer u, e)
  resolve_type rs (function args ret v) =
      let (us, e) = resolve_types rs args in
      let (u, f) = resolve_type rs ret in (function us u v, e ++ f)
  resolve_type rs (inst n l args d g) =
      let (p, e) = resolve_type_instance rs n l d g in
      let (us, f) = resolve_types rs args in (inst n l us p.0 p.1, e ++ f)
  resolve_type rs t = (t, [])

  pub resolve_types : ResolveNames → Tys → Tys × List Unresolved
  resolve_types rs nil = (nil, [])
  resolve_types rs (cons t ts) =
      let (u, e) = resolve_type rs t in let (us, f) = resolve_types rs ts in (cons u us, e ++ f)

-- The Instances among nodes that a test on the name and the pointers selects.
abbrev Test : Type 0
Test = Bytes → Option ℕ → Option ℕ → Bool

unfoldable pub select : Test → List Ty → List Unresolved
select p [] = []
select p (inst n l args d g ∷ ts) = (if p n d g then (n, l) ∷ [] else []) ++ select p ts
select p (_ ∷ ts) = select p ts

-- The Instance points nowhere.
abbrev pub points_nowhere : Test
points_nowhere n none none = true
points_nowhere n d g = false

abbrev is_none : Option ℕ → Bool
is_none none = true
is_none (some _) = false

-- The Instance points nowhere, and its name is bound neither to a definition nor to a generic.
unfoldable pub is_unbound : ResolveNames → Test
unfolding find
is_unbound rs n d g =
    points_nowhere n d g && (is_none (find n rs.typedefs) && is_none (find n rs.generics))

select-++ : (p : Test) (ts us : List Ty) → select p (ts ++ us) ≡ select p ts ++ select p us
unfolding select
select-++ p [] us = refl
select-++ p (inst n l args d g ∷ ts) us =
    ap (λ v. (if p n d g then (n, l) ∷ [] else []) ++ v) (select-++ p ts us)
    ∙ sym (append_assoc (if p n d g then (n, l) ∷ [] else []) (select p ts) (select p us))
select-++ p (unknown a ∷ ts) us = select-++ p ts us
select-++ p (void ∷ ts) us = select-++ p ts us
select-++ p (bool ∷ ts) us = select-++ p ts us
select-++ p (integer ∷ ts) us = select-++ p ts us
select-++ p (float ∷ ts) us = select-++ p ts us
select-++ p (string ∷ ts) us = select-++ p ts us
select-++ p (tuple x ∷ ts) us = select-++ p ts us
select-++ p (array x ∷ ts) us = select-++ p ts us
select-++ p (pointer x ∷ ts) us = select-++ p ts us
select-++ p (function x y z ∷ ts) us = select-++ p ts us
select-++ p (generic x y z ∷ ts) us = select-++ p ts us

-- The errors are those selected after the pass, and those selected before it.
abbrev Reports : ResolveNames → List Unresolved → List Ty → List Ty → Type 0
Reports rs e before after = (e ≡ select points_nowhere after) × (e ≡ select (is_unbound rs) before)

Reports-++ :
    (rs : ResolveNames) (e f : List Unresolved) (ts us ts' us' : List Ty)
    → Reports rs e ts ts'
    → Reports rs f us us'
    → Reports rs (e ++ f) (ts ++ us) (ts' ++ us')
Reports-++ rs e f ts us ts' us' (a, b) (c, d) = (
  ap2 a c ∙ sym (select-++ points_nowhere ts' us'),
  ap2 b d ∙ sym (select-++ (is_unbound rs) ts us),
)
  where
    ap2 : {e f e' f' : List Unresolved} → e ≡ e' → f ≡ f' → e ++ f ≡ e' ++ f'
    ap2 h k = cc

-- An Instance by itself.
instance-Reports :
    (rs : ResolveNames) (n : Bytes) (l : Location) (args us : Tys) (d g : Option ℕ)
    → let (p, e) = resolve_type_instance rs n l d g in
      Reports rs e (inst n l args d g ∷ []) (inst n l us p.0 p.1 ∷ [])
unfolding resolve_type_instance select is_unbound
instance-Reports rs n l args us (some d) g = (refl, refl)
instance-Reports rs n l args us none (some g) = (refl, refl)
instance-Reports rs n l args us none none = go (find n rs.typedefs) (find n rs.generics)
  where
    go :
        (d g : Option ℕ)
        → let (p, e) = bound_to n l d g in
          (e ≡ select points_nowhere (inst n l us p.0 p.1 ∷ []))
          × (e ≡ (if is_none d && is_none g then (n, l) ∷ [] else []) ++ [])
    go (some d) g = (refl, refl)
    go none (some g) = (refl, refl)
    go none none = (refl, refl)

mutual
  unfolding resolve_type select visit_type

  type-Reports :
      (rs : ResolveNames) (t : Ty)
      → Reports rs (resolve_type rs t).1 (visit_type t) (visit_type (resolve_type rs t).0)
  type-Reports rs (tuple ts) = types-Reports rs ts
  type-Reports rs (array t) = type-Reports rs t
  type-Reports rs (pointer t) = type-Reports rs t
  type-Reports rs (function args ret v) =
      Reports-++ rs (resolve_types rs args).1 (resolve_type rs ret).1 (visit_types args)
        (visit_type ret) (visit_types (resolve_types rs args).0)
        (visit_type (resolve_type rs ret).0) (types-Reports rs args) (type-Reports rs ret)
  type-Reports rs (inst n l args d g) =
      let r = resolve_type_instance rs n l d g in
      let us = (resolve_types rs args).0 in
      Reports-++ rs r.1 (resolve_types rs args).1 (inst n l args d g ∷ []) (visit_types args)
        (inst n l us r.0.0 r.0.1 ∷ []) (visit_types us) (instance-Reports rs n l args us d g)
        (types-Reports rs args)
  type-Reports rs (unknown a) = (refl, refl)
  type-Reports rs void = (refl, refl)
  type-Reports rs bool = (refl, refl)
  type-Reports rs integer = (refl, refl)
  type-Reports rs float = (refl, refl)
  type-Reports rs string = (refl, refl)
  type-Reports rs (generic a n l) = (refl, refl)

  types-Reports :
      (rs : ResolveNames) (ts : Tys)
      → Reports rs (resolve_types rs ts).1 (visit_types ts) (visit_types (resolve_types rs ts).0)
  types-Reports rs nil = (refl, refl)
  types-Reports rs (cons t ts) =
      Reports-++ rs (resolve_type rs t).1 (resolve_types rs ts).1 (visit_type t) (visit_types ts)
        (visit_type (resolve_type rs t).0) (visit_types (resolve_types rs ts).0) (type-Reports rs t)
        (types-Reports rs ts)

-- resolveType reports the Instances of the type that point neither to a definition nor to a
-- generic and whose name is bound to none, each once and in the order of visitType; and these are
-- exactly the Instances that point nowhere in the type as it leaves it.
pub resolve_type_errors :
    (rs : ResolveNames) (t : Ty)
    → ((resolve_type rs t).1 ≡ select points_nowhere (visit_type (resolve_type rs t).0))
      × ((resolve_type rs t).1 ≡ select (is_unbound rs) (visit_type t))
resolve_type_errors rs t = type-Reports rs t
