-- ===== src/Resolve/InRange.antt =====
-- compiler/resolve.cpp and compiler/type.cpp: the indices of findMember are those of typeMember.
use aike.Base.{
  ℕ, zero, suc, ◌+◌, ◌^◌, ◌<◌, ◌≡◌, refl, ap, ◌∙◌, true, ◌&&◌, &&→both, List, [], ◌∷◌, Option, none,
  some, some→eq, Bytes, bytes_eq, ltb, ltb→lt, ◌==◌, false, arith, Bool-cases, inl, inr, get_elem?,
}
use aike.Types.Syntax.{
  Ty, Tys, nil, cons, tuple, array, pointer, function, inst, StructField, TyDef, size,
}
use aike.Types.Traverse.{
  Member, found, found_or, nth, arity, argument_for, type_instantiate, instantiate_all, is_generic,
  answer_or, member_of_field, member_of_def, type_member,
}
use aike.Resolve.Members.{
  strtoll_digits, checked_index, tuple_index, field_index, index_in, find_member,
}

nth-lt : (ts : Tys) (i : ℕ) → i < size ts → (t : Ty) × (nth ts i ≡ some t)
nth-lt nil i h = absurd (omega arith)
nth-lt (cons t ts) zero h = (t, refl)
nth-lt (cons t ts) (suc i) h = nth-lt ts i (omega arith)

checked_index-lt : (n : ℕ) (p : ℕ × Bytes) (i : ℕ) → checked_index n p ≡ some i → i < n
checked_index-lt n (k, []) i h = elim (Bool-cases (ltb k (2 ^ 63) && ltb k n)) [
  | inl e ↦
      let same : k ≡ i = some→eq (rw e at h) in
      rw (← same) (ltb→lt k n (&&→both (ltb k (2 ^ 63)) (ltb k n) e).1)
  | inr e ↦ cc (rw e at h)
]
checked_index-lt n (k, _ ∷ _) i h = cc

tuple_index-lt : (n c : ℕ) (s : Bytes) (i : ℕ) → tuple_index n c s ≡ some i → i < n
unfolding tuple_index
tuple_index-lt n c s i h = elim (Bool-cases (c == b'_')) [
  | inl e ↦ checked_index-lt n (strtoll_digits 0 s) i (rw e at h)
  | inr e ↦ cc (rw e at h)
]

field_index-get_elem? :
    (k : ℕ) (fs : List StructField) (name : Bytes) (i : ℕ)
    → field_index k fs name ≡ some i
    → (j : ℕ) × (f : StructField) × (i ≡ k + j) × (get_elem? fs j ≡ some f)
unfolding field_index
field_index-get_elem? k [] name i h = cc
field_index-get_elem? k (f ∷ fs) name i h = elim (Bool-cases (bytes_eq f.name name)) [
  | inl e ↦ (0, f, omega (arith, some→eq (rw e at h)), refl)
  | inr e ↦
      let (j, g, p, q) = field_index-get_elem? (suc k) fs name i (rw e at h) in
      (suc j, g, omega arith, q)
]

-- typeMember meets no failed assertion.
abbrev pub IsFound : Member → Type 0
IsFound m = (t : Ty) × (m ≡ found t)

abbrev pub NoneGeneric : Tys → Type 0
NoneGeneric nil = Unit {0}
NoneGeneric (cons t ts) = ((g : ℕ) → is_generic g t ≡ false) × NoneGeneric ts

-- An Instance of a struct has as many arguments as the definition has parameters, and none of them is
-- a Generic node.
abbrev pub ArgumentsFit : (ℕ → Option TyDef) → Ty → Type 0
ArgumentsFit defs (inst _ _ args (some d) _) =
    ((def : TyDef) → defs d ≡ some def → (arity def.tyargs == size args) ≡ true) × NoneGeneric args
ArgumentsFit defs _ = Unit {0}

-- The callback never answers with a Generic node.
abbrev Apart : (ℕ → Option Ty) → Type 0
Apart f = (g : ℕ) (t : Ty) → f g ≡ some t → is_generic g t ≡ false

argument_for-Apart : (gs : List ℕ) (ts : Tys) → NoneGeneric ts → Apart (argument_for gs ts)
unfolding argument_for
argument_for-Apart [] ts n g t h = cc
argument_for-Apart (x ∷ gs) nil n g t h = cc
argument_for-Apart (x ∷ gs) (cons u ts) (one, rest) g t h = elim (Bool-cases (g == x)) [
  | inl e ↦ let same : u ≡ t = some→eq (rw e at h) in rw (← same) (one g)
  | inr e ↦ argument_for-Apart gs ts rest g t (rw e at h)
]

answer_or-some :
    (o : Option Ty) (g : ℕ) (u : Ty)
    → ((t : Ty) → o ≡ some t → is_generic g t ≡ false)
    → (r : Ty) × (answer_or o g u ≡ some r)
answer_or-some none g u a = (u, refl)
answer_or-some (some t) g u a = (t, rw (a t refl))

mutual
  unfolding type_instantiate

  type_instantiate-some :
      (f : ℕ → Option Ty) (t : Ty) → Apart f → (u : Ty) × (type_instantiate f t ≡ some u)
  type_instantiate-some f (tuple ts) a =
      let (us, e) = instantiate_all-some f ts a in (tuple us, rw e)
  type_instantiate-some f (array t) a = let (u, e) = type_instantiate-some f t a in (array u, rw e)
  type_instantiate-some f (pointer t) a =
      let (u, e) = type_instantiate-some f t a in (pointer u, rw e)
  type_instantiate-some f (function ts t v) a =
      let (us, e) = instantiate_all-some f ts a in
      let (u, e') = type_instantiate-some f t a in (function us u v, rw (e, e'))
  type_instantiate-some f (inst n l ts d (some g)) a = answer_or-some (f g) g _ (a g)
  type_instantiate-some f (inst n l ts d none) a =
      let (us, e) = instantiate_all-some f ts a in (inst n l us d none, rw e)
  type_instantiate-some f t a = (t, refl)

  instantiate_all-some :
      (f : ℕ → Option Ty) (ts : Tys) → Apart f → (us : Tys) × (instantiate_all f ts ≡ some us)
  instantiate_all-some f nil a = (nil, refl)
  instantiate_all-some f (cons t ts) a =
      let (u, e) = type_instantiate-some f t a in
      let (us, e') = instantiate_all-some f ts a in (cons u us, rw (e, e'))

member_of_field-IsFound :
    (def : TyDef) (args : Tys) (f : StructField)
    → (arity def.tyargs == size args) ≡ true
    → NoneGeneric args
    → IsFound (member_of_field def args (some f))
unfolding member_of_field
member_of_field-IsFound def args f h n =
    let (u, e) =
      type_instantiate-some (argument_for def.tyargs args) f.type
        (argument_for-Apart def.tyargs args n) in
    (u, rw (h, e))

member_of_def-IsFound :
    (o : Option TyDef) (args : Tys) (name : Bytes) (i : ℕ)
    → ((def : TyDef) → o ≡ some def → (arity def.tyargs == size args) ≡ true)
    → NoneGeneric args
    → index_in o name ≡ some (some i)
    → IsFound (member_of_def o args i)
unfolding member_of_def
member_of_def-IsFound none args name i a n h = cc
member_of_def-IsFound (some def) args name i a n h =
    let (j, f, p, q) = field_index-get_elem? 0 def.fields name i (some→eq h) in
    let same : i ≡ j = omega arith in
    let (t, e) = member_of_field-IsFound def args f (a def refl) n in
    (t, ap (member_of_field def args) (ap (get_elem? def.fields) same ∙ q) ∙ e)

-- The index that findMember gives for a name is that of a member: typeMember then finds its type and
-- none of its assertions fails, where each struct type has the arguments that its definition asks for
-- and none of them is a Generic node, as only the parameters of declarations are.
pub type_member-find_member :
    (defs : ℕ → Option TyDef) (t : Ty) (name : Bytes) (i : ℕ)
    → ArgumentsFit defs t
    → find_member defs t name ≡ some (some i)
    → IsFound (type_member defs t i)
unfolding find_member type_member
type_member-find_member defs (inst _ _ args (some d) _) name i a h =
    member_of_def-IsFound (defs d) args name i a.0 a.1 h
type_member-find_member defs (inst _ _ args none _) name i a h = cc
type_member-find_member defs (tuple ts) [] i a h = cc
type_member-find_member defs (tuple ts) (c ∷ s) i a h =
    let (t, e) = nth-lt ts i (tuple_index-lt (size ts) c s i (some→eq h)) in (t, ap found_or e)
type_member-find_member defs t name i a h = cc
