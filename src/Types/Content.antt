-- ===== src/Types/Content.antt =====
-- The content of a type under a valuation of its Unknown nodes: what typeUnify compares. The names
-- and locations of Instance and Generic nodes, which it does not look at, are left out.
use aike.Base.{ℕ, ◌≡◌, refl, ap, Bool, true, [], Option, arith, ◌==◌}
use aike.Types.Syntax.{
  Ty, Tys, unknown, tuple, array, pointer, function, inst, generic, nil, cons, Location, size,
}
use aike.Types.Unify.{same_pointer, same_flag}

abbrev pub nowhere : Location
nowhere = record { source = []; line = 0; column = 0; offset = 0; length = 0 }

unfoldable mutual
  pub content : (ℕ → Ty) → Ty → Ty
  content v (unknown i) = v i
  content v (tuple ts) = tuple (content_all v ts)
  content v (array t) = array (content v t)
  content v (pointer t) = pointer (content v t)
  content v (function args ret f) = function (content_all v args) (content v ret) f
  content v (inst _ _ args d g) = inst [] nowhere (content_all v args) d g
  content v (generic _ _ _) = generic 0 [] nowhere
  content v t = t

  pub content_all : (ℕ → Ty) → Tys → Tys
  content_all v nil = nil
  content_all v (cons t ts) = cons (content v t) (content_all v ts)

pub size-content_all : (v : ℕ → Ty) (ts : Tys) → size (content_all v ts) ≡ size ts
unfolding content
size-content_all v nil = refl
size-content_all v (cons t ts) = omega (arith, size-content_all v ts)

pub size-eq_of_content :
    (v : ℕ → Ty) (ls rs : Tys) → content_all v ls ≡ content_all v rs → (size ls == size rs) ≡ true
size-eq_of_content v ls rs e =
    ground (arith, size-content_all v ls, size-content_all v rs, ap size e)

pub same_pointer→eq : (a b : Option ℕ) → same_pointer a b ≡ true → a ≡ b
same_pointer→eq a b h = ground arith

pub same_pointer_refl : (a : Option ℕ) → same_pointer a a ≡ true
same_pointer_refl a = ground arith

pub same_flag→eq : (a b : Bool) → same_flag a b ≡ true → a ≡ b
same_flag→eq a b h = ground arith

pub same_flag_refl : (a : Bool) → same_flag a a ≡ true
same_flag_refl a = ground arith
