-- ===== src/Mangle/Symbols.antt =====
-- compiler/mangle.cpp. The callback that resolves a generic is total here, as the assertions of its
-- callers make it; `none` is an internal compiler error, or a resolution that does not end.
use aike.Base.{
  ℕ, zero, suc, Bool, true, false, ◌&&◌, [], ◌∷◌, ◌++◌, Option, none, some, Bytes, if◌then◌else◌,
  length, ◌==◌,
}
use aike.Types.Syntax.{
  Ty, Tys, unknown, void, bool, integer, float, string, tuple, array, pointer, function, inst,
  generic, nil, cons,
}
use aike.Mangle.Text.{codes, decimal}

infixl 1 ◌>>=◌
abbrev pub ◌>>=◌ {ℓ κ} : {A : Type ℓ} {B : Type κ} → Option A → (A → Option B) → Option B
none >>= f = none
some a >>= f = f a

unfoldable pub mangle_name : Bytes → Bytes
unfolding decimal
mangle_name name = decimal (length name) ++ name

-- `if (t->varargs) buffer += "z";`
abbrev pub varargs_mark : Bool → Bytes
varargs_mark true = codes "z"
varargs_mark false = []

-- The type arguments between `I` and `E`, if there are any.
abbrev pub in_brackets : Tys → Bytes → Bytes
in_brackets nil text = []
in_brackets (cons _ _) text = codes "I" ++ (text ++ codes "E")

-- `resolve` is the mangled name of the type that a generic stands for.
unfoldable mutual
  pub mangle_with : (ℕ → Option Bytes) → Ty → Option Bytes
  mangle_with resolve void = some (codes "v")
  mangle_with resolve bool = some (codes "b")
  mangle_with resolve integer = some (codes "i")
  mangle_with resolve float = some (codes "f")
  mangle_with resolve string = some (codes "N6stringE")
  mangle_with resolve (tuple ts) = do
    fields ← mangle_all resolve ts
    some (codes "N5tupleI" ++ (fields ++ codes "EE"))
  mangle_with resolve (array t) = do
    element ← mangle_with resolve t
    some (codes "U5array" ++ element)
  mangle_with resolve (pointer t) = do
    element ← mangle_with resolve t
    some (codes "U3ptr" ++ element)
  mangle_with resolve (function args ret varargs) = do
    ret' ← mangle_with resolve ret
    args' ← mangle_all resolve args
    some (codes "F" ++ (ret' ++ (args' ++ (varargs_mark varargs ++ codes "E"))))
  mangle_with resolve (inst name _ ts _ (some g)) = resolve g
  mangle_with resolve (inst name _ ts _ none) = do
    args ← mangle_all resolve ts
    some (codes "N" ++ (mangle_name name ++ (in_brackets ts args ++ codes "E")))
  mangle_with resolve (unknown _) = none
  mangle_with resolve (generic _ _ _) = none

  pub mangle_all : (ℕ → Option Bytes) → Tys → Option Bytes
  mangle_all resolve nil = some []
  mangle_all resolve (cons t ts) = do
    first ← mangle_with resolve t
    rest ← mangle_all resolve ts
    some (first ++ rest)

-- Each generic that is resolved takes a unit of fuel.
unfoldable pub mangle : ℕ → (ℕ → Ty) → Ty → Option Bytes
unfolding mangle_with mangle_name
mangle zero instantiate t = none
mangle (suc fuel) instantiate t = mangle_with (λ g. mangle fuel instantiate (instantiate g)) t

unfoldable pub mangle_list : ℕ → (ℕ → Ty) → Tys → Option Bytes
unfolding mangle_with mangle
mangle_list fuel instantiate ts = mangle_all (λ g. mangle fuel instantiate (instantiate g)) ts

-- A name, or the number of an unnamed function.
unfoldable pub mangle_fn_base : Bytes → ℕ → Bytes
unfolding mangle_name decimal
mangle_fn_base [] unnamed = codes "Ut" ++ (decimal unnamed ++ codes "_")
mangle_fn_base (c ∷ name) unnamed = mangle_name (c ∷ name)

unfoldable pub mangle_fn_name : ℕ → (ℕ → Ty) → Bytes → ℕ → Tys → Option Bytes
unfolding mangle_list mangle_fn_base
mangle_fn_name fuel instantiate name unnamed tyargs = do
  args ← mangle_list fuel instantiate tyargs
  some (mangle_fn_base name unnamed ++ in_brackets tyargs args)

-- `parent.size() > 2 && parent[0] == '_' && parent[1] == 'Z'`: the parent is a function.
abbrev pub within_parent : Bytes → Bytes → Bytes
within_parent [] fn = fn
within_parent (a ∷ b ∷ c ∷ rest) fn =
    if a == b'_' && b == b'Z'
    then codes "Z" ++ (c ∷ rest ++ (codes "E" ++ fn))
    else codes "N" ++ (a ∷ b ∷ c ∷ rest ++ (fn ++ codes "E"))
within_parent parent fn = codes "N" ++ (parent ++ (fn ++ codes "E"))

-- `if (tyargs.size > 0) mangle(result, t->ret, inst);`
abbrev pub mangle_ret : ℕ → (ℕ → Ty) → Tys → Ty → Option Bytes
mangle_ret fuel instantiate nil ret = some []
mangle_ret fuel instantiate (cons _ _) ret = mangle (suc fuel) instantiate ret

-- The arguments, with `v` where there are none.
abbrev pub mangle_args : ℕ → (ℕ → Ty) → Tys → Bool → Option Bytes
mangle_args fuel instantiate nil false = some (codes "v")
mangle_args fuel instantiate args varargs = do
  text ← mangle_list fuel instantiate args
  some (text ++ varargs_mark varargs)

-- mangleFn, on a type that is a Function by its assertion.
unfoldable pub mangle_fn : ℕ → (ℕ → Ty) → Bytes → ℕ → Tys → Ty → Bool → Tys → Bytes → Option Bytes
unfolding mangle_fn_name mangle mangle_list
mangle_fn fuel instantiate name unnamed args ret varargs tyargs parent = do
  fn ← mangle_fn_name fuel instantiate name unnamed tyargs
  ret' ← mangle_ret fuel instantiate tyargs ret
  args' ← mangle_args fuel instantiate args varargs
  some (codes "_Z" ++ (within_parent parent fn ++ (ret' ++ args')))

unfoldable pub mangle_type_info : ℕ → (ℕ → Ty) → Ty → Option Bytes
unfolding mangle
mangle_type_info fuel instantiate t = do
  text ← mangle fuel instantiate t
  some (codes "_ZTI" ++ text)

unfoldable pub mangle_module : Bytes → Bytes
unfolding mangle_name
mangle_module name = mangle_name name
