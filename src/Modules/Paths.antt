-- ===== src/Modules/Paths.antt =====
-- compiler/compiler.cpp: getModuleName and getModulePath. A path is the text of a C string in front of its zero.
use aike.Base.{
  ℕ, zero, suc, ◌+◌, ◌-◌, ◌≡◌, ◌≢◌, refl, ap, sym, ◌∙◌, [], ◌∷◌, ◌++◌, Option, none, some, Bytes,
  bytes_eq, length, length-append, append_assoc, ltb, lt→ltb, ◌==◌, ==_refl, ne→==, if◌then◌else◌,
  arith,
}
use aike.Mangle.Text.{codes}

-- strrchr
unfoldable pub last_index : ℕ → Bytes → Option ℕ
last_index c [] = none
last_index c (d ∷ s) = behind_or (last_index c s) (if d == c then some 0 else none)
  where
    behind_or : Option ℕ → Option ℕ → Option ℕ
    behind_or (some i) o = some (suc i)
    behind_or none o = o

-- `(fs && bs) ? min(fs, bs) : fs ? fs : bs`
abbrev pub first_slash : Option ℕ → Option ℕ → Option ℕ
first_slash (some i) (some j) = if ltb j i then some j else some i
first_slash (some i) none = some i
first_slash none o = o

unfoldable pub taken : ℕ → Bytes → Bytes
taken zero s = []
taken (suc n) [] = []
taken (suc n) (c ∷ s) = c ∷ taken n s

unfoldable pub dropped : ℕ → Bytes → Bytes
dropped zero s = s
dropped (suc n) [] = []
dropped (suc n) (c ∷ s) = dropped n s

abbrev pub name_between : Bytes → Option ℕ → Option ℕ → Bytes
name_between path (some slash) (some dot) =
    if ltb slash dot then taken (dot - slash - 1) (dropped (suc slash) path) else dropped slash path
name_between path (some slash) none = dropped slash path
name_between path none dot = path

unfoldable pub get_module_name : Bytes → Bytes
unfolding last_index taken dropped
get_module_name path =
    name_between path (first_slash (last_index b'/' path) (last_index b'\\' path))
      (last_index b'.' path)

-- `for (auto& c: path) if (c == '.') c = '/';`
unfoldable pub with_slashes : Bytes → Bytes
with_slashes [] = []
with_slashes (c ∷ s) = (if c == b'.' then b'/' else c) ∷ with_slashes s

abbrev pub in_library : Bytes → Bytes
in_library path =
    if bytes_eq (taken 4 path) (codes "std/")
    then codes "library/" ++ dropped 4 path ++ codes ".aike"
    else path ++ codes ".aike"

unfoldable pub get_module_path : Bytes → Bytes
unfolding with_slashes taken dropped bytes_eq
get_module_path name = in_library (with_slashes name)

-- The character does not occur.
unfoldable pub IsFree : ℕ → Bytes → Type 0
IsFree c [] = Unit {0}
IsFree c (d ∷ s) = (d ≢ c) × IsFree c s

last_index-IsFree : (c : ℕ) (s : Bytes) → IsFree c s → last_index c s ≡ none
unfolding IsFree last_index
last_index-IsFree c [] h = refl
last_index-IsFree c (d ∷ s) (n, h) = rw (last_index-IsFree c s h, ne→== d c n) refl

last_index-append : (c : ℕ) (u v : Bytes) → IsFree c v → last_index c (u ++ c ∷ v) ≡ some (length u)
unfolding last_index
last_index-append c [] v h = rw (last_index-IsFree c v h, ==_refl c) refl
last_index-append c (d ∷ u) v h = rw (last_index-append c u v h) refl

IsFree-append : (c : ℕ) (u v : Bytes) → IsFree c u → IsFree c v → IsFree c (u ++ v)
unfolding IsFree
IsFree-append c [] v h k = k
IsFree-append c (d ∷ u) v (n, h) k = (n, IsFree-append c u v h k)

dropped-append : (u v : Bytes) (c : ℕ) → dropped (suc (length u)) (u ++ c ∷ v) ≡ v
unfolding dropped
dropped-append [] v c = refl
dropped-append (d ∷ u) v c = dropped-append u v c

taken-append : (u v : Bytes) → taken (length u) (u ++ v) ≡ u
unfolding taken
taken-append [] v = refl
taken-append (d ∷ u) v = ap (λ w. d ∷ w) (taken-append u v)

between : (dir base : Bytes) (c : ℕ) → length (dir ++ c ∷ base) ≡ length dir + suc (length base)
between dir base c = length-append dir (c ∷ base)

name_between-base :
    (dir base rest : Bytes) (c : ℕ)
    → name_between (dir ++ c ∷ (base ++ rest)) (some (length dir)) (some (length (dir ++ c ∷ base)))
      ≡ base
name_between-base dir base rest c =
    let l = between dir base c in
    rw
      (
        lt→ltb (length dir) (length (dir ++ c ∷ base)) (omega (arith, l)),
        dropped-append dir (base ++ rest) c,
      )
      (ap (λ n. taken n (base ++ rest)) (omega (arith, l)) ∙ taken-append base rest)

-- Where a path is a directory without backslashes, a slash, a name without slashes and backslashes, a
-- dot, and an extension without slashes, backslashes and dots, getModuleName gives the name, without
-- the directory and the extension.
pub get_module_name-base :
    (dir base ext : Bytes)
    → IsFree b'\\' dir
    → IsFree b'/' base
    → IsFree b'\\' base
    → IsFree b'/' ext
    → IsFree b'\\' ext
    → IsFree b'.' ext
    → get_module_name (dir ++ b'/' ∷ (base ++ b'.' ∷ ext)) ≡ base
unfolding get_module_name IsFree
get_module_name-base dir base ext db sb bb se be de =
    let path : Bytes = dir ++ b'/' ∷ (base ++ b'.' ∷ ext) in
    let slash : last_index b'/' path ≡ some (length dir) =
      last_index-append b'/' dir _
        (IsFree-append b'/' base _ sb ((λ e. absurd (omega (arith, e))), se)) in
    let back : last_index b'\\' path ≡ none = last_index-IsFree b'\\' path (
      IsFree-append b'\\' dir _ db (
        (λ e. absurd (omega (arith, e))),
        IsFree-append b'\\' base _ bb ((λ e. absurd (omega (arith, e))), be),
      )) in
    let dot : last_index b'.' path ≡ some (length (dir ++ b'/' ∷ base)) =
      ap (last_index b'.') (sym (append_assoc dir (b'/' ∷ base) (b'.' ∷ ext)))
      ∙ last_index-append b'.' (dir ++ b'/' ∷ base) ext de in
    (λ i. name_between path (first_slash (slash i) (back i)) (dot i))
    ∙ name_between-base dir base (b'.' ∷ ext) b'/'
