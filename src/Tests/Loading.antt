-- ===== src/Tests/Loading.antt =====
-- compiler/compiler.cpp: the reading of two modules, the first of which imports the second.
use aike.Base.{
  ℕ, ◌+◌, ◌*◌, ◌<◌, ◌≤◌, ap, subst, true, false, List, [], ◌∷◌, Option, some, some→eq, Bytes,
  bytes_eq, inl, inr, Elem, length, arith, Bool,
}
use aike.Mangle.Text.{codes}
use aike.Tree.Visit.{module_gather_imports}
use aike.Modules.Graph.{Import}
use aike.Modules.Paths.{get_module_name}
use aike.Modules.Load.{load_modules, with_prelude}
use aike.Modules.Ready.{ImportsKnown, IsLoaded, load_modules-IsLoaded}
use aike.Parse.Stream.{here}
use aike.Parse.Terms.{Number}
use aike.Parse.Front.{Front, read, parse_module}

abbrev no_numbers : Bytes → Number
no_numbers _ = record { bits = 0; whole = false; errno = false }

abbrev first_text : Bytes
first_text = codes "import b"

abbrev second_text : Bytes
second_text = codes "1"

abbrev text_at : Bool → Bytes
text_at true = second_text
text_at false = first_text

abbrev files : Bytes → Option Bytes
files path = some (text_at (bytes_eq path (codes "b.aike")))

abbrev names : List Bytes
names = codes "a" ∷ codes "b" ∷ []

abbrev from_zero : ℕ → ℕ
from_zero _ = 0

abbrev imports_of : Front → List Import
imports_of (read root) = module_gather_imports root
imports_of _ = []

abbrev AmongNames : List Import → Type 0
AmongNames is = (length is ≤ 1) × ((i : Import) → Elem i is → Elem i.0 names)

text_at-AmongNames :
    (b : Bool) (path name : Bytes)
    → AmongNames (imports_of (parse_module no_numbers path (text_at b) name 0))
unfolding parse_module module_gather_imports here
text_at-AmongNames true path name = (omega arith, λ i h. absurd h)
text_at-AmongNames false path name =
    (omega arith, λ i h. elim h [ inl e ↦ inr (inl (ap (λ x. x.0) e)) | inr e ↦ absurd e ])

two_files : ImportsKnown files no_numbers from_zero true (codes "a" ∷ []) names 1
unfolding with_prelude
two_files pm text n root t e = subst AmongNames (ap imports_of e) (
    subst (λ x. AmongNames (imports_of (parse_module no_numbers pm.path x pm.name 0))) (some→eq t)
      (text_at-AmongNames (bytes_eq pm.path (codes "b.aike")) pm.path pm.name))

a-names : (f : Bytes) → Elem f (codes "a" ∷ []) → Elem (get_module_name f) names
unfolding get_module_name
a-names f (inl e) = inl (ap get_module_name e)
a-names f (inr h) = absurd h

enough : length (codes "a" ∷ []) + length names * 2 < 6
enough = omega arith

load_modules-IsLoaded_example :
    IsLoaded files no_numbers from_zero true
      (codes "a" ∷ [])
      names
      1
      (load_modules files no_numbers from_zero true 6 (codes "a" ∷ []))
load_modules-IsLoaded_example =
    load_modules-IsLoaded files no_numbers from_zero true (codes "a" ∷ []) names 1 two_files a-names
      6 enough
