-- ===== src/Resolve/NameMap.antt =====
-- compiler/resolve.cpp: NameMap, resolveBindings. A chain of Binding objects is the list of its
-- values, the one that shadows the others first; the map gives an empty chain for a null pointer and
-- for a name that it does not hold, which no operation tells apart.
use aike.Base.{ℕ, List, [], ◌∷◌, Option, none, some, Bytes, bytes_eq, if◌then◌else◌, length, ltb}

-- A binding on the stack: its name, its value and the chain that it shadows.
pub record Binding (V : Type 0) : Type 0 where
  pub name : Bytes
  pub value : V
  pub shadow : List V

pub record NameMap (V : Type 0) : Type 0 where
  pub chains : Bytes → List V
  pub stack : List (Binding V)

module _ {V : Type 0} where
  abbrev pub first_of_chain : List V → Option V
  first_of_chain [] = none
  first_of_chain (v ∷ _) = some v

  unfoldable pub find : Bytes → NameMap V → Option V
  find n m = first_of_chain (m.chains n)

  unfoldable pub find_all : Bytes → NameMap V → List V
  find_all n m = m.chains n

  -- `data[name] = binding`
  unfoldable pub set_chain : Bytes → List V → (Bytes → List V) → Bytes → List V
  set_chain n vs chains k = if bytes_eq n k then vs else chains k

  unfoldable pub push : Bytes → V → NameMap V → NameMap V
  unfolding set_chain
  push n v m = record {
    chains = set_chain n (v ∷ m.chains n) m.chains;
    stack = record { name = n; value = v; shadow = m.chains n } ∷ m.stack;
  }

  -- `while (stack.size() > offset)`
  unfoldable pub pop_stack : ℕ → (Bytes → List V) → List (Binding V) → NameMap V
  unfolding set_chain
  pop_stack offset chains [] = record { chains = chains; stack = [] }
  pop_stack offset chains (b ∷ bs) =
      let rest = pop_stack offset (set_chain b.name b.shadow chains) bs in
      if ltb offset (length (b ∷ bs)) then rest else record { chains = chains; stack = b ∷ bs }

  unfoldable pub pop : ℕ → NameMap V → NameMap V
  unfolding pop_stack
  pop offset m = pop_stack offset m.chains m.stack

  unfoldable pub top : NameMap V → ℕ
  top m = length m.stack
