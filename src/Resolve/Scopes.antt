-- ===== src/Resolve/Scopes.antt =====
-- compiler/resolve.cpp: a scope leaves the names as it found them.
use mathlib.Core.Path.{fun_ext}
use aike.Base.{
  ℕ, suc, ◌≤◌, ◌≡◌, refl, ap, ◌∙◌, List, [], ◌∷◌, Bytes, bytes_eq, bytes_eq→eq, if◌then◌else◌,
  length, lt→ltb, le→ltb, arith, Bool-cases, inl, inr,
}
use aike.Resolve.NameMap.{Binding, NameMap, find_all, set_chain, push, pop_stack, pop, top}

module _ {V : Type 0} where
  set_chain-set_chain :
      (n : Bytes) (vs : List V) (chains : Bytes → List V)
      → set_chain n (chains n) (set_chain n vs chains) ≡ chains
  unfolding set_chain
  set_chain-set_chain n vs chains = fun_ext λ k. elim (Bool-cases (bytes_eq n k)) [
    | inl e ↦ rw e (ap chains (bytes_eq→eq n k e))
    | inr e ↦ rw e
  ]

  pop-push : (k : ℕ) (n : Bytes) (v : V) (m : NameMap V) → k ≤ top m → pop k (push n v m) ≡ pop k m
  unfolding pop push pop_stack top
  pop-push k n v m h =
      rw (lt→ltb k (suc (length m.stack)) (omega arith))
        (ap (λ c. pop_stack k c m.stack) (set_chain-set_chain n (v ∷ m.chains n) m.chains))

  pop-top : (m : NameMap V) → pop (top m) m ≡ m
  unfolding pop top
  pop-top m = stopped m.chains m.stack
    where
      stopped :
          (chains : Bytes → List V) (bs : List (Binding V))
          → pop_stack (length bs) chains bs ≡ record { chains = chains; stack = bs }
      stopped chains [] = refl
      stopped chains (b ∷ bs) =
          rw (le→ltb (length (b ∷ bs)) (length (b ∷ bs)) (omega arith), pop_stack)

  -- The declarations of a scope, pushed from the first one on.
  pub push_all : List (Bytes × V) → NameMap V → NameMap V
  push_all [] m = m
  push_all ((n, v) ∷ ps) m = push_all ps (push n v m)

  top-push : (n : Bytes) (v : V) (m : NameMap V) → top (push n v m) ≡ suc (top m)
  unfolding top push
  top-push n v m = refl

  pop-push_all :
      (k : ℕ) (ps : List (Bytes × V)) (m : NameMap V) → k ≤ top m → pop k (push_all ps m) ≡ pop k m
  unfolding push_all
  pop-push_all k [] m h = refl
  pop-push_all k ((n, v) ∷ ps) m h =
      pop-push_all k ps (push n v m) (omega (arith, top-push n v m)) ∙ pop-push k n v m h

  -- A scope ends as it began: after any declarations, `pop` with the top that was saved gives back
  -- the very map, every shadowed binding included.
  pub scope_restores : (ps : List (Bytes × V)) (m : NameMap V) → pop (top m) (push_all ps m) ≡ m
  scope_restores ps m = pop-push_all (top m) ps m (omega arith) ∙ pop-top m

  -- Within the scope a declaration is found first, in front of all that it shadows, and no other name
  -- is touched.
  pub find_all-push :
      (n k : Bytes) (v : V) (m : NameMap V)
      → find_all k (push n v m) ≡ (if bytes_eq n k then v ∷ find_all n m else find_all k m)
  unfolding find_all push set_chain
  find_all-push n k v m = refl
