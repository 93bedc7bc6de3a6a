-- ===== src/Modules/Order.antt =====
-- compiler/modules.cpp: what moduleSort gives when it ends.
use mathlib.Core.List.{Perm, perm_middle}
use mathlib.Core.List.Perm
use aike.Base.{
  ℕ, zero, suc, ◌≡◌, refl, ap, sym, ◌∙◌, subst, true, List, [], ◌∷◌, ◌++◌, Option, none, some,
  Bytes, length, ◌==◌, Bool-cases, inl, inr, append-nil, append_assoc, map, map-append, some→eq,
  ◌⊎◌,
}
use aike.Modules.Graph.{Import, ModuleData, Search, result, assertion, out_of_fuel, module_is_ready}
use aike.Modules.Sort.{
  Sorting, name_lt, insert_by_name, sort_by_name, place, place_all, Outcome, sorted, break_cycle,
  break_first, round, sort_loop, module_sort, go_on, while_pending,
}

-- The names of `es` on top of `v`.
abbrev pub after : List Bytes → List ModuleData → List Bytes
after v [] = v
after v (m ∷ es) = after (m.name ∷ v) es

-- Each module's imports are in `v` or come before it.
abbrev pub IsOrdered : List Bytes → List ModuleData → Type 0
IsOrdered v [] = Unit {0}
IsOrdered v (m ∷ es) = (module_is_ready m v ≡ true) × IsOrdered (m.name ∷ v) es

after-append :
    (v : List Bytes) (es : List ModuleData) (m : ModuleData)
    → after v (es ++ m ∷ []) ≡ m.name ∷ after v es
after-append v [] m = refl
after-append v (e ∷ es) m = after-append (e.name ∷ v) es m

IsOrdered-append :
    (v : List Bytes) (es : List ModuleData) (m : ModuleData)
    → IsOrdered v es
    → module_is_ready m (after v es) ≡ true
    → IsOrdered v (es ++ m ∷ [])
IsOrdered-append v [] m o r = (r, tt)
IsOrdered-append v (e ∷ es) m o r = (o.0, IsOrdered-append (e.name ∷ v) es m o.1 r)

-- `es` are the modules that have been put out, `todo` those of the round that are still to be seen.
record IsRun (ms : List ModuleData) (es : List ModuleData) (todo : List ModuleData) (s : Sorting)
    : Type 0 where
  listed : s.indices ≡ map (λ m. m.index) es
  complete : Perm (es ++ (s.pending ++ todo)) ms
  ordered : s.errors ≡ [] → (s.visited ≡ after [] es) × IsOrdered [] es

put_out-IsRun :
    (ms es todo : List ModuleData) (m : ModuleData) (s : Sorting)
    → module_is_ready m s.visited ≡ true
    → IsRun ms es (m ∷ todo) s
    → IsRun ms
        (es ++ m ∷ [])
        todo
        (record s { indices = s.indices ++ m.index ∷ []; visited = m.name ∷ s.visited })
put_out-IsRun ms es todo m s e r = record {
  listed = ap (λ is. is ++ m.index ∷ []) r.listed ∙ sym (map-append (λ k. k.index) es (m ∷ []));
  complete =
      rw (append_assoc es (m ∷ []) (s.pending ++ todo))
        (Perm.trans (Perm.append_left es (Perm.symm (perm_middle s.pending todo))) r.complete);
  ordered = λ no.
      let o = r.ordered no in
      (
        ap (λ v. m.name ∷ v) o.0 ∙ sym (after-append [] es m),
        IsOrdered-append [] es m o.1 (ap (module_is_ready m) (sym o.0) ∙ e),
      );
}

keep-IsRun :
    (ms es todo : List ModuleData) (m : ModuleData) (s : Sorting)
    → IsRun ms es (m ∷ todo) s
    → IsRun ms es todo (record s { pending = s.pending ++ m ∷ [] })
keep-IsRun ms es todo m s r = record {
  listed = r.listed;
  complete = rw (append_assoc s.pending (m ∷ []) todo) r.complete;
  ordered = r.ordered;
}

place-IsRun :
    (ms es todo : List ModuleData) (m : ModuleData) (s : Sorting)
    → IsRun ms es (m ∷ todo) s
    → (es' : List ModuleData) × IsRun ms es' todo (place m s)
unfolding place
place-IsRun ms es todo m s r = elim (Bool-cases (module_is_ready m s.visited)) [
  | inl e ↦ (es ++ m ∷ [], rw e (put_out-IsRun ms es todo m s e r))
  | inr e ↦ (es, rw e (keep-IsRun ms es todo m s r))
]

place_all-IsRun :
    (ms es todo : List ModuleData) (s : Sorting)
    → IsRun ms es todo s
    → (es' : List ModuleData) × IsRun ms es' [] (place_all todo s)
unfolding place_all
place_all-IsRun ms es [] s r = (es, r)
place_all-IsRun ms es (m ∷ todo) s r =
    let (es', r') = place-IsRun ms es todo m s r in place_all-IsRun ms es' todo (place m s) r'

start_round-IsRun :
    (ms es : List ModuleData) (s : Sorting)
    → IsRun ms es [] s
    → IsRun ms es s.pending (record s { pending = [] })
start_round-IsRun ms es s r = record {
  listed = r.listed;
  complete = rw append-nil at r.complete;
  ordered = r.ordered;
}

break_cycle-IsRun :
    (ms es : List ModuleData) (found : Search) (s t : Sorting)
    → IsRun ms es [] s
    → break_cycle found s ≡ some t
    → IsRun ms es [] t
unfolding break_cycle
break_cycle-IsRun ms es (result ([], _)) s t r h = cc
break_cycle-IsRun ms es (result (c ∷ n, l)) s t r h = subst (IsRun ms es []) (some→eq h) (record {
  listed = r.listed;
  complete = r.complete;
  ordered = λ no. absurd (not_empty s.errors (c ∷ n, l) no);
})
  where
    not_empty : (is : List Import) (i : Import) → is ++ i ∷ [] ≡ [] → ⊥
    not_empty [] i e = cc
    not_empty (_ ∷ _) i e = cc
break_cycle-IsRun ms es assertion s t r h = cc
break_cycle-IsRun ms es out_of_fuel s t r h = cc

break_first-IsRun :
    (ms es ps : List ModuleData) (s t : Sorting)
    → IsRun ms es [] s
    → break_first ms ps s ≡ some t
    → IsRun ms es [] t
unfolding break_first
break_first-IsRun ms es [] s t r h = cc
break_first-IsRun ms es (m ∷ _) s t r h = break_cycle-IsRun ms es _ s t r h

round-IsRun :
    (ms es : List ModuleData) (s t : Sorting)
    → IsRun ms es [] s
    → round ms s ≡ some t
    → (es' : List ModuleData) × IsRun ms es' [] t
unfolding round
round-IsRun ms es s t r h =
    let (es', r') = place_all-IsRun ms es s.pending _ (start_round-IsRun ms es s r) in
    elim (Bool-cases
      (length (place_all s.pending (record s { pending = [] })).pending == length s.pending)) [
        | inl e ↦ (es', break_first-IsRun ms es' s.pending _ t r' (rw e at h))
        | inr e ↦ (es', subst (IsRun ms es' []) (some→eq (rw e at h)) r')
      ]

-- What holds of the result.
pub record IsSorted (ms : List ModuleData) (s : Sorting) (es : List ModuleData) : Type 0 where
  pub indices_of : s.indices ≡ map (λ m. m.index) es
  pub all_of : Perm es ms
  pub before : s.errors ≡ [] → IsOrdered [] es

while_pending-sorted :
    (ps : List ModuleData) (s t : Sorting) (k : Sorting → Outcome)
    → while_pending ps s k ≡ sorted t
    → ((ps ≡ []) × (s ≡ t)) ⊎ (k s ≡ sorted t)
while_pending-sorted [] s t k h = inl (refl, sorted→eq h)
  where
    sorted→eq : {a b : Sorting} → sorted a ≡ sorted b → a ≡ b
    sorted→eq e = cc
while_pending-sorted (_ ∷ _) s t k h = inr h

go_on-sorted :
    (o : Option Sorting) (t : Sorting) (k : Sorting → Outcome)
    → go_on o k ≡ sorted t
    → (n : Sorting) × (o ≡ some n) × (k n ≡ sorted t)
go_on-sorted none t k h = cc
go_on-sorted (some n) t k h = (n, refl, h)

IsRun-IsSorted :
    (ms es : List ModuleData) (s t : Sorting)
    → s.pending ≡ []
    → IsRun ms es [] s
    → s ≡ t
    → IsSorted ms t es
IsRun-IsSorted ms es s t p r e =
    subst (λ u. IsSorted ms u es) e
      (record {
        indices_of = r.listed;
        all_of =
            subst (λ ps. Perm ps ms) (ap (λ ps. es ++ (ps ++ [])) p ∙ append-nil es) r.complete;
        before = λ no. (r.ordered no).1;
      })

sort_loop-IsSorted :
    (fuel : ℕ) (ms es : List ModuleData) (s t : Sorting)
    → IsRun ms es [] s
    → sort_loop fuel ms s ≡ sorted t
    → (es' : List ModuleData) × IsSorted ms t es'
unfolding sort_loop
sort_loop-IsSorted zero ms es s t r h = cc
sort_loop-IsSorted (suc fuel) ms es s t r h = elim (while_pending-sorted s.pending s t _ h) [
  | inl (p, e) ↦ (es, IsRun-IsSorted ms es s t p r e)
  | inr g ↦
      let (n, e, k) = go_on-sorted (round ms s) t _ g in
      let (es', r') = round-IsRun ms es s n r e in sort_loop-IsSorted fuel ms es' n t r' k
]

insert_by_name-perm : (m : ModuleData) (ks : List ModuleData) → Perm (insert_by_name m ks) (m ∷ ks)
unfolding insert_by_name
insert_by_name-perm m [] = Perm.refl (m ∷ [])
insert_by_name-perm m (k ∷ ks) = elim (Bool-cases (name_lt k.name m.name)) [
  | inl e ↦ rw e (Perm.trans (Perm.cons k (insert_by_name-perm m ks)) (Perm.swap m k ks))
  | inr e ↦ rw e (Perm.refl (m ∷ k ∷ ks))
]

pub sort_by_name-perm : (ms : List ModuleData) → Perm (sort_by_name ms) ms
unfolding sort_by_name
sort_by_name-perm [] = Perm.refl []
sort_by_name-perm (m ∷ ms) =
    Perm.trans (insert_by_name-perm m (sort_by_name ms)) (Perm.cons m (sort_by_name-perm ms))

-- When moduleSort ends, its indices are those of all the modules, each of them once; and if it has
-- reported no circular import, each module comes after all the modules that it imports.
pub module_sort-IsSorted :
    (fuel : ℕ) (ms : List ModuleData) (s : Sorting)
    → module_sort fuel ms ≡ sorted s
    → (es : List ModuleData) × IsSorted ms s es
unfolding module_sort
module_sort-IsSorted fuel ms s h =
    sort_loop-IsSorted fuel ms [] _ s
      (record {
        listed = refl;
        complete = rw append-nil (sort_by_name-perm ms);
        ordered = λ no. (refl, tt);
      })
      h
