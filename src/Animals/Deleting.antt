-- ===== src/Animals/Deleting.antt =====
-- What delete_animals and animal_exit do to the list and the blocks.
use cop4610_project.Base.{
  ℕ, ◌+◌, ◌≤◌, ◌≡◌, refl, ap, sym, ◌∙◌, Bool, true, false, if◌then◌else◌, some, List, [], ◌∷◌, ◌++◌,
  arith, All, occurs, occurs-cons, occurs_snoc, without, without_absent, ◌==◌, Bool-cases, inl, inr,
  update,
}
use mathlib.Core.List.{append-nil, append_assoc}
use cop4610_project.Animals.{
  Animal, Animals, move_kind, free_animal, free_moved, delete_animals, animal_exit,
}
use cop4610_project.Animals.Adding.{IsKind, HasKind, node_of, ListOk}

-- The animals of kind `k`, and the others, in their order.
unfoldable pub of_kind : ℕ → List Animal → List Animal
of_kind k [] = []
of_kind k (a ∷ l) = let rest = of_kind k l in if a.id == k then a ∷ rest else rest

unfoldable pub other_kinds : ℕ → List Animal → List Animal
other_kinds k [] = []
other_kinds k (a ∷ l) = let rest = other_kinds k l in if a.id == k then rest else a ∷ rest

abbrev node : ℕ → List Animal → ℕ
node a = occurs node_of a

without_middle :
    (l : List Animal) (a : Animal) (r : List Animal)
    → node a.node l ≡ 0
    → node a.node r ≡ 0
    → without node_of a.node (l ++ a ∷ r) ≡ l ++ r
unfolding occurs without
without_middle [] a r hl hr = ground (arith, without_absent node_of a.node r hr)
without_middle (x ∷ l) a r hl hr = ground (arith, without_middle l a r (ground arith) hr)

occurs_kinds :
    (k a : ℕ) (l : List Animal) → node a l ≡ node a (of_kind k l) + node a (other_kinds k l)
unfolding occurs of_kind other_kinds
occurs_kinds k a [] = omega arith
occurs_kinds k a (x ∷ l) = ground (arith, occurs_kinds k a l)

move_kind_end :
    (k : ℕ) (kept moved : List Animal)
    → move_kind k [] (kept ++ [], moved) ≡ (kept ++ [], moved ++ [])
unfolding move_kind
move_kind_end k kept moved = ap (λ (l : List Animal). (kept ++ [], l)) (sym (append-nil moved))

-- No node stands twice in three lists.
abbrev Apart : (kept l moved : List Animal) → Type 0
Apart kept l moved = (a : ℕ) → node a kept + node a l + node a moved ≤ 1

move_kind_keep :
    (k : ℕ) (a : Animal) (rest list moved : List Animal)
    → (a.id == k) ≡ false
    → move_kind k (a ∷ rest) (list, moved) ≡ move_kind k rest (list, moved)
unfolding move_kind
move_kind_keep k a rest list moved h = rw h

move_kind_take :
    (k : ℕ) (a : Animal) (rest kept moved : List Animal)
    → (a.id == k) ≡ true
    → Apart kept (a ∷ rest) moved
    → move_kind k (a ∷ rest) (kept ++ a ∷ rest, moved)
      ≡ move_kind k rest (kept ++ rest, moved ++ a ∷ [])
unfolding move_kind
move_kind_take k a rest kept moved h once =
    let here = once a.node in
    let counted = occurs-cons node_of a.node a rest in
    rw (
      h,
      without_middle kept a rest (ground (arith, here, counted)) (ground (arith, here, counted)),
      without_absent node_of a.node moved (ground (arith, here, counted)),
    )

move_kind_lem :
    (k : ℕ) (l kept moved : List Animal)
    → Apart kept l moved
    → move_kind k l (kept ++ l, moved) ≡ (kept ++ other_kinds k l, moved ++ of_kind k l)
unfolding of_kind other_kinds
move_kind_lem k [] kept moved once = move_kind_end k kept moved
move_kind_lem k (a ∷ rest) kept moved once = elim (Bool-cases (a.id == k)) [
  | inl h ↦
      move_kind_take k a rest kept moved h once
      ∙ move_kind_lem k rest kept (moved ++ a ∷ [])
          (λ x. omega (arith, once x, occurs-cons node_of x a rest, occurs_snoc node_of x moved a))
      ∙ rw h (
          ap (λ (l : List Animal). (kept ++ other_kinds k rest, l))
            (append_assoc moved (a ∷ []) (of_kind k rest)))
  | inr h ↦
      move_kind_keep k a rest (kept ++ a ∷ rest) moved h
      ∙ ap (λ (l : List Animal). move_kind k rest (l, moved))
          (sym (append_assoc kept (a ∷ []) rest))
      ∙ move_kind_lem k rest (kept ++ a ∷ []) moved
          (λ x. omega (arith, once x, occurs-cons node_of x a rest, occurs_snoc node_of x kept a))
      ∙ rw h (
          ap (λ (l : List Animal). (l, moved ++ of_kind k rest))
            (append_assoc kept (a ∷ []) (other_kinds k rest)))
]

-- A block is allocated if its animal stands in one of two lists, or has leaked.
abbrev Held : (leaked : ℕ → ℕ) → (moved list : List Animal) → (ℕ → Bool) → Type 0
Held leaked moved list live =
    (a : ℕ) → node a moved + node a list + leaked a ≡ (if live a then 1 else 0)

free_moved-cons :
    (a : Animal) (rest : List Animal) (s : Animals)
    → s.live a.node ≡ true
    → node a.node s.list ≡ 0
    → free_moved (a ∷ rest) s ≡ free_moved rest (record s { live = update s.live a.node false })
unfolding free_moved free_animal
free_moved-cons a rest s is_live gone = rw (is_live, without_absent node_of a.node s.list gone)

free_moved_lem :
    (leaked : ℕ → ℕ) (l : List Animal) (s : Animals)
    → Held leaked l s.list s.live
    → (live : ℕ → Bool) × (free_moved l s ≡ some (record s { live = live }))
      × Held leaked [] s.list live
unfolding free_moved
free_moved_lem leaked [] s held = (s.live, refl, held)
free_moved_lem leaked (a ∷ rest) s held =
    let here = held a.node in
    let counted = occurs-cons node_of a.node a rest in
    let (live, run, left) =
      free_moved_lem leaked rest (record s { live = update s.live a.node false })
        (λ x. ground (arith, held x, occurs-cons node_of x a rest)) in
    (
      live,
      free_moved-cons a rest s (ground (arith, here, counted)) (ground (arith, here, counted))
          ∙ run,
      left,
    )

-- What delete_animals leaves: the animals of the other kinds, in their order, with their blocks.
-- The totals stay as they were.
pub record Deleted (leaked : ℕ → ℕ) (k : ℕ) (s s' : Animals) : Type 0 where
  pub list : s'.list ≡ other_kinds k s.list
  pub blocks : (a : ℕ) → occurs node_of a s'.list + leaked a ≡ (if s'.live a then 1 else 0)
  pub total_cnt : s'.total_cnt ≡ s.total_cnt
  pub total_length : s'.total_length ≡ s.total_length
  pub total_weight : s'.total_weight ≡ s.total_weight

-- From a state in which every allocated block stands in the list once, delete_animals ends without a
-- fault, and takes out exactly the animals of the kind, whose blocks it frees; the totals stay as
-- they were, so they count the deleted animals too.
pub delete_animals_lem :
    {leaked : ℕ → ℕ} (k : ℕ) (s : Animals)
    → ((a : ℕ) → occurs node_of a s.list + leaked a ≡ (if s.live a then 1 else 0))
    → (s' : Animals) × (delete_animals k s ≡ some s') × Deleted leaked k s s'
unfolding delete_animals occurs
delete_animals_lem {leaked} k s blocks =
    let split : move_kind k s.list (s.list, []) ≡ (other_kinds k s.list, of_kind k s.list) =
      move_kind_lem k s.list [] [] (λ x. ground (arith, blocks x)) in
    let s1 : Animals = record s { list = other_kinds k s.list } in
    let (live, run, left) =
      free_moved_lem leaked (of_kind k s.list) s1
        (λ x. omega (arith, blocks x, occurs_kinds k x s.list)) in
    (
      record s1 { live = live },
      rw split run,
      record {
        list = refl;
        blocks = λ a. omega (arith, left a);
        total_cnt = refl;
        total_length = refl;
        total_weight = refl;
      },
    )

id-le : {k : ℕ} {a : Animal} → IsKind k a → a.id ≤ 2
id-le IsKind.is_hamster = omega arith
id-le IsKind.is_cat = omega arith
id-le IsKind.is_dog = omega arith

nobody_left :
    (l : List Animal) → All HasKind l → other_kinds 2 (other_kinds 1 (other_kinds 0 l)) ≡ []
unfolding other_kinds
nobody_left [] all = refl
nobody_left (a ∷ l) (kind, all) = ground (arith, id-le kind, nobody_left l all)

-- animal_exit, where the totals and the blocks are in order, ends without a fault and leaves an empty
-- list, no allocated block and no proc entry.
pub animal_exit_lem :
    (s : Animals)
    → ListOk (λ a. 0) s
    → (s' : Animals) × (animal_exit s ≡ some s')
      × (s'.list ≡ [])
      × ((a : ℕ) → s'.live a ≡ false)
      × (s'.proc_entry ≡ false)
unfolding animal_exit occurs
animal_exit_lem s ok =
    let (s1, run1, one) = delete_animals_lem 0 s ok.blocks in
    let (s2, run2, two) = delete_animals_lem 1 s1 one.blocks in
    let (s3, run3, three) = delete_animals_lem 2 s2 two.blocks in
    let gone : s3.list ≡ [] =
      three.list
      ∙ ap (other_kinds 2) (two.list ∙ ap (other_kinds 1) one.list)
      ∙ nobody_left s.list ok.kinds in
    (
      record s3 { proc_entry = false },
      rw (run1, run2, run3),
      gone,
      λ a. ground (arith, three.blocks a, ap (node a) gone),
      refl,
    )
