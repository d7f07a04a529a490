-- ===== src/Animals/Adding.antt =====
-- The list of animals and its totals, and what add_animal does to them.
use cop4610_project.Base.{
  ℕ, zero, suc, subst, ap, Bool, ◌++◌, update, add32, ◌+◌, ◌*◌, ◌≤◌, ◌<◌, ◌≡◌, refl, sym, true,
  false, if◌then◌else◌, Option, none, some, List, [], ◌∷◌, arith, codes, length, length-append, All,
  All_snoc, tally, tally_snoc, occurs, occurs_snoc, Bool-cases, inl, inr, signed_leb,
}
use cop4610_project.Animals.{
  Animal, Animals, Code, max_animals, features, list_add_tail, add_animal,
}

abbrev pub hamster : ℕ → Animal
hamster a = record { node = a; id = 0; size = 2; weight = 1; name = codes "hamster" }

abbrev pub cat : ℕ → Animal
cat a = record { node = a; id = 1; size = 18; weight = 160; name = codes "cat" }

abbrev pub dog : ℕ → Animal
dog a = record { node = a; id = 2; size = 28; weight = 1200; name = codes "dog" }

-- The three kinds of animals, and the numbers that stand for them.
pub data IsKind : ℕ → Animal → Type 0 where
  is_hamster : {a : ℕ} → IsKind 0 (hamster a)
  is_cat : {a : ℕ} → IsKind 1 (cat a)
  is_dog : {a : ℕ} → IsKind 2 (dog a)

abbrev pub HasKind : Animal → Type 0
HasKind a = IsKind a.id a

abbrev pub node_of : Animal → ℕ
node_of x = x.node

pub IsKind-HasKind : {k : ℕ} {a : Animal} → IsKind k a → HasKind a
IsKind-HasKind IsKind.is_hamster = IsKind.is_hamster
IsKind-HasKind IsKind.is_cat = IsKind.is_cat
IsKind-HasKind IsKind.is_dog = IsKind.is_dog

-- How long and heavy the animals can be, and how long their names.
pub record IsSmall (a : Animal) : Type 0 where
  pub size : a.size ≤ 28
  pub weight : a.weight ≤ 1200
  pub name : length a.name ≤ 7

pub IsKind-IsSmall : {k : ℕ} {a : Animal} → IsKind k a → IsSmall a
IsKind-IsSmall IsKind.is_hamster = record {
  size = omega arith;
  weight = omega arith;
  name = omega arith;
}
IsKind-IsSmall IsKind.is_cat = record {
  size = omega arith;
  weight = omega arith;
  name = omega arith;
}
IsKind-IsSmall IsKind.is_dog = record {
  size = omega arith;
  weight = omega arith;
  name = omega arith;
}

-- The totals are those of the list; a block is allocated if and only if its animal is in the list,
-- once, or it is one of the `leaked`.
pub record ListOk (leaked : ℕ → ℕ) (s : Animals) : Type 0 where
  pub kinds : All HasKind s.list
  pub total_cnt : s.total_cnt ≡ length s.list
  pub total_length : s.total_length ≡ tally (λ a. a.size) s.list
  pub total_weight : s.total_weight ≡ tally (λ a. a.weight) s.list
  pub limit : length s.list ≤ 50
  pub blocks : (a : ℕ) → occurs node_of a s.list + leaked a ≡ (if s.live a then 1 else 0)

pub kinds_bound :
    (l : List Animal)
    → All HasKind l
    → (tally (λ a. a.size) l ≤ 28 * length l) × (tally (λ a. a.weight) l ≤ 1200 * length l)
unfolding tally
kinds_bound [] all = (omega arith, omega arith)
kinds_bound (a ∷ l) (kind, all) =
    let small = IsKind-IsSmall kind in let rest = kinds_bound l all in (omega arith, omega arith)

-- `a` is at the back of the list, its block is allocated, and it is counted in the totals.
pub record Appended (a : Animal) (s s' : Animals) : Type 0 where
  pub list : s'.list ≡ s.list ++ a ∷ []
  pub live : s'.live ≡ update s.live a.node true
  pub total_cnt : s'.total_cnt ≡ add32 s.total_cnt 1
  pub total_length : s'.total_length ≡ add32 s.total_length a.size
  pub total_weight : s'.total_weight ≡ add32 s.total_weight a.weight
  pub message : s'.message ≡ s.message
  pub read_p : s'.read_p ≡ s.read_p
  pub proc_entry : s'.proc_entry ≡ s.proc_entry

list_add_tail-Appended : (a : Animal) (s : Animals) → Appended a s (list_add_tail a s)
unfolding list_add_tail
list_add_tail-Appended a s = record {
  list = refl;
  live = refl;
  total_cnt = refl;
  total_length = refl;
  total_weight = refl;
  message = refl;
  read_p = refl;
  proc_entry = refl;
}

Appended-ListOk :
    {leaked : ℕ → ℕ} (a : Animal) (s s' : Animals)
    → Appended a s s'
    → ListOk leaked s
    → HasKind a
    → length s.list < 50
    → s.live a.node ≡ false
    → ListOk leaked s'
Appended-ListOk {leaked} a s s' new ok kind room fresh =
    let small = IsKind-IsSmall kind in
    let (sizes, weights) = kinds_bound s.list ok.kinds in
    let at = ap length new.list in
    let longer = length-append s.list (a ∷ []) in
    record {
      kinds = subst (All HasKind) (sym new.list) (All_snoc HasKind s.list a ok.kinds kind);
      total_cnt = omega (arith, new.total_cnt, ok.total_cnt, at, longer);
      total_length = omega (
        arith,
        new.total_length,
        ok.total_length,
        ap (tally (λ (x : Animal). x.size)) new.list,
        tally_snoc (λ (x : Animal). x.size) s.list a,
      );
      total_weight = omega (
        arith,
        new.total_weight,
        ok.total_weight,
        ap (tally (λ (x : Animal). x.weight)) new.list,
        tally_snoc (λ (x : Animal). x.weight) s.list a,
      );
      limit = omega (arith, at, longer);
      blocks = λ k.
          subst (λ l. occurs node_of k l + leaked k ≡ (if s'.live k then 1 else 0)) (sym new.list)
            (subst
              (λ (f : ℕ → Bool).
                occurs node_of k (s.list ++ a ∷ []) + leaked k ≡ (if f k then 1 else 0))
              (sym new.live) (ground (arith, ok.blocks k, occurs_snoc node_of k s.list a)));
    }

-- What add_animal does on every branch.
pub data Added (block : Option ℕ) (kind : ℕ) (s : Animals) : Animals × Code → Type 0 where
  full : length s.list ≡ 50 → Added block kind s (s, Code.done)
  strange : length s.list < 50 → 2 < kind → Added block kind s (s, Code.no_type)
  no_block : length s.list < 50 → kind ≤ 2 → block ≡ none → Added block kind s (s, Code.enomem)
  added :
      {a : Animal} {s' : Animals}
      → length s.list < 50
      → IsKind kind a
      → block ≡ some a.node
      → Appended a s s'
      → Added block kind s (s', Code.done)

limit_test :
    {leaked : ℕ → ℕ} {s : Animals}
    → ListOk leaked s
    → length s.list < 50
    → signed_leb max_animals s.total_cnt ≡ false
limit_test ok room = ground (arith, ok.total_cnt)

features_other : (k : ℕ) → 2 < k → features k ≡ none
unfolding features
features_other k h = ground arith

add_animal_room :
    (block : Option ℕ) (kind : ℕ) (s : Animals)
    → length s.list < 50
    → signed_leb max_animals s.total_cnt ≡ false
    → Added block kind s (add_animal block kind s)
unfolding add_animal
add_animal_room none zero s room h = rw h (Added.no_block room (omega arith) refl)
add_animal_room (some a) zero s room h =
    rw h (
      Added.added {a = hamster a} room IsKind.is_hamster refl
        (list_add_tail-Appended (hamster a) s))
add_animal_room none (suc zero) s room h = rw h (Added.no_block room (omega arith) refl)
add_animal_room (some a) (suc zero) s room h =
    rw h (Added.added {a = cat a} room IsKind.is_cat refl (list_add_tail-Appended (cat a) s))
add_animal_room none (suc (suc zero)) s room h = rw h (Added.no_block room (omega arith) refl)
add_animal_room (some a) (suc (suc zero)) s room h =
    rw h (Added.added {a = dog a} room IsKind.is_dog refl (list_add_tail-Appended (dog a) s))
add_animal_room block (suc (suc (suc k))) s room h =
    rw (h, features_other (suc (suc (suc k))) (omega arith)) (Added.strange room (omega arith))

add_animal-full :
    (block : Option ℕ) (kind : ℕ) (s : Animals)
    → signed_leb max_animals s.total_cnt ≡ true
    → add_animal block kind s ≡ (s, Code.done)
unfolding add_animal
add_animal-full block kind s h = rw h

pub add_animal-Added :
    {leaked : ℕ → ℕ} (block : Option ℕ) (kind : ℕ) (s : Animals)
    → ListOk leaked s
    → Added block kind s (add_animal block kind s)
add_animal-Added block kind s ok = elim (Bool-cases (signed_leb max_animals s.total_cnt)) [
  | inl h ↦
      subst (Added block kind s) (sym (add_animal-full block kind s h))
        (Added.full (ground (arith, ok.total_cnt, ok.limit)))
  | inr h ↦ add_animal_room block kind s (ground (arith, ok.total_cnt, ok.limit)) h
]

-- A block that kmalloc gives was not allocated before.
abbrev pub IsFreshFor : Animals → Option ℕ → Type 0
IsFreshFor s block = (a : ℕ) → block ≡ some a → s.live a ≡ false

Added-ListOk :
    {leaked : ℕ → ℕ} {block : Option ℕ} {kind : ℕ} {s : Animals} {out : Animals × Code}
    → Added block kind s out
    → IsFreshFor s block
    → ListOk leaked s
    → ListOk leaked out.0
Added-ListOk (Added.full h) fresh ok = ok
Added-ListOk (Added.strange room h) fresh ok = ok
Added-ListOk (Added.no_block room h e) fresh ok = ok
Added-ListOk {s = s} (Added.added {a} {s'} room kind e new) fresh ok =
    Appended-ListOk a s s' new ok (IsKind-HasKind kind) room (fresh a.node e)

-- add_animal adds nothing to a full list of 50, and answers -1 for an unknown kind and -ENOMEM if
-- there is no memory; otherwise it puts an animal of the kind at the back of the list, and counts it. The totals stay
-- right, and the message and the two flags are left alone.
pub add_animal_lem :
    {leaked : ℕ → ℕ} (block : Option ℕ) (kind : ℕ) (s : Animals)
    → ListOk leaked s
    → IsFreshFor s block
    → Added block kind s (add_animal block kind s) × ListOk leaked (add_animal block kind s).0
add_animal_lem block kind s ok fresh =
    let what = add_animal-Added block kind s ok in (what, Added-ListOk what fresh ok)
