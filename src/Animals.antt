-- ===== src/Animals.antt =====
-- course_materials/Project2_Examples/04_lists/random_animals.c: a list to which every open of the
-- proc file adds an animal.
pub mod Adding
pub mod Deleting
pub mod Showing
mod Examples
use cop4610_project.Base.{
  ℕ, ◌+◌, ◌%◌, ◌^◌, Bool, true, false, not, ◌&&◌, ◌==◌, if◌then◌else◌, Option, none, some, ◌>>=◌,
  List, [], ◌∷◌, ◌++◌, Text, codes, show_int, length, add32, signed_ltb, signed_leb, update,
  without,
}

abbrev pub max_animals : ℕ
max_animals = 50

-- An animal is identified by the address of its block.
pub record Animal : Type 0 where
  pub node : ℕ
  pub id : ℕ
  pub size : ℕ
  pub weight : ℕ
  pub name : Text

-- The text buffer: NULL, fresh from kmalloc, or holding a string.
pub data Buffer : Type 0 where
  absent unwritten : Buffer
  holds : Text → Buffer

-- The variables of the module, and which blocks of animals are allocated.
pub record Animals : Type 0 where
  pub total_cnt : ℕ
  pub total_length : ℕ
  pub total_weight : ℕ
  pub list : List Animal
  pub live : ℕ → Bool
  pub message : Buffer
  pub read_p : Bool
  pub proc_entry : Bool

-- What the functions return: 0, -1 and -ENOMEM.
pub data Code : Type 0 where
  done no_type enomem : Code

-- The switch of add_animal: length, weight and name.
unfoldable pub features : ℕ → Option (ℕ × ℕ × Text)
features n =
    if n == 0
    then some (2, 1, codes "hamster")
    else if n == 1
    then some (18, 160, codes "cat")
    else if n == 2
    then some (28, 1200, codes "dog")
    else none

-- The end of add_animal: the new animal at the back of the list.
unfoldable pub list_add_tail : Animal → Animals → Animals
list_add_tail a s = record s {
  list = s.list ++ a ∷ [];
  live = update s.live a.node true;
  total_cnt = add32 s.total_cnt 1;
  total_length = add32 s.total_length a.size;
  total_weight = add32 s.total_weight a.weight;
}

-- `block` is the result of kmalloc.
unfoldable pub add_animal : (block : Option ℕ) (kind : ℕ) → Animals → Animals × Code
unfolding features list_add_tail
add_animal block kind s =
    if signed_leb max_animals s.total_cnt then (s, Code.done) else elim (features kind) [
      | none ↦ (s, Code.no_type)
      | some (size, weight, name) ↦ elim block [
        | none ↦ (s, Code.enomem)
        | some a ↦ (
          list_add_tail (record { node = a; id = kind; size = size; weight = weight; name = name })
              s,
          Code.done,
        )
      ]
    ]

-- The names, from the animal with number `i` on: a new line before every fifth.
unfoldable pub entries : ℕ → List Animal → Text
entries i [] = []
entries i (a ∷ rest) =
    (if i % 5 == 0 && signed_ltb 0 i then codes "\n" else [])
    ++ a.name
    ++ codes " "
    ++ entries (add32 i 1) rest

unfoldable pub totals_text : Animals → Text
totals_text s =
    codes "Total count is: "
    ++ show_int s.total_cnt
    ++ codes "\n"
    ++ codes "Total length is: "
    ++ show_int s.total_length
    ++ codes "\n"
    ++ codes "Total weight is: "
    ++ show_int s.total_weight
    ++ codes "\n"
    ++ codes "Animals seen:\n"

unfoldable pub animals_text : Animals → Text
animals_text s = totals_text s ++ entries 0 s.list ++ codes "\n"

-- `scratch` says whether kmalloc gave the temporary buffer; strcpy to NULL is a fault.
unfoldable pub print_animals : (scratch : Bool) → Animals → Option (Animals × Code)
print_animals scratch s = if not scratch then some (s, Code.enomem) else elim s.message [
  | absent ↦ none
  | unwritten ↦ some (record s { message = Buffer.holds (animals_text s) }, Code.done)
  | holds old ↦ some (record s { message = Buffer.holds (animals_text s) }, Code.done)
]

-- The first loop of delete_animals, over the nodes of the list at its start: list_move_tail takes
-- the node out of the list on which it stands and puts it at the end of move_list.
unfoldable pub move_kind : ℕ → List Animal → (List Animal × List Animal) → List Animal × List Animal
move_kind kind [] lists = lists
move_kind kind (a ∷ rest) (list, move_list) = move_kind kind rest (
    if a.id == kind
    then (without (λ x. x.node) a.node list, without (λ x. x.node) a.node move_list ++ a ∷ [])
    else (list, move_list))

-- kfree of an animal: a block that is not allocated is a fault.
unfoldable pub free_animal : ℕ → Animals → Option Animals
free_animal a s = if s.live a then some (record s { live = update s.live a false }) else none

-- The last loop of delete_animals. The list on which the nodes stand is not used after it.
unfoldable pub free_moved : List Animal → Animals → Option Animals
free_moved [] s = some s
free_moved (a ∷ rest) s = do
  s' ← free_animal a.node (record s { list = without (λ x. x.node) a.node s.list })
  free_moved rest s'

unfoldable pub delete_animals : ℕ → Animals → Option Animals
delete_animals kind s =
    let (list, move_list) = move_kind kind s.list (s.list, []) in
    free_moved move_list (record s { list = list })

-- `got` says whether kmalloc gave the buffer, `random` is the result of get_random_int.
unfoldable pub animal_proc_open :
    (got : Bool) (block : Option ℕ) (scratch : Bool) (random : ℕ)
    → Animals
    → Option (Animals × Code)
animal_proc_open got block scratch random s =
    if got
    then print_animals scratch
        (add_animal block (random % 3) (record s { read_p = true; message = Buffer.unwritten })).0
    else some (record s { read_p = true; message = Buffer.absent }, Code.enomem)

-- The text that is copied to the user, and the value. strlen needs a string, also where nothing is
-- copied; the size that was asked for is not looked at.
unfoldable pub animal_proc_read : Animals → Option (Animals × Text × ℕ)
animal_proc_read s = elim s.message [
  | absent ↦ none
  | unwritten ↦ none
  | holds text ↦
      let read_p = not s.read_p in
      some (
        if read_p
        then (record s { read_p = read_p }, [], 0)
        else (record s { read_p = read_p }, text, length text))
]

unfoldable pub animal_proc_release : Animals → Animals
animal_proc_release s = record s { message = Buffer.absent }

-- The totals and the list are set only if proc_create gave an entry.
unfoldable pub animal_init : (created : Bool) → Animals → Animals × Code
animal_init created s =
    if created
    then (
      record s { proc_entry = true; total_cnt = 0; total_length = 0; total_weight = 0; list = [] },
      Code.done,
    )
    else (record s { proc_entry = false }, Code.enomem)

unfoldable pub animal_exit : Animals → Option Animals
animal_exit s = do
  s1 ← delete_animals 0 s
  s2 ← delete_animals 1 s1
  s3 ← delete_animals 2 s2
  some (record s3 { proc_entry = false })
