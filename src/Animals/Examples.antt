-- ===== src/Animals/Examples.antt =====
-- The theorems on the animals, at a list of a hamster and a dog.
use cop4610_project.Base.{
  ◌<◌, ◌≡◌, refl, true, false, some, [], ◌∷◌, arith, length, occurs, tally, ◌==◌, ◌||◌,
}
use cop4610_project.Animals.{
  Buffer, Animals, Code, add_animal, delete_animals, animals_text, animal_proc_open,
  animal_proc_read, animal_init, print_animals, features, list_add_tail,
}
use cop4610_project.Animals.Adding.{IsKind, hamster, dog, ListOk, Added, add_animal_lem}
use cop4610_project.Animals.Deleting.{Deleted, delete_animals_lem}
use cop4610_project.Animals.Showing.{
  Reach, AnimalsOk, Reach-AnimalsOk, Longer, grown, shown, visit_shows,
}

-- The variables before the module is loaded.
abbrev before : Animals
before = record {
  total_cnt = 7;
  total_length = 7;
  total_weight = 7;
  list = [];
  live = λ a. false;
  message = Buffer.absent;
  read_p = false;
  proc_entry = false;
}

abbrev pair : Animals
pair = record before {
  total_cnt = 2;
  total_length = 30;
  total_weight = 1201;
  list = hamster 8 ∷ dog 16 ∷ [];
  live = λ a. a == 8 || a == 16;
  proc_entry = true;
}

pair-ListOk : ListOk (λ a. 0) pair
unfolding occurs tally
pair-ListOk = record {
  kinds = (IsKind.is_hamster, (IsKind.is_dog, tt));
  total_cnt = refl;
  total_length = refl;
  total_weight = refl;
  limit = omega arith;
  blocks = λ a. ground arith;
}

add_animal_lem_example :
    Added (some 24) 1 pair (add_animal (some 24) 1 pair)
    × ListOk (λ a. 0) (add_animal (some 24) 1 pair).0
add_animal_lem_example = add_animal_lem (some 24) 1 pair pair-ListOk (λ a e. ground arith)

delete_animals_lem_example :
    (s' : Animals) × (delete_animals 0 pair ≡ some s') × Deleted (λ a. 0) 0 pair s'
delete_animals_lem_example = delete_animals_lem 0 pair pair-ListOk.blocks

-- The module just loaded, and after the first process opened the file.
abbrev empty : Animals
empty = record before { total_cnt = 0; total_length = 0; total_weight = 0; proc_entry = true }

empty-Reach : Reach empty
unfolding animal_init
empty-Reach = Reach.loaded before refl refl

first_open :
    animal_proc_open true (some 24) true 4 empty ≡ some (shown (grown (some 24) 4 empty), Code.done)
unfolding animal_proc_open print_animals add_animal features list_add_tail
first_open = refl

Reach-AnimalsOk_example : AnimalsOk (shown (grown (some 24) 4 empty))
Reach-AnimalsOk_example =
    Reach-AnimalsOk (Reach.opened true (some 24) true 4 empty-Reach (λ a e. refl) first_open)

visit_shows_example :
    (s1 : Animals) × (s2 : Animals) × (s3 : Animals) × (animal_proc_open true (some 24) true 4 pair
      ≡ some (s1, Code.done))
    × (animal_proc_read s1 ≡ some (s2, animals_text s1, length (animals_text s1)))
    × (animal_proc_read s2 ≡ some (s3, [], 0))
    × Longer 24 1 pair.list s1.list
    × ListOk (λ a. 0) s3
    × (length (animals_text s1) < 1000)
visit_shows_example = visit_shows 24 4 pair pair-ListOk refl
