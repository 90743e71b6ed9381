-- ===== src/Skills.antt =====
-- skills/registry/SkillRegistry.cpp and SkillKey.hpp. A skill's own code is a parameter: what it
-- allocates for a request, what it writes into that buffer, its test cases and how it verifies.
pub mod Index
mod Examples
use task_messenger.Common.{
  ℕ, suc, ◌-◌, ◌*◌, ◌%◌, ◌^◌, Bool, true, false, Option, none, some, List, lookup, put, not, ◌&&◌,
  ◌||◌, ◌==◌, [], ◌∷◌, if◌then◌else◌, length,
}
use Prim.Native.Nat.{bit_xor}
use task_messenger.Message.{PayloadBuffer}

pub record Skill : Type 0 where
  pub skill_id : ℕ
  pub skill_name : List ℕ
  pub create_response_buffer_for_request : List ℕ → Option PayloadBuffer
  pub create_test_request_buffer : ℕ → Option PayloadBuffer
  pub test_case_count : ℕ
  pub verify_response : List ℕ → List ℕ → Bool
  pub process : List ℕ → List ℕ → Bool × List ℕ

pub record SkillRegistry : Type 0 where
  pub skills : List (ℕ × Skill)
  pub name_to_id : List (List ℕ × ℕ)

abbrev pub same_name : List ℕ → List ℕ → Bool
same_name [] [] = true
same_name (a ∷ s) (b ∷ t) = a == b && same_name s t
same_name _ _ = false

-- `name_to_id_`: a write replaces the entry of the name.
abbrev pub id_of : List ℕ → List (List ℕ × ℕ) → Option ℕ
id_of name [] = none
id_of name ((other, id) ∷ m) = if same_name other name then some id else id_of name m

abbrev pub index : List ℕ → ℕ → List (List ℕ × ℕ) → List (List ℕ × ℕ)
index name id [] = (name, id) ∷ []
index name id ((other, j) ∷ m) =
    if same_name other name then (other, id) ∷ m else (other, j) ∷ index name id m

abbrev collides : Skill → Option Skill → Bool
collides skill none = false
collides skill (some other) = not (same_name other.skill_name skill.skill_name)

-- `none`: the process aborts, since two names have one id.
abbrev pub register_skill : Skill → SkillRegistry → Option SkillRegistry
register_skill skill r =
    if collides skill (lookup skill.skill_id r.skills)
    then none
    else some (record {
      skills = put skill.skill_id skill r.skills;
      name_to_id = index skill.skill_name skill.skill_id r.name_to_id;
    })

abbrev is_some {ℓ} : {A : Type ℓ} → Option A → Bool
is_some none = false
is_some (some a) = true

-- `has_skill`, by id and by name.
abbrev pub has_skill : SkillRegistry → ℕ → Bool
has_skill r id = is_some (lookup id r.skills)

abbrev pub get_skill_id : SkillRegistry → List ℕ → Option ℕ
get_skill_id r name = id_of name r.name_to_id

abbrev pub has_skill_named : SkillRegistry → List ℕ → Bool
has_skill_named r name = is_some (id_of name r.name_to_id)

abbrev name_of : Option Skill → List ℕ
name_of none = []
name_of (some skill) = skill.skill_name

abbrev pub get_skill_name : SkillRegistry → ℕ → List ℕ
get_skill_name r id = name_of (lookup id r.skills)

abbrev ids_of : List (ℕ × Skill) → List ℕ
ids_of [] = []
ids_of ((id, skill) ∷ m) = id ∷ ids_of m

abbrev pub skill_ids : SkillRegistry → List ℕ
skill_ids r = ids_of r.skills

abbrev pub skill_count : SkillRegistry → ℕ
skill_count r = length r.skills

abbrev pub clear : SkillRegistry → SkillRegistry
clear r = record { skills = []; name_to_id = [] }

abbrev made_by : Option Skill → List ℕ → Option PayloadBuffer
made_by none request = none
made_by (some skill) request = skill.create_response_buffer_for_request request

abbrev pub create_response_buffer : SkillRegistry → ℕ → List ℕ → Option PayloadBuffer
create_response_buffer r id request = made_by (lookup id r.skills) request

abbrev case_of : Option Skill → ℕ → Option PayloadBuffer
case_of none case_index = none
case_of (some skill) case_index = skill.create_test_request_buffer case_index

abbrev pub create_test_request_buffer : SkillRegistry → ℕ → ℕ → Option PayloadBuffer
create_test_request_buffer r id case_index = case_of (lookup id r.skills) case_index

abbrev count_of : Option Skill → ℕ
count_of none = 0
count_of (some skill) = skill.test_case_count

abbrev pub get_test_case_count : SkillRegistry → ℕ → ℕ
get_test_case_count r id = count_of (lookup id r.skills)

abbrev verified_by : Option Skill → List ℕ → List ℕ → Bool
verified_by none request response = false
verified_by (some skill) request response = skill.verify_response request response

-- Whether it passed.
abbrev pub verify_response : SkillRegistry → ℕ → List ℕ → List ℕ → Bool
verify_response r id request response = verified_by (lookup id r.skills) request response

abbrev run_skill : Option Skill → List ℕ → List ℕ → Bool × List ℕ
run_skill none request response = (false, response)
run_skill (some skill) request response = skill.process request response

-- Whether it succeeded, and the response buffer's bytes.
abbrev pub dispatch : SkillRegistry → ℕ → List ℕ → List ℕ → Bool × List ℕ
dispatch r id request response = run_skill (lookup id r.skills) request response

abbrev mix : ℕ → List ℕ → ℕ
mix hash [] = hash
mix hash (c ∷ name) = mix (bit_xor hash c * 16_777_619 % 2 ^ 32) name

-- `SkillKey::from_name`: FNV-1a, of the name's bytes.
unfoldable pub from_name : List ℕ → ℕ
from_name name = mix 2_166_136_261 name

-- `name.find('.')`.
abbrev pub find_dot : List ℕ → Option ℕ
find_dot [] = none
find_dot (c ∷ name) =
    if c == 46 then some 0 else elim (find_dot name) [ none ↦ none | some at ↦ some (suc at) ]

abbrev dot_inside : Option ℕ → ℕ → Bool
dot_inside none size = false
dot_inside (some dot) size = not (dot == 0 || dot == size - 1)

-- `SkillKey::is_valid_name`, of the name's characters.
unfoldable pub is_valid_name : List ℕ → Bool
is_valid_name [] = false
is_valid_name (c ∷ name) = dot_inside (find_dot (c ∷ name)) (length (c ∷ name))
