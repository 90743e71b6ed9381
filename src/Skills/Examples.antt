-- ===== src/Skills/Examples.antt =====
-- skills/registry/: the theorems at a skill that is registered twice, and the ids of two names.
use task_messenger.Common.{ℕ, ◌≡◌, refl, true, some, none, [], ◌∷◌}
use task_messenger.Skills.{
  Skill, SkillRegistry, get_skill_name, has_skill, from_name, is_valid_name,
}
use task_messenger.Skills.Index.{get_skill_name-get_skill_id}

-- Its name is "a.b".
abbrev echo : ℕ → Skill
echo id = record {
  skill_id = id;
  skill_name = 97 ∷ 46 ∷ 98 ∷ [];
  create_response_buffer_for_request = λ request. some (record { bytes = request; skill_id = id });
  create_test_request_buffer = λ case_index. none;
  test_case_count = 0;
  verify_response = λ request response. true;
  process = λ request response. (true, request);
}

abbrev registry : SkillRegistry
registry = record {
  skills = (8, echo 8) ∷ (7, echo 7) ∷ [];
  name_to_id = (97 ∷ 46 ∷ 98 ∷ [], 8) ∷ [];
}

get_skill_name-get_skill_id_example :
    (get_skill_name registry 8 ≡ 97 ∷ 46 ∷ 98 ∷ []) × (has_skill registry 8 ≡ true)
get_skill_name-get_skill_id_example =
    get_skill_name-get_skill_id (echo 7 ∷ echo 8 ∷ []) registry (97 ∷ 46 ∷ 98 ∷ []) 8 refl refl

-- FNV-1a of "a".
from_name_test : from_name (97 ∷ []) ≡ 0xE40C292C
unfolding from_name
from_name_test = refl

-- "a.b." has an empty last segment.
is_valid_name_test : is_valid_name (97 ∷ 46 ∷ 98 ∷ 46 ∷ []) ≡ true
unfolding is_valid_name
is_valid_name_test = refl
