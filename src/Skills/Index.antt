-- ===== src/Skills/Index.antt =====
-- skills/registry/SkillRegistry.cpp: the index of names agrees with the skills.
use task_messenger.Common.{
  ℕ, ◌≡◌, refl, ap, sym, subst, ◌∙◌, inl, inr, Bool, true, false, Option, none, some, List, [], ◌∷◌,
  arith, lookup, put, lookup-put, Bool-cases, Option-cases, if◌then◌else◌, ◌==◌,
}
use task_messenger.Skills.{
  Skill, SkillRegistry, same_name, id_of, index, register_skill, get_skill_id, get_skill_name,
  has_skill,
}

same_name→≡ : (s t : List ℕ) → same_name s t ≡ true → s ≡ t
same_name→≡ [] [] e = refl
same_name→≡ [] (b ∷ t) e = absurd (cc)
same_name→≡ (a ∷ s) [] e = absurd (cc)
same_name→≡ (a ∷ s) (b ∷ t) e = ground (arith, same_name→≡ s t)

same_name_refl : (s : List ℕ) → same_name s s ≡ true
same_name_refl [] = refl
same_name_refl (a ∷ s) = ground (arith, same_name_refl s)

test_twice {ℓ} :
    {A : Type ℓ} (b : Bool) (x y z : A)
    → (if b then x else y) ≡ (if b then x else if b then z else y)
test_twice true x y z = refl
test_twice false x y z = refl

-- Two names that differ are not both a third one.
differ_from :
    (n name other : List ℕ)
    → same_name n name ≡ false
    → same_name n other ≡ true
    → same_name name other ≡ false
differ_from n name other e p = elim (Bool-cases (same_name name other)) [
  | inl q ↦
      let here : n ≡ name = same_name→≡ n other p ∙ sym (same_name→≡ name other q) in
      absurd (cc (ap (λ s. same_name s name) here, same_name_refl name))
  | inr q ↦ q
]

test_swap {ℓ} :
    {A : Type ℓ} (b c : Bool) (x y z : A)
    → (b ≡ true → c ≡ false)
    → (if b then x else if c then y else z) ≡ (if c then y else if b then x else z)
test_swap true true x y z n = absurd (cc (n refl))
test_swap true false x y z n = refl
test_swap false c x y z n = refl

id_of-index :
    (name other : List ℕ) (id : ℕ) (m : List (List ℕ × ℕ))
    → id_of other (index name id m) ≡ (if same_name name other then some id else id_of other m)
id_of-index name other id [] = refl
id_of-index name other id ((n, j) ∷ m) = elim (Bool-cases (same_name n name)) [
  | inl e ↦ rw (same_name→≡ n name e) (
      rw (same_name_refl name)
        (test_twice (same_name name other) (some id) (id_of other m) (some j)))
  | inr e ↦
      rw (e, id_of-index name other id m)
        (test_swap (same_name n other) (same_name name other) (some j) (some id) (id_of other m)
          (differ_from n name other e))
]

-- What the index names is there, under that name.
pub record IsIndexed (r : SkillRegistry) : Type 0 where
  pub named :
      (name : List ℕ) (id : ℕ)
      → get_skill_id r name ≡ some id
      → (skill : Skill) × (lookup id r.skills ≡ some skill) × (skill.skill_name ≡ name)

-- The registry with one more skill.
abbrev added : Skill → SkillRegistry → SkillRegistry
added skill r = record {
  skills = put skill.skill_id skill r.skills;
  name_to_id = index skill.skill_name skill.skill_id r.name_to_id;
}

-- Where the registration does not abort, a skill that had the id has the name.
registered :
    (skill : Skill) (r r' : SkillRegistry)
    → register_skill skill r ≡ some r'
    → (r' ≡ added skill r)
      × ((old : Skill)
          → lookup skill.skill_id r.skills ≡ some old
          → same_name old.skill_name skill.skill_name ≡ true)
registered skill r r' e = elim (Option-cases (lookup skill.skill_id r.skills)) [
  | inl n ↦ (ground arith, λ old o. absurd (cc))
  | inr (old, o) ↦ elim (Bool-cases (same_name old.skill_name skill.skill_name)) [
    | inl p ↦ (ground arith, λ other q. ground arith)
    | inr p ↦ absurd (ground arith)
  ]
]

old-Name :
    (skill : Skill) (r : SkillRegistry) (name : List ℕ) (id : ℕ) (old : Skill)
    → ((old : Skill)
        → lookup skill.skill_id r.skills ≡ some old
        → same_name old.skill_name skill.skill_name ≡ true)
    → same_name skill.skill_name name ≡ false
    → lookup id r.skills ≡ some old
    → old.skill_name ≡ name
    → (skill.skill_id == id) ≡ false
old-Name skill r name id old agree e at named = elim (Bool-cases (skill.skill_id == id)) [
  | inl p ↦
      let here : skill.skill_id ≡ id = ground arith in
      let one : old.skill_name ≡ skill.skill_name =
        same_name→≡ old.skill_name skill.skill_name
          (agree old (ap (λ i. lookup i r.skills) here ∙ at)) in
      absurd (cc (ap (λ s. same_name s name) (sym one ∙ named), same_name_refl name))
  | inr p ↦ p
]

added-IsIndexed :
    (skill : Skill) (r : SkillRegistry)
    → ((old : Skill)
        → lookup skill.skill_id r.skills ≡ some old
        → same_name old.skill_name skill.skill_name ≡ true)
    → IsIndexed r
    → IsIndexed (added skill r)
added-IsIndexed skill r agree v = record {
  named = λ name id e.
      let e' = sym (id_of-index skill.skill_name name skill.skill_id r.name_to_id) ∙ e in
      elim (Bool-cases (same_name skill.skill_name name)) [
        | inl p ↦
            let here : skill.skill_id ≡ id = ground arith in
            (
              skill,
              lookup-put skill.skill_id id skill r.skills ∙ ground arith,
              same_name→≡ skill.skill_name name p,
            )
        | inr p ↦
            let (old, at, named) = v.named name id (ground arith) in
            let apart = old-Name skill r name id old agree p at named in
            (old, lookup-put skill.skill_id id skill r.skills ∙ rw apart at, named)
      ];
}

register-IsIndexed :
    (skill : Skill) (r r' : SkillRegistry)
    → register_skill skill r ≡ some r'
    → IsIndexed r
    → IsIndexed r'
register-IsIndexed skill r r' e v =
    let (same, agree) = registered skill r r' e in
    subst IsIndexed (sym same) (added-IsIndexed skill r agree v)

-- Registering skills one after another; an abort ends it.
abbrev pub register_all : List Skill → SkillRegistry → Option SkillRegistry
register_all [] r = some r
register_all (skill ∷ skills) r = elim (register_skill skill r) [
  | none ↦ none
  | some r' ↦ register_all skills r'
]

register_all-IsIndexed :
    (skills : List Skill) (r r' : SkillRegistry)
    → register_all skills r ≡ some r'
    → IsIndexed r
    → IsIndexed r'
register_all-IsIndexed [] r r' e v = let same : r ≡ r' = ground arith in subst IsIndexed same v
register_all-IsIndexed (skill ∷ skills) r r' e v = elim (Option-cases (register_skill skill r)) [
  | inl n ↦ absurd (ground arith)
  | inr (s, p) ↦
      register_all-IsIndexed skills s r' (ground arith) (register-IsIndexed skill r s p v)
]

-- After any registrations that do not abort, the id that the registry gives for a name is that of
-- a skill of that name, also where a name was registered twice.
pub get_skill_name-get_skill_id :
    (skills : List Skill) (r : SkillRegistry) (name : List ℕ) (id : ℕ)
    → register_all skills (record { skills = []; name_to_id = [] }) ≡ some r
    → get_skill_id r name ≡ some id
    → (get_skill_name r id ≡ name) × (has_skill r id ≡ true)
get_skill_name-get_skill_id skills r name id e f =
    let v = register_all-IsIndexed skills _ r e (record { named = λ n i g. absurd (cc) }) in
    let (skill, at, named) = v.named name id f in (rw at named, rw at refl)
