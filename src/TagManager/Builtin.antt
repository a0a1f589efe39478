-- ===== src/TagManager/Builtin.antt =====
-- The built-in tags are as they were made.
use lias_dis.Prelude.{
  String, ◌≡◌, refl, sym, ◌∙◌, inl, inr, false, ◌||◌, List, [], ◌∷◌, ◌++◌, str_eq, Bool-cases,
  exists, select,
}
use lias_dis.Prelude.Text.{trim_space}
use lias_dis.TagManager.{
  Tag, Manager, is_builtin, custom, has_id, clean_id, ensure_tag_exists, create, tag_id_of, edited,
  update_in, update, delete_in, delete, equal_fold,
}

custom-is_builtin : (id name color : String) → is_builtin (custom id name color) ≡ false
unfolding is_builtin
custom-is_builtin id name color = refl

edited-is_builtin :
    (name color : String) (t : Tag) → is_builtin (edited name color t) ≡ is_builtin t
unfolding is_builtin
edited-is_builtin name color t = refl

-- `select` keeps or drops the head.
select-cons :
    (t : Tag) (ts us : List Tag)
    → select is_builtin ts ≡ select is_builtin us
    → select is_builtin (t ∷ ts) ≡ select is_builtin (t ∷ us)
unfolding select
select-cons t ts us h = elim (Bool-cases (is_builtin t)) [
  | inl y ↦ rw (y, h) refl
  | inr n ↦ rw (n, h) refl
]

select-skip :
    (t : Tag) (ts : List Tag)
    → is_builtin t ≡ false
    → select is_builtin (t ∷ ts) ≡ select is_builtin ts
unfolding select
select-skip t ts h = rw h refl

select-append_custom :
    (id name color : String) (ts : List Tag)
    → select is_builtin (ts ++ custom id name color ∷ []) ≡ select is_builtin ts
select-append_custom id name color [] =
    select-skip (custom id name color) [] (custom-is_builtin id name color)
select-append_custom id name color (t ∷ ts) =
    select-cons t (ts ++ custom id name color ∷ []) ts (select-append_custom id name color ts)

ensure_tag_exists-builtin :
    (id : String) (m : Manager)
    → select is_builtin (ensure_tag_exists id m).tags ≡ select is_builtin m.tags
unfolding ensure_tag_exists
ensure_tag_exists-builtin id m =
    elim (Bool-cases (str_eq id "" || exists (has_id (clean_id id)) m.tags)) [
      | inl y ↦ rw y refl
      | inr n ↦ rw n (select-append_custom (clean_id id) _ "#0071e3" m.tags)
    ]

create-builtin :
    (name color : String) (m : Manager)
    → select is_builtin (create name color m).1.tags ≡ select is_builtin m.tags
unfolding create
create-builtin name color m = elim (Bool-cases (str_eq (trim_space name) "")) [
  | inl y ↦ rw y refl
  | inr n ↦
      elim (Bool-cases (
        exists
          (λ t. str_eq t.id (tag_id_of (trim_space name)) || equal_fold t.name (trim_space name))
          m.tags)) [
            | inl y ↦ rw (n, y) refl
            | inr k ↦
                rw (n, k)
                  (select-append_custom (tag_id_of (trim_space name)) (trim_space name) color
                    m.tags)
          ]
]

update_in-builtin :
    (id name color : String) (ts : List Tag)
    → select is_builtin (update_in id name color ts).1 ≡ select is_builtin ts
unfolding update_in
update_in-builtin id name color [] = refl
update_in-builtin id name color (t ∷ ts) = elim (Bool-cases (has_id id t)) [
  | inr n ↦
      rw n (select-cons t (update_in id name color ts).1 ts (update_in-builtin id name color ts))
  | inl y ↦ elim (Bool-cases (is_builtin t)) [
    | inl b ↦ rw (y, b) refl
    | inr b ↦
        rw (y, b)
          (select-skip (edited name color t) ts (edited-is_builtin name color t ∙ b)
            ∙ sym (select-skip t ts b))
  ]
]

delete_in-builtin :
    (id : String) (ts : List Tag) → select is_builtin (delete_in id ts).1 ≡ select is_builtin ts
unfolding delete_in
delete_in-builtin id [] = refl
delete_in-builtin id (t ∷ ts) = elim (Bool-cases (has_id id t)) [
  | inr n ↦ rw n (select-cons t (delete_in id ts).1 ts (delete_in-builtin id ts))
  | inl y ↦ elim (Bool-cases (is_builtin t)) [
    | inl b ↦ rw (y, b) refl
    | inr b ↦ rw (y, b) (sym (select-skip t ts b))
  ]
]

-- The calls of the API on the manager; restoring a stored tag is not one of them.
pub data Call : Type 0 where
  ensured : String → Call
  created : String → String → Call
  updated : String → String → String → Call
  deleted : String → Call

unfoldable pub step : Call → Manager → Manager
step (ensured id) m = ensure_tag_exists id m
step (created name color) m = (create name color m).1
step (updated id name color) m = (update id name color m).1
step (deleted id) m = (delete id m).1

unfoldable pub run : List Call → Manager → Manager
run [] m = m
run (c ∷ cs) m = run cs (step c m)

step-builtin :
    (c : Call) (m : Manager) → select is_builtin (step c m).tags ≡ select is_builtin m.tags
unfolding step update delete
step-builtin (ensured id) m = ensure_tag_exists-builtin id m
step-builtin (created name color) m = create-builtin name color m
step-builtin (updated id name color) m = update_in-builtin id name color m.tags
step-builtin (deleted id) m = delete_in-builtin id m.tags

-- No calls that ensure, create, update and delete tags change a built-in tag, take one away, add
-- one or reorder them.
pub run-builtin :
    (cs : List Call) (m : Manager) → select is_builtin (run cs m).tags ≡ select is_builtin m.tags
unfolding run
run-builtin [] m = refl
run-builtin (c ∷ cs) m = run-builtin cs (step c m) ∙ step-builtin c m
