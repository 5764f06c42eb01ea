-- ===== src/Entity/Entries.antt =====
-- The entries under review as rows of their own: `create`, `update`, `remove`, `clearByResourceId`,
-- the updates of translations and `retranslateEntity` of
-- src/pending-entity/pending-entity.service.ts. Executions that it creates are part of its answer.
use documents_backend.Common.{
  ℕ, String, Bool, not, ◌&&◌, Option, none, some, List, [], ◌∷◌, ◌++◌, filter, nat_eq, str_eq,
  get_or, or_else, truthy, if◌then◌else◌,
}
use documents_backend.Common.Dict.{Dict, lookup, insert}
use documents_backend.Entity.Store.{EntityScope, document, EntityAlias}
use documents_backend.Entity.Service.{concat_translations}
use documents_backend.Entity.Pending.{
  pending, PendingEntity, Review, Reply, refusal, success_of, find_entry, save_entry,
}

pub record CreatePendingEntity : Type 0 where
  pub resource_id : ℕ
  pub name : String
  pub entity_type_id : Option ℕ
  pub aliases : Option (List EntityAlias)
  pub scope : Option EntityScope
  pub translations : Option (Dict String)

pub record UpdatePendingEntity : Type 0 where
  pub name : Option String
  -- `none` is `undefined`; the number 0 takes the type away.
  pub entity_type_id : Option ℕ
  pub aliases : Option (List EntityAlias)
  pub scope : Option EntityScope
  pub translations : Option (Dict String)

abbrev pub nonzero : ℕ → Option ℕ
nonzero n = if nat_eq n 0 then none else some n

abbrev pub type_of : Option ℕ → Option ℕ
type_of none = none
type_of (some n) = nonzero n

-- The number is the table's, the language that of the resource, if it is there.
abbrev pub new_entry : ℕ → Option String → CreatePendingEntity → PendingEntity
new_entry id language dto = record {
  id = id;
  resource_id = dto.resource_id;
  name = dto.name;
  description = none;
  language = language;
  translations = dto.translations;
  aliases = dto.aliases;
  scope = get_or dto.scope document;
  status = pending;
  merged_target_type = none;
  merged_target_id = none;
  merged_at = none;
  entity_type = type_of dto.entity_type_id;
}

abbrev pub create_entry : ℕ → Option String → CreatePendingEntity → Review → PendingEntity × Review
create_entry id language dto r =
    let p = new_entry id language dto in (p, record r { entries = r.entries ++ p ∷ [] })

abbrev pub changed_entry : UpdatePendingEntity → PendingEntity → PendingEntity
changed_entry dto p = record p {
  name = get_or dto.name p.name;
  aliases = or_else dto.aliases p.aliases;
  scope = get_or dto.scope p.scope;
  translations = or_else dto.translations p.translations;
  entity_type = elim dto.entity_type_id [ none ↦ p.entity_type | some n ↦ nonzero n ];
}

-- `findOneBy`, and a change of what it finds.
abbrev pub change_entry :
    (PendingEntity → PendingEntity) → Option PendingEntity → Review → Option PendingEntity × Review
change_entry change none r = (none, r)
change_entry change (some p) r = (some (change p), save_entry (change p) r)

abbrev pub update_entry : ℕ → UpdatePendingEntity → Review → Option PendingEntity × Review
update_entry id dto r = change_entry (changed_entry dto) (find_entry id r) r

abbrev pub remove_entry : ℕ → Review → Option PendingEntity × Review
remove_entry id r = elim (find_entry id r) [
  | none ↦ (none, r)
  | some p ↦ (some p, record r { entries = filter (λ x. not (nat_eq x.id p.id)) r.entries })
]

abbrev pub clear_by_resource_id : ℕ → Review → Review
clear_by_resource_id resource_id r = record r {
  entries = filter (λ x. not (nat_eq x.resource_id resource_id)) r.entries;
}

abbrev pub translate : Dict String → PendingEntity → PendingEntity
translate translations p = record p {
  translations = some (concat_translations (get_or p.translations []) translations);
}

abbrev pub update_entry_translations : ℕ → Dict String → Review → Option PendingEntity × Review
update_entry_translations id translations r =
    change_entry (translate translations) (find_entry id r) r

unfoldable pub batch_update_translations : List (ℕ × Dict String) → Review → Review
batch_update_translations [] r = r
batch_update_translations ((id, translations) ∷ updates) r =
    batch_update_translations updates (update_entry_translations id translations r).1

-- What is asked of an execution of the kind `translate`.
pub record Translation : Type 0 where
  pub resource_id : ℕ
  pub text : String
  pub target_languages : List String
  pub entity_id : ℕ

abbrev pub renamed : String → String → Dict String → Dict String
renamed current_language new_name translations =
    if str_eq current_language "en"
    then translations
    else insert current_language new_name translations

-- A language other than English for which there is no translation, or an empty one.
abbrev pub is_wanted : Dict String → String → Bool
is_wanted translations language =
    not (str_eq language "en") && not (truthy (lookup language translations))

unfoldable pub languages_to_translate : Dict String → String → String → List String
languages_to_translate translations resource_language target_language =
    (if is_wanted translations resource_language then resource_language ∷ [] else [])
    ++ (if is_wanted translations target_language && not (str_eq target_language resource_language)
        then target_language ∷ []
        else [])

abbrev pub asked : PendingEntity → List String → Option Translation
asked p [] = none
asked p (l ∷ ls) = some (record {
  resource_id = p.resource_id;
  text = p.name;
  target_languages = l ∷ ls;
  entity_id = p.id;
})

abbrev pub retranslate_found :
    Option PendingEntity
    → String
    → String
    → String
    → String
    → Review
    → (Reply × Review) × Option Translation
retranslate_found none new_name current_language resource_language target_language r =
    (refusal "Pending entity not found" r, none)
retranslate_found (some p) new_name current_language resource_language target_language r =
    let translations = renamed current_language new_name (get_or p.translations []) in
    (
      success_of "" (save_entry (record p { translations = some translations }) r),
      asked p (languages_to_translate translations resource_language target_language),
    )

unfoldable pub retranslate_entity :
    ℕ → String → String → String → String → Review → (Reply × Review) × Option Translation
retranslate_entity id new_name current_language resource_language target_language r =
    retranslate_found (find_entry id r) new_name current_language resource_language target_language
      r
