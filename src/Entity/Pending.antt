-- ===== src/Entity/Pending.antt =====
-- `mergeEntity` and `cancelMerge` of src/pending-entity/pending-entity.service.ts: an extracted
-- entity under review is made an alias of another, and the merge is taken back. Neither runs into
-- the handler of errors of the database, which is left out.
use documents_backend.Common.{
  ℕ, String, Bool, true, false, not, ◌&&◌, Option, none, some, List, [], ◌∷◌, ◌++◌, map, filter,
  find, nat_eq, str_eq, get_or, if◌then◌else◌,
}
use documents_backend.Entity.Store.{
  EntityScope, document, project, global, EntityAlias, Entity, Store, find_entity, save_entity,
}
use documents_backend.Common.Dict.{Dict}

pub data PendingStatus : Type 0 where
  pending merged : PendingStatus

-- `'pending' | 'confirmed'` of a target.
pub data TargetType : Type 0 where
  under_review confirmed : TargetType

pub record PendingEntity : Type 0 where
  pub id : ℕ
  pub resource_id : ℕ
  pub name : String
  pub description : Option String
  pub language : Option String
  pub translations : Option (Dict String)
  pub aliases : Option (List EntityAlias)
  pub scope : EntityScope
  pub status : PendingStatus
  pub merged_target_type : Option TargetType
  pub merged_target_id : Option ℕ
  pub merged_at : Option ℕ
  pub entity_type : Option ℕ

-- The entities under review and the library.
pub record Review : Type 0 where
  pub entries : List PendingEntity
  pub library : Store

pub record Reply : Type 0 where
  pub success : Bool
  pub message : String

abbrev pub refusal : String → Review → Reply × Review
refusal message r = (record { success = false; message = message }, r)

abbrev pub success_of : String → Review → Reply × Review
success_of message r = (record { success = true; message = message }, r)

abbrev pub find_entry : ℕ → Review → Option PendingEntity
find_entry id r = find (λ p. nat_eq p.id id) r.entries

abbrev pub save_entry : PendingEntity → Review → Review
save_entry p r = record r { entries = map (λ x. if nat_eq x.id p.id then p else x) r.entries }

-- `entityService.update(id, { aliases })`: an entity that is not there is left alone.
abbrev pub update_aliases : List EntityAlias → Option Entity → Review → Review
update_aliases aliases none r = r
update_aliases aliases (some e) r = record r {
  library = save_entity (record e { aliases = some aliases }) r.library;
}

abbrev pub alias_for : PendingEntity → EntityScope → EntityAlias
alias_for source alias_scope = record {
  locale = "en";
  value = source.name;
  scope = some alias_scope;
}

abbrev pub marked : PendingEntity → TargetType → ℕ → ℕ → PendingEntity
marked source type target_id now = record source {
  status = merged;
  merged_target_type = some type;
  merged_target_id = some target_id;
  merged_at = some now;
}

abbrev pub merge_into_entry :
    PendingEntity → EntityScope → ℕ → Option PendingEntity → Review → Reply × Review
merge_into_entry source alias_scope now none r = refusal "Target pending entity not found" r
merge_into_entry source alias_scope now (some target) r =
    let aliases = get_or target.aliases [] ++ alias_for source alias_scope ∷ [] in
    success_of "Entity marked as merged into pending entity" (
      save_entry (marked source under_review target.id now)
        (save_entry (record target { aliases = some aliases }) r))

abbrev pub merge_into_entity :
    PendingEntity → EntityScope → ℕ → Option Entity → Review → Reply × Review
merge_into_entity source alias_scope now none r = refusal "Target confirmed entity not found" r
merge_into_entity source alias_scope now (some target) r =
    let aliases = get_or target.aliases [] ++ alias_for source alias_scope ∷ [] in
    success_of "Entity marked as merged into confirmed entity" (
      save_entry (marked source confirmed target.id now)
        (update_aliases aliases (find_entity target.id r.library) r))

abbrev pub merge_from :
    Option PendingEntity → TargetType → ℕ → EntityScope → ℕ → Review → Reply × Review
merge_from none type target_id alias_scope now r = refusal "Source entity not found" r
merge_from (some source) under_review target_id alias_scope now r =
    merge_into_entry source alias_scope now (find_entry target_id r) r
merge_from (some source) confirmed target_id alias_scope now r =
    merge_into_entity source alias_scope now (find_entity target_id r.library) r

unfoldable pub merge_entity : ℕ → TargetType → ℕ → EntityScope → ℕ → Review → Reply × Review
merge_entity source_id type target_id alias_scope now r =
    merge_from (find_entry source_id r) type target_id alias_scope now r

abbrev pub scope_eq : EntityScope → EntityScope → Bool
scope_eq document document = true
scope_eq project project = true
scope_eq global global = true
scope_eq _ _ = false

abbrev pub has_scope : EntityScope → Option EntityScope → Bool
has_scope scope none = false
has_scope scope (some s) = scope_eq s scope

abbrev pub without_alias : PendingEntity → List EntityAlias → List EntityAlias
without_alias source aliases =
    filter (λ a. not (str_eq a.value source.name && has_scope source.scope a.scope)) aliases

abbrev pub without_value : PendingEntity → List EntityAlias → List EntityAlias
without_value source aliases = filter (λ a. not (str_eq a.value source.name)) aliases

abbrev pub cancel_in_aliases :
    PendingEntity → PendingEntity → Option (List EntityAlias) → Review → Review
cancel_in_aliases source target none r = r
cancel_in_aliases source target (some aliases) r =
    save_entry (record target { aliases = some (without_alias source aliases) }) r

abbrev pub cancel_in_entry : PendingEntity → Option PendingEntity → Review → Review
cancel_in_entry source none r = r
cancel_in_entry source (some target) r = cancel_in_aliases source target target.aliases r

abbrev pub cancel_in_confirmed :
    PendingEntity → Entity → Option (List EntityAlias) → Review → Review
cancel_in_confirmed source target none r = r
cancel_in_confirmed source target (some aliases) r =
    update_aliases (without_value source aliases) (find_entity target.id r.library) r

abbrev pub cancel_in_entity : PendingEntity → Option Entity → Review → Review
cancel_in_entity source none r = r
cancel_in_entity source (some target) r = cancel_in_confirmed source target target.aliases r

abbrev pub cancel_in : PendingEntity → TargetType → ℕ → Review → Review
cancel_in source under_review target_id r = cancel_in_entry source (find_entry target_id r) r
cancel_in source confirmed target_id r = cancel_in_entity source (find_entity target_id r.library) r

abbrev pub reset : PendingEntity → PendingEntity
reset source = record source {
  status = pending;
  merged_target_type = none;
  merged_target_id = none;
  merged_at = none;
}

-- `!source.mergedTargetId` refuses the number 0 as well.
abbrev pub cancel_merged :
    PendingEntity → PendingStatus → Option TargetType → Option ℕ → Review → Reply × Review
cancel_merged source merged (some type) (some target_id) r =
    if nat_eq target_id 0
    then refusal "Entity is not merged" r
    else success_of "Merge cancelled successfully"
        (save_entry (reset source) (cancel_in source type target_id r))
cancel_merged source _ _ _ r = refusal "Entity is not merged" r

abbrev pub cancel_from : Option PendingEntity → Review → Reply × Review
cancel_from none r = refusal "Source pending entity not found" r
cancel_from (some source) r =
    cancel_merged source source.status source.merged_target_type source.merged_target_id r

unfoldable pub cancel_merge : ℕ → Review → Reply × Review
cancel_merge source_id r = cancel_from (find_entry source_id r) r
