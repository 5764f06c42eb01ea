-- ===== src/Entity/Merge.antt =====
-- `merge` of src/entity/entity.service.ts: an entity is made a part of another.
use Prim.Native.String.{◌++◌ as ◌<>◌}
use documents_backend.Common.{
  ℕ, String, Bool, not, ◌&&◌, Option, none, some, List, [], ◌∷◌, ◌++◌, map, any, filter, nat_eq,
  str_eq, is_some, truthy, get_or, if◌then◌else◌, Result, ok, err, not_found,
}
use documents_backend.Common.Dict.{Dict, lookup, insert}
use documents_backend.Common.Text.{codes, is_space}
use documents_backend.Entity.Store.{
  EntityAlias, Entity, ResourceEntity, Store, find_entity, save_entity, remove, is_on,
}

-- `${locale}:${value}`.
unfoldable pub alias_key : String → String → String
alias_key locale value = locale <> ":" <> value

abbrev pub key_of : EntityAlias → String
key_of a = alias_key a.locale a.value

abbrev pub plain : String → String → EntityAlias
plain locale value = record { locale = locale; value = value; scope = none }

-- `aliasMap`, by the key of its aliases.
abbrev pub AliasMap : Type 0
AliasMap = Dict EntityAlias

unfoldable pub add_alias : EntityAlias → AliasMap → AliasMap
add_alias a aliases =
    if is_some (lookup (key_of a) aliases) then aliases else insert (key_of a) a aliases

unfoldable pub set_aliases : List EntityAlias → AliasMap → AliasMap
set_aliases [] aliases = aliases
set_aliases (a ∷ more) aliases = set_aliases more (insert (key_of a) a aliases)

unfoldable pub add_aliases : List EntityAlias → AliasMap → AliasMap
add_aliases [] aliases = aliases
add_aliases (a ∷ more) aliases = add_aliases more (add_alias a aliases)

-- `value && value.trim().length > 0`.
unfoldable pub is_written : String → Bool
is_written value = any (λ c. not (is_space c)) (codes value)

-- The translations that a test lets through, as aliases: the code goes over them twice, with
-- `is_written` and then with a test for an empty text.
unfoldable pub add_translations : (String → Bool) → Dict String → AliasMap → AliasMap
add_translations test [] aliases = aliases
add_translations test ((locale, value) ∷ more) aliases =
    add_translations test more
      (if test value then add_alias (plain locale value) aliases else aliases)

abbrev pub is_nonempty : String → Bool
is_nonempty value = not (str_eq value "")

-- The translations of the source for which the target has none, or an empty one.
unfoldable pub merge_translations : Dict String → Dict String → Dict String
merge_translations [] merged = merged
merge_translations ((locale, value) ∷ more) merged =
    merge_translations more
      (if truthy (lookup locale merged) then merged else insert locale value merged)

-- The last pass, which pushes to the list of the aliases and keeps the map beside it.
unfoldable pub represent : Dict String → List EntityAlias → AliasMap → List EntityAlias
represent [] final aliases = final
represent ((locale, value) ∷ more) final aliases =
    let alias = plain locale value in
    let is_new = is_nonempty value && not (is_some (lookup (key_of alias) aliases)) in
    represent more (if is_new then final ++ alias ∷ [] else final)
      (if is_new then insert (key_of alias) alias aliases else aliases)

abbrev pub aliases_of : Entity → List EntityAlias
aliases_of e = get_or e.aliases []

abbrev pub translations_of : Entity → Dict String
translations_of e = get_or e.translations []

-- What the map holds after the source was added.
abbrev pub collected : Entity → Entity → AliasMap
collected source target = add_translations is_nonempty (translations_of source) (
    add_translations is_written (translations_of source) (
      add_aliases (aliases_of source)
        (add_alias (plain "en" source.name) (set_aliases (aliases_of target) []))))

abbrev pub merged_translations : Entity → Entity → Dict String
merged_translations source target =
    merge_translations (translations_of source) (translations_of target)

abbrev pub merged_aliases : Entity → Entity → List EntityAlias
merged_aliases source target =
    let aliases = collected source target in
    represent (merged_translations source target) (map (λ (_, a). a) aliases) aliases

-- `list.length > 0 ? list : null`.
abbrev pub or_null {ℓ} : {A : Type ℓ} → List A → Option (List A)
or_null [] = none
or_null (x ∷ xs) = some (x ∷ xs)

abbrev pub merged_entity : Entity → Entity → Entity
merged_entity source target = record target {
  aliases = or_null (merged_aliases source target);
  translations = or_null (merged_translations source target);
}

-- `UPDATE ... WHERE NOT EXISTS`: the test is made on the rows before the statement.
abbrev pub move_row : ℕ → ℕ → List ResourceEntity → ResourceEntity → ResourceEntity
move_row source target rows r =
    if nat_eq r.entity_id source && not (any (is_on r.resource_id target) rows)
    then record r { entity_id = target }
    else r

abbrev pub move_resources : ℕ → ℕ → Store → Store
move_resources source target s = record s {
  resource_entities = map (move_row source target s.resource_entities) s.resource_entities;
}

-- `DELETE FROM resource_entities WHERE entity_id = $1`.
abbrev pub leave_resources : ℕ → Store → Store
leave_resources source s = record s {
  resource_entities = filter (λ r. not (nat_eq r.entity_id source)) s.resource_entities;
}

-- The statements of the merge in their order.
abbrev pub merged_store : Entity → Entity → Store → Store
merged_store source target s = remove source.id (
    leave_resources source.id
      (move_resources source.id target.id (save_entity (merged_entity source target) s)))

unfoldable pub merge_found : Option Entity → Option Entity → Store → Result (Entity × Store)
merge_found none target s = err (not_found "Source entity not found")
merge_found (some source) none s = err (not_found "Target entity not found")
merge_found (some source) (some target) s =
    ok (merged_entity source target, merged_store source target s)

unfoldable pub merge : ℕ → ℕ → Store → Result (Entity × Store)
merge source_id target_id s = merge_found (find_entity source_id s) (find_entity target_id s) s
