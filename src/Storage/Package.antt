-- ===== src/Storage/Package.antt =====
-- Stored packages and the authoring context that the backend owns (storage/packageRepository.ts, lines
-- 18 to 262). Of a package the model has its id and its fields; one text stands for the rest.
use Prim.Native.String.{◌++◌}
use flowdoc_vnext_backend.Common.{
  ℕ, String, Bool, true, false, ◌&&◌, Option, none, some, ◌==◌, text_eq,
}

pub record PackageV2 : Type 0 where
  pub id : String
  pub carried : String

pub record PackageV3 : Type 0 where
  pub id : String
  pub fields : String
  pub carried : String

-- BackendStoredPackage: package 2 with document 3, or package 3 with document 4.
pub data StoredPackage : Type 0 where
  active : PackageV2 → StoredPackage
  next : PackageV3 → StoredPackage

-- isBackendActivePackage
abbrev pub is_active : StoredPackage → Bool
is_active (active p) = true
is_active (next p) = false

abbrev pub package_id : StoredPackage → String
package_id (active p) = p.id
package_id (next p) = p.id

-- What Core does with packages; none where it throws.
pub record CorePackages : Type 0 where
  pub serialize_v2 : PackageV2 → Option PackageV2
  pub parse_v3 : PackageV3 → Option PackageV3
  pub serialize_v3 : PackageV3 → Option PackageV3

pub record DraftRef : Type 0 where
  pub structure_id : String
  pub draft_id : String
  pub revision : ℕ

-- BackendStructureDraftAuthoringContext. The policies, the same in every context, are left out.
pub record AuthoringContext : Type 0 where
  pub artifact : DraftRef
  pub field_contract_id : String
  pub field_owner : DraftRef
  pub registry : String
  pub policy_set_id : String
  pub policy_owner : DraftRef

-- createDraftAuthoringContext
unfoldable pub create_context : PackageV3 → ℕ → AuthoringContext
create_context pack revision =
    let draft : DraftRef = record {
      structure_id = "structure:" ++ pack.id;
      draft_id = "draft:" ++ pack.id;
      revision = revision;
    } in
    record {
      artifact = draft;
      field_contract_id = "fields:" ++ pack.id ++ ":draft";
      field_owner = draft;
      registry = pack.fields;
      policy_set_id = "policy:" ++ pack.id ++ ":draft";
      policy_owner = draft;
    }

-- advanceDraftAuthoringContext
unfoldable pub advance_context :
    Option AuthoringContext → StoredPackage → ℕ → Option AuthoringContext
advance_context none pack revision = none
advance_context (some c) (active p) revision = none
advance_context (some c) (next p) revision =
    let draft : DraftRef = record {
      structure_id = c.artifact.structure_id;
      draft_id = c.artifact.draft_id;
      revision = revision;
    } in
    some (record {
      artifact = draft;
      field_contract_id = c.field_contract_id;
      field_owner = draft;
      registry = p.fields;
      policy_set_id = c.policy_set_id;
      policy_owner = draft;
    })

-- The equality of the JSON texts of a stored package and of a target of a migration.
abbrev pub same_package : StoredPackage → PackageV3 → Bool
same_package (active p) q = false
same_package (next p) q = p.id == q.id && p.fields == q.fields && p.carried == q.carried
