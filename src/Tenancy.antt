-- ===== src/Tenancy.antt =====
-- saap/tenancy/blueprint.py and provisioner.py: the blueprint, and the provisioner over resources. A
-- resource is an interface over one world, which holds the realms, schemas and indexes of all of them.
pub mod Reapply
use mathlib.Core.List.{reverse}
use ai_voice.Prelude.{Bool, true, false, String, Option, none, some, List, [], ◌∷◌}
use ai_voice.Prelude.Dict.{Dict}
use ai_voice.Prelude.Exec.{Result}
use ai_voice.Core.Types.{Locale}
use ai_voice.Core.Flow.{FlowRef}

pub record McpServerConfig : Type 0 where
  pub name : String
  pub allow_list : List String

pub record TenantBlueprint : Type 0 where
  pub name : String
  pub vertical : String
  pub locales : List Locale
  pub flows : List FlowRef
  pub mcp_servers : List McpServerConfig
  pub rag_sources : List String
  pub campaigns : List String
  pub policy_packs : List String
  pub consent_purposes : List String
  pub branding : Dict String String

-- `load_blueprint`, of what `yaml.safe_load` reads of the file; a document that is empty counts as `{}`.
unfoldable pub load_blueprint :
    {Raw : Type 0}
    → Raw
    → (Raw → Result String TenantBlueprint)
    → Option Raw
    → Result String TenantBlueprint
load_blueprint empty model_validate none = model_validate empty
load_blueprint empty model_validate (some raw) = model_validate raw

-- `detail` is the text of the record's dictionary.
pub record ProvisionRecord : Type 0 where
  pub provisioner : String
  pub tenant_id : String
  pub changed : Bool
  pub detail : String

-- `ResourceProvisioner`
pub record Resource (W : Type 0) : Type 0 where
  pub name : String
  pub apply_one : String → TenantBlueprint → Bool → W → ProvisionRecord × W
  pub destroy_one : String → W → W

module _ {W : Type 0} (tenant_id : String) (blueprint : TenantBlueprint) where
  -- [await p.apply(..., dry_run=dry_run) for p in provisioners]
  unfoldable pub apply_each : Bool → List (Resource W) → W → List ProvisionRecord × W
  apply_each dry_run [] w = ([], w)
  apply_each dry_run (p ∷ ps) w =
      let (record_, w') = p.apply_one tenant_id blueprint dry_run w in
      let (records, w'') = apply_each dry_run ps w' in (record_ ∷ records, w'')

  unfoldable pub plan : List (Resource W) → W → List ProvisionRecord × W
  plan provisioners w = apply_each true provisioners w

  unfoldable pub apply : List (Resource W) → W → List ProvisionRecord × W
  apply provisioners w = apply_each false provisioners w

module _ {W : Type 0} (tenant_id : String) where
  unfoldable pub destroy_each : List (Resource W) → W → W
  destroy_each [] w = w
  destroy_each (p ∷ ps) w = destroy_each ps (p.destroy_one tenant_id w)

  unfoldable pub destroy : List (Resource W) → W → W
  destroy provisioners w = destroy_each (reverse provisioners) w
