-- ===== src/Registry.antt =====
-- saap/core/registry.py: the binding table. `A` is what factories build, `W` what they may change.
-- An interface is named by its class's name.
pub mod Laws
pub mod Plugins
use ai_voice.Prelude.{
  Bool, String, Option, none, some, List, [], ◌∷◌, map, keep, elem, ◌==◌, string_eq, pair_eq,
  if◌then◌else◌,
}
use ai_voice.Prelude.Dict.{Dict, lookup, insert}
use ai_voice.Prelude.Text.{append}
use ai_voice.Prelude.Exec.{Result, ok, err, Exec, pure, ◌>>◌}

abbrev pub default_allowed_licenses : List String
default_allowed_licenses =
    "MIT" ∷ "Apache-2.0" ∷ "BSD-3-Clause" ∷ "BSD-2-Clause" ∷ "MPL-2.0" ∷ "PostgreSQL" ∷ "AGPL-3.0"
    ∷ []

pub data RegistryError : Type 0 where
  license_rejected : (key license : String) → RegistryError
  unknown_plugin : (interface key : String) → RegistryError
  not_implemented : (message : String) → RegistryError

pub record Registration (A W : Type 0) : Type 0 where
  pub factory : W → A × W
  pub license : String
  pub instance_built : Option A

-- `PluginRegistry`, and the world.
pub record PluginRegistry (A W : Type 0) : Type 0 where
  pub allowed : List String
  pub registrations : Dict (String × String) (Registration A W)
  pub world : W

module _ {A W : Type 0} where
  unfoldable pub register :
      String → String → (W → A × W) → String → Exec RegistryError (PluginRegistry A W) (Unit {0})
  register interface key factory license s =
      if elem license s.allowed
      then (
        ok tt,
        record s {
          registrations =
              insert (interface, key)
                (record { factory = factory; license = license; instance_built = none })
                s.registrations;
        },
      )
      else (err (license_rejected (append interface (append ":" key)) license), s)

  unfoldable pub resolve : String → String → Exec RegistryError (PluginRegistry A W) A
  resolve interface key s = elim (lookup (interface, key) s.registrations) [
    | none ↦ (err (unknown_plugin interface key), s)
    | some reg ↦ elim reg.instance_built [
      | some a ↦ (ok a, s)
      | none ↦
          let (a, w) = reg.factory s.world in
          (
            ok a,
            record s {
              registrations =
                  insert (interface, key) (record reg { instance_built = some a }) s.registrations;
              world = w;
            },
          )
    ]
  ]

  -- The keys of one interface, before `sorted`.
  unfoldable pub keys_for : String → PluginRegistry A W → List String
  keys_for interface s =
      map (λ (p : (String × String) × Registration A W). p.0.1)
        (keep (λ p. p.0.0 == interface) s.registrations)

  -- The loop over the entry points that are installed, each by its `register` function; importing a module
  -- is left out. An exception leaves the loop.
  unfoldable pub load_entry_points :
      List (Exec RegistryError (PluginRegistry A W) (Unit {0}))
      → Exec RegistryError (PluginRegistry A W) (Unit {0})
  load_entry_points [] = pure tt
  load_entry_points (register_fn ∷ more) = register_fn >> load_entry_points more
