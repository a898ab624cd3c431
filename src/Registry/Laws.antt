-- ===== src/Registry/Laws.antt =====
-- `register` and `resolve` of saap/core/registry.py, one after the other.
use ai_voice.Prelude.{
  true, ◌≡◌, refl, subst, String, none, some, elem, arith, string_eq, pair_eq, Bool-cases,
  Option-cases, inl, inr,
}
use ai_voice.Prelude.Dict.{lookup, insert, lookup-insert_or, lookup-insert_self}
use ai_voice.Prelude.Exec.{ok, err}
use ai_voice.Registry.{PluginRegistry, Registration, unknown_plugin, register, resolve}

module _ {A W : Type 0} where
  resolve-built :
      (interface key : String) (s : PluginRegistry A W) (reg : Registration A W) (a : A)
      → lookup (interface, key) s.registrations ≡ some reg
      → reg.instance_built ≡ some a
      → resolve interface key s ≡ (ok a, s)
  unfolding resolve
  resolve-built interface key s reg a h k = rw (h, k, resolve) refl

  resolve-first :
      (interface key : String) (s : PluginRegistry A W) (reg : Registration A W)
      → lookup (interface, key) s.registrations ≡ some reg
      → reg.instance_built ≡ none
      → resolve interface key s ≡ (
        ok (reg.factory s.world).0,
        record s {
          registrations =
              insert
                (interface, key)
                (record reg { instance_built = some (reg.factory s.world).0 })
                s.registrations;
          world = (reg.factory s.world).1;
        },
      )
  unfolding resolve
  resolve-first interface key s reg h k = rw (h, k, resolve) refl

  resolve-unknown :
      (interface key : String) (s : PluginRegistry A W)
      → lookup (interface, key) s.registrations ≡ none
      → resolve interface key s ≡ (err (unknown_plugin interface key), s)
  unfolding resolve
  resolve-unknown interface key s h = rw (h, resolve) refl

  -- A binding that was resolved once is resolved to the same instance again, and the second call
  -- changes nothing: its factory has run once.
  pub resolve-resolve :
      (interface key : String) (s : PluginRegistry A W) (a : A)
      → (resolve interface key s).0 ≡ ok a
      → resolve interface key (resolve interface key s).1 ≡ (ok a, (resolve interface key s).1)
  resolve-resolve interface key s a h =
      elim (Option-cases (lookup (interface, key) s.registrations)) [
        | inl e ↦ let u = resolve-unknown interface key s e in absurd (ground arith)
        | inr (reg, e) ↦ elim (Option-cases reg.instance_built) [
          | inl f ↦
              let u = resolve-first interface key s reg e f in
              let v =
                resolve-built interface key (resolve interface key s).1
                  (record reg { instance_built = some (reg.factory s.world).0 })
                  (reg.factory s.world).0
                  (rw (u) (lookup-insert_self (interface, key) _ s.registrations)) refl in
              ground (arith, u, v)
          | inr (b, f) ↦ let u = resolve-built interface key s reg b e f in ground (arith, u)
        ]
      ]

  -- Every binding's license is on the allow-list.
  abbrev pub LicensesAllowed : PluginRegistry A W → Type 0
  LicensesAllowed s =
      (interface key : String) (reg : Registration A W)
      → lookup (interface, key) s.registrations ≡ some reg
      → elem reg.license s.allowed ≡ true

  insert_keeps :
      (s : PluginRegistry A W) (w : W) (interface key : String) (reg : Registration A W)
      → elem reg.license s.allowed ≡ true
      → LicensesAllowed s
      → LicensesAllowed
          (record s { registrations = insert (interface, key) reg s.registrations; world = w })
  insert_keeps s w interface key reg h all i k r l =
      elim (lookup-insert_or (interface, key) (i, k) reg r s.registrations l) [
        | inl q ↦ subst (λ (x : Registration A W). elem x.license s.allowed ≡ true) q h
        | inr q ↦ all i k r q
      ]

  -- Whatever is registered and resolved, only licenses on the allow-list are in the registry:
  -- both operations keep this, whether they succeed or fail.
  pub registry_keeps :
      (s : PluginRegistry A W) (interface key license : String) (factory : W → A × W)
      → LicensesAllowed s
      → LicensesAllowed (register interface key factory license s).1
        × LicensesAllowed (resolve interface key s).1
  unfolding register
  registry_keeps s interface key license factory all = (
    elim (Bool-cases (elem license s.allowed)) [
      | inl h ↦ rw (h, register) (insert_keeps s s.world interface key _ h all)
      | inr h ↦ rw (h, register) all
    ],
    elim (Option-cases (lookup (interface, key) s.registrations)) [
      | inl e ↦ rw (resolve-unknown interface key s e) all
      | inr (reg, e) ↦ elim (Option-cases reg.instance_built) [
        | inl f ↦ rw (resolve-first interface key s reg e f) (
            insert_keeps s (reg.factory s.world).1 interface key
              (record reg { instance_built = some (reg.factory s.world).0 })
              (all interface key reg e) all)
        | inr (b, f) ↦ rw (resolve-built interface key s reg b e f) all
      ]
    ],
  )
