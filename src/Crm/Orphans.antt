-- ===== src/Crm/Orphans.antt =====
-- The store of mcp-servers/twenty-crm: timelines and stages against contacts.
use ai_voice.Prelude.{
  ℕ, ◌≡◌, String, Option, none, List, [], ◌∷◌, ◌++◌, arith, string_eq, str_eq_iff, Option-cases,
  inl, inr,
}
use ai_voice.Prelude.Dict.{lookup, contains, get_or, lookup-insert}
use ai_voice.Crm.{CrmStore, require_contact, create_contact, log_activity, set_pipeline_stage}

-- What the store holds under an id that is no contact's.
abbrev pub NoOrphans : CrmStore → Type 0
NoOrphans s =
    (id : String)
    → lookup id s.contacts ≡ none
    → (lookup id s.activities ≡ none) × (lookup id s.pipeline_stages ≡ none)

module _ (uuid4 : ℕ → String) where
  create_contact_keeps :
      (name : String) (email phone : Option String) (s : CrmStore)
      → NoOrphans s
      → NoOrphans (create_contact uuid4 name email phone s).1
  unfolding create_contact
  create_contact_keeps name email phone s h id k = h id (
      ground (
        arith,
        lookup-insert (uuid4 s.drawn) id
            (record { contact_id = uuid4 s.drawn; name = name; email = email; phone = phone })
            s.contacts,
      ))

  log_activity_keeps :
      (contact_id kind detail : String) (s : CrmStore)
      → NoOrphans s
      → NoOrphans (log_activity uuid4 contact_id kind detail s).1
  unfolding log_activity require_contact contains
  log_activity_keeps contact_id kind detail s h id k =
      elim (Option-cases (lookup contact_id s.contacts)) [
        | inl absent ↦ ground (arith, absent, h id)
        | inr (c, found) ↦ ground (
          arith,
          found,
          h id,
          str_eq_iff contact_id id,
          lookup-insert contact_id id
              (get_or contact_id [] s.activities
                ++ record {
                  activity_id = uuid4 s.drawn;
                  contact_id = contact_id;
                  kind = kind;
                  detail = detail;
                }
                  ∷ [])
              s.activities,
        )
      ]

  set_pipeline_stage_keeps :
      (contact_id stage : String) (s : CrmStore)
      → NoOrphans s
      → NoOrphans (set_pipeline_stage contact_id stage s).1
  unfolding set_pipeline_stage require_contact contains
  set_pipeline_stage_keeps contact_id stage s h id k =
      elim (Option-cases (lookup contact_id s.contacts)) [
        | inl absent ↦ ground (arith, absent, h id)
        | inr (c, found) ↦ ground (
          arith,
          found,
          h id,
          str_eq_iff contact_id id,
          lookup-insert contact_id id stage s.pipeline_stages,
        )
      ]

  -- The operations of the store that change it.
  pub data CrmUse : Type 0 where
    create_use : (name : String) → (email phone : Option String) → CrmUse
    log_use : (contact_id kind detail : String) → CrmUse
    stage_use : (contact_id stage : String) → CrmUse

  abbrev pub use_crm : CrmUse → CrmStore → CrmStore
  use_crm (create_use name email phone) s = (create_contact uuid4 name email phone s).1
  use_crm (log_use contact_id kind detail) s = (log_activity uuid4 contact_id kind detail s).1
  use_crm (stage_use contact_id stage) s = (set_pipeline_stage contact_id stage s).1

  abbrev pub use_crm_all : List CrmUse → CrmStore → CrmStore
  use_crm_all [] s = s
  use_crm_all (u ∷ us) s = use_crm_all us (use_crm u s)

  -- Whatever is created, logged and staged, with known or unknown ids, no timeline and no stage
  -- stands under an id that is no contact's.
  pub use_crm_all_keeps :
      (us : List CrmUse) (s : CrmStore) → NoOrphans s → NoOrphans (use_crm_all us s)
  use_crm_all_keeps [] s h = h
  use_crm_all_keeps (create_use name email phone ∷ us) s h =
      use_crm_all_keeps us _ (create_contact_keeps name email phone s h)
  use_crm_all_keeps (log_use contact_id kind detail ∷ us) s h =
      use_crm_all_keeps us _ (log_activity_keeps contact_id kind detail s h)
  use_crm_all_keeps (stage_use contact_id stage ∷ us) s h =
      use_crm_all_keeps us _ (set_pipeline_stage_keeps contact_id stage s h)
