-- ===== src/Crm.antt =====
-- mcp-servers/twenty-crm/store.py and server.py: contacts, their activities and their stages.
-- `occurred_at` of an activity is left out: nothing reads it. New ids are a parameter.
pub mod Orphans
use ai_voice.Prelude.{
  ℕ, suc, Bool, String, Option, none, some, List, [], ◌∷◌, ◌++◌, string_eq, if◌then◌else◌,
}
use ai_voice.Prelude.Dict.{Dict, lookup, insert, get_or, contains}
use ai_voice.Prelude.Text.{append, repr}
use ai_voice.Prelude.Exec.{Result, ok, err, Exec, pure, ◌>>=◌}

pub record Contact : Type 0 where
  pub contact_id : String
  pub name : String
  pub email : Option String
  pub phone : Option String

pub record Activity : Type 0 where
  pub activity_id : String
  pub contact_id : String
  pub kind : String
  pub detail : String

-- `ContactNotFound`
pub record ContactNotFound : Type 0 where
  pub contact_id : String

-- `InMemoryCRMStore`, and how many ids have been drawn.
pub record CrmStore : Type 0 where
  pub contacts : Dict String Contact
  pub activities : Dict String (List Activity)
  pub pipeline_stages : Dict String String
  pub drawn : ℕ

-- A method behind `_require_contact`.
unfoldable pub require_contact :
    {A : Type 0} → String → (CrmStore → A × CrmStore) → Exec ContactNotFound CrmStore A
require_contact contact_id m s =
    let (a, s') = m s in
    if contains contact_id s.contacts
    then (ok a, s')
    else (err (record { contact_id = contact_id }), s)

unfoldable pub activities_for : String → Exec ContactNotFound CrmStore (List Activity)
activities_for contact_id = require_contact contact_id (λ s. (get_or contact_id [] s.activities, s))

unfoldable pub pipeline_stage : String → Exec ContactNotFound CrmStore (Option String)
pipeline_stage contact_id =
    require_contact contact_id (λ s. (lookup contact_id s.pipeline_stages, s))

unfoldable pub set_pipeline_stage : String → String → Exec ContactNotFound CrmStore (Unit {0})
set_pipeline_stage contact_id stage =
    require_contact contact_id
      (λ s. (tt, record s { pipeline_stages = insert contact_id stage s.pipeline_stages }))

-- The replies of the tools.
pub data CrmReply : Type 0 where
  contact_reply : (contact_id name : String) → CrmReply
  activity_reply : (activity_id contact_id : String) → CrmReply
  stage_reply : (contact_id : String) → (stage : Option String) → CrmReply
  error_reply : (text : String) → CrmReply

unfoldable pub not_found_text : ContactNotFound → String
not_found_text e = append "contact " (append (repr e.contact_id) " not found")

module _ (uuid4 : ℕ → String) where
  unfoldable pub create_contact :
      String → Option String → Option String → CrmStore → Contact × CrmStore
  create_contact name email phone s =
      let contact : Contact = record {
        contact_id = uuid4 s.drawn;
        name = name;
        email = email;
        phone = phone;
      } in
      (
        contact,
        record s { contacts = insert contact.contact_id contact s.contacts; drawn = suc s.drawn },
      )

  -- self._activities.setdefault(contact_id, []).append(activity)
  unfoldable pub log_activity : String → String → String → Exec ContactNotFound CrmStore Activity
  log_activity contact_id kind detail = require_contact contact_id (λ s.
      let activity : Activity = record {
        activity_id = uuid4 s.drawn;
        contact_id = contact_id;
        kind = kind;
        detail = detail;
      } in
      (
        activity,
        record s {
          activities =
              insert contact_id (get_or contact_id [] s.activities ++ activity ∷ []) s.activities;
          drawn = suc s.drawn;
        },
      ))

  unfoldable pub create_contact_tool :
      String → Option String → Option String → CrmStore → CrmReply × CrmStore
  create_contact_tool name email phone s =
      let (contact, s') = create_contact name email phone s in
      (contact_reply contact.contact_id contact.name, s')

  unfoldable pub log_tool : String → String → String → CrmStore → CrmReply × CrmStore
  log_tool contact_id kind detail s =
      let (r, s') = log_activity contact_id kind detail s in
      (
        elim r [
          | ok activity ↦ activity_reply activity.activity_id contact_id
          | err e ↦ error_reply (not_found_text e)
        ],
        s',
      )

  unfoldable pub book_slot_tool :
      (contact_id starts_at ends_at title : String) → CrmStore → CrmReply × CrmStore
  book_slot_tool contact_id starts_at ends_at title =
      log_tool contact_id "booking"
        (append title (append " | " (append starts_at (append " - " ends_at))))

  unfoldable pub log_activity_tool : (contact_id detail : String) → CrmStore → CrmReply × CrmStore
  log_activity_tool contact_id detail = log_tool contact_id "note" detail

unfoldable pub pipelines_tool : String → CrmStore → CrmReply × CrmStore
pipelines_tool contact_id s =
    let (r, s') = pipeline_stage contact_id s in
    (
      elim r [ ok stage ↦ stage_reply contact_id stage | err e ↦ error_reply (not_found_text e) ],
      s',
    )
