-- ===== src/Calendar.antt =====
-- mcp-servers/calendar/store.py and server.py: the slots, and the three tools over them. Parsing and
-- printing of ISO 8601 texts are parameters.
pub mod Booking
use ai_voice.Prelude.{
  Bool, true, false, ◌&&◌, String, Option, none, some, List, [], ◌∷◌, map, keep, ◌==◌, string_eq,
}
use ai_voice.Prelude.Dict.{Dict, lookup, insert, values}
use ai_voice.Prelude.Text.{append, repr}
use ai_voice.Prelude.Exec.{Result, ok, err, Exec}

-- A `datetime`: its `date()`, and the rest.
pub record DateTime : Type 0 where
  pub date : String
  pub time : String

pub record Slot : Type 0 where
  pub slot_id : String
  pub starts_at : DateTime
  pub ends_at : DateTime
  pub booked_by : Option String

pub data CalendarError : Type 0 where
  slot_not_found slot_already_booked slot_not_booked : (slot_id : String) → CalendarError
  invalid_date : (date : String) → CalendarError

-- str(exc)
unfoldable pub error_text : CalendarError → String
error_text (slot_not_found id) = append "slot " (append (repr id) " not found")
error_text (slot_already_booked id) = append "slot " (append (repr id) " is already booked")
error_text (slot_not_booked id) = append "slot " (append (repr id) " is not currently booked")
error_text (invalid_date date) = append "Invalid isoformat string: " (repr date)

-- `InMemoryCalendarStore._slots`
abbrev pub Slots : Type 0
Slots = Dict String Slot

unfoldable pub new_slots : Slots → List Slot → Slots
new_slots slots [] = slots
new_slots slots (s ∷ ss) = new_slots (insert s.slot_id s slots) ss

abbrev pub is_free : Option String → Bool
is_free none = true
is_free (some by) = false

unfoldable pub list_available : DateTime → Slots → List Slot
list_available day slots =
    keep (λ (s : Slot). s.starts_at.date == day.date && is_free s.booked_by) (values slots)

abbrev pub held : Slot → Option String → Slot
held slot by = record slot { booked_by = by }

unfoldable pub book : String → String → Exec CalendarError Slots Slot
book slot_id booked_by slots = elim (lookup slot_id slots) [
  | none ↦ (err (slot_not_found slot_id), slots)
  | some slot ↦ elim slot.booked_by [
    | some by ↦ (err (slot_already_booked slot_id), slots)
    | none ↦ (ok (held slot (some booked_by)), insert slot_id (held slot (some booked_by)) slots)
  ]
]

unfoldable pub cancel : String → Exec CalendarError Slots Slot
cancel slot_id slots = elim (lookup slot_id slots) [
  | none ↦ (err (slot_not_found slot_id), slots)
  | some slot ↦ elim slot.booked_by [
    | none ↦ (err (slot_not_booked slot_id), slots)
    | some by ↦ (ok (held slot none), insert slot_id (held slot none) slots)
  ]
]

-- The replies of the tools.
pub data CalendarReply : Type 0 where
  slots_reply : List (String × String × String) → CalendarReply
  booked_reply : (slot_id : String) → (booked_by : Option String) → CalendarReply
  cancelled_reply : (slot_id : String) → CalendarReply
  error_reply : (text : String) → CalendarReply

unfoldable pub book_slot : String → String → Slots → CalendarReply × Slots
book_slot slot_id booked_by slots =
    let (r, slots') = book slot_id booked_by slots in
    (
      elim r [
        | ok slot ↦ booked_reply slot.slot_id slot.booked_by
        | err e ↦ error_reply (error_text e)
      ],
      slots',
    )

unfoldable pub cancel_slot : String → Slots → CalendarReply × Slots
cancel_slot slot_id slots =
    let (r, slots') = cancel slot_id slots in
    (elim r [ ok slot ↦ cancelled_reply slot.slot_id | err e ↦ error_reply (error_text e) ], slots')

-- A date that does not parse raises `ValueError`, which leaves the tool.
unfoldable pub list_slots :
    (String → Option DateTime)
    → (DateTime → String)
    → String
    → Slots
    → Result CalendarError CalendarReply
list_slots fromisoformat isoformat date slots = elim (fromisoformat date) [
  | none ↦ err (invalid_date date)
  | some day ↦ ok (
      slots_reply (
        map (λ (s : Slot). (s.slot_id, isoformat s.starts_at, isoformat s.ends_at))
          (list_available day slots)))
]
