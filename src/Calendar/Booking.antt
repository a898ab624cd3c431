-- ===== src/Calendar/Booking.antt =====
-- The tools of mcp-servers/calendar over time: who holds a slot.
use ai_voice.Prelude.{
  Bool, false, ◌≡◌, String, none, some, List, [], ◌∷◌, All, ◌==◌, arith, string_eq, str_eq_iff,
  Option-cases, inl, inr,
}
use ai_voice.Prelude.Dict.{lookup, insert, lookup-insert, lookup-insert_self}
use ai_voice.Calendar.{Slots, Slot, held, book, cancel, book_slot, cancel_slot}

-- A call of one of the tools that change slots.
pub data ToolUse : Type 0 where
  book_use : (slot_id booked_by : String) → ToolUse
  cancel_use : (slot_id : String) → ToolUse

abbrev pub use_tool : ToolUse → Slots → Slots
use_tool (book_use id by) slots = (book_slot id by slots).1
use_tool (cancel_use id) slots = (cancel_slot id slots).1

abbrev pub use_all : List ToolUse → Slots → Slots
use_all [] slots = slots
use_all (u ∷ us) slots = use_all us (use_tool u slots)

abbrev pub cancels : String → ToolUse → Bool
cancels id (book_use j by) = false
cancels id (cancel_use j) = j == id

use_tool-held :
    (id : String) (slot : Slot) (by : String) (u : ToolUse) (slots : Slots)
    → cancels id u ≡ false
    → slot.booked_by ≡ some by
    → lookup id slots ≡ some slot
    → lookup id (use_tool u slots) ≡ some slot
unfolding book_slot cancel_slot book cancel
use_tool-held id slot by (book_use j other) slots h k l = elim (Option-cases (lookup j slots)) [
  | inl absent ↦ ground (arith, absent)
  | inr (s, found) ↦
      ground (arith, found, lookup-insert j id (held s (some other)) slots, str_eq_iff j id)
]
use_tool-held id slot by (cancel_use j) slots h k l = elim (Option-cases (lookup j slots)) [
  | inl absent ↦ ground (arith, absent)
  | inr (s, found) ↦ ground (arith, found, lookup-insert j id (held s none) slots, str_eq_iff j id)
]

-- Once a slot is booked, it keeps its holder through any uses of the tools, bookings of the same
-- slot by others included, as long as none of them cancels it.
pub use_all-held :
    (id : String) (slot : Slot) (by : String) (us : List ToolUse) (slots : Slots)
    → All (λ u. cancels id u ≡ false) us
    → slot.booked_by ≡ some by
    → lookup id slots ≡ some slot
    → lookup id (use_all us slots) ≡ some slot
use_all-held id slot by [] slots h k l = l
use_all-held id slot by (u ∷ us) slots (first, rest) k l =
    use_all-held id slot by us (use_tool u slots) rest k
      (use_tool-held id slot by u slots first k l)

-- Booking a free slot and cancelling it again leaves every slot as it was.
pub cancel-book :
    (id by other : String) (slot : Slot) (slots : Slots)
    → lookup id slots ≡ some slot
    → slot.booked_by ≡ none
    → lookup other (cancel id (book id by slots).1).1 ≡ lookup other slots
unfolding book cancel
cancel-book id by other slot slots h k =
    let booked = insert id (held slot (some by)) slots in
    ground (
      arith,
      h,
      k,
      lookup-insert_self id (held slot (some by)) slots,
      lookup-insert id other (held slot (some by)) slots,
      lookup-insert id other (held slot none) booked,
      str_eq_iff id other,
    )
