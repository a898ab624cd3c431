-- ===== src/Gateway/Matrix.antt =====
-- saap/gateway/matrix_whatsapp.py: the rooms, the queue of the adapter and its replies.
use ai_voice.Prelude.{String, Option, none, some, List, ◌++◌, ◌==◌, string_eq, if◌then◌else◌}
use ai_voice.Prelude.Dict.{Dict, insert, lookup}
use ai_voice.Core.Types.{TenantContext}
use ai_voice.Core.Flow.{FlowRunEvent}
use ai_voice.Gateway.Channels.{InboundEvent, user_message}

-- `_on_message`, over the rooms of the resolver and the adapter's queue.
unfoldable pub on_message :
    String
    → Dict String TenantContext
    → String
    → String
    → String
    → List InboundEvent
    → List InboundEvent
on_message own_user_id rooms room_id sender body queue =
    if sender == own_user_id then queue else elim (lookup room_id rooms) [
      | none ↦ queue
      | some tenant ↦
          queue
          ++ List.◌∷◌
              record {
                tenant = tenant;
                channel = "whatsapp";
                session_id = room_id;
                message = user_message body;
                raw_ref = none;
              }
              List.[]
    ]

-- The room messages that `render` sends: the texts of the final events that have one.
unfoldable pub matrix_render : List FlowRunEvent → List String
matrix_render List.[] = List.[]
matrix_render (List.◌∷◌ event events) =
    let rest = matrix_render events in
    if event.kind == "final"
    then (elim event.payload [
      | none ↦ rest
      | some text ↦ if text == "" then rest else List.◌∷◌ text rest
    ])
    else rest

-- `StaticRoomTenantResolver`
unfoldable pub register_room :
    String → TenantContext → Dict String TenantContext → Dict String TenantContext
register_room room_id tenant rooms = insert room_id tenant rooms

unfoldable pub resolve_room : String → Dict String TenantContext → Option TenantContext
resolve_room room_id rooms = lookup room_id rooms
