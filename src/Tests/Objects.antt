-- ===== src/Tests/Objects.antt =====
-- The object of the tests' session, while its turn runs.
use chemistry.Adapter.Object.{ObjectState, handle_update_context, handle_compact_session}
use chemistry.Adapter.Object.Guarded.{Guards, mutable_session-Guards}
use chemistry.Tests.Data.{first_boot, running_state}
use chemistry.Tests.Connections
use chemistry.Tests.Services
use chemistry.Protocol.{AgentContext}

abbrev new_context : AgentContext
new_context = record { system_prompt = "Be brief."; memory = "" }

abbrev busy : ObjectState
busy = record { adapter = Connections.state running_state; agent = Services.state }

mutable_session-Guards_example :
    Guards first_boot Connections.draws busy
      (handle_update_context first_boot
        (Services.services Services.text_response)
        Connections.draws
        "s"
        new_context
        busy).1
    × Guards first_boot Connections.draws busy
        (handle_compact_session first_boot
          (Services.services Services.text_response)
          Connections.draws
          "s"
          busy).1
mutable_session-Guards_example =
    mutable_session-Guards first_boot (Services.services Services.text_response) Connections.draws
      "s" new_context busy
