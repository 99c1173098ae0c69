-- ===== src/RtspServer/Slots/Playing.antt =====
-- A session that plays, in the server thread of src/modules/rtsp/rtsp_server.c.
use strero.Prelude.{◌≡◌, true, false, ◌⊎◌}
use strero.RtspServer.{Client, client_state_ready, client_state_playing}
use strero.RtspServer.Session.States.{Situation}

-- What a request of a playing client can leave, before the playing state is restored: the session
-- plays or is READY, in a slot that is taken, or the slot is free.
abbrev LivesOn : Situation → Type 0
LivesOn (state, active, count) =
    ((active ≡ true) × ((state ≡ client_state_playing) ⊎ (state ≡ client_state_ready)))
    ⊎ (active ≡ false)

-- A session that plays, or is READY while its request is handled.
abbrev IsHeld : Client → Type 0
IsHeld client =
    (client.active ≡ true)
    × ((client.state ≡ client_state_playing) ⊎ (client.state ≡ client_state_ready))

-- Plays in a slot that is taken, or has left.
abbrev pub PlaysOrLeft : Client → Type 0
PlaysOrLeft client =
    ((client.active ≡ true) × (client.state ≡ client_state_playing)) ⊎ (client.active ≡ false)
