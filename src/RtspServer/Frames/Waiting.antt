-- ===== src/RtspServer/Frames/Waiting.antt =====
-- Clients that wait for an IDR frame, in `rtsp_server_send_frame` of
-- src/modules/rtsp/rtsp_server.c.
use mathlib.Core.Option
use strero.Prelude.{
  ℕ, ◌≡◌, refl, ap, sym, Bool, true, false, not, ◌||◌, some, ◌⊎◌, inl, inr, List, [], ◌∷◌, length,
  ◌==◌, if◌then◌else◌, Bytes, ℤ, All, arith,
}
use strero.RtspServer.{Client, Server, Sockets, VideoCodec}
use strero.RtspServer.Frames.{
  server_units, is_idr_unit, is_parameter_set, any_unit, Gate, gate_of, waited_long, watches,
}
use strero.RtspServer.Frames.Broadcast.{
  Clock, calculate_monotonic_rtp_timestamp, send_to_client, send_to_clients, rtsp_server_send_frame,
}

-- A client that does not watch the channel, or that has not waited for long for an IDR frame.
abbrev pub IsWaiting : ℤ → ℕ → Client → Type 0
IsWaiting channel now_us client =
    (watches channel client ≡ false)
    ⊎ ((client.needs_idr ≡ true) × (waited_long now_us client ≡ false))

abbrev closed : Gate
closed = record { gets_frame = false; needs_idr = true }

gate_of_waiting :
    (now_us : ℕ) (client : Client)
    → client.needs_idr ≡ true
    → waited_long now_us client ≡ false
    → gate_of false false now_us client ≡ closed
unfolding gate_of
gate_of_waiting now_us client waits short = rw short (rw waits refl)

module _ {W : Type 0} (net : Sockets W) where
  send_to_client-closed :
      (reading : ℕ × ℕ) (frame : Bytes) (client : Client) (clock : Clock) (w : W)
      → client.needs_idr ≡ true
      → send_to_client net closed reading frame client clock w ≡ some (client, clock, w)
  unfolding send_to_client
  send_to_client-closed reading frame client clock w waits =
      ap (λ b. some (record client { needs_idr = b }, clock, w)) (sym waits)

  -- A slot's part of the loop.
  waiting_slot :
      (channel : ℤ) (now_us : ℕ) (reading : ℕ × ℕ) (frame : Bytes) (client : Client) (clock : Clock)
      (w : W)
      → IsWaiting channel now_us client
      → (if watches channel client
          then send_to_client net (gate_of false false now_us client) reading frame client clock w
          else some (client, clock, w))
        ≡ some (client, clock, w)
  waiting_slot channel now_us reading frame client clock w (inl elsewhere) = rw elsewhere refl
  waiting_slot channel now_us reading frame client clock w (inr (waits, short)) =
      rw (gate_of_waiting now_us client waits short)
        (rw (send_to_client-closed reading frame client clock w waits) (ground arith))

  send_to_clients-IsWaiting :
      (channel : ℤ) (now_us : ℕ) (frame : Bytes) (readings : List (ℕ × ℕ)) (clients : List Client)
      (clock : Clock) (w : W)
      → All (IsWaiting channel now_us) clients
      → send_to_clients net channel (gate_of false false now_us) frame readings clients clock w
        ≡ some (clients, clock, w)
  unfolding send_to_clients Option.bind
  send_to_clients-IsWaiting channel now_us frame [] clients clock w h = refl
  send_to_clients-IsWaiting channel now_us frame (reading ∷ readings) [] clock w h = refl
  send_to_clients-IsWaiting channel now_us frame (reading ∷ readings) (client ∷ clients) clock w h =
      rw (waiting_slot channel now_us reading frame client clock w h.0) (
        ap (Option.map (λ (r : List Client × Clock × W). (client ∷ r.0, r.1, r.2)))
          (send_to_clients-IsWaiting channel now_us frame readings clients clock w h.1))

  -- While every client that watches the channel waits for an IDR frame, for not more than five
  -- seconds, a frame without an IDR slice and without a parameter set reaches nobody: nothing is
  -- sent, no client changes, and only the clock of the channel moves on.
  pub rtsp_server_send_frame-IsWaiting :
      (running : Bool) (codec : VideoCodec) (channel : ℤ) (now_us : ℕ) (reading : ℕ × ℕ)
      (readings : List (ℕ × ℕ)) (frame : Bytes) (server : Server) (clock : Clock) (w : W)
      → any_unit (is_idr_unit codec) (server_units frame) ≡ false
      → any_unit (is_parameter_set codec) (server_units frame) ≡ false
      → All (IsWaiting channel now_us) server.clients
      → rtsp_server_send_frame net running codec channel now_us reading readings frame server clock
          w
        ≡ (if not running || length frame == 0
            then some (server, clock, w)
            else some (server, (calculate_monotonic_rtp_timestamp reading.0 reading.1 clock).1, w))
  unfolding rtsp_server_send_frame
  rtsp_server_send_frame-IsWaiting running codec channel now_us reading readings frame server clock
        w no_idr no_sets waiting =
      rw (no_idr, no_sets)
        (rw (send_to_clients-IsWaiting channel now_us frame readings server.clients _ w waiting)
          refl)
