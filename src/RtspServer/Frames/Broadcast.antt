-- ===== src/RtspServer/Frames/Broadcast.antt =====
-- The clients and the clock of `rtsp_server_send_frame` in src/modules/rtsp/rtsp_server.c. The log
-- of the frame rate is left out.
use mathlib.Core.Option
use strero.Prelude.{
  ℕ, ◌+◌, ◌-◌, ◌*◌, ◌/◌, ◌%◌, ◌≤◌, ◌<◌, ◌≡◌, refl, ap, ◌∙◌, Bool, true, not, ◌||◌, Option, some,
  List, [], ◌∷◌, ◌==◌, if◌then◌else◌, length, Bytes, ℤ, arith,
}
use strero.RtspServer.{Client, Server, Sockets, VideoCodec}
use strero.RtspServer.Frames.{
  server_units, send_frame_to_client, is_idr_unit, is_parameter_set, any_unit, Gate, gate_of,
  watches,
}

-- The static variables of `calculate_monotonic_rtp_timestamp` for a channel.
pub record Clock : Type 0 where
  pub last_frame_time : ℕ
  pub base_timestamp : ℕ
  pub initialized : Bool

-- At a time in microseconds; the random number is for the first call. (Products of uint64_t that
-- fit.)
unfoldable pub calculate_monotonic_rtp_timestamp : ℕ → ℕ → Clock → ℕ × Clock
calculate_monotonic_rtp_timestamp now random clock =
    let base =
      if clock.initialized
      then (clock.base_timestamp + (now - clock.last_frame_time) * 90000 / 1000000 % 4294967296)
        % 4294967296
      else random % 100000 in
    (base, record { last_frame_time = now; base_timestamp = base; initialized = true })

module _ {W : Type 0} (net : Sockets W) where
  -- A client's part of a frame, at a clock's reading and with a random number.
  unfoldable pub send_to_client :
      Gate → ℕ × ℕ → Bytes → Client → Clock → W → Option (Client × Clock × W)
  send_to_client gate (now, random) frame client clock w =
      let waiting = record client { needs_idr = gate.needs_idr } in
      let (timestamp, clock') = calculate_monotonic_rtp_timestamp now random clock in
      if gate.gets_frame
      then Option.map (λ sent. (sent.0, clock', sent.1))
          (send_frame_to_client net timestamp waiting frame w)
      else some (waiting, clock, w)

  -- The loop over the slots; `gate` is what a client that watches the channel does.
  unfoldable pub send_to_clients :
      ℤ
      → (Client → Gate)
      → Bytes
      → List (ℕ × ℕ)
      → List Client
      → Clock
      → W
      → Option (List Client × Clock × W)
  send_to_clients channel gate frame [] clients clock w = some (clients, clock, w)
  send_to_clients channel gate frame (reading ∷ readings) [] clock w = some ([], clock, w)
  send_to_clients channel gate frame (reading ∷ readings) (client ∷ clients) clock w =
      let now =
        if watches channel client
        then send_to_client (gate client) reading frame client clock w
        else some (client, clock, w) in
      Option.bind now (λ sent.
        Option.map (λ later. (sent.0 ∷ later.0, later.1, later.2))
          (send_to_clients channel gate frame readings clients sent.1 sent.2))

  -- A frame of a channel for all clients that watch it: with whether the server runs, the encoder's
  -- codec, the time of the loop, and the readings of the clock, the first one for the frame and one
  -- for each client. `none` is a fault of `send_frame_to_client`.
  unfoldable pub rtsp_server_send_frame :
      Bool
      → VideoCodec
      → ℤ
      → ℕ
      → ℕ × ℕ
      → List (ℕ × ℕ)
      → Bytes
      → Server
      → Clock
      → W
      → Option (Server × Clock × W)
  rtsp_server_send_frame running codec channel now_us reading readings frame server clock w =
      let (_, clock') = calculate_monotonic_rtp_timestamp reading.0 reading.1 clock in
      let nals = server_units frame in
      let gate =
        gate_of (any_unit (is_idr_unit codec) nals) (any_unit (is_parameter_set codec) nals)
          now_us in
      if not running || length frame == 0
      then some (server, clock, w)
      else Option.map (λ sent. (record server { clients = sent.0 }, sent.1, sent.2))
          (send_to_clients channel gate frame readings server.clients clock' w)

-- The clock after calls at some times.
unfoldable pub ticked : List ℕ → Clock → Clock
ticked [] clock = clock
ticked (now ∷ later) clock = ticked later (calculate_monotonic_rtp_timestamp now 0 clock).1

-- Times that do not go back, and the last one of them.
abbrev pub IsOrdered : ℕ → List ℕ → Type 0
IsOrdered last [] = Unit
IsOrdered last (now ∷ later) = (last ≤ now) × IsOrdered now later

abbrev pub latest : ℕ → List ℕ → ℕ
latest last [] = last
latest last (now ∷ later) = latest now later

-- One call: the ticks of the 90 kHz clock, rounded down.
one_tick : (e : ℕ) → (e * 90000 / 1000000 * 100 ≤ 9 * e) × (9 * e ≤ e * 90000 / 1000000 * 100 + 99)
one_tick e = (omega arith, omega arith)

latest_lem : (now : ℕ) (later : List ℕ) → IsOrdered now later → now ≤ latest now later
latest_lem now [] order = omega arith
latest_lem now (next ∷ later) (forward, order) = omega (arith, latest_lem next later order)

next_base_bound :
    (now : ℕ) (clock : Clock)
    → (calculate_monotonic_rtp_timestamp now 0 clock).1.base_timestamp < 4294967296
unfolding calculate_monotonic_rtp_timestamp
next_base_bound now clock = ground arith

next_base :
    (now : ℕ) (clock : Clock)
    → clock.initialized ≡ true
    → (calculate_monotonic_rtp_timestamp now 0 clock).1.base_timestamp
      ≡ (clock.base_timestamp + (now - clock.last_frame_time) * 90000 / 1000000 % 4294967296)
        % 4294967296
unfolding calculate_monotonic_rtp_timestamp
next_base now clock on =
    ap
      (λ b.
        if b
        then (clock.base_timestamp + (now - clock.last_frame_time) * 90000 / 1000000 % 4294967296)
          % 4294967296
        else 0 % 100000)
      on

sum_mod :
    (a t u : ℕ) → ((a + t % 4294967296) % 4294967296 + u) % 4294967296 ≡ (a + (t + u)) % 4294967296
sum_mod a t u = omega arith

-- After n calls at times that do not go back, from a clock that runs: the timestamp has moved by a
-- number of ticks (modulo 2^32) that is not ahead of the time that has passed, at 9 ticks in
-- 100 microseconds, and is behind it by less than n ticks, since every call rounds down.
pub base_timestamp-ticked :
    (times : List ℕ) (clock : Clock)
    → clock.initialized ≡ true
    → clock.base_timestamp < 4294967296
    → IsOrdered clock.last_frame_time times
    → (ticks : ℕ) × ((ticked times clock).base_timestamp
        ≡ (clock.base_timestamp + ticks) % 4294967296)
      × (ticks * 100 ≤ 9 * (latest clock.last_frame_time times - clock.last_frame_time))
      × (9 * (latest clock.last_frame_time times - clock.last_frame_time)
          ≤ ticks * 100 + 99 * length times)
unfolding ticked calculate_monotonic_rtp_timestamp
base_timestamp-ticked [] clock on small order = (0, omega arith, omega arith, omega arith)
base_timestamp-ticked (now ∷ later) clock on small (forward, order) =
    let tick : ℕ = (now - clock.last_frame_time) * 90000 / 1000000 in
    let next : Clock = (calculate_monotonic_rtp_timestamp now 0 clock).1 in
    let (ticks, moved, ahead, behind) =
      base_timestamp-ticked later next refl (next_base_bound now clock) order in
    let end = latest_lem now later order in
    let rounded = one_tick (now - clock.last_frame_time) in
    (
      tick + ticks,
      moved
          ∙ ap (λ b. (b + ticks) % 4294967296) (next_base now clock on)
          ∙ sum_mod clock.base_timestamp tick ticks,
      omega (arith, ahead, rounded.0, end),
      omega (arith, behind, rounded.1, end),
    )
