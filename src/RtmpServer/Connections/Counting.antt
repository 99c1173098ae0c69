-- ===== src/RtmpServer/Connections/Counting.antt =====
-- The count of the connections of src/modules/rtmp_server/rtmp_server.c, and how its server ends.
use mathlib.Core.Option
use strero.Prelude.{
  ℕ, suc, ◌+◌, ◌-◌, ◌≤◌, ◌<◌, ◌≡◌, ◌≢◌, ◌⊎◌, ◌↔◌, is_negative, minus_one, if◌then◌else◌, refl, ap,
  Bool, true, false, Bool-cases, inl, inr, Option, none, some, List, [], ◌∷◌, leb, leb-false, ◌==◌,
  length, ℤ, arith,
}
use strero.RtmpServer.{Connection}
use strero.RtmpServer.Connections.{
  ServerState, lock, unlock, contains_connection, unlink, remove_connection,
  rtmp_connection_cleanup, link, after_thread, accept_client, cleanup_all, accept_error,
  accepted_client, accept_round, rtmp_server_destroy,
}

-- The mutex is free, the count is that of the list, and the limit holds.
pub record IsCounted (server : ServerState) : Type 0 where
  pub free : server.mutex_held ≡ false
  pub counted : server.current_connections ≡ length server.connections
  pub limited : server.current_connections ≤ server.max_connections

-- What happens to the list: a client is accepted, or a connection's thread ends.
pub data Event : Type 0 where
  accepted : ℤ → Option ℕ → Bool → Event
  ended : ℕ → Event

unfoldable pub step : Event → ServerState → Option ServerState
step (accepted fd address thread) server = accept_client fd address thread server
step (ended p) server = rtmp_connection_cleanup p server

unfoldable pub run : List Event → ServerState → Option ServerState
run [] server = some server
run (event ∷ later) server = Option.bind (step event server) (λ next. run later next)

length-unlink :
    (p : ℕ) (cs : List (ℕ × Connection))
    → contains_connection p cs ≡ true
    → suc (length (unlink p cs)) ≡ length cs
unfolding contains_connection unlink
length-unlink p [] h = cc
length-unlink p ((q, conn) ∷ later) h = elim (Bool-cases (q == p)) [
  | inl same ↦ rw same refl
  | inr other ↦ rw other (ap suc (length-unlink p later (rw other at h)))
]

cleanup-IsCounted :
    (p : ℕ) (server : ServerState)
    → IsCounted server
    → (after : ServerState) × (rtmp_connection_cleanup p server ≡ some after) × IsCounted after
unfolding rtmp_connection_cleanup lock unlock remove_connection
cleanup-IsCounted p server v = elim (Bool-cases (contains_connection p server.connections)) [
  | inl found ↦
      let size = length-unlink p server.connections found in
      (
        record server {
          connections = unlink p server.connections;
          current_connections = server.current_connections - 1;
          mutex_held = false;
        },
        ground (arith, v.free, found),
        record {
          free = refl;
          counted = omega (arith, v.counted);
          limited = omega (arith, v.limited);
        },
      )
  | inr missing ↦ (
    record server { mutex_held = false },
    ground (arith, v.free, missing),
    record { free = refl; counted = v.counted; limited = v.limited },
  )
]

accept-IsCounted :
    (fd : ℤ) (address : Option ℕ) (thread : Bool) (server : ServerState)
    → IsCounted server
    → (after : ServerState) × (accept_client fd address thread server ≡ some after)
      × IsCounted after
unfolding accept_client after_thread lock unlock link Option.bind
accept-IsCounted fd none thread server v = (server, refl, v)
accept-IsCounted fd (some p) thread server v =
    elim (Bool-cases (leb server.max_connections server.current_connections)) [
      | inl full ↦ (server, rw full refl, v)
      | inr room ↦
          let added : ServerState = unlock (link p fd (record server { mutex_held = true })) in
          let counted : IsCounted added = record {
            free = refl;
            counted = omega (arith, v.counted);
            limited = omega (arith, leb-false _ _ room);
          } in
          elim (Bool-cases thread) [
            | inl started ↦ (added, rw (room, v.free, started) refl, counted)
            | inr failed ↦
                let (after, ran, still) = cleanup-IsCounted p added counted in
                (after, rw (room, v.free, failed) ran, still)
          ]
    ]

-- From a server with its mutex free, its count that of its list and no more connections than its
-- limit: every sequence of accepted clients (where calloc or the creation of the thread may fail)
-- and ended connections, known or not, runs to its end without a deadlock, and leaves the mutex
-- free, the count that of the list, and no more connections than the limit.
pub run-IsCounted :
    (events : List Event) (server : ServerState)
    → IsCounted server
    → (after : ServerState) × (run events server ≡ some after) × IsCounted after
unfolding run step Option.bind
run-IsCounted [] server v = (server, refl, v)
run-IsCounted (accepted fd address thread ∷ later) server v =
    let (next, ran, still) = accept-IsCounted fd address thread server v in
    let (after, finished, valid) = run-IsCounted later next still in
    (after, rw (ran, run) finished, valid)
run-IsCounted (ended p ∷ later) server v =
    let (next, ran, still) = cleanup-IsCounted p server v in
    let (after, finished, valid) = run-IsCounted later next still in
    (after, rw (ran, run) finished, valid)

-- The loop of the destruction, under the mutex.
destroyed :
    (server : ServerState)
    → server.mutex_held ≡ false
    → (Option.bind (lock server) (λ locked.
          Option.map {B = Option ServerState} (λ _. none) (cleanup_all locked.connections locked))
        ≡ none)
      ↔ (0 < length server.connections)
unfolding cleanup_all rtmp_connection_cleanup lock Option.bind Option.map
destroyed server free = rw free (emptied server.connections)
  where
    emptied :
        (cs : List (ℕ × Connection))
        → (Option.map {B = Option ServerState}
              (λ _. none)
              (cleanup_all cs (record server { mutex_held = true }))
            ≡ none)
          ↔ (0 < length cs)
    emptied [] = (λ e. cc, λ h. elim h [ ])
    emptied ((p, conn) ∷ later) = (λ _. omega arith, λ _. refl)

-- A client that joins the list: there is room, calloc returned something and its thread started.
abbrev pub Joins : Option ℕ → Bool → ServerState → Type 0
Joins address thread server =
    (address ≢ none) × (thread ≡ true) × (server.current_connections < server.max_connections)

accept_client-Joins :
    (fd : ℤ) (address : Option ℕ) (thread : Bool) (server : ServerState)
    → server.mutex_held ≡ false
    → (after : ServerState) × (accept_client fd address thread server ≡ some after)
      × (after.mutex_held ≡ false)
      × ((0 < length after.connections)
          ↔ ((0 < length server.connections) ⊎ Joins address thread server))
unfolding accept_client after_thread lock unlock link Option.bind rtmp_connection_cleanup
    remove_connection contains_connection unlink
accept_client-Joins fd none thread server free = (server, refl, free, ground arith)
accept_client-Joins fd (some p) thread server free =
    elim (Bool-cases (leb server.max_connections server.current_connections)) [
      | inl full ↦ (server, rw full refl, free, ground (arith, full))
      | inr room ↦ elim (Bool-cases thread) [
        | inl started ↦ (
          unlock (link p fd (record server { mutex_held = true })),
          rw (room, free, started) refl,
          refl,
          ground (arith, room, started),
        )
        | inr stopped ↦ (
          record server {
            current_connections = (server.current_connections + 1) - 1;
            mutex_held = false;
          },
          rw (room, free, stopped) (ground arith),
          refl,
          ground (arith, stopped),
        )
      ]
    ]

-- With its mutex free, and when no connection ends meanwhile: `rtmp_server_destroy` waits for ever
-- if the accept of the accept thread does not return. If it returns an error, `rtmp_server_destroy`
-- waits for ever exactly when there is a connection: it holds the mutex while it cleans a connection
-- up, which locks the mutex again. If it returns a client, it waits for ever exactly when there is a
-- connection or the client becomes one.
pub rtmp_server_destroy_blocks :
    (server : ServerState) (fd : ℤ) (address : Option ℕ) (thread : Bool)
    → server.mutex_held ≡ false
    → (rtmp_server_destroy none (some server) ≡ none)
      × ((rtmp_server_destroy (some accept_error) (some server) ≡ none)
          ↔ (0 < length server.connections))
      × ((rtmp_server_destroy (some (accepted_client fd address thread)) (some server) ≡ none)
          ↔ ((0 < length server.connections) ⊎ Joins address thread server))
unfolding rtmp_server_destroy accept_round Option.bind
rtmp_server_destroy_blocks server fd address thread free =
    let closed : ServerState = record server {
      running = false;
      server_socket = if is_negative server.server_socket then server.server_socket else minus_one;
    } in
    let (after, ran, free', joins) = accept_client-Joins fd address thread closed free in
    (
      refl,
      destroyed closed free,
      rw ran (
        λ blocked. joins.0 ((destroyed after free').0 blocked),
        λ left. (destroyed after free').1 (joins.1 left),
      ),
    )
