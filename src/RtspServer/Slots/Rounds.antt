-- ===== src/RtspServer/Slots/Rounds.antt =====
-- The rounds of `server_thread_func` of src/modules/rtsp/rtsp_server.c keep the count of clients.
use strero.Prelude.{
  ℕ, zero, suc, ◌+◌, ◌≡◌, refl, ap, sym, subst, ◌∙◌, true, false, not, ◌&&◌, Option, none, some,
  Option-cases, Bool-cases, map-some_inv, inl, inr, List, [], ◌∷◌, set, get_elem?, ℤ, pos, arith,
  All,
}
use strero.RtspServer.{Client, Server}
use strero.RtspServer.Session.{decrement}
use strero.RtspServer.Session.Connection.{cleanup_client}
use strero.RtspServer.Slots.{
  find_free_client_slot, increment, is_at_least, Connection, init_client, init_rtp, fill_slot,
  accept_connection, is_expired, sweep_clients, mark_invalid, serve_clients, accept_if, Activity,
  failed, idle, busy, server_round,
}
use strero.RtspServer.Slots.Counting.{
  active_count, slots_taken, unfolded_count, CountsFor-slots_taken, IsCounted, IsWritten,
  serve_clients-counts,
}

cleanup_client-active : (client : Client) → (cleanup_client client).active ≡ false
unfolding cleanup_client
cleanup_client-active client = refl

sweep_clients-counts :
    (now_us timeout_s : ℕ) (clients : List Client) (front : ℕ) (count : ℤ)
    → count ≡ pos (front + active_count clients)
    → (sweep_clients now_us timeout_s clients count).1
      ≡ pos (front + active_count (sweep_clients now_us timeout_s clients count).0)
unfolding sweep_clients
sweep_clients-counts now_us timeout_s [] front count n = n
sweep_clients-counts now_us timeout_s (client ∷ clients) front count n =
    elim (Bool-cases (client.active && is_expired now_us timeout_s client)) [
      | inl out ↦
          let active : client.active ≡ true = ground arith in
          rw out (
            sweep_clients-counts now_us timeout_s clients
              (front + slots_taken (cleanup_client client)) (decrement count)
              (CountsFor-slots_taken front (active_count clients) client (cleanup_client client)
                (decrement count) active
                (inr (
                  cleanup_client-active client,
                  ap decrement (n ∙ unfolded_count front client clients),
                )))
            ∙ sym (unfolded_count front (cleanup_client client) _))
      | inr stays ↦ rw stays (
          sweep_clients-counts now_us timeout_s clients (front + slots_taken client) count
            (n ∙ unfolded_count front client clients)
          ∙ sym (unfolded_count front client _))
    ]

-- Filling a free slot.
active_count-set :
    (clients : List Client) (slot : ℕ) (client : Client)
    → find_free_client_slot clients ≡ some slot
    → client.active ≡ true
    → active_count (set clients slot client) ≡ suc (active_count clients)
unfolding find_free_client_slot active_count
active_count-set [] slot client e active = ground arith
active_count-set (head ∷ clients) zero client e active = ground arith
active_count-set (head ∷ clients) (suc slot) client e active =
    let taken : head.active ≡ true = ground arith in
    let rest : find_free_client_slot clients ≡ some slot = ground arith in
    ground (arith, active_count-set clients slot client rest active)

-- A TLS connection came with a handshake that succeeded.
abbrev pub IsEstablished : Option Connection → Type 0
IsEstablished none = Unit
IsEstablished (some connection) = (connection.over_tls && not connection.handshake_ok) ≡ false

accept_connection-IsCounted :
    (connection : Connection) (server : Server)
    → (connection.over_tls && not connection.handshake_ok) ≡ false
    → IsCounted server
    → IsCounted (accept_connection connection server)
unfolding accept_connection fill_slot init_client init_rtp increment
accept_connection-IsCounted connection server ok counted =
    elim (Bool-cases (is_at_least server.client_count server.max_clients)) [
      | inl full ↦ rw full counted
      | inr room ↦ rw room (elim (Option-cases (find_free_client_slot server.clients)) [
        | inl none_free ↦ rw none_free counted
        | inr (slot, free) ↦ rw free (elim (Option-cases (get_elem? server.clients slot)) [
          | inl missing ↦ rw missing counted
          | inr (client, found) ↦ rw found (
              rw ok (
                ap increment counted
                ∙ ap pos (sym (active_count-set server.clients slot _ free refl))))
        ])
      ])
    ]

accept_if-IsCounted :
    (connection : Option Connection) (server : Server)
    → IsEstablished connection
    → IsCounted server
    → IsCounted (accept_if connection server)
unfolding accept_if
accept_if-IsCounted none server ok counted = counted
accept_if-IsCounted (some connection) server ok counted =
    accept_connection-IsCounted connection server ok counted

from_zero : (n : ℕ) → pos (0 + n) ≡ pos n
from_zero n = ap pos (omega arith)

-- `select` did not find a socket that is invalid, a TLS handshake did not fail, and every response
-- could be written.
abbrev pub IsSmooth : Activity → Type 0
IsSmooth (failed invalid) = invalid ≡ []
IsSmooth (idle now_us) = Unit
IsSmooth (busy plain tls ready) = IsEstablished plain × IsEstablished tls × All IsWritten ready

mark_invalid_none : (clients : List Client) → mark_invalid [] clients ≡ clients
unfolding mark_invalid
mark_invalid_none [] = refl
mark_invalid_none (client ∷ clients) = refl

-- A round of the server thread keeps `client_count` equal to the number of slots that are taken,
-- whatever it accepts, times out, answers or drops, provided that `select` found no invalid
-- socket, no TLS handshake failed and every response could be written.
pub server_round-IsCounted :
    (activity : Activity) (server next : Server)
    → IsSmooth activity
    → IsCounted server
    → server_round activity server ≡ some next
    → IsCounted next
unfolding server_round
server_round-IsCounted (failed invalid) server next smooth counted e =
    let same : record server { clients = mark_invalid invalid server.clients } ≡ next = cc in
    subst IsCounted same (
      counted
      ∙ ap (λ l. pos (active_count l))
          (sym (ap (λ l. mark_invalid l server.clients) smooth ∙ mark_invalid_none server.clients)))
server_round-IsCounted (idle now_us) server next smooth counted e =
    let left : List Client × ℤ =
      sweep_clients now_us server.session_timeout server.clients server.client_count in
    let same : record server { clients = left.0; client_count = left.1 } ≡ next = cc in
    subst IsCounted same (
      sweep_clients-counts now_us server.session_timeout server.clients 0 server.client_count
        (counted ∙ sym (from_zero _))
      ∙ from_zero _)
server_round-IsCounted (busy plain tls ready) server next (plain_ok, tls_ok, w) counted e =
    let accepted : Server = accept_if tls (accept_if plain server) in
    let (r, run, same) =
      map-some_inv _ (serve_clients accepted ready accepted.clients accepted.client_count) next e in
    let counted_in : IsCounted accepted =
      accept_if-IsCounted tls (accept_if plain server) tls_ok
        (accept_if-IsCounted plain server plain_ok counted) in
    subst IsCounted same (
      serve_clients-counts accepted ready accepted.clients 0 accepted.client_count r w
        (counted_in ∙ sym (from_zero _)) run
      ∙ from_zero _)
