-- ===== src/RtspServer/Slots/Counting.antt =====
-- The count of clients of src/modules/rtsp/rtsp_server.c against the slots that are taken.
use strero.Prelude.{
  ℕ, suc, ◌+◌, ◌≡◌, refl, ap, sym, subst, ◌∙◌, Bool, true, false, not, ◌&&◌, Option, none, some,
  Bool-cases, map-some_inv, bind-some_inv, ◌⊎◌, inl, inr, List, [], ◌∷◌, if◌then◌else◌, ℤ, pos,
  arith, is_negative, All,
}
use strero.RtspServer.{
  Client, TransportMode, transport_udp, transport_tcp, RtspMethod, Server, is_playing,
}
use strero.RtspServer.Session.{Outside, Handled, decrement}
use strero.RtspServer.Session.Connection.{cleanup_client, handle_client_connection}
use strero.RtspServer.Session.States.{
  Situation, Moves, moves_setup, moves_play, moves_pause, moves_teardown,
}
use strero.RtspServer.Session.Access.{handle_client_connection-Moves}
use strero.RtspServer.Session.Results.{Answers, handle_client_connection-KeepsOrAnswers}
use strero.RtspServer.Slots.{
  hold_media, resume_media, drop_client, finish_request, serve_client, serve_clients,
}

abbrev pub slots_taken : Client → ℕ
slots_taken client = if client.active then 1 else 0

-- How many slots are taken.
unfoldable pub active_count : List Client → ℕ
active_count [] = 0
active_count (client ∷ clients) = slots_taken client + active_count clients

abbrev pub IsCounted : Server → Type 0
IsCounted server = server.client_count ≡ pos (active_count server.clients)

-- A slot stays taken, or it is freed and counted out.
abbrev pub CountsFor : ℤ → Client → ℤ → Type 0
CountsFor count client left =
    ((client.active ≡ true) × (left ≡ count)) ⊎ ((client.active ≡ false) × (left ≡ decrement count))

Moves-counts :
    (method : RtspMethod) (s t : Situation)
    → s.1 ≡ true
    → Moves method s t
    → ((t.1 ≡ true) × (t.2 ≡ s.2)) ⊎ ((t.1 ≡ false) × (t.2 ≡ decrement s.2))
Moves-counts method s t h moves_setup = inl (h, refl)
Moves-counts method s t h (moves_play ok) = inl (h, refl)
Moves-counts method s t h moves_pause = inl (h, refl)
Moves-counts method s t h moves_teardown = inr (refl, refl)

-- Where the slot is free already, the call went well.
abbrev IsClean : ℤ → Handled → Type 0
IsClean count handled =
    ((handled.client.active ≡ true) × (handled.client_count ≡ count))
    ⊎ ((handled.client.active ≡ false)
        × (handled.client_count ≡ decrement count)
        × (is_negative handled.result ≡ false))

written :
    (outside : Outside) (handled : Handled)
    → outside.response_written ≡ true
    → Answers outside handled
    → is_negative handled.result ≡ false
written outside handled w a = ground arith

handle_client_connection-IsClean :
    (outside : Outside) (server : Server) (client : Client) (count : ℤ) (handled : Handled)
    → outside.response_written ≡ true
    → client.active ≡ true
    → handle_client_connection outside server client count ≡ some handled
    → IsClean count handled
handle_client_connection-IsClean outside server client count handled w active e =
    elim (handle_client_connection-KeepsOrAnswers outside server client count handled e) [
      | inl same ↦ inl (ap (λ (s : Situation). s.1) same ∙ active, ap (λ (s : Situation). s.2) same)
      | inr answers ↦ elim (handle_client_connection-Moves outside server client count handled e) [
        | inl same ↦
            inl (ap (λ (s : Situation). s.1) same ∙ active, ap (λ (s : Situation). s.2) same)
        | inr (parsed, ok, checked, moves) ↦ elim (Moves-counts parsed.method _ _ active moves) [
          | inl stays ↦ inl stays
          | inr (free, left) ↦ inr (free, left, written outside handled w answers)
        ]
      ]
    ]

resume_media-active :
    (was_playing : Bool) (handled : Handled)
    → (resume_media was_playing handled).active ≡ handled.client.active
unfolding resume_media
resume_media-active was_playing handled = ground arith

finish_request-CountsFor :
    (was_playing : Bool) (count : ℤ) (handled : Handled)
    → IsClean count handled
    → CountsFor count (finish_request was_playing handled).0 (finish_request was_playing handled).1
unfolding finish_request drop_client cleanup_client
finish_request-CountsFor was_playing count handled (inl (active, same)) =
    elim (Bool-cases (is_negative handled.result)) [
      | inl broken ↦ rw broken (inr (refl, ap decrement same))
      | inr fine ↦ rw fine (inl (resume_media-active was_playing handled ∙ active, same))
    ]
finish_request-CountsFor was_playing count handled (inr (free, left, fine)) =
    rw fine (inr (resume_media-active was_playing handled ∙ free, left))

hold_media-active :
    (mode : TransportMode) (client : Client) → (hold_media mode client).active ≡ client.active
unfolding hold_media
hold_media-active transport_udp client = refl
hold_media-active transport_tcp client = ground arith

serve_client-CountsFor :
    (outside : Outside) (server : Server) (client : Client) (count : ℤ) (served : Client × ℤ)
    → outside.response_written ≡ true
    → client.active ≡ true
    → serve_client outside server client count ≡ some served
    → CountsFor count served.0 served.1
unfolding serve_client
serve_client-CountsFor outside server client count served w active e =
    let (handled, run, same) =
      map-some_inv (finish_request (is_playing client.state))
        (handle_client_connection outside server (hold_media client.transport_mode client) count)
        served e in
    subst (λ (r : Client × ℤ). CountsFor count r.0 r.1) same
      (finish_request-CountsFor (is_playing client.state) count handled (
        handle_client_connection-IsClean outside server (hold_media client.transport_mode client)
          count handled w (hold_media-active client.transport_mode client ∙ active) run))

-- Every response of the round can be written.
abbrev pub IsWritten : Option Outside → Type 0
IsWritten none = Unit
IsWritten (some outside) = outside.response_written ≡ true

pub unfolded_count :
    (front : ℕ) (client : Client) (clients : List Client)
    → pos (front + active_count (client ∷ clients))
      ≡ pos (front + slots_taken client + active_count clients)
unfolding active_count
unfolded_count front client clients = ap pos (omega arith)

pub CountsFor-slots_taken :
    (front others : ℕ) (client served : Client) (left : ℤ)
    → client.active ≡ true
    → CountsFor (pos (front + slots_taken client + others)) served left
    → left ≡ pos (front + slots_taken served + others)
unfolding decrement
CountsFor-slots_taken front others client served left active (inl (still, same)) =
    let equal : slots_taken client ≡ slots_taken served = ground arith in
    same ∙ ap (λ n. pos (front + n + others)) equal
CountsFor-slots_taken front others client served left active (inr (free, same)) =
    let one : front + slots_taken client + others ≡ suc (front + others) = ground arith in
    let less : front + others ≡ front + slots_taken served + others = ground arith in
    same ∙ ap (λ n. decrement (pos n)) one ∙ ap pos less

-- `front` clients are counted in front of the ones that the loop is at.
pub serve_clients-counts :
    (server : Server) (ready : List (Option Outside)) (clients : List Client) (front : ℕ)
    (count : ℤ) (left : List Client × ℤ)
    → All IsWritten ready
    → count ≡ pos (front + active_count clients)
    → serve_clients server ready clients count ≡ some left
    → left.1 ≡ pos (front + active_count left.0)
unfolding serve_clients
serve_clients-counts server ready [] front count left w n e =
    let same : ([], count) ≡ left = cc in
    subst (λ (l : List Client × ℤ). l.1 ≡ pos (front + active_count l.0)) same n
serve_clients-counts server [] (client ∷ clients) front count left w n e =
    let same : (client ∷ clients, count) ≡ left = cc in
    subst (λ (l : List Client × ℤ). l.1 ≡ pos (front + active_count l.0)) same n
serve_clients-counts server (none ∷ ready) (client ∷ clients) front count left w n e =
    let (r, run, same) = map-some_inv _ (serve_clients server ready clients count) left e in
    subst (λ (l : List Client × ℤ). l.1 ≡ pos (front + active_count l.0)) same
      (serve_clients-counts server ready clients (front + slots_taken client) count r w.1
          (n ∙ unfolded_count front client clients) run
        ∙ sym (unfolded_count front client r.0))
serve_clients-counts server (some outside ∷ ready) (client ∷ clients) front count left w n e =
    elim (Bool-cases (client.active && not (is_negative client.socket_fd))) [
      | inl live ↦
          let active : client.active ≡ true = ground arith in
          let (served, ran, e1) =
            bind-some_inv _ (serve_client outside server client count) left (rw live at e) in
          let (r, run, same) =
            map-some_inv _ (serve_clients server ready clients served.1) left e1 in
          let left_over : served.1 ≡ pos (front + slots_taken served.0 + active_count clients) =
            CountsFor-slots_taken front (active_count clients) client served.0 served.1 active (
              serve_client-CountsFor outside server client
                (pos (front + slots_taken client + active_count clients)) served w.0 active
                (subst (λ c. serve_client outside server client c ≡ some served)
                  (n ∙ unfolded_count front client clients) ran)) in
          subst (λ (l : List Client × ℤ). l.1 ≡ pos (front + active_count l.0)) same
            (serve_clients-counts server ready clients (front + slots_taken served.0) served.1 r w.1
                left_over run
              ∙ sym (unfolded_count front served.0 r.0))
      | inr skipped ↦
          let (r, run, same) =
            map-some_inv _ (serve_clients server ready clients count) left (rw skipped at e) in
          subst (λ (l : List Client × ℤ). l.1 ≡ pos (front + active_count l.0)) same
            (serve_clients-counts server ready clients (front + slots_taken client) count r w.1
                (n ∙ unfolded_count front client clients) run
              ∙ sym (unfolded_count front client r.0))
    ]
