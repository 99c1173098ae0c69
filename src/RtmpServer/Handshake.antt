-- ===== src/RtmpServer/Handshake.antt =====
-- The handshake: `rtmp_handshake_process` of src/modules/rtmp_server/rtmp_server.c.
pub mod Echo
use strero.Prelude.{
  ℕ, zero, suc, ◌%◌, Bool, List, [], ◌∷◌, ◌++◌, ◌==◌, if◌then◌else◌, get_or, Bytes, ℤ, minus_one,
}
use strero.RtmpServer.{
  ConnectionState, version_sent, ack_sent, handshake_done, Connection, Wire, be32,
}
use strero.RtmpServer.Socket.{
  Outcome, done, returned, M, continue, ◌>>=◌, ◌>>◌, pure, rtmp_write_bytes,
}
use strero.RtmpServer.Chunks.{read_or}

-- The connection changes along with what lies outside.
abbrev pub Handshaking : Type 0 → Type 0 → Type 0
Handshaking W A = M (Connection × W) A

abbrev pub beside : {W A : Type 0} → Connection → Outcome A × W → Outcome A × (Connection × W)
beside conn (o, w) = (o, (conn, w))

abbrev pub on_wire : {W A : Type 0} → M W A → Handshaking W A
on_wire m (conn, w) = beside conn (m w)

abbrev pub change : {W : Type 0} → (Connection → Connection) → Handshaking W (Unit {0})
change f (conn, w) = (done tt, (f conn, w))

unfoldable pub check_version : {W : Type 0} → ℕ → Handshaking W (Unit {0})
check_version version s = if version == 3 then (done tt, s) else (returned minus_one, s)

unfoldable pub random_bytes : {W : Type 0} → Wire W → ℕ → W → Bytes × W
random_bytes wire zero w = ([], w)
random_bytes wire (suc n) w =
    let (r, w1) = wire.rand w in let (later, w2) = random_bytes wire n w1 in ((r % 256) ∷ later, w2)

-- S1: the time, four zeros and 1528 random bytes.
unfoldable pub s1_data : {W : Type 0} → Wire W → M W Bytes
s1_data wire w =
    let (timestamp, w1) = wire.time w in
    let (random, w2) = random_bytes wire 1528 w1 in
    (done ((be32 timestamp ++ (0 ∷ 0 ∷ 0 ∷ 0 ∷ [])) ++ random), w2)

unfoldable pub rtmp_handshake_process : {W : Type 0} → Wire W → ℤ → Handshaking W (Unit {0})
rtmp_handshake_process wire fd = do
  c0 ← on_wire (read_or wire fd minus_one 1)
  check_version (get_or c0 0 0)
  change (λ conn. record conn { c0_s0_version = get_or c0 0 0; state = version_sent })
  on_wire (rtmp_write_bytes wire fd (3 ∷ []))
  c1 ← on_wire (read_or wire fd minus_one 1536)
  change (λ conn. record conn { c1_s1_data = c1 })
  s1 ← on_wire (s1_data wire)
  on_wire (rtmp_write_bytes wire fd s1)
  on_wire (rtmp_write_bytes wire fd c1)
  change (λ conn. record conn { state = ack_sent })
  c2 ← on_wire (read_or wire fd minus_one 1536)
  change (λ conn. record conn { c2_s2_data = c2; state = handshake_done })
