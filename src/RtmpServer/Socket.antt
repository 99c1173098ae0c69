-- ===== src/RtmpServer/Socket.antt =====
-- Exact reads and writes on a socket: `rtmp_read_bytes` and `rtmp_write_bytes` of
-- src/modules/rtmp_server/rtmp_server.c.
pub mod Streams
pub mod Programs
use strero.Prelude.{
  ℕ, zero, suc, ◌+◌, ◌-◌, ◌≤◌, Bool, true, false, ◌||◌, List, [], ◌∷◌, ◌++◌, leb, ltb, ◌==◌,
  if◌then◌else◌, length, drop, Bytes, ℤ, pos, negsuc, minus_one,
}
use strero.RtmpServer.{Received, received, recv_failed, Wire}

-- A step that fails stands for a return with that number from the function that makes it.
pub data Outcome (A : Type 0) : Type 0 where
  done : A → Outcome A
  returned : ℤ → Outcome A

abbrev pub M : Type 0 → Type 0 → Type 0
M W A = W → Outcome A × W

abbrev pub continue : {W A B : Type 0} → (A → M W B) → Outcome A × W → Outcome B × W
continue f (done a, w) = f a w
continue f (returned code, w) = (returned code, w)

infixl 5 ◌>>=◌ ◌>>◌
abbrev pub ◌>>=◌ : {W A B : Type 0} → M W A → (A → M W B) → M W B
◌>>=◌ m f w = continue f (m w)

abbrev pub ◌>>◌ : {W A B : Type 0} → M W A → M W B → M W B
◌>>◌ m k = m >>= λ _. k

abbrev pub pure : {W A : Type 0} → A → M W A
pure a w = (done a, w)

-- A round of the loop of rtmp_read_bytes: 0 at the end of the stream, -1 on an error.
unfoldable pub after_recv : {W : Type 0} → (ℕ → M W Bytes) → ℕ → Received × W → Outcome Bytes × W
after_recv later left (recv_failed, w) = (returned minus_one, w)
after_recv later left (received [], w) = (returned (pos 0), w)
after_recv later left (received (b ∷ bs), w) =
    continue (λ rest. pure ((b ∷ bs) ++ rest)) (later (left - length (b ∷ bs)) w)

-- A round of the loop of rtmp_write_bytes.
unfoldable pub after_send :
    {W : Type 0} → (Bytes → M W (Unit {0})) → Bytes → ℤ × W → Outcome (Unit {0}) × W
after_send later bytes (negsuc n, w) = (returned minus_one, w)
after_send later bytes (pos zero, w) = (returned minus_one, w)
after_send later bytes (pos (suc n), w) = later (drop (suc n) bytes) w

module _ {W : Type 0} (wire : Wire W) (fd : ℤ) where
  -- The loop of rtmp_read_bytes, with `left` bytes to come: every round takes one or more, so that
  -- `left` rounds are enough.
  unfoldable pub read_loop : ℕ → ℕ → M W Bytes
  read_loop zero left w = (done [], w)
  read_loop (suc rounds) zero w = (done [], w)
  read_loop (suc rounds) (suc left) w =
      after_recv (read_loop rounds) (suc left) (wire.recv fd (suc left) w)

  -- The bytes, 0 at the end of the stream, or -1.
  unfoldable pub rtmp_read_bytes : ℕ → M W Bytes
  rtmp_read_bytes count = read_loop count count

  unfoldable pub write_loop : ℕ → Bytes → M W (Unit {0})
  write_loop zero bytes w = (done tt, w)
  write_loop (suc rounds) [] w = (done tt, w)
  write_loop (suc rounds) (b ∷ bytes) w =
      after_send (write_loop rounds) (b ∷ bytes) (wire.send fd (b ∷ bytes) w)

  unfoldable pub rtmp_write_bytes : Bytes → M W (Unit {0})
  rtmp_write_bytes bytes = write_loop (length bytes) bytes
