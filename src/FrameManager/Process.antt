-- ===== src/FrameManager/Process.antt =====
-- One pass of the processing thread of src/frame_manager.c: `process_frame_from_encoder`, and the
-- loop over the channels in `frame_processing_thread`.
--
-- The encoder behind the HAL is an argument, `Hal`: what it returns during one call. The static
-- arrays `cap` and `seq` are part of the state; the content of `buf` outside the call is not, since
-- every call overwrites what it reads. `none` is a fault: a read or write out of bounds.
pub mod Statistics
pub mod Frames
mod Examples
use strero.Prelude.{
  ℕ, zero, suc, ◌+◌, ◌*◌, ◌/◌, ◌%◌, ◌^◌, Bool, true, false, not, ◌&&◌, ◌||◌, Option, none, some,
  List, [], ◌∷◌, ◌++◌, ltb, leb, ◌==◌, if◌then◌else◌, length, get_or, set, Bytes, ℤ, pos, minus_one,
  is_negative, is_zero,
}
use strero.FrameManager.{
  FrameInfo, StreamParams, Manager, Stats, fs_chn_num, empty_params,
  frame_manager_get_consumer_count, distribute_frame_to_consumers,
}
use strero.FrameManager.Nal.{
  detect_frame_type, is_keyframe, extract_params, Extracted, extracted, read_out_of_bounds,
  out_of_fuel,
}

pub record Pack : Type 0 where
  pub bytes : Bytes
  pub timestamp_us : ℕ

-- What the HAL and the C library answer during one call. `poll` is given the timeout.
pub record Hal : Type 0 where
  pub poll : ℕ → ℤ
  pub get : ℤ
  pub packs : List Pack
  pub realloc_ok : Bool
  pub malloc_ok : ℕ → Bool
  pub now_us : ℕ

-- `g_config->sensor.fps`, `is_low_memory_device()`, and the calls out of this file that return
-- nothing: `metrics_update_stream_frame(channel, size, false)` (nothing if metrics are not built in)
-- and `hal_stream_release`.
pub record Setup (W : Type 0) : Type 0 where
  pub fps : ℕ
  pub low_memory : Bool
  pub metrics_update : ℕ → ℕ → W → W
  pub release : ℕ → W → W

pub record Pipeline (W : Type 0) : Type 0 where
  pub manager : Manager W
  pub cap : List ℕ
  pub seq : List ℕ
  pub world : W

abbrev pub u32 : ℕ → ℕ
u32 n = n % 2 ^ 32

-- `polling_timeout_ms`
pub polling_timeout : {W : Type 0} → Setup W → ℕ
polling_timeout env =
    let ms = 1000 / (if ltb 0 env.fps then env.fps else 30) in if env.low_memory then ms / 2 else ms

pub concat : List Pack → Bytes
concat [] = []
concat (p ∷ ps) = p.bytes ++ concat ps

pub first_timestamp : List Pack → ℕ
first_timestamp [] = 0
first_timestamp (p ∷ _) = p.timestamp_us

pub make_frame : ℕ → List Pack → ℕ → FrameInfo
make_frame channel packs sequence = record {
  bytes = concat packs;
  channel = channel;
  frame_type = detect_frame_type (concat packs);
  tv_sec = first_timestamp packs / 1000000;
  tv_usec = first_timestamp packs % 1000000;
  sequence = sequence;
  is_keyframe = is_keyframe (detect_frame_type (concat packs));
}

pub count_frame : ℕ → ℕ → Stats → Stats
count_frame channel now st = record st {
  total_frames = u32 (st.total_frames + 1);
  frames_per_channel =
      set st.frames_per_channel channel (u32 (get_or st.frames_per_channel channel 0 + 1));
  last_frame_time = now;
}

module _ {W : Type 0} where
  -- `extract_stream_params`: the parameters of the frame's channel.
  pub extract_stream_params : (ℕ → Bool) → FrameInfo → Manager W → Option (Manager W)
  extract_stream_params malloc_ok frame s =
      if leb fs_chn_num frame.channel
      then some s
      else elim (extract_params malloc_ok frame.bytes
          (get_or s.stream_params frame.channel empty_params)) [
            | extracted params ↦
                some (record s { stream_params = set s.stream_params frame.channel params })
            | read_out_of_bounds ↦ none
            | out_of_fuel ↦ none
          ]

  -- From the frame on: extract, distribute, measure, count, release.
  pub deliver : Setup W → Hal → FrameInfo → Pipeline W → Option (ℤ × Pipeline W)
  deliver env hal frame t = elim (extract_stream_params hal.malloc_ok frame t.manager) [
    | none ↦ none
    | some s ↦
        let w = distribute_frame_to_consumers frame s t.world in
        let w' = env.metrics_update frame.channel (length frame.bytes) w in
        some (
          pos 0,
          record t {
            manager = record s { stats = count_frame frame.channel hal.now_us s.stats };
            world = env.release frame.channel w';
          },
        )
  ]

  -- From the packs on. Sizes are `uint32_t`: packs of 2^32 bytes or more overrun the buffer.
  pub process_packs : Setup W → Hal → ℕ → Pipeline W → Option (ℤ × Pipeline W)
  process_packs env hal channel t =
      let size = length (concat hal.packs) in
      let frame = make_frame channel hal.packs (u32 (get_or t.seq channel 0 + 1)) in
      let grow = ltb (get_or t.cap channel 0) size in
      if leb (2 ^ 32) size
      then none
      else if grow && not hal.realloc_ok
      then some (minus_one, record t { world = env.release channel t.world })
      else deliver env hal frame (record t {
        cap = if grow then set t.cap channel size else t.cap;
        seq = set t.seq channel frame.sequence;
      })

  pub process_frame_from_encoder : Setup W → Hal → ℕ → Pipeline W → Option (ℤ × Pipeline W)
  process_frame_from_encoder env hal channel t =
      if is_negative (hal.poll (polling_timeout env))
      then some (minus_one, t)
      else if is_negative hal.get
      then some (minus_one, t)
      else process_packs env hal channel t

  -- The `for` loop over the channels in `frame_processing_thread`, with `rounds` channels left. The
  -- encoder's answers are given for each channel; the flag is `frame_processed`.
  pub process_channels :
      Setup W → (ℕ → Hal) → ℕ → ℕ → Bool × Pipeline W → Option (Bool × Pipeline W)
  process_channels env hal zero channel (done, t) = some (done, t)
  process_channels env hal (suc rounds) channel (done, t) =
      if ltb 0 (frame_manager_get_consumer_count channel t.manager)
      then (elim (process_frame_from_encoder env (hal channel) channel t) [
        | none ↦ none
        | some (r, t') ↦ process_channels env hal rounds (channel + 1) (done || is_zero r, t')
      ])
      else process_channels env hal rounds (channel + 1) (done, t)

  -- One turn of the `while` loop, without the frame rate log and the sleep.
  pub process_turn : Setup W → (ℕ → Hal) → Pipeline W → Option (Bool × Pipeline W)
  process_turn env hal t = process_channels env hal fs_chn_num 0 (false, t)
