-- ===== src/FrameManager.antt =====
-- The frame manager of src/frame_manager.c and src/frame_manager.h: its state, its lifecycle and its
-- consumers.
--
-- The state is `g_frame_manager` without the mutexes: each operation that locks one is one step
-- here. A consumer's callback and its `user_data` are one function on the world, which holds
-- everything outside the frame manager; callbacks do not call back into it. What pthreads return
-- is an argument. `unsigned long` has 32 bits, as on the MIPS target.
pub mod Consumers
pub mod Delivery
pub mod Nal
pub mod Process
use strero.Prelude.{
  zero, suc, ℕ, ◌+◌, ◌/◌, ◌%◌, ◌^◌, Bool, true, false, not, ◌&&◌, ◌||◌, Option, none, some, List,
  [], ◌∷◌, ◌++◌, leb, ltb, ◌==◌, if◌then◌else◌, length, get_elem?, get_or, set, Bytes, ℤ, pos,
  negsuc, minus_one, is_zero, is_negative,
}

abbrev pub max_frame_consumers : ℕ
max_frame_consumers = 8

abbrev pub fs_chn_num : ℕ
fs_chn_num = 4

pub data FrameType : Type 0 where
  h264_idr h264_p h265_idr h265_p jpeg : FrameType

-- `data` and `size` are one list here; `timestamp` is in its two parts.
pub record FrameInfo : Type 0 where
  pub bytes : Bytes
  pub channel : ℕ
  pub frame_type : FrameType
  pub tv_sec : ℕ
  pub tv_usec : ℕ
  pub sequence : ℕ
  pub is_keyframe : Bool

-- The pointers and their sizes are optional byte strings.
pub record StreamParams : Type 0 where
  pub sps : Option Bytes
  pub pps : Option Bytes
  pub available : Bool

abbrev pub empty_params : StreamParams
empty_params = record { sps = none; pps = none; available = false }

-- The fields of `frame_manager_stats_t` that the program writes; `frames_per_channel` has 4.
pub record Stats : Type 0 where
  pub total_frames : ℕ
  pub frames_per_channel : List ℕ
  pub last_frame_time : ℕ

abbrev pub zero_stats : Stats
zero_stats = record {
  total_frames = 0;
  frames_per_channel = 0 ∷ 0 ∷ 0 ∷ 0 ∷ [];
  last_frame_time = 0;
}

-- `name` and `callback` may be NULL. The mask is a C `int`, as its bit pattern.
pub record Consumer (W : Type 0) : Type 0 where
  pub name : Option Bytes
  pub callback : Option (FrameInfo → W → W)
  pub channel_mask : ℕ
  pub active : Bool

-- `consumers` is the array up to `consumer_count`.
pub record Manager (W : Type 0) : Type 0 where
  pub consumers : List (Consumer W)
  pub running : Bool
  pub initialized : Bool
  pub stats : Stats
  pub stream_params : List StreamParams

-- mask & (1 << channel), as a test
abbrev pub mask_has : ℕ → ℕ → Bool
mask_has mask channel = mask / 2 ^ channel % 2 == 1

abbrev pub is_some : {A : Type 0} → Option A → Bool
is_some none = false
is_some (some _) = true

-- The argument is the result of `IMP_Encoder_RequestIDR(channel)`.
pub frame_manager_request_idr : ℤ → ℤ
frame_manager_request_idr ret = if is_negative ret then minus_one else pos 0

module _ {W : Type 0} where
  -- Active, and wants this channel.
  abbrev pub wants : ℕ → Consumer W → Bool
  wants channel c = c.active && mask_has c.channel_mask channel

  -- The arguments are the results of the three calls of `pthread_mutex_init`. The consumers are
  -- not reset: some may be registered already.
  pub frame_manager_init : ℤ → ℤ → ℤ → Manager W → ℤ × Manager W
  frame_manager_init consumers_mutex stats_mutex params_mutex s =
      if s.initialized
      then (pos 0, s)
      else if not (is_zero consumers_mutex)
      then (minus_one, s)
      else if not (is_zero stats_mutex)
      then (minus_one, s)
      else if not (is_zero params_mutex)
      then (minus_one, s)
      else (pos 0, record s { running = false; initialized = true; stats = zero_stats })

  -- The argument is the result of `pthread_create`.
  pub frame_manager_start : ℤ → Manager W → ℤ × Manager W
  frame_manager_start created s =
      if not s.initialized
      then (minus_one, s)
      else if s.running
      then (pos 0, s)
      else if not (is_zero created)
      then (minus_one, record s { running = false })
      else (pos 0, record s { running = true })

  -- A failed `pthread_join` is only logged.
  pub frame_manager_stop : Manager W → ℤ × Manager W
  frame_manager_stop s = if not s.running then (pos 0, s) else (pos 0, record s { running = false })

  pub frame_manager_cleanup : Manager W → ℤ × Manager W
  frame_manager_cleanup s =
      if not s.initialized
      then (pos 0, s)
      else (let stopped = (frame_manager_stop s).1 in
          (pos 0, record stopped { initialized = false }))

  pub count_wanting : ℕ → List (Consumer W) → ℕ
  count_wanting channel [] = 0
  count_wanting channel (c ∷ cs) =
      let rest = count_wanting channel cs in if wants channel c then rest + 1 else rest

  pub frame_manager_get_consumer_count : ℕ → Manager W → ℕ
  frame_manager_get_consumer_count channel s = count_wanting channel s.consumers

  -- The result is the new consumer's ID, or -1. `none` is a NULL pointer.
  pub frame_manager_register_consumer : Option (Consumer W) → Manager W → ℤ × Manager W
  frame_manager_register_consumer none s = (minus_one, s)
  frame_manager_register_consumer (some c) s =
      if not (is_some c.callback) || not (is_some c.name)
      then (minus_one, s)
      else if leb max_frame_consumers (length s.consumers)
      then (minus_one, s)
      else (
        pos (length s.consumers),
        record s { consumers = s.consumers ++ (record c { active = true }) ∷ [] },
      )

  -- consumers[id].active = enabled
  pub set_active : List (Consumer W) → ℕ → Bool → List (Consumer W)
  set_active [] i enabled = []
  set_active (c ∷ cs) zero enabled = record c { active = enabled } ∷ cs
  set_active (c ∷ cs) (suc i) enabled = c ∷ set_active cs i enabled

  pub frame_manager_set_consumer_enabled : ℤ → Bool → Manager W → ℤ × Manager W
  frame_manager_set_consumer_enabled (negsuc _) enabled s = (minus_one, s)
  frame_manager_set_consumer_enabled (pos id) enabled s =
      if leb (length s.consumers) id
      then (minus_one, s)
      else (pos 0, record s { consumers = set_active s.consumers id enabled })

  pub frame_manager_unregister_consumer : ℤ → Manager W → ℤ × Manager W
  frame_manager_unregister_consumer (negsuc _) s = (minus_one, s)
  frame_manager_unregister_consumer (pos id) s =
      if leb (length s.consumers) id
      then (minus_one, s)
      else (pos 0, record s { consumers = set_active s.consumers id false })

  -- A negative channel or one from FS_CHN_NUM on has empty parameters.
  pub frame_manager_get_stream_params : ℤ → Manager W → StreamParams
  frame_manager_get_stream_params (negsuc _) s = empty_params
  frame_manager_get_stream_params (pos channel) s =
      if leb fs_chn_num channel then empty_params else get_or s.stream_params channel empty_params

  -- The copy that the caller gets; `none` is -1, for a NULL pointer.
  pub frame_manager_get_stats : Bool → Manager W → Option Stats
  frame_manager_get_stats stats s = if not stats then none else some s.stats

  -- A NULL callback is never registered; calling one would be a fault.
  abbrev call_consumer : Consumer W → FrameInfo → W → W
  call_consumer c frame w = elim c.callback [ none ↦ w | some f ↦ f frame w ]

  -- The loop of `distribute_frame_to_consumers`, over the consumers that are left.
  pub distribute : FrameInfo → List (Consumer W) → W → W
  distribute frame [] w = w
  distribute frame (c ∷ cs) w =
      distribute frame cs (if wants frame.channel c then call_consumer c frame w else w)

  pub distribute_frame_to_consumers : FrameInfo → Manager W → W → W
  distribute_frame_to_consumers frame s w = distribute frame s.consumers w
