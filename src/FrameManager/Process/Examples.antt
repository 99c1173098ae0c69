-- ===== src/FrameManager/Process/Examples.antt =====
-- The frame manager of src/frame_manager.c with two consumers that log the sequence numbers they see.
use strero.Prelude.{
  inl, ℕ, zero, suc, ◌+◌, ◌≡◌, refl, true, false, none, some, List, [], ◌∷◌, length, codes, pos,
  minus_one, arith,
}
use strero.FrameManager.{
  frame_manager_get_stats, frame_manager_request_idr, FrameInfo, StreamParams, empty_params,
  zero_stats, Consumer, Manager, count_wanting, frame_manager_get_consumer_count,
  frame_manager_register_consumer, distribute, distribute_frame_to_consumers,
}
use strero.FrameManager.Consumers.{
  Call, init, start, stop, cleanup, register, unregister, run, IsValid, slots_never_freed,
}
use strero.FrameManager.Process.{
  Hal, Setup, Pipeline, concat, make_frame, count_frame, extract_stream_params, deliver,
  process_packs, process_frame_from_encoder, process_channels, process_turn,
}
use strero.FrameManager.Process.Frames.{
  IsJoined, CanDeliver, Delivered, process_frame_from_encoder_ok,
}
use strero.FrameManager.Process.Statistics.{IsCounted}
use strero.FrameManager.Nal.{detect_frame_type, scan_frame_type, is_keyframe, extract_params}

-- A consumer that wants channel 0, or channels 0 and 1.
abbrev logger : ℕ → ℕ → Consumer (List ℕ)
logger tag mask = record {
  name = some (codes "log");
  callback = some (λ frame w. (tag + frame.sequence) ∷ w);
  channel_mask = mask;
  active = true;
}

abbrev complete : StreamParams
complete = record { sps = some (103 ∷ []); pps = some (104 ∷ []); available = true }

abbrev manager : Manager (List ℕ)
manager = record {
  consumers = logger 100 1 ∷ logger 200 3 ∷ [];
  running = true;
  initialized = true;
  stats = zero_stats;
  stream_params = complete ∷ empty_params ∷ empty_params ∷ empty_params ∷ [];
}

abbrev pipeline : Pipeline (List ℕ)
pipeline = record {
  manager = manager;
  cap = 0 ∷ 0 ∷ 0 ∷ 0 ∷ [];
  seq = 4 ∷ 0 ∷ 0 ∷ 0 ∷ [];
  world = [];
}

abbrev setup : Setup (List ℕ)
setup = record {
  fps = 25;
  low_memory = false;
  metrics_update = λ channel size w. w;
  release = λ channel w. w;
}

-- An IDR slice in two packs.
abbrev hal : Hal
hal = record {
  poll = λ _. pos 0;
  get = pos 0;
  packs =
      record { bytes = 0 ∷ 0 ∷ 0 ∷ 1 ∷ []; timestamp_us = 1000001 }
      ∷ record { bytes = 101 ∷ 1 ∷ []; timestamp_us = 1000001 }
      ∷ [];
  realloc_ok = true;
  malloc_ok = λ _. true;
  now_us = 50;
}

abbrev frame : FrameInfo
frame = make_frame 0 hal.packs 5

frame_test : frame.is_keyframe ≡ true
unfolding make_frame concat detect_frame_type scan_frame_type is_keyframe
frame_test = refl

stats_test : frame_manager_get_stats true manager ≡ some zero_stats
unfolding frame_manager_get_stats
stats_test = refl

idr_test : frame_manager_request_idr (pos 0) ≡ pos 0
unfolding frame_manager_request_idr
idr_test = refl

third : (frame_manager_register_consumer (some (logger 300 1)) manager).0 ≡ pos 2
unfolding frame_manager_register_consumer
third = refl

manager-IsValid : IsValid manager
manager-IsValid = record {
  bounded = ground arith;
  callbacks = (refl, (refl, tt));
  running_initialized = λ _. refl;
  channels = refl;
}

abbrev calls : List (Call (List ℕ))
calls =
    register none
    ∷ unregister (pos 0)
    ∷ stop
    ∷ cleanup
    ∷ init (pos 0) (pos 0) (pos 0)
    ∷ register (some (logger 300 1))
    ∷ start (pos 0)
    ∷ []

abbrev eight : Manager (List ℕ)
eight = record manager {
  consumers =
      logger 0 1
      ∷ logger 1 1
      ∷ logger 2 1
      ∷ logger 3 1
      ∷ logger 4 1
      ∷ logger 5 1
      ∷ logger 6 1
      ∷ logger 7 1
      ∷ [];
}

slots_never_freed_example :
    frame_manager_register_consumer (some (logger 9 1)) (run calls eight)
    ≡ (minus_one, run calls eight)
slots_never_freed_example = slots_never_freed calls eight (some (logger 9 1)) (ground arith)

abbrev after : Pipeline (List ℕ)
after = record {
  manager = record manager {
    stats = record {
      total_frames = 1;
      frames_per_channel = 1 ∷ 0 ∷ 0 ∷ 0 ∷ [];
      last_frame_time = 50;
    };
  };
  cap = 6 ∷ 0 ∷ 0 ∷ 0 ∷ [];
  seq = 5 ∷ 0 ∷ 0 ∷ 0 ∷ [];
  world = 205 ∷ 105 ∷ [];
}

returns_zero : process_frame_from_encoder setup hal 0 pipeline ≡ some (pos 0, after)
unfolding process_frame_from_encoder process_packs deliver extract_stream_params extract_params
    concat make_frame count_frame distribute distribute_frame_to_consumers
returns_zero = refl

can_deliver : CanDeliver setup hal 0 frame.bytes pipeline
unfolding IsJoined make_frame concat
can_deliver = record {
  polled = refl;
  got = refl;
  joined = (refl, (refl, refl));
  fits = omega arith;
  room = inl refl;
  readable = inl (omega arith);
  known = omega arith;
}

process_frame_from_encoder_ok_example :
    (t' : Pipeline (List ℕ)) × (f : FrameInfo) × (process_frame_from_encoder setup hal 0 pipeline
      ≡ some (pos 0, t'))
    × Delivered setup hal 0 frame.bytes pipeline f t'
process_frame_from_encoder_ok_example =
    process_frame_from_encoder_ok setup hal 0 frame.bytes pipeline can_deliver

no_memory :
    process_frame_from_encoder setup (record hal { realloc_ok = false }) 0 pipeline
    ≡ some (minus_one, pipeline)
unfolding process_frame_from_encoder process_packs concat
no_memory = refl

concat_fits : length (concat hal.packs) ≡ 6
unfolding concat
concat_fits = refl

-- Only channel 0 has an encoder.
abbrev hals : ℕ → Hal
hals zero = hal
hals (suc _) = record hal { get = minus_one }

turns : process_turn setup hals pipeline ≡ some (true, after)
unfolding process_turn process_channels process_frame_from_encoder process_packs deliver
    extract_stream_params extract_params concat make_frame count_frame distribute
    distribute_frame_to_consumers count_wanting frame_manager_get_consumer_count
turns = refl

stats-IsCounted : IsCounted zero_stats
stats-IsCounted = record { channels = refl; total = refl }
