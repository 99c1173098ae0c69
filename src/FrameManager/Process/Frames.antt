-- ===== src/FrameManager/Process/Frames.antt =====
-- Which frame a call of `process_frame_from_encoder` of src/frame_manager.c hands on, and when it
-- faults.
use mathlib.Core.List.{foldl}
use strero.Prelude.{
  zero, suc, List, [], ◌∷◌, ◌++◌, sym, ap, ◌∙◌, refl, take, drop, take-append-drop, Bytes, ◌*◌, ◌%◌,
  false, ℕ, ◌+◌, ◌^◌, ◌≤◌, ◌<◌, ◌≡◌, ◌≢◌, ◌⊎◌, Bool, true, not, ◌&&◌, ◌||◌, none, some, length,
  get_or, set, ltb, leb, if◌then◌else◌, ℤ, pos, minus_one, arith, Bool-cases, Option-cases, inl,
  inr, is_negative,
}
use strero.FrameManager.Delivery.{wanting, distribute_lem}
use strero.FrameManager.{
  call_consumer, FrameInfo, Manager, empty_params, distribute_frame_to_consumers,
}
use strero.FrameManager.Nal.Extraction.{extract_params_total}
use strero.FrameManager.Process.{
  Pack, first_timestamp, Hal, Setup, Pipeline, u32, concat, make_frame, count_frame,
  polling_timeout, extract_stream_params, deliver, process_packs, process_frame_from_encoder,
}
use strero.FrameManager.Process.Statistics.{extract_stream_params-manager}

-- The packs stand in these bytes one behind the other, and nothing else does.
unfoldable pub IsJoined : List Pack → Bytes → Type 0
IsJoined [] bytes = bytes ≡ []
IsJoined (p ∷ later) bytes =
    (take (length p.bytes) bytes ≡ p.bytes) × IsJoined later (drop (length p.bytes) bytes)

concat-IsJoined : (packs : List Pack) (bytes : Bytes) → IsJoined packs bytes → concat packs ≡ bytes
unfolding concat IsJoined
concat-IsJoined [] bytes joined = sym joined
concat-IsJoined (p ∷ later) bytes (here, there) =
    ap (λ l. p.bytes ++ l) (concat-IsJoined later _ there)
    ∙ ap (λ l. l ++ drop (length p.bytes) bytes) (sym here)
    ∙ take-append-drop (length p.bytes) bytes

get_or-set : (xs : List ℕ) (n x : ℕ) → n < length xs → get_or (set xs n x) n 0 ≡ x
get_or-set [] n x h = elim h [ ]
get_or-set (y ∷ xs) zero x h = refl
get_or-set (y ∷ xs) (suc n) x h = get_or-set xs n x (omega arith)

get_or-set_other : (xs : List ℕ) (n m x : ℕ) → m ≢ n → get_or (set xs n x) m 0 ≡ get_or xs m 0
get_or-set_other [] n m x h = refl
get_or-set_other (y ∷ xs) zero zero x h = elim (h refl) [ ]
get_or-set_other (y ∷ xs) zero (suc m) x h = refl
get_or-set_other (y ∷ xs) (suc n) zero x h = refl
get_or-set_other (y ∷ xs) (suc n) (suc m) x h = get_or-set_other xs n m x (λ e. h (ap suc e))

module _ {W : Type 0} (env : Setup W) (hal : Hal) where
  -- What the outside has seen after a frame: the consumers, then the metrics, then the release.
  abbrev pub handed_on : FrameInfo → Manager W → W → W
  handed_on frame s w = env.release frame.channel (
      env.metrics_update frame.channel (length frame.bytes)
        (distribute_frame_to_consumers frame s w))

  deliver_lem :
      (frame : FrameInfo) (t t' : Pipeline W) (r : ℤ)
      → deliver env hal frame t ≡ some (r, t')
      → (r ≡ pos 0)
        × (t'.world ≡ handed_on frame t.manager t.world)
        × (t'.seq ≡ t.seq)
        × (t'.manager.stats ≡ count_frame frame.channel hal.now_us t.manager.stats)
  unfolding deliver distribute_frame_to_consumers
  deliver_lem frame t t' r e =
      elim (Option-cases (extract_stream_params hal.malloc_ok frame t.manager)) [
        | inl fault ↦ ground arith
        | inr (s, found) ↦
            let (params, same, len) =
              extract_stream_params-manager hal.malloc_ok frame t.manager s found in
            ground (arith, same)
      ]

  abbrev next_frame : ℕ → Pipeline W → FrameInfo
  next_frame channel t = make_frame channel hal.packs (u32 (get_or t.seq channel 0 + 1))

  abbrev with_buffer : ℕ → Pipeline W → Pipeline W
  with_buffer channel t = record t {
    cap =
        if ltb (get_or t.cap channel 0) (length (concat hal.packs))
        then set t.cap channel (length (concat hal.packs))
        else t.cap;
    seq = set t.seq channel (next_frame channel t).sequence;
  }

  -- A call that returns either fails before it builds a frame, or delivers one.
  process_cases :
      (channel : ℕ) (t t' : Pipeline W) (r : ℤ)
      → process_frame_from_encoder env hal channel t ≡ some (r, t')
      → ((r ≡ minus_one) × (t'.manager ≡ t.manager) × (t'.seq ≡ t.seq) × (t'.cap ≡ t.cap))
        ⊎ (deliver env hal (next_frame channel t) (with_buffer channel t) ≡ some (r, t'))
  unfolding process_frame_from_encoder process_packs make_frame
  process_cases channel t t' r e =
      elim (Bool-cases (is_negative (hal.poll (polling_timeout env)) || is_negative hal.get)) [
        | inl failed ↦ inl (ground arith)
        | inr ok ↦ elim (Bool-cases (leb (2 ^ 32) (length (concat hal.packs)))) [
          | inl over ↦ ground arith
          | inr fits ↦ elim (Bool-cases (grow && not hal.realloc_ok)) [
            | inl no_memory ↦ inl (ground arith)
            | inr room ↦ inr (ground arith)
          ]
        ]
      ]
    where
      grow : Bool
      grow = ltb (get_or t.cap channel 0) (length (concat hal.packs))

  -- The conditions under which a call succeeds.
  pub record CanDeliver (channel : ℕ) (bytes : Bytes) (t : Pipeline W) : Type 0 where
    pub polled : is_negative (hal.poll (polling_timeout env)) ≡ false
    pub got : is_negative hal.get ≡ false
    pub joined : IsJoined hal.packs bytes
    pub fits : length bytes < 2 ^ 32
    pub room : (hal.realloc_ok ≡ true) ⊎ (length bytes ≤ get_or t.cap channel 0)
    pub readable :
        (4 ≤ length bytes)
        ⊎ ((get_or t.manager.stream_params channel empty_params).available ≡ true)
    pub known : channel < length t.seq

  -- What a call that succeeds leaves behind.
  pub record Delivered (channel : ℕ) (bytes : Bytes) (t : Pipeline W) (frame : FrameInfo)
      (t' : Pipeline W) : Type 0 where
    pub whole : frame.bytes ≡ bytes
    pub channelled : frame.channel ≡ channel
    pub number : frame.sequence ≡ (get_or t.seq channel 0 + 1) % 2 ^ 32
    pub time : frame.tv_sec * 1000000 + frame.tv_usec ≡ first_timestamp hal.packs
    pub seen :
        t'.world
        ≡ env.release channel (
            env.metrics_update channel (length bytes) (
              foldl (λ w c. call_consumer c frame w) t.world (wanting channel t.manager.consumers)))
    pub numbered : get_or t'.seq channel 0 ≡ frame.sequence
    pub others : (c : ℕ) → c ≢ channel → get_or t'.seq c 0 ≡ get_or t.seq c 0
    pub counted : t'.manager.stats.total_frames ≡ (t.manager.stats.total_frames + 1) % 2 ^ 32

  process_delivers :
      (channel : ℕ) (bytes : Bytes) (t : Pipeline W)
      → CanDeliver channel bytes t
      → process_frame_from_encoder env hal channel t
        ≡ deliver env hal (next_frame channel t) (with_buffer channel t)
  unfolding process_frame_from_encoder process_packs make_frame
  process_delivers channel bytes t can =
      ground (arith, can, concat-IsJoined hal.packs bytes can.joined)

  deliver_returns :
      (frame : FrameInfo) (t : Pipeline W)
      → (4 ≤ length frame.bytes)
        ⊎ ((get_or t.manager.stream_params frame.channel empty_params).available ≡ true)
      → deliver env hal frame t ≢ none
  unfolding deliver extract_stream_params
  deliver_returns frame t enough = ground (
    arith,
    extract_params_total hal.malloc_ok frame.bytes
        (get_or t.manager.stream_params frame.channel empty_params),
  )

  -- If the poll and the get of the encoder succeed, the packs together are under 2^32 bytes, the
  -- buffer has room for them or grows, they are 4 bytes or more (or the channel's parameters are
  -- complete), and the channel is one of those that have a number: a call returns 0. Then one frame
  -- has gone to the consumers that are active and want the channel, once each and in order of
  -- registration, then to the metrics, and was released: its bytes are those of the packs one behind
  -- the other in their order, its number is one more than the channel's last one, its time is that
  -- of the first pack. The channel's number is that of the frame, those of the other channels are as
  -- before, and one frame more is counted.
  pub process_frame_from_encoder_ok :
      (channel : ℕ) (bytes : Bytes) (t : Pipeline W)
      → CanDeliver channel bytes t
      → (t' : Pipeline W) × (frame : FrameInfo) × (process_frame_from_encoder env hal channel t
          ≡ some (pos 0, t'))
        × Delivered channel bytes t frame t'
  unfolding make_frame count_frame
  process_frame_from_encoder_ok channel bytes t can =
      let frame = next_frame channel t in
      let same : frame.bytes ≡ bytes = concat-IsJoined hal.packs bytes can.joined in
      elim (Option-cases (deliver env hal frame (with_buffer channel t))) [
        | inl fault ↦
            elim (deliver_returns frame (with_buffer channel t) (rw same can.readable) fault) [ ]
        | inr ((r, t'), done) ↦
            let after_consumers : FrameInfo → ℕ → W = λ f n. env.release channel (
              env.metrics_update channel n (
                foldl (λ w c. call_consumer c f w) t.world
                  (wanting channel t.manager.consumers))) in
            let (zero_result, w, q, st) = deliver_lem frame (with_buffer channel t) t' r done in
            (
              t',
              frame,
              process_delivers channel bytes t can ∙ done ∙ ap (λ x. some (x, t')) zero_result,
              record {
                whole = same;
                channelled = refl;
                number = refl;
                time = omega arith;
                seen =
                    w
                    ∙ ap
                        (λ d.
                          env.release channel (env.metrics_update channel (length frame.bytes) d))
                        (distribute_lem frame t.manager t.world).0
                    ∙ ap (λ l. after_consumers frame (length l)) same;
                numbered = ap (λ l. get_or l channel 0) q ∙ get_or-set t.seq channel _ can.known;
                others =
                    λ c other. ap (λ l. get_or l c 0) q ∙ get_or-set_other t.seq channel c _ other;
                counted = ap (λ s. s.total_frames) st;
              },
            )
      ]

  -- A call that returns -1 leaves the frame manager, the sequence numbers and the buffers as they
  -- were.
  pub process_frame_from_encoder_error :
      (channel : ℕ) (t t' : Pipeline W)
      → process_frame_from_encoder env hal channel t ≡ some (minus_one, t')
      → (t'.manager ≡ t.manager) × (t'.seq ≡ t.seq) × (t'.cap ≡ t.cap)
  process_frame_from_encoder_error channel t t' e = elim (process_cases channel t t' minus_one e) [
    | inl (_, m, q, c) ↦ (m, q, c)
    | inr done ↦
        let zero_result =
          (deliver_lem (next_frame channel t) (with_buffer channel t) t' minus_one done).0 in
        cc
  ]

  -- A call faults only if the packs are too large for `uint32_t`, or if they are under 4 bytes while
  -- the channel's parameters are not complete.
  pub process_frame_from_encoder_no_fault :
      (channel : ℕ) (t : Pipeline W)
      → length (concat hal.packs) < 2 ^ 32
      → (4 ≤ length (concat hal.packs))
        ⊎ ((get_or t.manager.stream_params channel empty_params).available ≡ true)
      → process_frame_from_encoder env hal channel t ≢ none
  unfolding process_frame_from_encoder process_packs deliver extract_stream_params make_frame
  process_frame_from_encoder_no_fault channel t fits enough = ground (
    arith,
    extract_params_total hal.malloc_ok (concat hal.packs)
        (get_or t.manager.stream_params channel empty_params),
  )
