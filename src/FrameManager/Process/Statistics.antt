-- ===== src/FrameManager/Process/Statistics.antt =====
-- What one pass of the processing thread of src/frame_manager.c counts and keeps.
use strero.Prelude.{
  ℕ, zero, suc, ◌+◌, ◌^◌, ◌≤◌, ◌<◌, ◌≡◌, refl, sym, ◌∙◌, Bool, false, not, ◌&&◌, ◌||◌, some, List,
  [], ◌∷◌, length, length-set, get_or, set, ltb, leb, if◌then◌else◌, ℤ, arith, Bool-cases,
  Option-cases, inl, inr, is_negative, is_zero, subst,
}
use strero.FrameManager.{
  FrameInfo, Manager, Stats, StreamParams, empty_params, fs_chn_num,
  frame_manager_get_consumer_count,
}
use strero.FrameManager.Nal.{extract_params, Extracted, extracted, read_out_of_bounds, out_of_fuel}
use strero.FrameManager.Process.{
  Hal, Setup, Pipeline, u32, polling_timeout, concat, make_frame, count_frame,
  extract_stream_params, deliver, process_packs, process_frame_from_encoder, process_channels,
  process_turn,
}

abbrev sum : List ℕ → ℕ
sum [] = 0
sum (x ∷ xs) = x + sum xs

sum-set :
    (xs : List ℕ) (i : ℕ)
    → i < length xs
    → u32 (sum (set xs i (u32 (get_or xs i 0 + 1)))) ≡ u32 (sum xs + 1)
sum-set [] i h = elim h [ ]
sum-set (x ∷ xs) zero h = omega arith
sum-set (x ∷ xs) (suc i) h = omega (arith, sum-set xs i (omega arith))

-- There is a counter for each channel, and the total is their sum, in 32 bits.
pub record IsCounted (st : Stats) : Type 0 where
  pub channels : length st.frames_per_channel ≡ fs_chn_num
  pub total : st.total_frames ≡ u32 (sum st.frames_per_channel)

count_frame-IsCounted :
    (st : Stats) (channel now : ℕ)
    → channel < fs_chn_num
    → IsCounted st
    → IsCounted (count_frame channel now st)
unfolding count_frame
count_frame-IsCounted st channel now h c = record {
  channels = length-set st.frames_per_channel channel _ ∙ c.channels;
  total = omega (arith, sum-set st.frames_per_channel channel (omega (arith, c)), c.total);
}

module _ {W : Type 0} where
  -- What a pass keeps: the consumers and the lifecycle flags stay, and the counters stay exact.
  pub record Keeps (s s' : Manager W) : Type 0 where
    pub consumers : s'.consumers ≡ s.consumers
    pub running : s'.running ≡ s.running
    pub initialized : s'.initialized ≡ s.initialized
    pub params : length s'.stream_params ≡ length s.stream_params
    pub counted : IsCounted s.stats → IsCounted s'.stats

  pub extract_stream_params-manager :
      (malloc_ok : ℕ → Bool) (frame : FrameInfo) (s s' : Manager W)
      → extract_stream_params malloc_ok frame s ≡ some s'
      → (params : List StreamParams) × (s' ≡ record s { stream_params = params })
        × (length params ≡ length s.stream_params)
  unfolding extract_stream_params
  extract_stream_params-manager malloc_ok frame s s' e =
      go (extract_params malloc_ok frame.bytes old) refl
    where
      old : StreamParams
      old = get_or s.stream_params frame.channel empty_params

      go :
          (x : Extracted)
          → extract_params malloc_ok frame.bytes old ≡ x
          → (params : List StreamParams) × (s' ≡ record s { stream_params = params })
            × (length params ≡ length s.stream_params)
      go (extracted p) q = elim (Bool-cases (leb fs_chn_num frame.channel)) [
        | inl high ↦ (s.stream_params, ground arith, refl)
        | inr low ↦ (
          set s.stream_params frame.channel p,
          ground arith,
          length-set s.stream_params frame.channel p,
        )
      ]
      go read_out_of_bounds q = (s.stream_params, ground arith, refl)
      go out_of_fuel q = (s.stream_params, ground arith, refl)

  deliver-Keeps :
      (env : Setup W) (hal : Hal) (frame : FrameInfo) (t t' : Pipeline W) (r : ℤ)
      → frame.channel < fs_chn_num
      → deliver env hal frame t ≡ some (r, t')
      → Keeps t.manager t'.manager
  unfolding deliver
  deliver-Keeps env hal frame t t' r h e =
      elim (Option-cases (extract_stream_params hal.malloc_ok frame t.manager)) [
        | inl fault ↦ ground arith
        | inr (s, found) ↦
            let (params, same, len) =
              extract_stream_params-manager hal.malloc_ok frame t.manager s found in
            let m : t'.manager ≡ record t.manager {
              stream_params = params;
              stats = count_frame frame.channel hal.now_us t.manager.stats;
            } =
              ground (arith, same) in
            subst (Keeps t.manager) (sym m) (record {
              consumers = refl;
              running = refl;
              initialized = refl;
              params = len;
              counted = count_frame-IsCounted t.manager.stats frame.channel hal.now_us h;
            })
      ]

  Keeps-eq : {s s' : Manager W} → s' ≡ s → Keeps s s'
  Keeps-eq {s} e = subst (Keeps s) (sym e) (record {
    consumers = refl;
    running = refl;
    initialized = refl;
    params = refl;
    counted = λ c. c;
  })

  process_packs-Keeps :
      (env : Setup W) (hal : Hal) (channel : ℕ) (t t' : Pipeline W) (r : ℤ)
      → channel < fs_chn_num
      → process_packs env hal channel t ≡ some (r, t')
      → Keeps t.manager t'.manager
  unfolding process_packs make_frame
  process_packs-Keeps env hal channel t t' r h e = elim (Bool-cases (leb (2 ^ 32) size)) [
    | inl over ↦ ground arith
    | inr fits ↦ elim (Bool-cases (ltb (get_or t.cap channel 0) size && not hal.realloc_ok)) [
      | inl failed ↦ Keeps-eq (ground arith)
      | inr ok ↦ deliver-Keeps env hal frame next t' r h (ground arith)
    ]
  ]
    where
      size : ℕ
      size = length (concat hal.packs)

      frame : FrameInfo
      frame = make_frame channel hal.packs (u32 (get_or t.seq channel 0 + 1))

      next : Pipeline W
      next = record t {
        cap = if ltb (get_or t.cap channel 0) size then set t.cap channel size else t.cap;
        seq = set t.seq channel frame.sequence;
      }

  process-Keeps :
      (env : Setup W) (hal : Hal) (channel : ℕ) (t t' : Pipeline W) (r : ℤ)
      → channel < fs_chn_num
      → process_frame_from_encoder env hal channel t ≡ some (r, t')
      → Keeps t.manager t'.manager
  unfolding process_frame_from_encoder
  process-Keeps env hal channel t t' r h e =
      elim (Bool-cases (is_negative (hal.poll (polling_timeout env)) || is_negative hal.get)) [
        | inl failed ↦ Keeps-eq (ground arith)
        | inr ok ↦ process_packs-Keeps env hal channel t t' r h (ground arith)
      ]

  Keeps-trans : {a b c : Manager W} → Keeps a b → Keeps b c → Keeps a c
  Keeps-trans ab bc = record {
    consumers = bc.consumers ∙ ab.consumers;
    running = bc.running ∙ ab.running;
    initialized = bc.initialized ∙ ab.initialized;
    params = bc.params ∙ ab.params;
    counted = λ c. bc.counted (ab.counted c);
  }

  process_channels-Keeps :
      (env : Setup W) (hal : ℕ → Hal) (rounds channel : ℕ) (done done' : Bool) (t t' : Pipeline W)
      → channel + rounds ≤ fs_chn_num
      → process_channels env hal rounds channel (done, t) ≡ some (done', t')
      → Keeps t.manager t'.manager
  unfolding process_channels
  process_channels-Keeps env hal zero channel done done' t t' h e = Keeps-eq (ground arith)
  process_channels-Keeps env hal (suc n) channel done done' t t' h e =
      elim (Bool-cases (ltb 0 (frame_manager_get_consumer_count channel t.manager))) [
        | inl some_want ↦
            elim (Option-cases (process_frame_from_encoder env (hal channel) channel t)) [
              | inl fault ↦ ground arith
              | inr ((r, next), run) ↦
                  Keeps-trans (process-Keeps env (hal channel) channel t next r (omega arith) run) (
                    process_channels-Keeps env hal n (channel + 1) (done || is_zero r) done' next t'
                      (omega arith) (ground arith))
            ]
        | inr none_wants ↦
            process_channels-Keeps env hal n (channel + 1) done done' t t' (omega arith)
              (ground arith)
      ]

  process_turn-Keeps :
      (env : Setup W) (hal : ℕ → Hal) (t t' : Pipeline W) (done : Bool)
      → process_turn env hal t ≡ some (done, t')
      → Keeps t.manager t'.manager
  unfolding process_turn
  process_turn-Keeps env hal t t' done e =
      process_channels-Keeps env hal fs_chn_num 0 false done t t' (omega arith) e

  -- A turn of the processing thread, whatever the encoder answers for each channel, leaves the
  -- consumers and the lifecycle flags alone. If there was a counter for each channel and the total
  -- was their sum modulo 2^32, this is so afterwards.
  pub process_turn-IsCounted :
      (env : Setup W) (hal : ℕ → Hal) (t t' : Pipeline W) (done : Bool)
      → IsCounted t.manager.stats
      → process_turn env hal t ≡ some (done, t')
      → IsCounted t'.manager.stats
        × (t'.manager.consumers ≡ t.manager.consumers)
        × (t'.manager.running ≡ t.manager.running)
        × (t'.manager.initialized ≡ t.manager.initialized)
  process_turn-IsCounted env hal t t' done c e =
      let k = process_turn-Keeps env hal t t' done e in
      (k.counted c, k.consumers, k.running, k.initialized)
