-- ===== src/ModuleSystem/Loading.antt =====
-- Where a module's configuration comes from: `module_load_config_file` of src/module_system.c, and
-- the block that `module_init_all` hands to a module's `init`.
use strero.Prelude.{
  ℕ, ◌-◌, ◌<◌, ◌≡◌, arith, Bool, Option, none, some, ◌++◌, ltb, if◌then◌else◌, take, Bytes, codes,
  ℤ, minus_one,
}
use strero.ModuleSystem.{ModuleInfo}

abbrev pub config_path_max : ℕ
config_path_max = 256

abbrev pub module_config_dir : Bytes
module_config_dir = codes "/etc/streamer.d"

-- What the C library, json-c and the file system supply: `malloc` (with whatever the block holds),
-- a block of zeros, the directory of the binary, `stat(path) == 0` and `json_object_from_file`.
pub record Platform (C J : Type 0) : Type 0 where
  pub malloc : ℕ → Option C
  pub zeroed : ℕ → C
  pub binary_dir : Option Bytes
  pub stat_ok : Bytes → Bool
  pub json_from_file : Bytes → Option J

-- snprintf(config_path, sizeof(config_path), "%s/%s.json", dir, name)
abbrev pub config_path : Bytes → Bytes → Bytes
config_path dir name = take (config_path_max - 1) (dir ++ codes "/" ++ name ++ codes ".json")

module _ {C J : Type 0} where
  -- One candidate: the file is there and holds JSON.
  unfoldable pub load_json : Platform C J → Bytes → Option J
  load_json env path = if env.stat_ok path then env.json_from_file path else none

  unfoldable pub find_config : Platform C J → Bytes → Option J
  find_config env name =
      let system = load_json env (config_path module_config_dir name) in
      elim env.binary_dir [
        | none ↦ system
        | some dir ↦ elim (load_json env (config_path dir name)) [
          | some json ↦ some json
          | none ↦ system
        ]
      ]

  -- The block is left alone where no file is found, and cleared before it is parsed.
  pub module_load_config_file : Platform C J → Bytes → C → ℕ → (J → C → ℤ × C) → ℤ × C
  module_load_config_file env name buffer size parse_func = elim (find_config env name) [
    | none ↦ (minus_one, buffer)
    | some json ↦ parse_func json (env.zeroed size)
  ]

module _ {W C J : Type 0} where
  -- The configuration that `module_init_all` hands to `init`.
  unfoldable pub module_config : Platform C J → ModuleInfo W C J → Option C
  module_config env m = elim m.config_parse [
    | none ↦ none
    | some parse ↦
        if ltb 0 m.config_size
        then (elim (env.malloc m.config_size) [
          | none ↦ none
          | some block ↦ some (module_load_config_file env m.name block m.config_size parse).1
        ])
        else none
  ]

module _ {C J : Type 0} (env : Platform C J) (name : Bytes) where
  -- A readable file beside the binary is preferred to the one of the system directory, which is
  -- used where the former is missing or is no JSON; without both there is no configuration.
  pub find_config_lem :
      (dir : Bytes)
      → env.binary_dir ≡ some dir
      → ((json : J)
          → load_json env (config_path dir name) ≡ some json
          → find_config env name ≡ some json)
        × (load_json env (config_path dir name) ≡ none
            → find_config env name ≡ load_json env (config_path module_config_dir name))
  unfolding find_config
  find_config_lem dir h = ground arith

module _ {W C J : Type 0} (env : Platform C J) (m : ModuleInfo W C J) where
  -- If no file holds JSON, the block that `init` receives is what `malloc` returned, content
  -- included: it is not cleared.
  pub module_config_no_file :
      (parse : J → C → ℤ × C) (block : C)
      → find_config env m.name ≡ none
      → m.config_parse ≡ some parse
      → 0 < m.config_size
      → env.malloc m.config_size ≡ some block
      → module_config env m ≡ some block
  unfolding module_config module_load_config_file
  module_config_no_file parse block f p n a = ground arith

  -- If a file holds JSON, the block is the parse of it into a cleared block, even when the parser
  -- reports an error.
  pub module_config_file :
      (parse : J → C → ℤ × C) (block : C) (json : J)
      → find_config env m.name ≡ some json
      → m.config_parse ≡ some parse
      → 0 < m.config_size
      → env.malloc m.config_size ≡ some block
      → module_config env m ≡ some (parse json (env.zeroed m.config_size)).1
  unfolding module_config module_load_config_file
  module_config_file parse block json f p n a = ground arith
