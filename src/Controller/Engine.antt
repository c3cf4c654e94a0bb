-- ===== src/Controller/Engine.antt =====
-- What the controller submits for each engine: internal/controller/squall/engine.go. Command lines
-- are texts, lists of code points.
pub mod Shell
use squall.Common.{
  ℕ, ℤ, pos, ◌≡◌, refl, Bool, true, false, ◌&&◌, Option, none, some, String, List, [], ◌∷◌, ◌++◌,
  map, ◌==◌, str_eq, if◌then◌else◌, Text, codes,
}
use squall.Dstack.{Gpu, Resources, Probe}
use squall.Api.{
  ModelProbe, CpuSpec, GpuSpec, ModelResources, ModelEngine, vllm, llama_cpp, ollama, ModelSpec,
}

-- enginePort.
unfoldable pub engine_port : ModelEngine → ℕ
engine_port vllm = 8000
engine_port llama_cpp = 8080
engine_port ollama = 11434

-- engineProbePath.
unfoldable pub engine_probe_path : ModelEngine → String
engine_probe_path ollama = "/"
engine_probe_path vllm = "/health"
engine_probe_path llama_cpp = "/health"

abbrev or_zero_seconds : (ℤ → ℤ) → Option ℤ → ℤ
or_zero_seconds seconds none = pos 0
or_zero_seconds seconds (some d) = seconds d

abbrev or_zero : Option ℤ → ℤ
or_zero none = pos 0
or_zero (some n) = n

abbrev probe_on : (ℤ → ℤ) → String → Option ModelProbe → Probe
probe_on seconds path none = record {
  path = path;
  method = "";
  timeout_seconds = pos 0;
  interval_seconds = pos 0;
  ready_after = pos 0;
}
probe_on seconds path (some p) = record {
  path = if str_eq p.path "" then path else p.path;
  method = p.method;
  timeout_seconds = or_zero_seconds seconds p.timeout;
  interval_seconds = or_zero_seconds seconds p.interval;
  ready_after = or_zero p.ready_after;
}

-- engineProbe; `seconds` is int(d.Seconds()).
unfoldable pub engine_probe : (ℤ → ℤ) → ModelSpec → Probe
unfolding engine_probe_path
engine_probe seconds spec = probe_on seconds (engine_probe_path spec.engine) spec.probe

abbrev arch_of : Option CpuSpec → String
arch_of none = ""
arch_of (some c) = c.arch

abbrev count_of : Option CpuSpec → String
count_of none = ""
count_of (some c) = c.count

abbrev gpu_of : Option GpuSpec → Option Gpu
gpu_of none = none
gpu_of (some g) = some (record {
  vendor = g.vendor;
  name = g.name;
  count = g.count;
  memory = g.memory;
  total_memory = g.total_memory;
  compute_capability = g.compute_capability;
})

-- engineResources.
unfoldable pub engine_resources : ModelResources → Resources
engine_resources r = record {
  cpu_arch = arch_of r.cpu;
  cpu_count = count_of r.cpu;
  memory = r.memory;
  shm_size = r.shm_size;
  disk = r.disk;
  gpu = gpu_of r.gpu;
}

-- strings.ReplaceAll of a quote by `'\''`.
escaped_quotes : Text → Text
escaped_quotes [] = []
escaped_quotes (c ∷ s) =
    let rest = escaped_quotes s in if c == 39 then 39 ∷ 92 ∷ 39 ∷ 39 ∷ rest else c ∷ rest

quoted : Text → Text
unfolding escaped_quotes
quoted a = 39 ∷ (escaped_quotes a ++ (39 ∷ []))

-- shellJoin.
unfoldable pub shell_join : List Text → Text
unfolding quoted
shell_join [] = []
shell_join (a ∷ []) = quoted a
shell_join (a ∷ b ∷ argv) = quoted a ++ (32 ∷ shell_join (b ∷ argv))

abbrev pub model_flags : String → Text → Text → Text → List Text
model_flags model name model_flag name_flag =
    if str_eq model "" then [] else model_flag ∷ codes model ∷ name_flag ∷ name ∷ []

abbrev pub vllm_argv : ModelSpec → Text → List Text
vllm_argv spec name =
    codes "vllm"
    ∷ codes "serve"
    ∷ (model_flags spec.model name (codes "--model") (codes "--served-model-name")
        ++ map codes spec.args)

abbrev pub llama_argv : ModelSpec → Text → List Text
llama_argv spec name =
    codes "llama-server"
    ∷ codes "--host"
    ∷ codes "0.0.0.0"
    ∷ (model_flags spec.model name (codes "-hf") (codes "--alias") ++ map codes spec.args)

abbrev pub ollama_argv : ModelSpec → List Text
ollama_argv spec = codes "ollama" ∷ codes "serve" ∷ map codes spec.args

-- The script that pulls the model and gives it the Model's name.
ollama_script : ModelSpec → Text → Text
ollama_script spec name =
    shell_join (ollama_argv spec)
    ++ (codes
          " & for i in $(seq 1 60); do ollama list >/dev/null 2>&1 && break; sleep 2; done; ollama list >/dev/null 2>&1 || { echo \"ollama serve never came up\" >&2; exit 1; }; ollama pull "
        ++ (shell_join (codes spec.model ∷ [])
            ++ (codes " && ollama cp "
                ++ (shell_join (codes spec.model ∷ [])
                    ++ (codes " "
                        ++ (shell_join (name ∷ [])
                            ++ codes
                                " || { echo \"ollama pull or cp failed; refusing to serve an unaliased model\" >&2; exit 1; }; wait"))))))

abbrev no_args : List String → Bool
no_args [] = true
no_args (a ∷ args) = false

abbrev commands_for : ModelEngine → ModelSpec → Text → List Text
unfolding ollama_script
commands_for vllm spec name = shell_join (vllm_argv spec name) ∷ []
commands_for llama_cpp spec name = shell_join (llama_argv spec name) ∷ []
commands_for ollama spec name =
    (if str_eq spec.model "" then shell_join (ollama_argv spec) else ollama_script spec name) ∷ []

-- engineCommands; `nil` is the empty list.
unfoldable pub engine_commands : ModelSpec → Text → List Text
unfolding ollama_script commands_for
engine_commands spec name =
    if str_eq spec.model "" && no_args spec.args then [] else commands_for spec.engine spec name

-- engineServedName.
unfoldable pub engine_served_name : ModelSpec → String → String
engine_served_name spec name = if str_eq spec.model "" then "" else name
