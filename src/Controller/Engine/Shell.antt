-- ===== src/Controller/Engine/Shell.antt =====
-- The words that a POSIX shell reads from a command line of engine.go.
use squall.Common.{
  ℕ, ◌≡◌, refl, ap, ◌∙◌, Bool, false, ◌||◌, Option, none, some, List, [], ◌∷◌, ◌++◌, arith, ◌==◌,
  str_eq, if◌then◌else◌, Text, ◌&&◌, eq_iff,
}
use squall.Api.{ModelEngine, vllm, llama_cpp, ollama, ModelSpec}
use squall.Controller.Engine.{
  escaped_quotes, quoted, shell_join, engine_commands, vllm_argv, llama_argv, ollama_argv, no_args,
  commands_for,
}

-- Where the reader stands: between words, in a word, in single quotes, after a backslash.
data Place : Type 0 where
  between in_word in_quotes after_backslash : Place

-- The characters that mean something to a shell outside quotes, but for the space, the single quote
-- and the backslash.
abbrev is_special : ℕ → Bool
is_special c =
    c == 9
    || c == 10
    || c == 33
    || c == 34
    || c == 35
    || c == 36
    || c == 38
    || c == 40
    || c == 41
    || c == 42
    || c == 59
    || c == 60
    || c == 61
    || c == 62
    || c == 63
    || c == 91
    || c == 93
    || c == 94
    || c == 96
    || c == 123
    || c == 124
    || c == 125
    || c == 126

abbrev add_word : Text → Option (List Text) → Option (List Text)
add_word w none = none
add_word w (some ws) = some (w ∷ ws)

abbrev snoc : Text → ℕ → Text
snoc w c = w ++ (c ∷ [])

-- The words of a simple command; `none` where a quote is left open or a special character stands
-- outside quotes.
scan : Place → Text → Text → Option (List Text)
scan between w [] = some []
scan in_word w [] = some (w ∷ [])
scan in_quotes w [] = none
scan after_backslash w [] = none
scan between w (c ∷ s) =
    let gap = scan between [] s in
    let quote = scan in_quotes [] s in
    let back = scan after_backslash [] s in
    let char = scan in_word (c ∷ []) s in
    if c == 32
    then gap
    else if c == 39
    then quote
    else if c == 92
    then back
    else if is_special c
    then none
    else char
scan in_word w (c ∷ s) =
    let gap = scan between [] s in
    let quote = scan in_quotes w s in
    let back = scan after_backslash w s in
    let char = scan in_word (snoc w c) s in
    if c == 32
    then add_word w gap
    else if c == 39
    then quote
    else if c == 92
    then back
    else if is_special c
    then none
    else char
scan in_quotes w (c ∷ s) =
    let closed = scan in_word w s in
    let char = scan in_quotes (snoc w c) s in if c == 39 then closed else char
scan after_backslash w (c ∷ s) = scan in_word (snoc w c) s

pub shell_words : Text → Option (List Text)
unfolding scan
shell_words s = scan between [] s

append-snoc : (w a : Text) (c : ℕ) → snoc w c ++ a ≡ w ++ (c ∷ a)
append-snoc [] a c = refl
append-snoc (x ∷ w) a c = cc (append-snoc w a c)

append-nil : (w : Text) → w ++ [] ≡ w
append-nil [] = refl
append-nil (x ∷ w) = cc (append-nil w)

append_assoc : (a b c : Text) → (a ++ b) ++ c ≡ a ++ (b ++ c)
append_assoc [] b c = refl
append_assoc (x ∷ a) b c = cc (append_assoc a b c)

-- Quoted characters come out as they went in.
scan-escaped_quotes :
    (a w s : Text) → scan in_quotes w (escaped_quotes a ++ (39 ∷ s)) ≡ scan in_word (w ++ a) s
unfolding scan escaped_quotes
scan-escaped_quotes [] w s = rw append-nil refl
scan-escaped_quotes (c ∷ a) w s =
    ground (arith, append-snoc w a c, scan-escaped_quotes a (snoc w c) s)

scan-quoted : (a s : Text) → scan between [] (quoted a ++ s) ≡ scan in_word a s
unfolding scan quoted
scan-quoted a s =
    ap (scan in_quotes []) (append_assoc (escaped_quotes a) (39 ∷ []) s)
    ∙ scan-escaped_quotes a [] s

-- The words that the shell reads back are the arguments, whatever characters they have.
pub shell_words-shell_join : (argv : List Text) → shell_words (shell_join argv) ≡ some argv
unfolding shell_words scan shell_join
shell_words-shell_join [] = refl
shell_words-shell_join (a ∷ []) = scan-escaped_quotes a [] []
shell_words-shell_join (a ∷ b ∷ argv) =
    scan-quoted a (32 ∷ shell_join (b ∷ argv)) ∙ ap (add_word a) (shell_words-shell_join (b ∷ argv))

-- One command that a shell reads as these arguments.
abbrev pub RunsAs : List Text → List Text → Type 0
RunsAs commands argv = (c : Text) × ((commands ≡ c ∷ []) × (shell_words c ≡ some argv))

ollama-serve :
    (spec : ModelSpec) (name : Text)
    → spec.model ≡ ""
    → commands_for ollama spec name ≡ shell_join (ollama_argv spec) ∷ []
unfolding commands_for
ollama-serve spec name m = simp ((eq_iff spec.model "").1 m, commands_for)

engine_commands-for :
    (spec : ModelSpec) (name : Text) (engine : ModelEngine)
    → (str_eq spec.model "" && no_args spec.args) ≡ false
    → spec.engine ≡ engine
    → engine_commands spec name ≡ commands_for engine spec name
unfolding engine_commands
engine_commands-for spec name engine h e = simp (h, e)

-- A spec that names a model or arguments starts vLLM and llama.cpp by one command, whose words are
-- the engine's own ones, the flags that give the model the Model's name, and the spec's arguments as
-- they stand; and Ollama, where no model is named, by its own words and the arguments.
pub engine_commands-RunsAs :
    (spec : ModelSpec) (name : Text)
    → (str_eq spec.model "" && no_args spec.args) ≡ false
    → (spec.engine ≡ vllm → RunsAs (engine_commands spec name) (vllm_argv spec name))
      × (spec.engine ≡ llama_cpp → RunsAs (engine_commands spec name) (llama_argv spec name))
      × (spec.engine ≡ ollama
          → spec.model ≡ ""
          → RunsAs (engine_commands spec name) (ollama_argv spec))
unfolding commands_for
engine_commands-RunsAs spec name h = (
  λ e. (
    shell_join (vllm_argv spec name),
    (engine_commands-for spec name vllm h e, shell_words-shell_join (vllm_argv spec name)),
  ),
  λ e. (
    shell_join (llama_argv spec name),
    (engine_commands-for spec name llama_cpp h e, shell_words-shell_join (llama_argv spec name)),
  ),
  λ e m. (
    shell_join (ollama_argv spec),
    (
      engine_commands-for spec name ollama h e ∙ ollama-serve spec name m,
      shell_words-shell_join (ollama_argv spec),
    ),
  ),
)
