-- ===== src/Dstack/Http/Runs.antt =====
-- The client's operations on runs, in internal/dstack/http.go.
use squall.Common.{ℕ, true, false, Option, none, some, String, List, [], ◌∷◌}
use squall.Dstack.{Run, ApplyRequest}
use squall.Dstack.Wire.{RunSpecWire, RunWire, run_spec, run_of_wire}
use squall.Dstack.Http.{
  get_plan, apply_plan, get_run, stop_runs, delete_runs, list_runs, ok, Action, done, ◌>>=◌, Codec,
  decoded, post,
}

abbrev pub add_run : {Raw : Type 0} → Option (Run × Raw) → Option (List Run) → Option (List Run)
add_run (some (run, body)) (some runs) = some (run ∷ runs)
add_run _ _ = none

module _ {Raw : Type 0} (codec : Codec Raw) where
  abbrev run_in : Raw → Option RunWire → Option (Run × Raw)
  run_in body none = none
  run_in body (some w) = some (run_of_wire w, body)

  -- decodeRun, which keeps the body.
  unfoldable pub decode_run : Raw → Option (Run × Raw)
  unfolding run_of_wire
  decode_run body = run_in body (codec.run body)

  -- The two requests of Apply.
  unfoldable pub apply_spec : RunSpecWire → Option Raw → Action Raw (Run × Raw)
  unfolding decode_run post
  apply_spec submitted anchor = do
    plan ← post codec (get_plan submitted)
    spec ← decoded (codec.run_plan plan)
    body ← post codec (apply_plan spec anchor false)
    decoded (decode_run body)

  -- Apply; `anchor` is the body that req.Current keeps.
  unfoldable pub apply : (ℕ → String) → ApplyRequest → Option Raw → Action Raw (Run × Raw)
  unfolding run_spec apply_spec
  apply decimal req anchor = apply_spec (run_spec decimal req) anchor

  -- Get.
  unfoldable pub get : String → Action Raw (Run × Raw)
  unfolding decode_run post
  get name = do body ← post codec (get_run name); decoded (decode_run body)

  -- Stop.
  unfoldable pub stop : String → Action Raw (Unit {0})
  unfolding post
  stop name = do body ← post codec (stop_runs (name ∷ []) true); done (ok tt)

  -- Delete.
  unfoldable pub delete : String → Action Raw (Unit {0})
  unfolding post
  delete name = do body ← post codec (delete_runs (name ∷ [])); done (ok tt)

  -- The loop of ListRuns: one body that does not decode is an error of the whole.
  unfoldable pub decode_all : List Raw → Option (List Run)
  unfolding decode_run
  decode_all [] = some []
  decode_all (body ∷ bodies) = add_run (decode_run body) (decode_all bodies)

  -- ListRuns.
  unfoldable pub list : Action Raw (List Run)
  unfolding decode_all post
  list = do
    body ← post codec list_runs
    bodies ← decoded (codec.raw_list body)
    decoded (decode_all bodies)
