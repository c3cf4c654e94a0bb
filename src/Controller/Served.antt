-- ===== src/Controller/Served.antt =====
-- Which of a replica's served names the proxy may forward under: servedModelMatch,
-- servedModelMatches and servedModelToForward of internal/controller/squall/served.go.
pub mod Forward
use Prim.Native.String.{◌++◌ as ◌++ₛ◌}
use squall.Common.{
  Bool, true, false, not, ◌||◌, Option, none, some, String, List, [], ◌∷◌, str_eq, if◌then◌else◌,
  is_none,
}

unfoldable pub served_model_match : List String → String → Option String
served_model_match [] want = none
served_model_match (s ∷ served) want =
    if str_eq s want || str_eq s (want ++ₛ ":latest")
    then some s
    else served_model_match served want

unfoldable pub served_model_matches : List String → String → Bool
unfolding served_model_match
served_model_matches served want = not (is_none (served_model_match served want))

abbrev or_empty : Option String → String
or_empty none = ""
or_empty (some s) = s

abbrev only : List String → String
only [] = ""
only (s ∷ []) = s
only (s ∷ t ∷ served) = ""

unfoldable pub served_model_to_forward : List String → String → String
unfolding served_model_match
served_model_to_forward served want =
    if not (str_eq want "") then or_empty (served_model_match served want) else only served
