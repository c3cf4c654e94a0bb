-- ===== src/Dstack/Errors.antt =====
-- How an answer of dstack becomes an error: internal/dstack/errors.go. What json.Unmarshal makes of the
-- body is an argument; the texts of the errors are left out.
pub mod Marks
use squall.Common.{
  ℕ, Bool, true, false, ◌&&◌, ◌||◌, Option, none, some, String, List, [], ◌∷◌, map, ◌==◌, leb, ltb,
  str_eq, if◌then◌else◌, codes, lower, text_contains,
}

pub record ErrorDetail : Type 0 where
  pub msg : String
  pub code : String

-- The `detail` of the body: the first of the three shapes that it decodes as, or none.
pub data Detail : Type 0 where
  no_envelope undecoded : Detail
  decoded_list : List ErrorDetail → Detail
  decoded_object : ErrorDetail → Detail
  decoded_text : String → Detail

-- parseDetails.
unfoldable pub parse_details : Detail → List ErrorDetail
parse_details no_envelope = []
parse_details undecoded = []
parse_details (decoded_list ds) = ds
parse_details (decoded_object d) = d ∷ []
parse_details (decoded_text msg) = record { msg = msg; code = "" } ∷ []

-- What errors.Is tells apart.
pub data Sentinel : Type 0 where
  error_not_found error_resource_changed error_cannot_override error_unauthorized error_other :
      Sentinel

abbrev says : ErrorDetail → String → Bool
says d marker = text_contains (map lower (codes d.msg)) (codes marker)

-- The sentinel of one detail, if it has a mark.
unfoldable pub mark_of : ErrorDetail → Option Sentinel
unfolding lower text_contains
mark_of d =
    if str_eq d.code "resource_not_exists"
    then some error_not_found
    else if says d "resource has been changed"
    then some error_resource_changed
    else if says d "cannot override active run"
    then some error_cannot_override
    else none

abbrev mark_or : Option Sentinel → Option Sentinel → Option Sentinel
mark_or none rest = rest
mark_or (some k) rest = some k

-- The loop over the details.
unfoldable pub first_mark : List ErrorDetail → Option Sentinel
first_mark [] = none
first_mark (d ∷ ds) = let rest = first_mark ds in mark_or (mark_of d) rest

abbrev or_by_status : ℕ → Option Sentinel → Sentinel
or_by_status status (some k) = k
or_by_status status none =
    if status == 401 || status == 403 then error_unauthorized else error_other

-- classifyErrorBody.
unfoldable pub classify_error_body : ℕ → Detail → Sentinel
unfolding first_mark parse_details
classify_error_body status detail = or_by_status status (first_mark (parse_details detail))

-- classifyError; `none` is no error.
unfoldable pub classify_error : ℕ → Detail → Option Sentinel
unfolding classify_error_body
classify_error status detail =
    if leb 200 status && ltb status 300 then none else some (classify_error_body status detail)
