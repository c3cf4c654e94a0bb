-- ===== src/Proxy/Forward.antt =====
-- One outbound try of the proxy: attemptForward of internal/proxy/attempt.go, with the headers, the
-- payload and the route that it makes, and the URL of StatusBackend (backend.go). Headers are a map from
-- names to values; CanonicalMIMEHeaderKey, encoding/json and url.Parse are arguments. Where a body is
-- the JSON null, which the handler has refused by then, nothing is said. The copying of a response
-- and the draining of an abandoned one are I/O.
pub mod Headers
pub mod Tries
pub mod Body
use Prim.Native.Char.{code}
use Prim.Native.String.{◌++◌ as ◌++ₛ◌}
use squall.Common.{
  ℕ, Bool, true, false, not, ◌&&◌, ◌||◌, Option, none, some, String, List, [], ◌∷◌, ◌==◌,
  if◌then◌else◌, str_eq, lookup, insert, trim_space, is_none, length,
}
use squall.Api.{ModelPhase}
use squall.Proxy.Decision.{AttemptResult, attempt_retry, attempt_commit, classify_attempt}
use squall.Proxy.Cache.{ModelSnapshot, ModelCache, get}
use squall.Proxy.Handler.{Upstream, Streamed, Attempt, retried, committed}

-- http.Header.
abbrev pub Header : Type 0
Header = List (String × List String)

abbrev pub remove : String → Header → Header
remove k [] = []
remove k ((j, vs) ∷ h) = let rest = remove k h in if str_eq j k then rest else (j, vs) ∷ rest

abbrev prefix_first : String → List String → List String
prefix_first s [] = s ∷ []
prefix_first s (p ∷ ps) = (s ++ₛ p) ∷ ps

-- strings.Split at a comma.
unfoldable pub split_comma : String → List String
split_comma String.[] = "" ∷ []
split_comma (String.◌∷◌ c s) =
    let rest = split_comma s in
    if code c == 44 then "" ∷ rest else prefix_first (String.◌∷◌ c "") rest

abbrev pub first_value : Option (List String) → String
first_value (some (v ∷ vs)) = v
first_value _ = ""

-- hopByHopHeaders.
abbrev pub hop_by_hop_headers : List String
hop_by_hop_headers =
    "Connection" ∷ "Keep-Alive" ∷ "Proxy-Authenticate" ∷ "Proxy-Authorization" ∷ "Proxy-Connection"
    ∷ "TE" ∷ "Trailer" ∷ "Transfer-Encoding" ∷ "Upgrade" ∷ []

module _ (canonical : String → String) where
  -- Del of every name in turn.
  abbrev pub del_all : List String → Header → Header
  del_all [] h = h
  del_all (f ∷ fs) h = del_all fs (remove (canonical f) h)

  abbrev pub del_fields : List String → Header → Header
  unfolding trim_space
  del_fields [] h = h
  del_fields (f ∷ fs) h =
      let name = trim_space f in
      if str_eq name "" then del_fields fs h else del_fields fs (remove (canonical name) h)

  abbrev pub connection_fields : Header → List String
  unfolding split_comma
  connection_fields h = split_comma (first_value (lookup (canonical "Connection") h))

  -- stripHopByHop.
  unfoldable pub strip_hop_by_hop : Header → Header
  unfolding split_comma trim_space
  strip_hop_by_hop h = del_all hop_by_hop_headers (del_fields (connection_fields h) h)

  -- The header of the outbound request; the text is Handler.DstackToken.
  unfoldable pub outgoing_header : String → Header → Header
  unfolding strip_hop_by_hop
  outgoing_header token h =
      let kept = strip_hop_by_hop (remove (canonical "Host") h) in
      if str_eq token ""
      then kept
      else insert (canonical "Authorization") (("Bearer " ++ₛ token) ∷ []) kept

-- encoding/json on the object of a body: its members, and a text as a member. A body is a `Raw`.
pub record ObjectCodec (Raw Member : Type 0) : Type 0 where
  pub decode : Raw → Option (List (String × Member))
  pub encode : List (String × Member) → Option Raw
  pub quote : String → Option Member

module _ {Raw Member : Type 0} (codec : ObjectCodec Raw Member) where
  abbrev with_model : Option (List (String × Member)) → Option Member → Option Raw
  with_model (some obj) (some raw) = codec.encode (insert "model" raw obj)
  with_model _ _ = none

  -- rewriteModelField; `none` is an error, and no body for an argument.
  unfoldable pub rewrite_model_field : Option Raw → String → Option Raw
  rewrite_model_field none to = none
  rewrite_model_field (some body) to = with_model (codec.decode body) (codec.quote to)

  abbrev pub or_as_sent : Option Raw → Option Raw → Option Raw
  or_as_sent (some rewritten) body = some rewritten
  or_as_sent none body = body

  -- The body that goes out.
  abbrev pub rewritten_for : String → Option ModelSnapshot → Option Raw → Option Raw
  unfolding rewrite_model_field
  rewritten_for model none body = body
  rewritten_for model (some snap) body =
      let rewritten = or_as_sent (rewrite_model_field body snap.forward_model) body in
      if not (str_eq snap.forward_model "") && not (str_eq snap.forward_model model)
      then rewritten
      else body

  unfoldable pub outgoing_body : ModelCache → String → Option Raw → Option Raw
  unfolding rewrite_model_field get
  outgoing_body cache model body = rewritten_for model (get cache model) body

pub data Client : Type 0 where
  default_client : Client
  own_client : ℕ → Client

-- The handler's Backend, by whether it is a RouteBackend. A URL is its text.
pub data Backend : Type 0 where
  route_backend : (String → Option (String × Option Client)) → Backend
  url_backend : (String → Option String) → Backend

abbrev client_or_default : Option Client → Client
client_or_default none = default_client
client_or_default (some c) = c

abbrev routed : Option (String × Option Client) → Option (String × Client)
routed none = none
routed (some (url, client)) = some (url, client_or_default client)

abbrev at_default : Option String → Option (String × Client)
at_default none = none
at_default (some url) = some (url, default_client)

-- route.
unfoldable pub route : Backend → String → Option (String × Client)
route (route_backend resolve) model = routed (resolve model)
route (url_backend resolve) model = at_default (resolve model)

trim_slash_left : String → String
trim_slash_left String.[] = ""
trim_slash_left (String.◌∷◌ c s) =
    let rest = trim_slash_left s in if code c == 47 then rest else String.◌∷◌ c s

trim_slash_right : String → String
trim_slash_right String.[] = ""
trim_slash_right (String.◌∷◌ c s) =
    let rest = trim_slash_right s in
    if code c == 47 && str_eq rest "" then "" else String.◌∷◌ c rest

-- strings.TrimSuffix of one slash.
trim_last_slash : String → String
trim_last_slash String.[] = ""
trim_last_slash (String.◌∷◌ c s) =
    let rest = trim_last_slash s in if code c == 47 && str_eq s "" then "" else String.◌∷◌ c rest

abbrev url_of : (String → Option String) → String → Option ModelSnapshot → Option String
unfolding trim_slash_left trim_slash_right trim_last_slash
url_of parse base none = none
url_of parse base (some snap) =
    if str_eq snap.service_url ""
    then none
    else parse
        (trim_last_slash base ++ₛ ("/" ++ₛ trim_slash_right (trim_slash_left snap.service_url)))

-- StatusBackend.URL, with a cache.
unfoldable pub status_url : (String → Option String) → String → ModelCache → String → Option String
unfolding get trim_slash_left trim_slash_right trim_last_slash
status_url parse base cache model =
    if str_eq base "" then none else url_of parse base (get cache model)

-- The caller's request; `has_body` is whether there is a body to stream.
pub record Incoming : Type 0 where
  pub method : String
  pub path : String
  pub query : String
  pub header : Header
  pub has_body : Bool

pub data Payload (Raw : Type 0) : Type 0 where
  empty_payload streamed_payload : Payload Raw
  buffered : Raw → Payload Raw

pub record Outgoing (Raw : Type 0) : Type 0 where
  pub method : String
  pub url : String
  pub header : Header
  pub payload : Payload Raw

-- An upstream's response; `detail` is the text under "detail" that the first 4,096 bytes of its body
-- decode to.
pub record Response : Type 0 where
  pub upstream : Upstream
  pub detail : Option String

abbrev payload_of : {Raw : Type 0} → Bool → Option Raw → Payload Raw
payload_of has (some body) = buffered body
payload_of true none = streamed_payload
payload_of false none = empty_payload

abbrev target_url : String → Incoming → String
target_url target r =
    let url = target ++ₛ r.path in if str_eq r.query "" then url else url ++ₛ ("?" ++ₛ r.query)

abbrev pub by_result : AttemptResult → Upstream → Attempt
by_result attempt_retry up = retried false
by_result attempt_commit up = committed up

-- What comes of an answer, `none` for an error of the transport. Only the body of a 404 is looked at.
abbrev pub outcome : ModelPhase → Option Response → Attempt
unfolding classify_attempt
outcome phase none = retried false
outcome phase (some resp) =
    let status = resp.upstream.status in
    by_result (classify_attempt (some status) phase (if status == 404 then resp.detail else none))
      resp.upstream

-- What a try asks of outside: whether a request with this method and URL can be built, and the answer
-- to it, `none` for an error of the transport.
pub record Network (Raw : Type 0) : Type 0 where
  pub builds : Outgoing Raw → Bool
  pub answer : Client → Outgoing Raw → Option Response

module _ {Raw Member : Type 0} (canonical : String → String) (codec : ObjectCodec Raw Member)
    (token : String) where
  abbrev pub outgoing : ModelCache → String → Incoming → Option Raw → String → Outgoing Raw
  unfolding outgoing_header outgoing_body
  outgoing cache model r body target = record {
    method = r.method;
    url = target_url target r;
    header = outgoing_header canonical token r.header;
    payload = payload_of r.has_body (outgoing_body codec cache model body);
  }

  abbrev pub forward_to :
      Network Raw
      → ModelPhase
      → (String → Outgoing Raw)
      → Option (String × Client)
      → Option (Client × Outgoing Raw) × Attempt
  unfolding classify_attempt
  forward_to net phase out none = (none, retried true)
  forward_to net phase out (some (target, client)) =
      if net.builds (out target)
      then (some (client, out target), outcome phase (net.answer client (out target)))
      else (none, retried false)

  -- attemptForward: the request that is sent, if any, and what comes of it.
  unfoldable pub attempt_forward :
      Network Raw
      → Backend
      → ModelCache
      → String
      → Incoming
      → Option Raw
      → ModelPhase
      → Option (Client × Outgoing Raw) × Attempt
  unfolding route classify_attempt outgoing_header outgoing_body
  attempt_forward net backend cache model r body phase =
      forward_to net phase (outgoing cache model r body) (route backend model)
