-- ===== src/Examples/Forwarded.antt =====
-- The theorems on a forwarded request, run.
use Prim.Native.String.{◌++◌ as ◌++ₛ◌}
use squall.Common.{
  ◌≤◌, ◌<◌, length, pos, true, false, ◌≡◌, ◌⊎◌, refl, none, some, String, List, [], ◌∷◌,
  if◌then◌else◌, str_eq, lookup,
}
use squall.Api.{ready}
use squall.Proxy.Cache.{ModelSnapshot, ModelCache, new_cache, get}
use squall.Proxy.Handler.{delivered, retried}
use squall.Proxy.Forward.{
  Header, outgoing_header, ObjectCodec, outgoing_body, Client, own_client, Backend, route_backend,
  Incoming, Network, route, outgoing, attempt_forward,
}
use squall.Proxy.Buffer.{Reader, read_replayable_body}
use squall.Proxy.Buffer.Restored.{read_replayable_body-cases}
use squall.Proxy.Forward.Body.{IsFaithful, Named, Unnamed, outgoing_body-cases}
use squall.Proxy.Forward.Tries.{Judged, attempt_forward-cases}

-- The canonical form of the names that occur here.
abbrev spelled : String → String
spelled k = if str_eq k "TE" then "Te" else k

abbrev caller_header : Header
caller_header =
    ("Connection", "close, X-Trace" ∷ [])
    ∷ ("X-Trace", "7" ∷ [])
    ∷ ("Accept", "text/event-stream" ∷ [])
    ∷ ("Authorization", "Bearer theirs" ∷ [])
    ∷ []

stripped_headers :
    (lookup "X-Trace" (outgoing_header spelled "ours" caller_header) ≡ none)
    × (lookup "Accept" (outgoing_header spelled "ours" caller_header)
        ≡ some ("text/event-stream" ∷ []))
unfolding outgoing_header
stripped_headers = (refl, refl)

-- Bodies that are their members.
abbrev members : ObjectCodec (List (String × String)) String
members = record { decode = some; encode = some; quote = some }

members-IsFaithful : IsFaithful members
members-IsFaithful = (λ obj k. refl, λ name. tt)

abbrev renamed_snapshot : ModelSnapshot
renamed_snapshot = record {
  phase = "Ready";
  namespace = "default";
  replica = none;
  hold_timeout = pos 0;
  idle_timeout = pos 0;
  created = 0;
  features = [];
  owner = "";
  service_url = "";
  served_model = "qwen2.5:0.5b";
  forward_model = "qwen2.5:0.5b";
  schedulable = true;
}

abbrev renamed_cache : ModelCache
renamed_cache = record new_cache { by_name = ("qwen", renamed_snapshot) ∷ [] }

abbrev prompt : List (String × String)
prompt = ("model", "qwen") ∷ ("stream", "true") ∷ []

outgoing_body-cases_example :
    Named members members-IsFaithful
      (get renamed_cache "qwen")
      "qwen"
      prompt
      (outgoing_body members renamed_cache "qwen" (some prompt))
    ⊎ ((outgoing_body members renamed_cache "qwen" (some prompt) ≡ some prompt)
        × Unnamed members members-IsFaithful (get renamed_cache "qwen") "qwen")
outgoing_body-cases_example =
    outgoing_body-cases members members-IsFaithful renamed_cache "qwen" prompt prompt refl

abbrev chat : Incoming
chat = record {
  method = "POST";
  path = "/v1/chat/completions";
  query = "";
  header = caller_header;
  has_body = true;
}

abbrev tunnel : Backend
tunnel = route_backend (λ model. some ("http://ssh.invalid", some (own_client 3)))

-- The engine answers 404 of a path of its own.
abbrev engine : Network (List (String × String))
engine = record {
  builds = λ out. true;
  answer = λ client out. some (record {
    upstream = record { status = 404; streamed = delivered };
    detail = some "Not Found";
  });
}

attempt_forward-cases_example :
    let (sent, result) =
      attempt_forward spelled members "" engine tunnel renamed_cache "qwen" chat
        (some prompt)
        ready in
    ((route tunnel "qwen" ≡ none) × (sent ≡ none) × (result ≡ retried true))
    ⊎ ((target : String) × (client : Client) × (route tunnel "qwen" ≡ some (target, client))
        × let out = outgoing spelled members "" renamed_cache "qwen" chat (some prompt) target in
          ((engine.builds out ≡ false) × (sent ≡ none) × (result ≡ retried false))
          ⊎ ((engine.builds out ≡ true)
              × (sent ≡ some (client, out))
              × Judged ready (engine.answer client out) result))
attempt_forward-cases_example =
    attempt_forward-cases spelled members "" engine tunnel renamed_cache "qwen" chat (some prompt)
      ready

-- A body that breaks off.
abbrev broken : Reader
broken = record { bytes = 123 ∷ 34 ∷ []; breaks = true }

read_replayable_body-cases_example :
    let ((body, again), left) = read_replayable_body broken in
    ((length broken.bytes ≤ 4194304)
      × (broken.breaks ≡ false)
      × (body ≡ some broken.bytes)
      × (again ≡ true)
      × (left ≡ broken))
    ⊎ ((4194304 < length broken.bytes) × (body ≡ none) × (again ≡ false) × (left ≡ broken))
    ⊎ ((length broken.bytes ≤ 4194304)
        × (broken.breaks ≡ true)
        × (body ≡ none)
        × (again ≡ false)
        × (left.bytes ≡ []))
read_replayable_body-cases_example = read_replayable_body-cases broken
