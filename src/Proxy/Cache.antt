-- ===== src/Proxy/Cache.antt =====
-- The proxy's cache of Models: internal/proxy/cache.go. The map and the subscribers are lists; a
-- channel is the number that it was made with, and `pending` says whether its one slot is full. Each
-- operation holds the lock that the source takes, and is one step. The fields of an unstructured object
-- are read by the Kubernetes API machinery's NestedString, NestedInt64 and NestedSlice: an `Object` has
-- what they find, and `none` where they find nothing.
pub mod Wakeups
use squall.Common.{
  ℕ, suc, ℤ, pos, Bool, true, false, not, ◌&&◌, ◌||◌, Option, none, some, String, List, [], ◌∷◌,
  ◌==◌, le_dur, if◌then◌else◌, str_eq, lookup, insert, is_none,
}

pub record ReplicaEndpoint : Type 0 where
  pub host : String
  pub ssh_port : ℤ
  pub user : String
  pub service_port : ℤ

-- The phase stays a text here, as it is read.
pub record ModelSnapshot : Type 0 where
  pub phase : String
  pub namespace : String
  pub replica : Option ReplicaEndpoint
  pub hold_timeout : ℤ
  pub idle_timeout : ℤ
  pub created : ℕ
  pub features : List String
  pub owner : String
  pub service_url : String
  pub served_model : String
  pub forward_model : String
  pub schedulable : Bool

pub record Subscriber : Type 0 where
  pub channel : ℕ
  pub name : String
  pub pending : Bool

pub record ModelCache : Type 0 where
  pub by_name : List (String × ModelSnapshot)
  pub subs : List Subscriber
  pub next_channel : ℕ
  pub synced : Bool

-- NewCache.
abbrev pub new_cache : ModelCache
new_cache = record { by_name = []; subs = []; next_channel = 0; synced = false }

-- SetSynced.
abbrev pub set_synced : ModelCache → ModelCache
set_synced c = record c { synced = true }

-- Get.
unfoldable pub get : ModelCache → String → Option ModelSnapshot
get c name = lookup name c.by_name

abbrev names_of : List (String × ModelSnapshot) → List String
names_of [] = []
names_of ((n, s) ∷ m) = n ∷ names_of m

-- List.
unfoldable pub list : ModelCache → List String
list c = names_of c.by_name

abbrev erase : String → List (String × ModelSnapshot) → List (String × ModelSnapshot)
erase k [] = []
erase k ((n, s) ∷ m) = let rest = erase k m in if str_eq n k then rest else (n, s) ∷ rest

-- broadcast: a full slot stays full.
abbrev pub broadcast : String → List Subscriber → List Subscriber
broadcast name [] = []
broadcast name (u ∷ subs) =
    let rest = broadcast name subs in
    (if str_eq u.name name then record u { pending = true } else u) ∷ rest

-- Set.
unfoldable pub set : String → ModelSnapshot → ModelCache → ModelCache
set name snap c = record c { by_name = insert name snap c.by_name; subs = broadcast name c.subs }

-- Delete.
unfoldable pub delete : String → ModelCache → ModelCache
delete name c = record c { by_name = erase name c.by_name; subs = broadcast name c.subs }

-- Subscribe.
unfoldable pub subscribe : String → ModelCache → ModelCache
subscribe name c = record c {
  subs = record { channel = c.next_channel; name = name; pending = false } ∷ c.subs;
  next_channel = suc c.next_channel;
}

abbrev pub without : ℕ → List Subscriber → List Subscriber
without ch [] = []
without ch (u ∷ subs) = let rest = without ch subs in if u.channel == ch then rest else u ∷ rest

-- The cancel function that Subscribe gives.
unfoldable pub cancel : ℕ → ModelCache → ModelCache
cancel ch c = record c { subs = without ch c.subs }

abbrev pub emptied : ℕ → List Subscriber → List Subscriber
emptied ch [] = []
emptied ch (u ∷ subs) =
    let rest = emptied ch subs in
    (if u.channel == ch then record u { pending = false } else u) ∷ rest

-- A receive on the channel.
unfoldable pub receive : ℕ → ModelCache → ModelCache
receive ch c = record c { subs = emptied ch c.subs }

-- A condition's type and status; `none` is no map.
pub record Object : Type 0 where
  pub name : String
  pub namespace : String
  pub created : ℕ
  pub phase : Option String
  pub hold_timeout : Option String
  pub idle_timeout : Option String
  pub features : List String
  pub owner : Option String
  pub service_url : Option String
  pub served_model : Option String
  pub forward_model : Option String
  pub conditions : List (Option (String × String))
  pub has_replica : Bool
  pub host : Option String
  pub user : Option String
  pub ssh_port : Option ℤ
  pub service_port : Option ℤ

abbrev or_empty : Option String → String
or_empty none = ""
or_empty (some s) = s

abbrev or_zero : Option ℤ → ℤ
or_zero none = pos 0
or_zero (some n) = n

abbrev is_veto : Option (String × String) → Bool
is_veto none = false
is_veto (some (t, s)) = str_eq t "Schedulable" && str_eq s "False"

unfoldable pub schedulable_of : List (Option (String × String)) → Bool
schedulable_of [] = true
schedulable_of (c ∷ conds) = let rest = schedulable_of conds in not (is_veto c) && rest

-- replicaFromStatus.
unfoldable pub replica_from_status : Object → Option ReplicaEndpoint
replica_from_status o =
    if not o.has_replica
    then none
    else if str_eq (or_empty o.host) ""
        || str_eq (or_empty o.user) ""
        || le_dur (or_zero o.ssh_port) (pos 0)
        || le_dur (or_zero o.service_port) (pos 0)
    then none
    else some (record {
      host = or_empty o.host;
      ssh_port = or_zero o.ssh_port;
      user = or_empty o.user;
      service_port = or_zero o.service_port;
    })

-- The snapshot that upsert makes; `parse` is time.ParseDuration, of which an error reads as 0.
unfoldable pub snapshot_of : (String → Option ℤ) → Object → ModelSnapshot
unfolding schedulable_of replica_from_status
snapshot_of parse o = record {
  phase = or_empty o.phase;
  namespace = o.namespace;
  replica = replica_from_status o;
  hold_timeout = or_zero (parse (or_empty o.hold_timeout));
  idle_timeout = or_zero (parse (or_empty o.idle_timeout));
  created = o.created;
  features = o.features;
  owner = or_empty o.owner;
  service_url = or_empty o.service_url;
  served_model = or_empty o.served_model;
  forward_model = or_empty o.forward_model;
  schedulable = schedulable_of o.conditions;
}

-- upsert of RunInformerCache.
unfoldable pub upsert : (String → Option ℤ) → Object → ModelCache → ModelCache
unfolding set snapshot_of
upsert parse o c = set o.name (snapshot_of parse o) c
