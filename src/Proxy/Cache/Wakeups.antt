-- ===== src/Proxy/Cache/Wakeups.antt =====
-- The notifications of the cache's subscribers.
use squall.Common.{
  ℕ, ℤ, ◌<◌, ◌≡◌, ◌≢◌, refl, ap, ◌∙◌, Bool, false, ◌||◌, Option, none, some, String, List, [], ◌∷◌,
  arith, ◌==◌, if◌then◌else◌, str_eq,
}
use squall.Proxy.Cache.{
  Object, Subscriber, ModelCache, broadcast, without, emptied, set, delete, subscribe, cancel,
  receive, upsert,
}

-- What happens to a cache: informer events, and subscribers that come, go and receive.
pub data Event : Type 0 where
  upserted : Object → Event
  removed : String → Event
  subscribed : String → Event
  cancelled received : ℕ → Event

abbrev pub step : (String → Option ℤ) → Event → ModelCache → ModelCache
step parse (upserted o) c = upsert parse o c
step parse (removed n) c = delete n c
step parse (subscribed n) c = subscribe n c
step parse (cancelled ch) c = cancel ch c
step parse (received ch) c = receive ch c

abbrev pub after : (String → Option ℤ) → List Event → ModelCache → ModelCache
after parse [] c = c
after parse (e ∷ es) c = after parse es (step parse e c)

-- The subscriber that holds a channel.
abbrev pub holder : ℕ → List Subscriber → Option Subscriber
holder ch [] = none
holder ch (u ∷ subs) = let rest = holder ch subs in if u.channel == ch then some u else rest

-- The event may have changed the Model's snapshot.
abbrev pub touches : String → Event → Bool
touches name (upserted o) = str_eq name o.name
touches name (removed n) = str_eq name n
touches name _ = false

abbrev pub touched : String → List Event → Bool
touched name [] = false
touched name (e ∷ es) = let rest = touched name es in touches name e || rest

-- The channel's own receives and its cancel.
abbrev pub IsQuiet : ℕ → List Event → Type 0
IsQuiet ch [] = Unit
IsQuiet ch (cancelled c ∷ es) = (c ≢ ch) × IsQuiet ch es
IsQuiet ch (received c ∷ es) = (c ≢ ch) × IsQuiet ch es
IsQuiet ch (e ∷ es) = IsQuiet ch es

abbrev with_pending : Bool → Subscriber → Subscriber
with_pending b u = record u { pending = u.pending || b }

holder-broadcast :
    (ch : ℕ) (name : String) (subs : List Subscriber) (u : Subscriber)
    → holder ch subs ≡ some u
    → holder ch (broadcast name subs) ≡ some (with_pending (str_eq u.name name) u)
holder-broadcast ch name [] u h = ground (arith, h)
holder-broadcast ch name (v ∷ subs) u h = ground (arith, h, holder-broadcast ch name subs u)

holder-without :
    (ch other : ℕ) (subs : List Subscriber)
    → other ≢ ch
    → holder ch (without other subs) ≡ holder ch subs
holder-without ch other [] n = refl
holder-without ch other (v ∷ subs) n = ground (arith, n, holder-without ch other subs n)

holder-emptied :
    (ch other : ℕ) (subs : List Subscriber)
    → other ≢ ch
    → holder ch (emptied other subs) ≡ holder ch subs
holder-emptied ch other [] n = refl
holder-emptied ch other (v ∷ subs) n = ground (arith, n, holder-emptied ch other subs n)

same_pending : (u : Subscriber) → some u ≡ some (with_pending false u)
same_pending u = ground arith

-- A step that is neither a receive on the channel nor its cancel.
step-holder :
    (parse : String → Option ℤ) (ch : ℕ) (e : Event) (c : ModelCache) (u : Subscriber)
    → ch < c.next_channel
    → IsQuiet ch (e ∷ [])
    → holder ch c.subs ≡ some u
    → (holder ch (step parse e c).subs ≡ some (with_pending (touches u.name e) u))
      × (ch < (step parse e c).next_channel)
unfolding upsert set delete subscribe cancel receive
step-holder parse ch (upserted o) c u l q h = (holder-broadcast ch o.name c.subs u h, l)
step-holder parse ch (removed n) c u l q h = (holder-broadcast ch n c.subs u h, l)
step-holder parse ch (subscribed n) c u l q h = ground (arith, h, l)
step-holder parse ch (cancelled d) c u l q h =
    (holder-without ch d c.subs q.0 ∙ h ∙ same_pending u, l)
step-holder parse ch (received d) c u l q h =
    (holder-emptied ch d c.subs q.0 ∙ h ∙ same_pending u, l)

IsQuiet-head :
    (ch : ℕ) (e : Event) (es : List Event)
    → IsQuiet ch (e ∷ es)
    → IsQuiet ch (e ∷ []) × IsQuiet ch es
IsQuiet-head ch (upserted o) es q = (tt, q)
IsQuiet-head ch (removed n) es q = (tt, q)
IsQuiet-head ch (subscribed n) es q = (tt, q)
IsQuiet-head ch (cancelled d) es q = ((q.0, tt), q.1)
IsQuiet-head ch (received d) es q = ((q.0, tt), q.1)

merged : (u : Subscriber) (a b : Bool) → with_pending b (with_pending a u) ≡ with_pending (a || b) u
merged u a b = ground arith

-- Until it receives or is cancelled, a subscriber whose channel the cache has given out has a
-- notification pending exactly if it had one or
-- its own Model was upserted or removed since, however often: none is lost, and none comes of another
-- Model.
pub holder-after :
    (parse : String → Option ℤ) (ch : ℕ) (es : List Event) (c : ModelCache) (u : Subscriber)
    → ch < c.next_channel
    → IsQuiet ch es
    → holder ch c.subs ≡ some u
    → holder ch (after parse es c).subs
      ≡ some (record u { pending = u.pending || touched u.name es })
holder-after parse ch [] c u l q h = h ∙ same_pending u
holder-after parse ch (e ∷ es) c u l q h =
    let quiet = IsQuiet-head ch e es q in
    let s = step-holder parse ch e c u l quiet.0 h in
    holder-after parse ch es (step parse e c) (with_pending (touches u.name e) u) s.1 quiet.1 s.0
    ∙ ap some (merged u (touches u.name e) (touched u.name es))
