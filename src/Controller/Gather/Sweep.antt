-- ===== src/Controller/Gather/Sweep.antt =====
-- Which proxy replicas a sweep has heard.
use squall.Common.{
  ℕ, ◌≡◌, ◌≢◌, ◌⊎◌, inl, inr, refl, sym, ap, subst, Bool, true, false, Option, none, some, String,
  List, [], ◌∷◌, ◌++◌, map, arith, Elem, Holds, Bool-cases, Option-cases, if◌then◌else◌, str_eq,
  eq_iff, ◌==◌, lookup, pos, All-Elem,
}
use squall.Controller.Phase.{ActivityEvidence}
use squall.Controller.Activity.{ActivityQuery}
use squall.Controller.Activity.Answers.{last_answer}
use squall.Controller.Activity.Loop.{IsIdleAnswer}
use squall.Controller.Activity.Evidence.{aggregate_idle_iff}
use squall.Controller.Gather.{
  Endpoint, Slice, Reply, replied, no_reply, query_activity, is_serving, dialled,
  endpoint_addresses, addresses_of, queries_of, gather_activity, sweep,
}

address-query_activity : (a name : String) (r : Reply) → (query_activity a name r).address ≡ a
unfolding query_activity
address-query_activity a name no_reply = refl
address-query_activity a name (replied s none) = ground arith
address-query_activity a name (replied s (some m)) = elim (Option-cases (lookup name m)) [
  | inl e ↦ rw e (ground arith)
  | inr (x, e) ↦ rw e (ground arith)
]

-- The entry of an address after one more query.
next_found :
    (name : String) (replies : String → Reply) (addrs : List String) (x a : String)
    (found : Option ActivityQuery)
    → (Elem a (x ∷ addrs) ⊎ (found ≡ some (query_activity a name (replies a))))
    → Elem a addrs
      ⊎ ((if str_eq (query_activity x name (replies x)).address a
            then some (query_activity x name (replies x))
            else found)
          ≡ some (query_activity a name (replies a)))
unfolding query_activity
next_found name replies addrs x a found h =
    rw (address-query_activity x name (replies x)) (elim (Bool-cases (str_eq x a)) [
      | inl t ↦ inr (rw t (ap (λ z. some (query_activity z name (replies z))) ((eq_iff x a).0 t)))
      | inr f ↦ elim h [
        | inr g ↦ inr (rw f g)
        | inl i ↦ elim i [ inl e ↦ ground (arith, eq_iff x a, f, e) | inr k ↦ inl k ]
      ]
    ])

-- The last answer of a swept address is what it replied.
last_answer-found :
    (name : String) (replies : String → Reply) (addrs : List String) (a : String)
    (found : Option ActivityQuery)
    → (Elem a addrs ⊎ (found ≡ some (query_activity a name (replies a))))
    → last_answer a (queries_of name replies addrs) found ≡ some (query_activity a name (replies a))
unfolding queries_of last_answer
last_answer-found name replies [] a found (inl i) = absurd i
last_answer-found name replies [] a found (inr e) = e
last_answer-found name replies (x ∷ addrs) a found h =
    last_answer-found name replies addrs a
      (if str_eq (query_activity x name (replies x)).address a
        then some (query_activity x name (replies x))
        else found)
      (next_found name replies addrs x a found h)

-- A replica that reported, and reported nothing in flight for the Model.
abbrev pub SaysIdle : String → Reply → Type 0
SaysIdle name no_reply = ⊥
SaysIdle name (replied status none) = ⊥
SaysIdle name (replied status (some models)) =
    (status ≡ 200)
    × ((lookup name models ≡ none) ⊎ Holds (λ a. a.in_flight ≡ pos 0) (lookup name models))

query-SaysIdle :
    (a name : String) (now : ℕ) (r : Reply)
    → IsIdleAnswer now (query_activity a name r)
    → SaysIdle name r
unfolding query_activity
query-SaysIdle a name now no_reply h = ground (arith, h.clear)
query-SaysIdle a name now (replied s none) h = ground (arith, h.clear)
query-SaysIdle a name now (replied s (some m)) h = elim (Bool-cases (s == 200)) [
  | inr f ↦ let h' = rw (f, query_activity) at h in ground (arith, h'.clear)
  | inl t ↦ elim (Option-cases (lookup name m)) [
    | inl e ↦ (ground (arith, t), inl e)
    | inr (x, e) ↦
        let h' = rw (t, e, query_activity) at h in
        (ground (arith, t), inr (rw e (ground (arith, h'.quiet))))
  ]
]

Elem-map : {A B : Type 0} (f : A → B) (x : A) (xs : List A) → Elem x xs → Elem (f x) (map f xs)
Elem-map f x [] i = i
Elem-map f x (y ∷ ys) (inl e) = inl (ap f e)
Elem-map f x (y ∷ ys) (inr i) = inr (Elem-map f x ys i)

Elem-left : {A : Type 0} (x : A) (xs ys : List A) → Elem x xs → Elem x (xs ++ ys)
Elem-left x [] ys i = absurd i
Elem-left x (y ∷ xs) ys (inl e) = inl e
Elem-left x (y ∷ xs) ys (inr i) = inr (Elem-left x xs ys i)

Elem-right : {A : Type 0} (x : A) (xs ys : List A) → Elem x ys → Elem x (xs ++ ys)
Elem-right x [] ys i = i
Elem-right x (y ∷ xs) ys i = inr (Elem-right x xs ys i)

endpoint_swept :
    (join : String → String → String) (port : Option String) (es : List Endpoint) (e : Endpoint)
    (addr : String)
    → Elem e es
    → is_serving e.serving ≡ true
    → Elem addr e.addresses
    → Elem (dialled join port addr) (endpoint_addresses join port es)
endpoint_swept join port [] e addr i v k = absurd i
endpoint_swept join port (x ∷ es) e addr (inl q) v k =
    let v' = subst (λ y. is_serving y.serving ≡ true) q v in
    rw v' (
      Elem-left (dialled join port addr) (map (dialled join port) x.addresses)
        (endpoint_addresses join port es)
        (Elem-map (dialled join port) addr x.addresses (subst (λ y. Elem addr y.addresses) q k)))
endpoint_swept join port (x ∷ es) e addr (inr i) v k =
    let rest = endpoint_swept join port es e addr i v k in
    elim (Bool-cases (is_serving x.serving)) [
      | inl t ↦ rw t (
          Elem-right (dialled join port addr) (map (dialled join port) x.addresses)
            (endpoint_addresses join port es) rest)
      | inr f ↦ rw f rest
    ]

slice_swept :
    (join : String → String → String) (slices : List Slice) (s : Slice) (e : Endpoint)
    (addr : String)
    → Elem s slices
    → Elem e s.endpoints
    → is_serving e.serving ≡ true
    → Elem addr e.addresses
    → Elem (dialled join s.port addr) (addresses_of join slices)
unfolding addresses_of
slice_swept join [] s e addr i j v k = absurd i
slice_swept join (x ∷ slices) s e addr (inl q) j v k =
    subst
      (λ y.
        Elem (dialled join y.port addr)
          (endpoint_addresses join x.port x.endpoints ++ addresses_of join slices))
      (sym q)
      (Elem-left (dialled join x.port addr) (endpoint_addresses join x.port x.endpoints)
        (addresses_of join slices)
        (endpoint_swept join x.port x.endpoints e addr (subst (λ y. Elem e y.endpoints) q j) v k))
slice_swept join (x ∷ slices) s e addr (inr i) j v k =
    Elem-right (dialled join s.port addr) (endpoint_addresses join x.port x.endpoints)
      (addresses_of join slices) (slice_swept join slices s e addr i j v k)

abbrev or_else : ActivityEvidence → Option ActivityEvidence → ActivityEvidence
or_else ev none = ev
or_else ev (some x) = x

-- Every address of every endpoint that is not marked as not serving, in every slice, has said so.
abbrev pub AllSayIdle :
    (String → String → String) → String → (String → Reply) → Option (List Slice) → Type 0
AllSayIdle join name replies none = ⊥
AllSayIdle join name replies (some slices) =
    (s : Slice) (e : Endpoint) (addr : String)
    → Elem s slices
    → Elem e s.endpoints
    → e.serving ≢ some false
    → Elem addr e.addresses
    → SaysIdle name (replies (dialled join s.port addr))

not_marked : (o : Option Bool) → o ≢ some false → is_serving o ≡ true
not_marked none h = refl
not_marked (some true) h = refl
not_marked (some false) h = absurd (h refl)

sweep-AllSayIdle :
    (join : String → String → String) (name : String) (replies : String → Reply) (now : ℕ)
    (slices : Option (List Slice))
    → (sweep join name replies now slices).complete ≡ true
    → (sweep join name replies now slices).all_idle ≡ true
    → AllSayIdle join name replies slices
unfolding sweep
sweep-AllSayIdle join name replies now none c i =
    let idle = (aggregate_idle_iff [] [] now).0 (c, i) in absurd (idle.0 refl)
sweep-AllSayIdle join name replies now (some slices) c i = λ s e addr j k v l.
    let addrs = addresses_of join slices in
    let a = dialled join s.port addr in
    let swept = slice_swept join slices s e addr j k (not_marked e.serving v) l in
    let idle = ((aggregate_idle_iff addrs (queries_of name replies addrs) now).0 (c, i)).1 in
    let mine =
      All-Elem (λ x. Holds (IsIdleAnswer now) (last_answer x (queries_of name replies addrs) none))
        addrs a idle swept in
    let heard =
      subst (Holds (IsIdleAnswer now)) (last_answer-found name replies addrs a none (inl swept))
        mine in
    query-SaysIdle a name now (replies a) heard

-- When a sweep finds the Model idle everywhere, the list of EndpointSlices was read, and every address of
-- every endpoint in it that is not marked as not serving has answered with a report that has nothing in
-- flight for the Model.
pub gather_activity-AllSayIdle :
    (configured : Bool) (join : String → String → String) (name : String) (replies : String → Reply)
    (slices : Option (List Slice)) (now : ℕ) (ev : ActivityEvidence)
    → gather_activity configured join name replies slices now ≡ some ev
    → ev.complete ≡ true
    → ev.all_idle ≡ true
    → AllSayIdle join name replies slices
unfolding gather_activity
gather_activity-AllSayIdle false join name replies slices now ev g c i = ground (arith, g)
gather_activity-AllSayIdle true join name replies slices now ev g c i =
    let e : sweep join name replies now slices ≡ ev = ap (or_else ev) g in
    sweep-AllSayIdle join name replies now slices (subst (λ x. x.complete ≡ true) (sym e) c)
      (subst (λ x. x.all_idle ≡ true) (sym e) i)
