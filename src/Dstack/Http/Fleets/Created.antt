-- ===== src/Dstack/Http/Fleets/Created.antt =====
-- What the client says of backends and fleets, and when it creates a fleet.
use squall.Common.{
  ℕ, ◌≡◌, ◌↔◌, ◌⊎◌, inl, inr, refl, subst, ap, sym, arith, Bool, true, false, Option, none, some,
  String, List, [], ◌∷◌, Elem, eq_iff, Bool-cases, Option-cases, ◌≤◌, ◌<◌, leb, ltb, ◌&&◌,
}
use squall.Dstack.Wire.{dstack_seconds}
use squall.Dstack.Errors.{Sentinel, classify_error}
use squall.Dstack.Http.{
  Call, config_info, list_fleets, get_fleet, get_fleet_plan, apply_fleet_plan, FleetSpec,
  FleetConfigurationWire, Result-cases, FleetWire, Reply, unsent, answered, ClientError,
  status_error, decode_error, Result, ok, err, Codec, continue, is_not_found, outcome_of, run_with,
}
use squall.Dstack.Http.Fleets.{
  backend_configured, configured_as, names, admits, some_admits, fleets_said, has_fleet_for,
  effective, create_fleet, ensure_fleet,
}

names_iff : (b : String) (bs : List String) → (names b bs ≡ true) ↔ Elem b bs
names_iff b [] = (λ e. ground (arith, e), λ e. elim e [ ])
names_iff b (x ∷ bs) = ground (arith, names_iff b bs, eq_iff x b, eq_iff b x)

-- An active fleet that has no backends or has this one.
abbrev pub Admits : String → FleetWire → Type 0
Admits b f = (f.status ≡ "active") × ((f.backends ≡ []) ⊎ Elem b f.backends)

abbrev pub Any {ℓ} : {A : Type ℓ} → (A → Type 0) → List A → Type 0
Any P [] = ⊥
Any P (x ∷ xs) = P x ⊎ Any P xs

admits_iff : (b : String) (bs : List String) → (admits b bs ≡ true) ↔ ((bs ≡ []) ⊎ Elem b bs)
admits_iff b [] = (λ e. inl refl, λ e. refl)
admits_iff b (x ∷ bs) = ground (arith, names_iff b (x ∷ bs))

some_admits_iff : (b : String) (fs : List FleetWire) → (some_admits b fs ≡ true) ↔ Any (Admits b) fs
unfolding some_admits
some_admits_iff b [] = (λ e. ground (arith, e), λ e. elim e [ ])
some_admits_iff b (f ∷ fs) =
    ground (arith, some_admits_iff b fs, admits_iff b f.backends, eq_iff f.status "active")

ok-inj : {a b : Bool} → ok a ≡ ok b → a ≡ b
ok-inj h = ground (arith, h)

some-inj : {a b : List FleetWire} → some a ≡ some b → a ≡ b
some-inj h = cc h

abbrev pub IsSuccess : ℕ → Type 0
IsSuccess status = (200 ≤ status) × (status < 300)

-- The body of an answer with a 2xx status.
abbrev pub Succeeds : {Raw : Type 0} → (Raw → Type 0) → Reply Raw → Type 0
Succeeds P unsent = ⊥
Succeeds P (answered status body) = IsSuccess status × P body

abbrev pub Refuses : {Raw : Type 0} → Reply Raw → Type 0
Refuses unsent = ⊥
Refuses (answered status body) = status ≡ 400

-- Some active fleet of the answer admits the backend.
abbrev pub ListsFleet : {Raw : Type 0} → Codec Raw → String → Raw → Type 0
ListsFleet codec b body = (fs : List FleetWire) × (codec.fleets body ≡ some fs) × Any (Admits b) fs

-- The fleet's configuration, as createFleet asks for it.
abbrev pub asked_for : FleetSpec → FleetConfigurationWire
asked_for spec = record {
  name = spec.name;
  backends = spec.backends;
  idle_duration = dstack_seconds spec.idle_duration;
}

-- The body to apply: the effective spec of the plan, where there is one, and its spec otherwise.
abbrev pub IsEffective : {Raw : Type 0} → Raw × Option Raw → Raw → Type 0
IsEffective (given, changed) body = (changed ≡ some body) ⊎ ((changed ≡ none) × (given ≡ body))

effective-IsEffective : {Raw : Type 0} (p : Raw × Option Raw) → IsEffective p (effective p)
effective-IsEffective (given, none) = inr (refl, refl)
effective-IsEffective (given, some e) = inl refl

abbrev pub success_of : {A : Type 0} → Result A → Result (Unit {0})
success_of (ok a) = ok tt
success_of (err e) = err e

module _ {Raw S : Type 0} (codec : Codec Raw) (serve : S → Call Raw → S × Reply Raw) where
  -- An answer is read as its body exactly if its status is 2xx.
  pub outcome_of_cases :
      (status : ℕ) (body : Raw)
      → (IsSuccess status × (outcome_of codec (answered status body) ≡ ok body))
        ⊎ ((k : Sentinel) × (outcome_of codec (answered status body) ≡ err (status_error status k))
            × ((status < 200) ⊎ (300 ≤ status)))
  unfolding outcome_of classify_error
  outcome_of_cases status body = elim (Bool-cases (leb 200 status && ltb status 300)) [
    | inl b ↦ simp b (inl (ground (arith, b), refl))
    | inr b ↦ simp b (inr (_, refl, ground (arith, b)))
  ]

  backend_configured_cases :
      (r : Reply Raw)
      → ((configured_as (outcome_of codec r) ≡ ok true) ↔ Succeeds (λ body. Unit) r)
        × ((configured_as (outcome_of codec r) ≡ ok false) ↔ Refuses r)
  unfolding outcome_of
  backend_configured_cases unsent = ground arith
  backend_configured_cases (answered status body) = elim (outcome_of_cases status body) [
    | inl (s, e) ↦ rw e (ground (arith, s))
    | inr (k, e, n) ↦ rw e (ground (arith, n))
  ]

  -- Whatever the state of the server, a backend is reported as configured exactly if dstack answers the one
  -- request with a 2xx status, and as not configured exactly if it answers 400; all else is an error.
  pub backend_configured_iff :
      (b : String) (s : S)
      → let ran = run_with serve (backend_configured codec b) s in
        let reply = (serve s (config_info b)).1 in
        (ran.1 ≡ config_info b ∷ [])
        × ((ran.2 ≡ ok true) ↔ Succeeds (λ body. Unit) reply)
        × ((ran.2 ≡ ok false) ↔ Refuses reply)
  unfolding run_with backend_configured
  backend_configured_iff b s =
      let c = backend_configured_cases (serve s (config_info b)).1 in (refl, c.0, c.1)

  fleets_cases :
      (b : String) (body : Raw) (s : S)
      → ((run_with serve (fleets_said codec b body) s).2 ≡ ok true) ↔ ListsFleet codec b body
  unfolding run_with fleets_said
  fleets_cases b body s = elim (Option-cases (codec.fleets body)) [
    | inl e ↦ rw e (ground arith)
    | inr (fs, e) ↦ rw e (
      λ h. (fs, refl, (some_admits_iff b fs).0 (ok-inj h)),
      λ t. ap ok ((some_admits_iff b fs).1 (subst (Any (Admits b)) (sym (some-inj t.1)) t.2)),
    )
  ]

  has_fleet_cases :
      (b : String) (r : Reply Raw) (s : S)
      → ((run_with serve (continue (outcome_of codec r) (fleets_said codec b)) s).2 ≡ ok true)
        ↔ Succeeds (ListsFleet codec b) r
  unfolding run_with outcome_of
  has_fleet_cases b unsent s = ground arith
  has_fleet_cases b (answered status body) s = elim (outcome_of_cases status body) [
    | inl (u, e) ↦ let f = fleets_cases b body s in rw e (λ h. (u, f.0 h), λ t. f.1 t.1)
    | inr (k, e, n) ↦ rw e (λ h. ground (arith, h), λ t. ground (arith, t.0, n))
  ]

  fleets_said-asks_nothing :
      (b : String) (o : Result Raw) (s : S)
      → (run_with serve (continue o (fleets_said codec b)) s).1 ≡ []
  unfolding run_with fleets_said
  fleets_said-asks_nothing b (err e) s = refl
  fleets_said-asks_nothing b (ok body) s = elim (Option-cases (codec.fleets body)) [
    | inl e ↦ rw e refl
    | inr (fs, e) ↦ rw e refl
  ]

  -- Whatever the state of the server, the client says that a fleet is there exactly if dstack answers with a
  -- 2xx status and a list in which some active fleet has the backend, or has no backends at all.
  pub has_fleet_for_iff :
      (b : String) (s : S)
      → let ran = run_with serve (has_fleet_for codec b) s in
        (ran.1 ≡ list_fleets ∷ [])
        × ((ran.2 ≡ ok true) ↔ Succeeds (ListsFleet codec b) (serve s list_fleets).1)
  unfolding run_with has_fleet_for
  has_fleet_for_iff b s =
      let asked = serve s list_fleets in
      (
        ap (λ calls. list_fleets ∷ calls)
            (fleets_said-asks_nothing b (outcome_of codec asked.1) asked.0),
        has_fleet_cases b asked.1 asked.0,
      )

  -- What a program that ends so has done after its plan was answered.
  abbrev Applied : Call Raw → S → Result Raw → S × List (Call Raw) × Result (Unit {0}) → Type 0
  Applied plan s1 (err e) (end, calls, result) = (end ≡ s1) × (calls ≡ plan ∷ []) × (result ≡ err e)
  Applied plan s1 (ok body) (end, calls, result) =
      ((codec.fleet_plan body ≡ none)
        × (end ≡ s1)
        × (calls ≡ plan ∷ [])
        × (result ≡ err decode_error))
      ⊎ ((p : Raw × Option Raw) × (codec.fleet_plan body ≡ some p)
          × (spec : Raw) × IsEffective p spec
          × let (s2, reply) = serve s1 (apply_fleet_plan spec false) in
            (end ≡ s2)
            × (calls ≡ plan ∷ apply_fleet_plan spec false ∷ [])
            × (result ≡ success_of (outcome_of codec reply)))

  -- A plan of the fleet's configuration is asked for. Where it cannot be had or read, that is the error and
  -- nothing is applied; otherwise its effective spec is applied, once and without Force, and the result is
  -- that of this Apply.
  abbrev pub PlansThen : FleetSpec → S → S × List (Call Raw) × Result (Unit {0}) → Type 0
  PlansThen spec s ran =
      let plan = get_fleet_plan (asked_for spec) in
      let (s1, reply) = serve s plan in Applied plan s1 (outcome_of codec reply) ran

  create_fleet_plans :
      (spec : FleetSpec) (s : S) → PlansThen spec s (run_with serve (create_fleet codec spec) s)
  unfolding run_with create_fleet
  create_fleet_plans spec s =
      let plan = get_fleet_plan (asked_for spec) in
      let s1 = (serve s plan).0 in
      elim (Result-cases (outcome_of codec (serve s plan).1)) [
        | inr (e, o) ↦ rw o (refl, refl, refl)
        | inl (body, o) ↦ elim (Option-cases (codec.fleet_plan body)) [
          | inl n ↦ rw (o, n) (inl (refl, refl, refl, refl))
          | inr (p, n) ↦
              elim (Result-cases
                (outcome_of codec (serve s1 (apply_fleet_plan (effective p) false)).1)) [
                  | inl (a, q) ↦
                      rw (o, n)
                        (rw q (
                          inr (
                            p,
                            refl,
                            effective p,
                            effective-IsEffective p,
                            (refl, refl, ap success_of (sym q)),
                          )))
                  | inr (a, q) ↦
                      rw (o, n)
                        (rw q (
                          inr (
                            p,
                            refl,
                            effective p,
                            effective-IsEffective p,
                            (refl, refl, ap success_of (sym q)),
                          )))
                ]
        ]
      ]

  -- EnsureFleet asks for nothing but the fleet if that is there, or if it cannot tell; only an answer that
  -- the fleet does not exist leads to a plan with the fleet's name, backends and idle duration, and, where that
  -- is answered and can be read, to one Apply of its effective spec, without Force, whose result it is.
  pub ensure_fleet_cases :
      (spec : FleetSpec) (s : S)
      → let asked = serve s (get_fleet spec.name) in
        let ran = run_with serve (ensure_fleet codec spec) s in
        ((body : Raw) × (outcome_of codec asked.1 ≡ ok body)
          × (ran ≡ (asked.0, get_fleet spec.name ∷ [], ok tt)))
        ⊎ ((e : ClientError) × (outcome_of codec asked.1 ≡ err e)
            × (((is_not_found e ≡ false) × (ran ≡ (asked.0, get_fleet spec.name ∷ [], err e)))
                ⊎ ((is_not_found e ≡ true)
                    × (rest : S × List (Call Raw) × Result (Unit {0})) × (ran
                        ≡ (rest.0, get_fleet spec.name ∷ rest.1, rest.2))
                    × PlansThen spec asked.0 rest)))
  unfolding run_with ensure_fleet
  ensure_fleet_cases spec s =
      let asked = serve s (get_fleet spec.name) in
      elim (Result-cases (outcome_of codec asked.1)) [
        | inl (body, o) ↦ rw o (inl (body, refl, refl))
        | inr (e, o) ↦ elim (Bool-cases (is_not_found e)) [
          | inr n ↦ rw o (rw n (inr (e, refl, inl (n, refl))))
          | inl n ↦ rw o (
              rw n (
                inr (
                  e,
                  refl,
                  inr (
                    n,
                    run_with serve (create_fleet codec spec) asked.0,
                    refl,
                    create_fleet_plans spec asked.0,
                  ),
                )))
        ]
      ]
