-- ===== src/Proxy/Forward/Tries.antt =====
-- Which tries commit, and of what the others are evidence.
use squall.Common.{
  ℕ, true, false, Option, none, some, String, if◌then◌else◌, ◌==◌, ◌||◌, arith, ◌≡◌, ◌⊎◌, inl, inr,
  refl, ap, Bool-cases, Option-cases,
}
use squall.Api.{ModelPhase, unset, asleep, waking, ready, draining, recreating, dead}
use squall.Proxy.Decision.{
  attempt_retry, attempt_commit, classify_attempt, retry_phase, is_dstack_service_not_found,
}
use squall.Proxy.Cache.{ModelCache}
use squall.Proxy.Handler.{Attempt, retried, committed}
use squall.Proxy.Forward.{
  Backend, Client, Network, Incoming, Response, ObjectCodec, route, outcome, by_result, outgoing,
  attempt_forward,
}

-- The phases of a Model that is not up.
abbrev pub IsWakingPhase : ModelPhase → Type 0
IsWakingPhase asleep = Unit
IsWakingPhase waking = Unit
IsWakingPhase recreating = Unit
IsWakingPhase dead = Unit
IsWakingPhase _ = ⊥

retry_phase-cases :
    (phase : ModelPhase)
    → ((retry_phase phase ≡ attempt_retry) × IsWakingPhase phase)
      ⊎ ((retry_phase phase ≡ attempt_commit) × ¬ (IsWakingPhase phase))
retry_phase-cases unset = inr (refl, λ w. w)
retry_phase-cases asleep = inl (refl, tt)
retry_phase-cases waking = inl (refl, tt)
retry_phase-cases ready = inr (refl, λ w. w)
retry_phase-cases draining = inr (refl, λ w. w)
retry_phase-cases recreating = inl (refl, tt)
retry_phase-cases dead = inl (refl, tt)

-- The answers of a gateway whose engine does not serve yet.
abbrev pub IsNotServing : ModelPhase → ℕ → Option String → Type 0
IsNotServing phase status detail =
    (status ≡ 502)
    ⊎ (status ≡ 503)
    ⊎ ((status ≡ 404) × ((is_dstack_service_not_found detail ≡ true) ⊎ IsWakingPhase phase))

serving :
    (phase : ModelPhase) (status : ℕ) (detail : Option String)
    → status ≡ 404
    → is_dstack_service_not_found detail ≡ false
    → ¬ (IsWakingPhase phase)
    → ¬ (IsNotServing phase status detail)
serving phase status detail s d w (inl a) = ground (arith, s, a)
serving phase status detail s d w (inr (inl a)) = ground (arith, s, a)
serving phase status detail s d w (inr (inr (a, inl x))) = ground (arith, d, x)
serving phase status detail s d w (inr (inr (a, inr x))) = w x

classify-cases :
    (phase : ModelPhase) (status : ℕ) (detail : Option String)
    → let result = classify_attempt (some status) phase (if status == 404 then detail else none) in
      ((result ≡ attempt_retry) × IsNotServing phase status detail)
      ⊎ ((result ≡ attempt_commit) × ¬ (IsNotServing phase status detail))
unfolding classify_attempt
classify-cases phase status detail = elim (Bool-cases (status == 404)) [
  | inr e ↦ elim (Bool-cases (status == 502 || status == 503)) [
    | inl b ↦ inl (simp b refl, ground (arith, b))
    | inr b ↦ inr (simp (b, e) refl, ground (arith, b, e))
  ]
  | inl e ↦
      let s : status ≡ 404 = ground (arith, e) in
      elim (Bool-cases (is_dstack_service_not_found detail)) [
        | inl d ↦ inl (rw s (simp d refl), inr (inr (s, inl d)))
        | inr d ↦ elim (retry_phase-cases phase) [
          | inl (r, w) ↦ inl (rw s (simp (d, r) refl), inr (inr (s, inr w)))
          | inr (r, w) ↦ inr (rw s (simp (d, r) refl), serving phase status detail s d w)
        ]
      ]
]

-- What an answer makes of a try.
abbrev pub Judged : ModelPhase → Option Response → Attempt → Type 0
Judged phase none result = result ≡ retried false
Judged phase (some r) result =
    ((result ≡ retried false) × IsNotServing phase r.upstream.status r.detail)
    ⊎ ((result ≡ committed r.upstream) × ¬ (IsNotServing phase r.upstream.status r.detail))

outcome-Judged : (phase : ModelPhase) (o : Option Response) → Judged phase o (outcome phase o)
unfolding classify_attempt
outcome-Judged phase none = refl
outcome-Judged phase (some r) = elim (classify-cases phase r.upstream.status r.detail) [
  | inl (c, n) ↦ inl (ap (λ a. by_result a r.upstream) c, n)
  | inr (c, n) ↦ inr (ap (λ a. by_result a r.upstream) c, n)
]

module _ {Raw Member : Type 0} (canonical : String → String) (codec : ObjectCodec Raw Member)
    (token : String) where
  -- A try without a route sends nothing and says so. With one it sends the one request, to the client that
  -- came with the URL, unless it cannot be built; and it commits exactly if there is an answer other than
  -- those of a gateway whose engine does not serve yet.
  pub attempt_forward-cases :
      (net : Network Raw) (backend : Backend) (cache : ModelCache) (model : String) (r : Incoming)
      (body : Option Raw) (phase : ModelPhase)
      → let (sent, result) =
          attempt_forward canonical codec token net backend cache model r body phase in
        ((route backend model ≡ none) × (sent ≡ none) × (result ≡ retried true))
        ⊎ ((target : String) × (client : Client) × (route backend model ≡ some (target, client))
            × let out = outgoing canonical codec token cache model r body target in
              ((net.builds out ≡ false) × (sent ≡ none) × (result ≡ retried false))
              ⊎ ((net.builds out ≡ true)
                  × (sent ≡ some (client, out))
                  × Judged phase (net.answer client out) result))
  unfolding attempt_forward
  attempt_forward-cases net backend cache model r body phase =
      elim (Option-cases (route backend model)) [
        | inl e ↦ rw e (inl (refl, refl, refl))
        | inr ((target, client), e) ↦
            let out = outgoing canonical codec token cache model r body target in
            elim (Bool-cases (net.builds out)) [
              | inl b ↦
                  rw (e, b)
                    (inr (
                      target,
                      client,
                      refl,
                      inr (b, refl, outcome-Judged phase (net.answer client out)),
                    ))
              | inr b ↦ rw (e, b) (inr (target, client, refl, inl (b, refl, refl)))
            ]
      ]
