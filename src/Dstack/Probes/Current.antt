-- ===== src/Dstack/Probes/Current.antt =====
-- What probesReady and replicaEndpoint of probes.go say of the current deployment's submissions.
use squall.Common.{
  ℕ, ℤ, pos, suc, ◌<◌, ◌≡◌, ◌≢◌, ◌↔◌, ◌⊎◌, inl, inr, refl, true, false, Option, none, some, List,
  [], ◌∷◌, arith, All, Holds, ◌≤ℤ◌, ◌<ℤ◌, is_none, Option-cases,
}
use squall.Dstack.{RunEndpoint}
use squall.Dstack.Probes.{
  JobProvisioningData, JobSubmission, Job, is_live, short_streak, lacks_probes, count_live,
  count_jobs, any_live, probes_ready, endpoint_of, or_later, first_endpoint, job_endpoint,
  replica_endpoint,
}

-- An item that satisfies P is in the list.
abbrev pub Any {ℓ} : {A : Type ℓ} → (A → Type 0) → List A → Type 0
Any P [] = ⊥
Any P (x ∷ xs) = P x ⊎ Any P xs

-- A submission with at least one probe, each of which succeeded often enough.
pub record IsProbed (ready_after : ℤ) (s : JobSubmission) : Type 0 where
  pub probed : s.probes ≢ []
  pub streaks : All (λ p. ready_after ≤ℤ p) s.probes

short_streak_iff :
    (ready_after : ℤ) (ps : List ℤ)
    → (short_streak ready_after ps ≡ false) ↔ All (λ p. ready_after ≤ℤ p) ps
unfolding short_streak
short_streak_iff ready_after [] = ground arith
short_streak_iff ready_after (p ∷ ps) = ground (arith, short_streak_iff ready_after ps)

lacks_probes_iff :
    (ready_after : ℤ) (ps : List ℤ)
    → (lacks_probes ready_after ps ≡ false) ↔ ((ps ≢ []) × All (λ p. ready_after ≤ℤ p) ps)
unfolding short_streak
lacks_probes_iff ready_after [] = (λ e. cc, λ h. absurd (h.0 refl))
lacks_probes_iff ready_after (p ∷ ps) =
    let short = short_streak_iff ready_after (p ∷ ps) in
    (λ e. (λ n. cc, short.0 e), λ h. short.1 h.1)

abbrev pub IsSound : ℕ → ℤ → JobSubmission → Type 0
IsSound num ready_after s = (is_live num s ≡ false) ⊎ IsProbed ready_after s

count_live-some_iff :
    (num : ℕ) (ready_after : ℤ) (live : ℕ) (ss : List JobSubmission)
    → (is_none (count_live num ready_after live ss) ≡ false) ↔ All (IsSound num ready_after) ss
unfolding count_live
count_live-some_iff num ready_after live [] = ground arith
count_live-some_iff num ready_after live (s ∷ ss) = ground (
  arith,
  lacks_probes_iff ready_after s.probes,
  count_live-some_iff num ready_after live ss,
  count_live-some_iff num ready_after (suc live) ss,
)

count_live-positive_iff :
    (num : ℕ) (ready_after : ℤ) (live : ℕ) (ss : List JobSubmission)
    → Holds (λ n. 0 < n) (count_live num ready_after live ss)
      ↔ (All (IsSound num ready_after) ss × ((0 < live) ⊎ Any (λ s. is_live num s ≡ true) ss))
unfolding count_live
count_live-positive_iff num ready_after live [] = ground arith
count_live-positive_iff num ready_after live (s ∷ ss) = ground (
  arith,
  lacks_probes_iff ready_after s.probes,
  count_live-positive_iff num ready_after live ss,
  count_live-positive_iff num ready_after (suc live) ss,
)

abbrev pub SoundJob : ℕ → ℤ → Job → Type 0
SoundJob num ready_after j = All (IsSound num ready_after) j.job_submissions

abbrev pub LiveJob : ℕ → Job → Type 0
LiveJob num j = Any (λ s. is_live num s ≡ true) j.job_submissions

count_jobs-positive_iff :
    (num : ℕ) (ready_after : ℤ) (live : ℕ) (jobs : List Job)
    → Holds (λ n. 0 < n) (count_jobs num ready_after live jobs)
      ↔ (All (SoundJob num ready_after) jobs × ((0 < live) ⊎ Any (LiveJob num) jobs))
unfolding count_jobs
count_jobs-positive_iff num ready_after live [] = ground arith
count_jobs-positive_iff num ready_after live (j ∷ jobs) =
    let sound = count_live-some_iff num ready_after live j.job_submissions in
    let positive = count_live-positive_iff num ready_after live j.job_submissions in
    elim (Option-cases (count_live num ready_after live j.job_submissions)) [
      | inl e ↦ rw (e, count_jobs) (let sound' = rw e at sound in ground (arith, sound'))
      | inr (n, e) ↦
          rw (e, count_jobs)
            (let sound' = rw e at sound in
              let positive' = rw e at positive in
              ground (arith, sound', positive', count_jobs-positive_iff num ready_after n jobs))
    ]

any_live_iff : (o : Option ℕ) → (any_live o ≡ true) ↔ Holds (λ n. 0 < n) o
any_live_iff none = ground arith
any_live_iff (some n) = ground arith

-- A run is probe-ready exactly if readyAfter is positive, the current deployment has a live
-- submission, and each of its live submissions has probes that all succeeded readyAfter times in a
-- row; submissions that are finished or of another deployment count neither way.
pub probes_ready_iff :
    (jobs : List Job) (num : ℕ) (ready_after : ℤ)
    → (probes_ready jobs num ready_after ≡ true)
      ↔ ((pos 1 ≤ℤ ready_after) × Any (LiveJob num) jobs × All (SoundJob num ready_after) jobs)
unfolding probes_ready
probes_ready_iff jobs num ready_after =
    let any = any_live_iff (count_jobs num ready_after 0 jobs) in
    ground (arith, any, count_jobs-positive_iff num ready_after 0 jobs)

-- A submission of the current deployment that is not finished, and that e reaches in one hop.
pub record IsReached (num : ℕ) (e : RunEndpoint) (s : JobSubmission) : Type 0 where
  pub live : is_live num s ≡ true
  pub direct :
      Holds
        (λ p.
          (p.hostname ≡ e.host)
          × (p.ssh_port ≡ e.ssh_port)
          × (p.username ≡ e.user)
          × (p.dockerized ≡ false)
          × (p.ssh_proxy ≡ false))
        s.job_provisioning_data
  pub port_given : pos 0 <ℤ e.ssh_port

endpoint_of-direct :
    (port : ℤ) (d : Option JobProvisioningData) (e : RunEndpoint)
    → endpoint_of port d ≡ some e
    → Holds
        (λ p.
          (p.hostname ≡ e.host)
          × (p.ssh_port ≡ e.ssh_port)
          × (p.username ≡ e.user)
          × (p.dockerized ≡ false)
          × (p.ssh_proxy ≡ false))
        d
      × (pos 0 <ℤ e.ssh_port)
      × (e.service_port ≡ port)
endpoint_of-direct port none e h = cc
endpoint_of-direct port (some p) e h = ground (arith, h)

first_endpoint-IsReached :
    (num : ℕ) (port : ℤ) (ss : List JobSubmission) (e : RunEndpoint)
    → first_endpoint num port ss ≡ some e
    → Any (IsReached num e) ss × (e.service_port ≡ port)
unfolding first_endpoint
first_endpoint-IsReached num port [] e h = cc
first_endpoint-IsReached num port (s ∷ ss) e h = ground (
  arith,
  h,
  first_endpoint-IsReached num port ss e,
  endpoint_of-direct port s.job_provisioning_data e,
)

job_endpoint-IsReached :
    (num : ℕ) (o : Option ℤ) (ss : List JobSubmission) (e : RunEndpoint)
    → job_endpoint num o ss ≡ some e
    → (pos 0 <ℤ e.service_port) × (o ≡ some e.service_port) × Any (IsReached num e) ss
unfolding job_endpoint
job_endpoint-IsReached num none ss e h = cc
job_endpoint-IsReached num (some port) ss e h =
    ground (arith, h, first_endpoint-IsReached num port ss e)

or_later-cases :
    (a b : Option RunEndpoint) (e : RunEndpoint)
    → or_later a b ≡ some e
    → (a ≡ some e) ⊎ (b ≡ some e)
or_later-cases none b e h = inr h
or_later-cases (some x) b e h = inl h

-- The endpoint that traffic is sent to is that of a live submission of the current deployment, with
-- its job's positive service port, and takes no jump host and no container hop.
pub replica_endpoint-IsReached :
    (jobs : List Job) (num : ℕ) (e : RunEndpoint)
    → replica_endpoint jobs num ≡ some e
    → (pos 0 <ℤ e.service_port)
      × Any
          (λ j. (j.service_port ≡ some e.service_port) × Any (IsReached num e) j.job_submissions)
          jobs
unfolding replica_endpoint
replica_endpoint-IsReached [] num e h = cc
replica_endpoint-IsReached (j ∷ jobs) num e h =
    elim (or_later-cases (job_endpoint num j.service_port j.job_submissions)
      (replica_endpoint jobs num) e h) [
        | inl k ↦
            let found = job_endpoint-IsReached num j.service_port j.job_submissions e k in
            (found.0, inl (found.1, found.2))
        | inr k ↦ let found = replica_endpoint-IsReached jobs num e k in (found.0, inr found.1)
      ]
