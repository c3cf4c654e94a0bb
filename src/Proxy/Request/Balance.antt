-- ===== src/Proxy/Request/Balance.antt =====
-- What a request leaves behind.
use squall.Common.{
  ℕ, ◌+◌, ◌%◌, ◌<◌, ◌≡◌, inl, inr, refl, ap, sym, ◌∙◌, arith, ℤ, pos, Bool, true, false, not, ◌&&◌,
  some, String, List, ◌++◌, le_dur, int64, ◌==◌, lookup, insert, lookup-insert, eq_iff, Bool-cases,
}
use squall.Proxy.Decision.{decide}
use squall.Proxy.Handler.{
  Served, Evidence, no_evidence, succeeded, failed, World, count_of, acquire_pending,
  release_pending, serve_http,
}
use squall.Proxy.Tracker
use squall.Proxy.Tracker.{
  ActivityTracker, Event, begun, ended, after, counters_of, find_pending, close_pending,
}
use squall.Proxy.Tracker.Counts.{after-Counted, pending_count}
use squall.Proxy.Request.{events, answered_events, request_events}

==-self : (n : ℕ) → (n == n) ≡ true
==-self n = ground arith

-- The requests in progress after a request has been answered.
pending-answered :
    (has_cr : Bool) (model : String) (now at later : ℕ) (e : Evidence) (es : List Event)
    → (after (answered_events has_cr model (after es).drawn now at later e ++ es)).pending
      ≡ (after es).pending
unfolding after Tracker.begin Tracker.finish Tracker.success Tracker.failure
pending-answered false model now at later no_evidence es = refl
pending-answered false model now at later succeeded es = refl
pending-answered false model now at later failed es = refl
pending-answered true model now at later no_evidence es =
    rw (==-self (after es).drawn) (rw (==-self (after es).drawn) refl)
pending-answered true model now at later succeeded es =
    rw (==-self (after es).drawn) (rw (==-self (after es).drawn) refl)
pending-answered true model now at later failed es =
    rw (==-self (after es).drawn) (rw (==-self (after es).drawn) refl)

-- The count after a release of what was acquired.
count-released :
    (model k : String) (n c : ℕ) (pending : List (String × ℕ))
    → count_of (lookup model pending) ≡ n
    → n < 18446744073709551616
    → c ≡ (((n + 1) % 18446744073709551616) + 18446744073709551615) % 18446744073709551616
    → count_of (lookup k (insert model c (insert model ((n + 1) % 18446744073709551616) pending)))
      ≡ count_of (lookup k pending)
count-released model k n c pending e h r = rw (lookup-insert model k c) (
    rw (lookup-insert model k ((n + 1) % 18446744073709551616) pending)
      (ground (arith, eq_iff model k, e, h, r)))

-- What a request that was let in releases is what it acquired.
holds-balance :
    (max : ℤ) (model k : String) (pending : List (String × ℕ))
    → count_of (lookup model pending) < 18446744073709551616
    → (acquire_pending max model pending).0 ≡ true
    → count_of (lookup k (release_pending max model (acquire_pending max model pending).1))
      ≡ count_of (lookup k pending)
unfolding acquire_pending release_pending
holds-balance max model k pending h room = elim (Bool-cases (le_dur max (pos 0))) [
  | inl e ↦ rw e refl
  | inr e ↦ elim (Bool-cases (le_dur max (int64 (count_of (lookup model pending))))) [
    | inl full ↦ let r = rw (e, full) at room in ground (arith, r)
    | inr spare ↦
        rw (e, spare)
          (count-released model k (count_of (lookup model pending)) _ pending refl h (
            rw
              (lookup-insert model model
                ((count_of (lookup model pending) + 1) % 18446744073709551616) pending)
              (ground (arith, eq_iff model model))))
  ]
]

acquire-refused :
    (max : ℤ) (model : String) (pending : List (String × ℕ))
    → (acquire_pending max model pending).0 ≡ false
    → (acquire_pending max model pending).1 ≡ pending
unfolding acquire_pending
acquire-refused max model pending room = elim (Bool-cases (le_dur max (pos 0))) [
  | inl e ↦ rw e refl
  | inr e ↦ elim (Bool-cases (le_dur max (int64 (count_of (lookup model pending))))) [
    | inl full ↦ rw (e, full) refl
    | inr spare ↦ let r = rw (e, spare) at room in ground (arith, r)
  ]
]

holds_after :
    (max : ℤ) (model k : String) (pending : List (String × ℕ)) (w : World)
    → count_of (lookup model pending) < 18446744073709551616
    → count_of (lookup k (serve_http max model pending w).1) ≡ count_of (lookup k pending)
unfolding serve_http
holds_after max model k pending w h =
    let action = decide w.snapshot.phase w.snapshot.has_cr 0 in
    elim (Bool-cases (action.block && w.snapshot.has_cr && not w.schedulable)) [
      | inl u ↦ simp u refl
      | inr u ↦ elim (Bool-cases action.block) [
        | inr b ↦ simp u (simp b refl)
        | inl b ↦ elim (Bool-cases (acquire_pending max model pending).0) [
          | inl r ↦ simp u (simp (b, r) (holds-balance max model k pending h r))
          | inr r ↦ simp u (
              simp (b, r) (ap (λ ps. count_of (lookup k ps)) (acquire-refused max model pending r)))
        ]
      ]
    ]

-- A request that is answered gives back all that it took: after it every model has the requests in
-- flight that it had before, in a tracker with any history, and the holds that it had, if the count of
-- holds of the request's model fits in 64 bits.
pub serve_http-balance :
    (max : ℤ) (model k : String) (pending : List (String × ℕ)) (now at later : ℕ) (es : List Event)
    (w : World) (r : Served)
    → (serve_http max model pending w).0 ≡ some r
    → count_of (lookup model pending) < 18446744073709551616
    → ((counters_of
          (after (events max model pending (after es).drawn now at later w ++ es))
          k).in_flight
        ≡ (counters_of (after es) k).in_flight)
      × (count_of (lookup k (serve_http max model pending w).1) ≡ count_of (lookup k pending))
unfolding events
serve_http-balance max model k pending now at later es w r a h =
    let has = w.snapshot.has_cr in
    let told = answered_events has model (after es).drawn now at later r.evidence ++ es in
    let same : (after told).pending ≡ (after es).pending =
      pending-answered has model now at later r.evidence es in
    (
      ap
            (λ o.
              (counters_of (after (request_events has model (after es).drawn now at later o ++ es))
                k).in_flight)
            a
          ∙ after-Counted told k
          ∙ ap (λ p. pending_count k p % 18446744073709551616) same
          ∙ sym (after-Counted es k),
      holds_after max model k pending w h,
    )
