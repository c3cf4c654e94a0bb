-- ===== src/Dstack/Mock/Once.antt =====
-- Two Applies to the fake server against one anchor.
use squall.Common.{
  ℕ, suc, ◌≤◌, ◌≡◌, ◌≢◌, refl, sym, ◌∙◌, subst, false, Option, none, some, String, arith,
}
use squall.Dstack.Mock.{
  RunId, Server, Anchor, ApplyRequest, resource_changed, Run, Answer, granted, refused, apply,
}
use squall.Dstack.Mock.Refines.{
  View, absent, died, live, view, IsGone, Sets, starts, flips, conflicts, overrides, apply_refines,
}

abbrev IsGranted : Answer → Type 0
IsGranted (granted run) = Unit
IsGranted (refused e) = ⊥

-- The anchor names an earlier state of a live run than the view, or another run.
abbrev IsStale : Option Anchor → View → Type 0
IsStale current absent = ⊥
IsStale current died = ⊥
IsStale current (live i k r d) = current ≢ some (record { run_id = i; deployment_num = k })

-- The anchor names a run that was minted before.
abbrev pub IsEarlier : ℕ → Option Anchor → Type 0
IsEarlier seq none = Unit
IsEarlier seq (some a) = a.run_id.number ≤ seq

earlier-IsStale :
    (name : String) (seq r : ℕ) (d : Option ℕ) (current : Option Anchor)
    → IsEarlier seq current
    → IsStale current (live (record { name = name; number = suc seq }) 1 r d)
earlier-IsStale name seq r d none h e = ground (arith, e)
earlier-IsStale name seq r d (some a) h e = ground (arith, h, e)

flipped-IsStale :
    (i : RunId) (k r : ℕ) (d : Option ℕ) (current : Option Anchor)
    → current ≡ some (record { run_id = i; deployment_num = k })
    → IsStale current (live i (suc k) r d)
flipped-IsStale i k r d current e q = ground (arith, sym e ∙ q)

granted-IsStale :
    {name : String} {seq n : ℕ} {d : Option ℕ} {c : Option Anchor} {v w : View} {a : Answer}
    → Sets (record { name = name; number = suc seq }) n d c v w a
    → IsEarlier seq c
    → IsGranted a
    → IsStale c w
granted-IsStale {name} {seq} {n} {d} {c} (starts v run g e) h y = earlier-IsStale name seq n d c h
granted-IsStale {name} {seq} {n} {d} {c} (flips i k r d0 run e u f) h y =
    flipped-IsStale i k n d c e
granted-IsStale (conflicts i k r d0 e) h y = absurd y
granted-IsStale (overrides i k r d0 e p u) h y = absurd y

gone-no_stale : (c : Option Anchor) (v : View) → IsGone v → IsStale c v → ⊥
gone-no_stale c absent g h = h
gone-no_stale c died g h = h
gone-no_stale c (live i k r d) g h = g

stale-refused :
    {fresh : RunId} {n : ℕ} {d : Option ℕ} {c : Option Anchor} {v w : View} {a : Answer}
    → Sets fresh n d c v w a
    → IsStale c v
    → a ≡ refused resource_changed
stale-refused {c = c} (starts v run g e) h = absurd (gone-no_stale c v g h)
stale-refused (flips i k r d0 run e u f) h = absurd (h e)
stale-refused (conflicts i k r d0 e) h = refl
stale-refused (overrides i k r d0 e p u) h = absurd (h e)

-- Of two Applies without Force to a name against the same anchor, which names no run that is still to be
-- minted, the second is refused once the first is granted.
apply_once :
    (first second : ApplyRequest) (s : Server) (now later : ℕ) (run : Run)
    → first.force ≡ false
    → second.force ≡ false
    → second.name ≡ first.name
    → second.current ≡ first.current
    → IsEarlier s.seq first.current
    → (apply first s now).1 ≡ granted run
    → (apply second (apply first s now).0 later).1 ≡ refused resource_changed
apply_once first second s now later run f f' n c h g =
    let after = (apply first s now).0 in
    let done = (apply_refines first s now f).0 in
    let stale = granted-IsStale done h (subst IsGranted (sym g) tt) in
    stale-refused (apply_refines second after later f').0 (
      subst (λ x. IsStale x (view second.name after)) (sym c)
        (subst (λ x. IsStale first.current (view x after)) (sym n) stale))
