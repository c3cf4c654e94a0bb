-- ===== src/Proxy/Buffer/Restored.antt =====
-- What is left of a body that has been buffered.
use squall.Common.{
  ℕ, ◌-◌, ◌<◌, ◌≤◌, ◌≡◌, ◌⊎◌, inl, inr, refl, ap, sym, arith, true, false, ◌&&◌, none, some, List,
  [], ◌∷◌, ◌++◌, ◌==◌, ltb, length, Bool-cases,
}
use squall.Proxy.Buffer.{
  Reader, take, drop, read_up_to, before, peek_and_restore, read_replayable_body,
}

append-take-drop : (n : ℕ) (xs : List ℕ) → take n xs ++ drop n xs ≡ xs
append-take-drop n [] = refl
append-take-drop n (x ∷ xs) = elim (Bool-cases (n == 0)) [
  | inl e ↦ simp e refl
  | inr e ↦ simp e (ap (λ ys. x ∷ ys) (append-take-drop (n - 1) xs))
]

take-all : (n : ℕ) (xs : List ℕ) → length xs ≤ n → (take n xs ≡ xs) × (drop n xs ≡ [])
take-all n [] h = (refl, refl)
take-all n (x ∷ xs) h =
    let e : (n == 0) ≡ false = ground (arith, h) in
    let (t, d) = take-all (n - 1) xs (omega (arith, h)) in simp e (ap (λ ys. x ∷ ys) t, d)

length-take : (n : ℕ) (xs : List ℕ) → n ≤ length xs → length (take n xs) ≡ n
length-take n [] h = omega (arith, h)
length-take n (x ∷ xs) h = elim (Bool-cases (n == 0)) [
  | inl e ↦ simp e (ground (arith, e))
  | inr e ↦ simp e (ground (arith, e, h, length-take (n - 1) xs))
]

restored :
    (limit : ℕ) (r : Reader)
    → before (take limit r.bytes) (record r { bytes = drop limit r.bytes }) ≡ r
restored limit r = ap (λ bs. record r { bytes = bs }) (append-take-drop limit r.bytes)

ended :
    {buf : List ℕ} {r : Reader}
    → buf ≡ r.bytes
    → r.breaks ≡ false
    → record { bytes = buf; breaks = false } ≡ r
ended {buf = buf} {r = r} t b i = record { bytes = t i; breaks = sym b i }

-- A body of at most 4 MiB is buffered, and a longer one is not to be sent again; either way it can be
-- read from its start again, with the end that it had. Only a body that breaks off within the bound is lost.
pub read_replayable_body-cases :
    (r : Reader)
    → let ((body, again), left) = read_replayable_body r in
      ((length r.bytes ≤ 4194304)
        × (r.breaks ≡ false)
        × (body ≡ some r.bytes)
        × (again ≡ true)
        × (left ≡ r))
      ⊎ ((4194304 < length r.bytes) × (body ≡ none) × (again ≡ false) × (left ≡ r))
      ⊎ ((length r.bytes ≤ 4194304)
          × (r.breaks ≡ true)
          × (body ≡ none)
          × (again ≡ false)
          × (left.bytes ≡ []))
unfolding read_replayable_body read_up_to
read_replayable_body-cases r = elim (Bool-cases (ltb 4194304 (length r.bytes))) [
  | inl long ↦
      let e : (r.breaks && ltb (length r.bytes) 4194305) ≡ false = ground (arith, long) in
      let n : length (take 4194305 r.bytes) ≡ 4194305 =
        length-take 4194305 r.bytes (ground (arith, long)) in
      let f : ltb 4194304 (length (take 4194305 r.bytes)) ≡ true = ground (arith, n) in
      simp (e, f) (inr (inl (ground (arith, long), refl, refl, restored 4194305 r)))
  | inr short ↦ elim (Bool-cases r.breaks) [
    | inl b ↦
        let e : (r.breaks && ltb (length r.bytes) 4194305) ≡ true = ground (arith, short, b) in
        simp e (inr (inr (ground (arith, short), b, refl, refl, refl)))
    | inr b ↦
        let e : (r.breaks && ltb (length r.bytes) 4194305) ≡ false = ground (arith, b) in
        let t = (take-all 4194305 r.bytes (ground (arith, short))).0 in
        let f : ltb 4194304 (length (take 4194305 r.bytes)) ≡ false = rw t short in
        simp (e, f) (inl (ground (arith, short), b, ap some t, refl, ended t b))
  ]
]

-- The peek at a response reads at most its bound and leaves the whole body, unless the body breaks off
-- within the bound.
pub peek_and_restore-cases :
    (limit : ℕ) (r : Reader)
    → let (peeked, left) = peek_and_restore limit r in
      ((peeked ≡ some (take limit r.bytes)) × (left ≡ r))
      ⊎ ((r.breaks ≡ true) × (length r.bytes < limit) × (peeked ≡ none))
unfolding peek_and_restore read_up_to
peek_and_restore-cases limit r = elim (Bool-cases (r.breaks && ltb (length r.bytes) limit)) [
  | inl e ↦ simp e (inr (ground (arith, e), ground (arith, e), refl))
  | inr e ↦ simp e (inl (refl, restored limit r))
]
