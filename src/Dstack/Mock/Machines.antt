-- ===== src/Dstack/Mock/Machines.antt =====
-- The machines behind the fake server's services.
use squall.Common.{
  is_none, ℕ, suc, ◌<◌, ◌≡◌, inl, inr, refl, Bool, true, false, Option, none, some, String, List,
  [], ◌∷◌, arith, Bool-cases, Option-cases, lookup, insert, lookup-insert, str_eq, eq_iff,
  if◌then◌else◌,
}
use squall.Dstack.Mock.Refines.{
  is_override, apply_to-gone, apply_to_conflict, apply_to_override, apply_to-grant,
}
use squall.Dstack.Mock.{
  Service, Server, ApplyRequest, minted, is_current, applied, grant, mint, apply_to, apply,
  released, over_services, tick, erase, delete, stop, terminate, ensure_fleet,
}

-- The machine of a service: there while its run serves, with no idle clock, and gone with a dead run.
pub record IsHeld (svc : Service) : Type 0 where
  pub serving :
      svc.terminal ≡ false → 0 < svc.replicas → (svc.instance_up ≡ true) × (svc.idle_since ≡ 0)
  pub dead : svc.terminal ≡ true → svc.instance_up ≡ false

abbrev pub IfThere : {A : Type 0} → (A → Type 0) → Option A → Type 0
IfThere P none = Unit
IfThere P (some a) = P a

abbrev pub IsSound : Server → Type 0
IsSound s = (name : String) → IfThere IsHeld (lookup name s.services)

pub data Operation : Type 0 where
  apply_op : ApplyRequest → Operation
  tick_op : Operation
  delete_op stop_op terminate_op : String → Operation
  fleet_op : String → List String → Operation

abbrev pub perform : Operation → ℕ → Server → Server
perform (apply_op req) now s = (apply req s now).0
perform tick_op now s = tick now s
perform (delete_op n) now s = (delete n s).0
perform (stop_op n) now s = (stop n s).0
perform (terminate_op n) now s = terminate n s
perform (fleet_op n bs) now s = ensure_fleet n bs s

abbrev pub history : List (Operation × ℕ) → Server → Server
history [] s = s
history ((op, now) ∷ ops) s = history ops (perform op now s)

applied-IsHeld :
    (req : ApplyRequest) (svc : Service) (now : ℕ)
    → svc.terminal ≡ false
    → IsHeld (applied req svc now)
unfolding applied
applied-IsHeld req svc now e = ground (arith, e)

released-IsHeld : (now : ℕ) (svc : Service) → IsHeld svc → IsHeld (released now svc)
released-IsHeld now svc h = ground (arith, h.serving, h.dead)

if-IfThere :
    {A : Type 0} (P : A → Type 0) (b : Bool) (x y : Option A)
    → IfThere P x
    → IfThere P y
    → IfThere P (if b then x else y)
if-IfThere P true x y p q = p
if-IfThere P false x y p q = q

insert-IsSound :
    (s : Server) (name : String) (svc : Service) (seq : ℕ)
    → IsSound s
    → IsHeld svc
    → IsSound (record s { services = insert name svc s.services; seq = seq })
insert-IsSound s name svc seq h k other =
    rw (lookup-insert name other svc s.services)
      (if-IfThere IsHeld (str_eq name other) (some svc) (lookup other s.services) k (h other))

over_services-IfThere :
    (P : Service → Type 0) (f : Service → Service) (k : String) (services : List (String × Service))
    → ((svc : Service) → P svc → P (f svc))
    → IfThere P (lookup k services)
    → IfThere P (lookup k (over_services f services))
over_services-IfThere P f k [] g h = tt
over_services-IfThere P f k ((n, svc) ∷ services) g h = elim (Bool-cases (str_eq n k)) [
  | inl e ↦ let h' = rw e at h in rw e (g svc h')
  | inr e ↦ let h' = rw e at h in rw e (over_services-IfThere P f k services g h')
]

lookup-erase :
    (k other : String) (services : List (String × Service))
    → lookup other (erase k services) ≡ (if str_eq k other then none else lookup other services)
lookup-erase k other [] = ground arith
lookup-erase k other ((n, svc) ∷ services) =
    ground (arith, eq_iff k other, eq_iff n k, eq_iff n other, lookup-erase k other services)

service_of :
    (P : Service → Type 0) (o : Option Service) (svc : Service) → o ≡ some svc → IfThere P o → P svc
service_of P o svc e h = let h' = rw e at h in h'

grant-IsSound :
    (req : ApplyRequest) (s : Server) (svc : Service) (now : ℕ)
    → IsSound s
    → svc.terminal ≡ false
    → IsSound (grant req s svc now).0
unfolding grant
grant-IsSound req s svc now h e =
    insert-IsSound s req.name (applied req svc now) s.seq h (applied-IsHeld req svc now e)

apply_to-IsSound :
    (req : ApplyRequest) (s : Server) (now : ℕ) (o : Option Service)
    → IsSound s
    → IsSound (apply_to req s now o).0
unfolding apply_to mint
apply_to-IsSound req s now none h =
    grant-IsSound req (record s { seq = suc s.seq }) (minted req.name (suc s.seq) now) now h refl
apply_to-IsSound req s now (some svc) h = elim (Bool-cases svc.terminal) [
  | inl t ↦ rw (apply_to-gone req s now svc t) (
      grant-IsSound req (record s { seq = suc s.seq }) (minted req.name (suc s.seq) now) now h refl)
  | inr t ↦ elim (Bool-cases (is_current req.current svc)) [
    | inr c ↦ rw (apply_to_conflict req s now svc t c) h
    | inl c ↦ elim (Bool-cases (is_override req svc)) [
      | inl o ↦ rw (apply_to_override req s now svc t c o) h
      | inr o ↦ rw (apply_to-grant req s now svc t c o) (grant-IsSound req s svc now h t)
    ]
  ]
]

apply-IsSound :
    (req : ApplyRequest) (s : Server) (now : ℕ) → IsSound s → IsSound (apply req s now).0
unfolding apply
apply-IsSound req s now h = elim (Bool-cases req.force) [
  | inl f ↦ simp f h
  | inr f ↦ simp f (apply_to-IsSound req s now (lookup req.name s.services) h)
]

delete-IsSound : (name : String) (s : Server) → IsSound s → IsSound (delete name s).0
unfolding delete
delete-IsSound name s h = elim (Option-cases (lookup name s.services)) [
  | inl e ↦ rw (e, delete) h
  | inr (svc, e) ↦ elim (Bool-cases svc.terminal) [
    | inr t ↦ simp (e, t) h
    | inl t ↦
        simp (e, t)
          (λ other.
            rw (lookup-erase name other s.services)
              (if-IfThere IsHeld (str_eq name other) none (lookup other s.services) tt (h other)))
  ]
]

stop-IsSound : (name : String) (s : Server) → IsSound s → IsSound (stop name s).0
unfolding stop
stop-IsSound name s h = elim (Option-cases (lookup name s.services)) [
  | inl e ↦ rw (e, stop) h
  | inr (svc, e) ↦
      rw (e, stop)
        (insert-IsSound s name (record svc { terminal = true; instance_up = false; replicas = 0 })
          s.seq h (ground arith))
]

terminate-IsSound : (name : String) (s : Server) → IsSound s → IsSound (terminate name s)
unfolding terminate
terminate-IsSound name s h = elim (Option-cases (lookup name s.services)) [
  | inl e ↦ rw (e, terminate) h
  | inr (svc, e) ↦
      rw (e, terminate)
        (insert-IsSound s name (record svc { terminal = true; instance_up = false }) s.seq h
          (ground arith))
]

perform-IsSound : (op : Operation) (now : ℕ) (s : Server) → IsSound s → IsSound (perform op now s)
unfolding tick ensure_fleet
perform-IsSound (apply_op req) now s h = apply-IsSound req s now h
perform-IsSound tick_op now s h = λ name.
    over_services-IfThere IsHeld (released now) name s.services (released-IsHeld now) (h name)
perform-IsSound (delete_op n) now s h = delete-IsSound n s h
perform-IsSound (stop_op n) now s h = stop-IsSound n s h
perform-IsSound (terminate_op n) now s h = terminate-IsSound n s h
perform-IsSound (fleet_op n bs) now s h = elim (Bool-cases (is_none (lookup n s.fleets))) [
  | inl e ↦ simp e h
  | inr e ↦ simp e h
]

-- In a server for which it holds at first, such as an empty one, it holds after any operations that a live
-- run with replicas has its machine, on which no idle clock runs, and a dead run has none.
pub history-IsSound :
    (ops : List (Operation × ℕ)) (s : Server) → IsSound s → IsSound (history ops s)
history-IsSound [] s h = h
history-IsSound ((op, now) ∷ ops) s h =
    history-IsSound ops (perform op now s) (perform-IsSound op now s h)
