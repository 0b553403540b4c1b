-- ===== src/Threads/Serial/Runs.antt =====
-- A serial order of the calls of src/vcam_pool.c as calls made one after the other: what holds of
-- these holds of threads.
use vcam_kmod.Base.{ℕ, ◌≡◌, ◌∙◌, refl, ap, List, [], ◌∷◌, ◌++◌, subst}
use vcam_kmod.Kernel.{Kernel}
use vcam_kmod.Pool.State.{Pool}
use vcam_kmod.Pool.Step.{Call, Reply, step, run}
use vcam_kmod.Pool.Invariant.Defs.{IsValid}
use vcam_kmod.Pool.Safety.{run-IsValid}
use vcam_kmod.Pool.Conserved.Defs.{IsConserved}
use vcam_kmod.Pool.Conserved.{run-IsConserved}
use vcam_kmod.Threads.Serial.Defs.{Order, Serial, origin, then_call}

-- The calls of an order with their replies, the first one first.
abbrev pub trace_of : (ℕ → Call) → Order → List (Call × Reply)
trace_of calls [] = []
trace_of calls ((i, r) ∷ ts) = trace_of calls ts ++ (calls i, r) ∷ []

module _ (k : Kernel) where
  run-last :
      (cs : List (Call × k.World)) (p : Pool) (c : Call) (w : k.World)
      → let (tr, q) = run k cs p in
        run k (cs ++ (c, w) ∷ []) p ≡ (tr ++ (c, (step k c q w).0) ∷ [], (step k c q w).1)
  unfolding run
  run-last [] p c w = refl
  run-last ((c', w') ∷ cs) p c w =
      ap (λ x. ((c', (step k c' p w').0) ∷ x.0, x.1)) (run-last cs (step k c' p w').1 c w)

  module _ (calls : ℕ → Call) {p0 : Pool} where
    -- The calls, each in the state of the machine that it met.
    abbrev pub calls_of : {ts : Order} {q : Pool} → Serial k calls p0 ts q → List (Call × k.World)
    calls_of origin = []
    calls_of (then_call i r s fresh d) = calls_of s ++ (calls i, d.world) ∷ []

    pub Serial-run :
        {ts : Order} {q : Pool} (s : Serial k calls p0 ts q)
        → run k (calls_of s) p0 ≡ (trace_of calls ts, q)
    unfolding run
    Serial-run origin = refl
    Serial-run (then_call {ts = ts} i r s fresh d) =
        run-last (calls_of s) p0 (calls i) d.world
        ∙ ap
            (λ x. (
              x.0 ++ (calls i, (step k (calls i) x.1 d.world).0) ∷ [],
              (step k (calls i) x.1 d.world).1,
            ))
            (Serial-run s)
        ∙ rw (d.reply, d.pool) refl

    pub Serial-IsValid : {ts : Order} {q : Pool} → IsValid p0 → Serial k calls p0 ts q → IsValid q
    Serial-IsValid v s = subst (λ x. IsValid x.1) (Serial-run s) (run-IsValid k (calls_of s) v)

    pub Serial-IsConserved :
        {ts : Order} {q : Pool}
        → IsValid p0
        → IsConserved p0
        → Serial k calls p0 ts q
        → IsConserved q
    Serial-IsConserved v b s =
        subst (λ x. IsConserved x.1) (Serial-run s) (run-IsConserved k (calls_of s) p0 v b)
