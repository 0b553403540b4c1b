-- ===== src/Main/Session.antt =====
-- A whole session of the module of src/vcam_main.c: load, serve calls of the pool, unload.
use vcam_kmod.Base.{ℕ, ◌+◌, ◌<◌, ◌≡◌, arith, List, [], ◌∷◌, subst}
use vcam_kmod.Kernel.{Kernel, CountsRefs, ok}
use vcam_kmod.Pool.State.{Pool}
use vcam_kmod.Pool.Step.{Call, Reply, step}
use vcam_kmod.Pool.Invariant.Defs.{IsValid}
use vcam_kmod.Pool.Safety.{step-IsValid}
use vcam_kmod.Pool.Refs.Held.{held_refs}
use vcam_kmod.Pool.Refs.Calls.{given, Sound, step-Balanced}
use vcam_kmod.Main.Module.{Module, vcam_init, vcam_exit}
use vcam_kmod.Main.Lifetime.{vcam_init-ok, vcam_exit-refs}

-- The references to `b` that the replies hand out.
abbrev pub all_given : ℕ → List Reply → ℕ
all_given b [] = 0
all_given b (r ∷ rs) = given b r + all_given b rs

module _ (k : Kernel) where
  -- Calls in order, with nothing else that changes the counts in between.
  unfoldable pub serve : List Call → Pool → k.World → List Reply × Pool × k.World
  serve [] p w = ([], p, w)
  serve (c ∷ cs) p w =
      let (r, p1, w1) = step k c p w in let (rs, q, w2) = serve cs p1 w1 in (r ∷ rs, q, w2)

  -- The counters have room before each call.
  abbrev pub HasRoom : ℕ → List Call → Pool → k.World → Type 0
  HasRoom limit [] p w = Unit {0}
  HasRoom limit (c ∷ cs) p w =
      ((b : ℕ) → k.refs b w < limit) × HasRoom limit cs (step k c p w).1 (step k c p w).2

  module _ {limit : ℕ} (laws : CountsRefs k limit) where
    serve-refs :
        (cs : List Call) (p : Pool) (w : k.World) (base : ℕ → ℕ)
        → IsValid p
        → HasRoom limit cs p w
        → ((b : ℕ) → k.refs b w ≡ base b + held_refs b p.slot)
        → let (rs, q, w') = serve cs p w in
          IsValid q × ((b : ℕ) → k.refs b w' ≡ base b + all_given b rs + held_refs b q.slot)
    unfolding serve
    serve-refs [] p w base v room e = (v, λ b. omega (arith, e b))
    serve-refs (c ∷ cs) p w base v room e =
        let sound : Sound k laws p w = record { room = room.0; real = λ b. omega (arith, e b) } in
        let one = λ (b : ℕ). step-Balanced k laws p v w sound b c in
        let (v', rest) =
          serve-refs cs (step k c p w).1 (step k c p w).2 (λ b. base b + given b (step k c p w).0)
            (step-IsValid k c w v) room.1 (λ b. omega (arith, e b, one b)) in
        (v', λ b. omega (arith, rest b))

    -- No reference leaks in a session: load the module where the device can be registered, serve
    -- any calls, unload, with nothing else at work on the references; if the counters have room
    -- before each call, each buffer then has the references that it had before, and those that
    -- `vcam_pool_acquire` handed to its callers.
    pub session-refs :
        (m : Module) (w w1 : k.World) (cs : List Call)
        → k.misc_register w ≡ (ok tt, w1)
        → HasRoom limit cs (vcam_init k m w).1.pool w1
        → let m' = (vcam_init k m w).1 in
          let (rs, q, w2) = serve cs m'.pool w1 in
          let (m2, w3) = vcam_exit k (record m' { pool = q }) w2 in
          (b : ℕ) → k.refs b w3 ≡ k.refs b w + all_given b rs
    session-refs m w w1 cs e room b =
        let (_, _, fresh, same) = vcam_init-ok k m w w1 e in
        let registered : k.refs b w1 ≡ k.refs b w =
          subst (λ o. k.refs b o.1 ≡ k.refs b w) e (laws.register w b) in
        let (v, served) =
          serve-refs cs (vcam_init k m w).1.pool w1 (λ c. k.refs c w1) fresh.valid room
            (λ c. omega (arith, fresh.empty c)) in
        let (_, exited, _) =
          vcam_exit-refs k laws
            (record (vcam_init k m w).1 { pool = (serve cs (vcam_init k m w).1.pool w1).1 })
            (serve cs (vcam_init k m w).1.pool w1).2 v (λ c. omega (arith, served c)) in
        omega (arith, registered, served b, exited b)
