-- ===== src/Resilience/Probe.antt =====
-- The breaker after its cooldown: `Allow`, and the outcome of the probe.
use go_handbook_for_software.Base.{
  ℕ, zero, suc, ◌+◌, ◌<◌, ◌≡◌, ◌≢◌, refl, Bool, true, false, List, [], ◌∷◌, arith, length,
  replicate,
}
use go_handbook_for_software.Resilience.{Breaker, allow, record_outcome}

-- `Allow` at each of the times in turn
unfoldable pub allow_all : List ℕ → Breaker → Breaker × List Bool
allow_all [] b = (b, [])
allow_all (t ∷ ts) b =
    let (b', admitted) = allow t b in let (b'', rest) = allow_all ts b' in (b'', admitted ∷ rest)

allow_all-half_open :
    (ts : List ℕ) (b : Breaker)
    → b.half_open ≡ true
    → allow_all ts b ≡ (b, replicate (length ts) false)
unfolding allow_all allow
allow_all-half_open [] b h = refl
allow_all-half_open (t ∷ ts) b h = ground (arith, allow_all-half_open ts b h)

-- The first call after the cooldown of an open breaker is admitted as the probe, and until its
-- outcome is recorded every further call is refused, at any times.
pub one_probe :
    (t : ℕ) (ts : List ℕ) (b : Breaker)
    → b.half_open ≡ false
    → b.open_until ≢ 0
    → b.open_until < t
    → allow_all (t ∷ ts) b ≡ (record b { half_open = true }, true ∷ replicate (length ts) false)
unfolding allow_all allow
one_probe t ts b h o l = ground (arith, allow_all-half_open ts (record b { half_open = true }) refl)

-- The probe's outcome decides: success closes the breaker with no failures counted, so that every
-- later call is admitted; failure opens it again until the cooldown after the outcome, and until
-- then every call is refused.
pub probe_outcome :
    (now t : ℕ) (b : Breaker)
    → b.half_open ≡ true
    → (allow t (record_outcome now true b)
        ≡ (record b { half_open = false; open_until = 0; failures = 0 }, true))
      × (t < now + b.cooldown
          → allow t (record_outcome now false b)
            ≡ (record b { half_open = false; open_until = now + b.cooldown }, false))
unfolding allow record_outcome
probe_outcome now t b h = (ground arith, λ l. ground arith)

-- At the very instant at which the cooldown ends, an open breaker admits every call and marks none of
-- them as the probe: however many calls there are, all pass.
pub boundary_admits_all :
    (n : ℕ) (b : Breaker)
    → b.half_open ≡ false
    → allow_all (replicate n b.open_until) b ≡ (b, replicate n true)
unfolding allow_all allow
boundary_admits_all zero b h = refl
boundary_admits_all (suc n) b h = ground (arith, boundary_admits_all n b h)
