-- ===== src/Probe/Loading.antt =====
-- The checks of `load_probe` in src/probe.py.
use probe_guided_inference.Base.{
  ℕ, true, ◌≡◌, ap, sym, if_ind, ok-injective, Option, none, some, arith, ok, Result, ◌==◌,
}
use probe_guided_inference.Backend.{Backend}
use probe_guided_inference.Probe.{ProbeArtifact, load_probe}

module _ {b : Backend} where
  -- A probe is loaded exactly if the file holds it and it was trained for the expected layer
  -- and the expected checkpoint.
  pub load_probe_iff :
      (file : Option (ProbeArtifact b)) (layer checkpoint : ℕ) (artifact : ProbeArtifact b)
      → (load_probe file layer checkpoint ≡ ok artifact
          → (file ≡ some artifact)
            × (artifact.trained_layer ≡ layer)
            × (artifact.trained_checkpoint ≡ checkpoint))
        × ((file ≡ some artifact)
              × (artifact.trained_layer ≡ layer)
              × (artifact.trained_checkpoint ≡ checkpoint)
            → load_probe file layer checkpoint ≡ ok artifact)
  unfolding load_probe
  load_probe_iff none layer checkpoint artifact = (λ e. cc, λ e. let bad = e.0 in absurd cc)
  load_probe_iff (some a) layer checkpoint artifact = (
    if_ind Known (a.trained_layer == layer)
        (λ l.
          if_ind Known (a.trained_checkpoint == checkpoint) (λ c e. found l c (ok-injective e))
            (λ c e. cc))
        (λ l e. cc),
    λ e.
        let same : a ≡ artifact = let one = e.0 in cc in
        let l : a.trained_layer == layer ≡ true = rw same (ground (arith, e.1)) in
        let c : a.trained_checkpoint == checkpoint ≡ true = rw same (ground (arith, e.2)) in
        rw (l, c) (ap ok same),
  )
    where
      Known : Result (ProbeArtifact b) → Type 0
      Known m =
          m ≡ ok artifact
          → (some a ≡ some artifact)
            × (artifact.trained_layer ≡ layer)
            × (artifact.trained_checkpoint ≡ checkpoint)

      found :
          a.trained_layer == layer ≡ true
          → a.trained_checkpoint == checkpoint ≡ true
          → a ≡ artifact
          → (some a ≡ some artifact)
            × (artifact.trained_layer ≡ layer)
            × (artifact.trained_checkpoint ≡ checkpoint)
      found l c same = (ap some same, rw (sym same) (ground arith), rw (sym same) (ground arith))
