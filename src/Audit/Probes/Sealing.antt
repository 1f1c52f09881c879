-- ===== src/Audit/Probes/Sealing.antt =====
-- `NewProbeSet` makes the valid sets.
use judgekit.Base.{
  ◌≡◌, ◌↔◌, ◌⇔◌, both, refl, sym, ap, subst, true, List, [], ◌∷◌, map, All, ok, wrap, Passes,
  >>_iff, >>=-eq-ok, wrap-eq-ok, ensure_iff,
}
use mathlib.Core.List.{Nodup}
use judgekit.Base.Text.{Bytes, is_sha256}
use judgekit.Base.Scan.{scan_plain_iff}
use judgekit.Base.Keys.{scan}
use judgekit.CanonicalJson.{Platform}
use judgekit.Eval.Sealing.{sum-is_sha256}
use judgekit.Audit.Probes.{
  Probe, ProbeSet, validate_probe, validate_probes, validate_probe_set, probe_set_digest,
  new_probe_set, duplicate_probe, no_set_digest, bad_set_digest,
}

abbrev pub probe_ids : List Probe → List Bytes
probe_ids ps = map (λ (p : Probe). p.id) ps

module _ (platform : Platform) where
  validate_probes_iff :
      (ps : List Probe)
      → Passes (validate_probes platform ps) ↔ All (λ p. Passes (validate_probe platform p)) ps
  unfolding validate_probes
  validate_probes_iff [] = (λ _. tt, λ _. refl)
  validate_probes_iff (p ∷ ps) = >>_iff _ _ ⇔ both (λ h. h, λ h. h) (validate_probes_iff ps)

  pub validate_probe_set_iff :
      (s : ProbeSet)
      → Passes (validate_probe_set platform s) ↔ (
          (All (λ p. Passes (validate_probe platform p)) s.probes × Nodup (probe_ids s.probes))
          × (is_sha256 s.digest ≡ true))
  unfolding validate_probe_set
  validate_probe_set_iff s =
      >>_iff _ _
      ⇔ both
          (scan_plain_iff (λ (p : Probe). p.id) (validate_probe platform) _ (λ p. (λ h. h, λ h. h))
            s.probes)
          (ensure_iff (is_sha256 s.digest) bad_set_digest)

  distinct_iff :
      (ps : List Probe)
      → Passes (scan (λ (p : Probe). p.id) (λ _. ok tt) (λ p. duplicate_probe p.id) (λ _. ok tt) ps)
        ↔ Nodup (probe_ids ps)
  distinct_iff ps =
      scan_plain_iff (λ (p : Probe). p.id) (λ _. ok tt) _ (λ p. (λ _. tt, λ _. refl)) ps
      ⇔ (λ h. h.1, λ d. (everything ps, d))
    where
      everything : (xs : List Probe) → All (λ _. Unit {0}) xs
      everything [] = tt
      everything (x ∷ xs) = (tt, everything xs)

  probe_set_digest-is_sha256 :
      (ps : List Probe) {digest : Bytes}
      → probe_set_digest platform ps ≡ ok digest
      → is_sha256 digest ≡ true
  unfolding probe_set_digest
  probe_set_digest-is_sha256 ps e = sum-is_sha256 platform _ e

  -- `NewProbeSet` returns a set exactly if `ValidateProbeSet` accepts this set, and its digest is
  -- that of its probes: although the two check ids at different times, they accept the same probes.
  pub new_probe_set_iff :
      (ps : List Probe) (s : ProbeSet)
      → (new_probe_set platform ps ≡ ok s) ↔ (
          Passes (validate_probe_set platform s)
          × (s.probes ≡ ps)
          × (probe_set_digest platform ps ≡ ok s.digest))
  unfolding new_probe_set
  new_probe_set_iff ps s = (made, remade)
    where
      made :
          new_probe_set platform ps ≡ ok s
          → Passes (validate_probe_set platform s)
            × (s.probes ≡ ps)
            × (probe_set_digest platform ps ≡ ok s.digest)
      made e =
          let (_, valid, e₁) = >>=-eq-ok (validate_probes platform ps) _ e in
          let (_, distinct, e₂) =
            >>=-eq-ok
              (scan (λ (p : Probe). p.id) (λ _. ok tt) (λ p. duplicate_probe p.id) (λ _. ok tt) ps)
              _ e₁ in
          let (digest, hashed, e₃) =
            >>=-eq-ok (wrap no_set_digest (probe_set_digest platform ps)) _ e₂ in
          let same : record { probes = ps; digest = digest } ≡ s = cc in
          let hash = wrap-eq-ok _ _ hashed in
          let accepted = (validate_probe_set_iff (record { probes = ps; digest = digest })).1 (
            ((validate_probes_iff ps).0 valid, (distinct_iff ps).0 distinct),
            probe_set_digest-is_sha256 ps hash,
          ) in
          subst
            (λ t.
              Passes (validate_probe_set platform t)
              × (t.probes ≡ ps)
              × (probe_set_digest platform ps ≡ ok t.digest))
            same (accepted, refl, hash)

      remade :
          Passes (validate_probe_set platform s)
            × (s.probes ≡ ps)
            × (probe_set_digest platform ps ≡ ok s.digest)
          → new_probe_set platform ps ≡ ok s
      remade (accepted, same, hash) =
          let ((valid, distinct), _) = (validate_probe_set_iff s).0 accepted in
          let valid_here =
            (validate_probes_iff ps).1
              (subst (All (λ p. Passes (validate_probe platform p))) same valid) in
          let distinct_here =
            (distinct_iff ps).1 (subst (λ q. Nodup (probe_ids q)) same distinct) in
          rw (valid_here, new_probe_set)
            (rw distinct_here
              (rw hash (ap (λ q. ok (record { probes = q; digest = s.digest })) (sym same))))
