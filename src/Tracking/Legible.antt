-- ===== src/Tracking/Legible.antt =====
-- The two directions of internal/trackingpb, and the Modes that they lose.
use kannon.Base.{◌≡◌, refl, inl, inr, some, [], ◌∷◌, In, nat_eq, list_eq, list_beq}
use kannon.Tracking.{
  Mode, Policy, mode_unspecified, mode_off, mode_anonymous, mode_pseudonymous, mode_identified,
  mode_full,
}
use kannon.Tracking.Wire.{
  find_mode, find_wire, to_stated_mode, from_mode, to_policy, from_policy, both,
}

-- the Modes that the wire has a number for
abbrev pub IsLegible : Mode → Type 0
IsLegible m =
    In
      (mode_unspecified ∷ mode_off ∷ mode_anonymous ∷ mode_pseudonymous ∷ mode_identified
        ∷ mode_full ∷ [])
      m

legible : (m : Mode) → IsLegible m → to_stated_mode (from_mode m) ≡ some m
unfolding to_stated_mode from_mode find_mode find_wire list_beq
legible m (inl e) = rw (← e) refl
legible m (inr (inl e)) = rw (← e) refl
legible m (inr (inr (inl e))) = rw (← e) refl
legible m (inr (inr (inr (inl e)))) = rw (← e) refl
legible m (inr (inr (inr (inr (inl e))))) = rw (← e) refl
legible m (inr (inr (inr (inr (inr (inl e)))))) = rw (← e) refl
legible m (inr (inr (inr (inr (inr (inr e)))))) = absurd e

-- A Policy of Modes that the wire has numbers for comes back as it was.
pub to_policy-from_policy :
    (p : Policy) → IsLegible p.opens → IsLegible p.links → to_policy (some (from_policy p)) ≡ some p
unfolding to_policy from_policy both
to_policy-from_policy p h k = rw (legible p.opens h) (rw (legible p.links k) refl)
