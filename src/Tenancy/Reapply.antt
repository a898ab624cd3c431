-- ===== src/Tenancy/Reapply.antt =====
-- Applying a blueprint again, in saap/tenancy/provisioner.py.
use ai_voice.Prelude.{Bool, true, false, ◌≡◌, refl, sym, subst, ◌∙◌, String, List, [], ◌∷◌, All}
use ai_voice.Tenancy.{TenantBlueprint, ProvisionRecord, Resource, apply_each, plan, apply}

module _ {W : Type 0} (tenant_id : String) (blueprint : TenantBlueprint)
    (Matches : Resource W → W → Type 0) where
  -- What the interface documents of a resource, for one tenant and blueprint, where `Matches` says
  -- that the resource is as the blueprint wants it: to apply makes it so, and where it is so already,
  -- to apply changes nothing and says so, dry or not.
  pub record IsLawful (p : Resource W) : Type 0 where
    pub applied : (w : W) → Matches p (p.apply_one tenant_id blueprint false w).1
    pub kept :
        (dry_run : Bool) (w : W)
        → Matches p w
        → ((p.apply_one tenant_id blueprint dry_run w).1 ≡ w)
          × ((p.apply_one tenant_id blueprint dry_run w).0.changed ≡ false)

  -- To apply the other resource leaves this one as it is.
  abbrev pub Leaves : Resource W → Resource W → Type 0
  Leaves p q = (w : W) → Matches p w → Matches p (q.apply_one tenant_id blueprint false w).1

  -- Every resource is lawful, and those behind it leave it as it is.
  abbrev pub AreLawful : List (Resource W) → Type 0
  AreLawful [] = Unit
  AreLawful (p ∷ ps) = IsLawful p × All (Leaves p) ps × AreLawful ps

  apply_each_keeps :
      (p : Resource W) (ps : List (Resource W)) (w : W)
      → All (Leaves p) ps
      → Matches p w
      → Matches p (apply_each tenant_id blueprint false ps w).1
  unfolding apply_each
  apply_each_keeps p [] w a h = h
  apply_each_keeps p (q ∷ ps) w a h =
      apply_each_keeps p ps (q.apply_one tenant_id blueprint false w).1 a.1 (a.0 w h)

  apply_each-Matches :
      (ps : List (Resource W)) (w : W)
      → AreLawful ps
      → All (λ p. Matches p (apply_each tenant_id blueprint false ps w).1) ps
  unfolding apply_each
  apply_each-Matches [] w h = tt
  apply_each-Matches (p ∷ ps) w (l, a, h) =
      let w' = (p.apply_one tenant_id blueprint false w).1 in
      (apply_each_keeps p ps w' a (l.applied w), apply_each-Matches ps w' h)

  unchanged_from :
      (dry_run : Bool) (p : Resource W) (ps : List (Resource W)) (w w' : W)
      → (p.apply_one tenant_id blueprint dry_run w).1 ≡ w'
      → w' ≡ w
      → (p.apply_one tenant_id blueprint dry_run w).0.changed ≡ false
      → ((apply_each tenant_id blueprint dry_run ps w').1 ≡ w')
        × All
            (λ (r : ProvisionRecord). r.changed ≡ false)
            (apply_each tenant_id blueprint dry_run ps w').0
      → ((apply_each tenant_id blueprint dry_run (p ∷ ps) w).1 ≡ w)
        × All
            (λ (r : ProvisionRecord). r.changed ≡ false)
            (apply_each tenant_id blueprint dry_run (p ∷ ps) w).0
  unfolding apply_each
  unchanged_from dry_run p ps w w' e same quiet rest =
      let there =
        subst
          (λ v.
            ((apply_each tenant_id blueprint dry_run ps v).1 ≡ w')
            × All (λ (r : ProvisionRecord). r.changed ≡ false)
                (apply_each tenant_id blueprint dry_run ps v).0)
          (sym e) rest in
      (there.0 ∙ same, (quiet, there.1))

  matched_unchanged :
      (dry_run : Bool) (ps : List (Resource W)) (w : W)
      → AreLawful ps
      → All (λ p. Matches p w) ps
      → ((apply_each tenant_id blueprint dry_run ps w).1 ≡ w)
        × All
            (λ (r : ProvisionRecord). r.changed ≡ false)
            (apply_each tenant_id blueprint dry_run ps w).0
  unfolding apply_each
  matched_unchanged dry_run [] w h m = (refl, tt)
  matched_unchanged dry_run (p ∷ ps) w (l, a, h) m =
      let (same, quiet) = l.kept dry_run w m.0 in
      unchanged_from dry_run p ps w w same refl quiet (matched_unchanged dry_run ps w h m.1)

-- Once a blueprint has been applied, to apply it again and to plan it change nothing in the world, and
-- every record says so, where each resource does what its interface documents and leaves the ones
-- applied before it as they are.
pub apply-again :
    {W : Type 0} (tenant_id : String) (blueprint : TenantBlueprint)
    (Matches : Resource W → W → Type 0) (provisioners : List (Resource W)) (w w' : W)
    → AreLawful tenant_id blueprint Matches provisioners
    → (apply tenant_id blueprint provisioners w).1 ≡ w'
    → ((apply tenant_id blueprint provisioners w').1 ≡ w')
      × All
          (λ (r : ProvisionRecord). r.changed ≡ false)
          (apply tenant_id blueprint provisioners w').0
      × ((plan tenant_id blueprint provisioners w').1 ≡ w')
      × All
          (λ (r : ProvisionRecord). r.changed ≡ false)
          (plan tenant_id blueprint provisioners w').0
unfolding apply plan
apply-again tenant_id blueprint Matches provisioners w w' h e =
    let matched =
      subst (λ v. All (λ p. Matches p v) provisioners) e
        (apply_each-Matches tenant_id blueprint Matches provisioners w h) in
    let again = matched_unchanged tenant_id blueprint Matches false provisioners w' h matched in
    let drift = matched_unchanged tenant_id blueprint Matches true provisioners w' h matched in
    (again.0, again.1, drift.0, drift.1)
