-- ===== src/Qdrant/Isolation.antt =====
-- Tenants in the shared collection of saap/plugins/memory/qdrant/__init__.py.
use ai_voice.Prelude.{
  ℕ, ◌≡◌, ◌≢◌, refl, ap, ◌∙◌, Bool, true, false, not, String, Option, none, some, List, [], ◌∷◌,
  All, keep, All-map, keep-keep, every, elem, ◌==◌, string_eq, arith, inl, inr, Bool-cases,
}
use ai_voice.Prelude.Dict.{Dict, lookup}
use ai_voice.Core.Types.{TenantContext}
use ai_voice.Qdrant.{
  shared_collection, Point, ScoredPoint, Conditions, Client, QdrantState, collection_name,
  tenant_filter, ensure_collection, found_points, delete_by_source,
}

abbrev pub is_value : String → Option String → Bool
is_value v none = false
is_value v (some t) = t == v

abbrev pub holds : Dict String String → String × String → Bool
holds payload (k, v) = is_value v (lookup k payload)

abbrev pub matches : {V : Type 0} → Conditions → Point V → Bool
matches conditions p = every (holds p.payload) conditions

abbrev pub belongs : {V : Type 0} → String → Point V → Bool
belongs tenant_id p = holds p.payload ("tenant_id", tenant_id)

-- What the service documents: a search finds points that match its filter, deletion removes the points
-- of the collection that match, and to create a collection that is missing changes no points.
pub record IsFaithful {W V F : Type 0} (client : Client W V F)
    (points : String → W → List (Point V)) : Type 0 where
  pub search_matches :
      (collection : String) (v : V) (conditions : Conditions) (k : ℕ) (w : W)
      → All
          (λ (f : ScoredPoint V F). matches conditions f.point ≡ true)
          (client.search_points collection v conditions k w)
  pub delete_removes :
      (collection : String) (conditions : Conditions) (w : W)
      → points collection (client.delete_points collection conditions w)
        ≡ keep (λ p. not (matches conditions p)) (points collection w)
  pub create_keeps :
      (collection created : String) (size : ℕ) (w : W)
      → client.collection_exists created w ≡ false
      → points collection (client.create_collection created size w) ≡ points collection w

first_matches :
    {V : Type 0} (c : String × String) (cs : Conditions) (p : Point V)
    → matches (c ∷ cs) p ≡ true
    → holds p.payload c ≡ true
first_matches c cs p h = ground arith

pub is_value_other :
    (a b : String) (o : Option String) → a ≢ b → is_value b o ≡ true → is_value a o ≡ false
is_value_other a b none h k = refl
is_value_other a b (some t) h k = ground (arith, string_eq.beq_iff t a, string_eq.beq_iff t b)

module _ {W V F : Type 0} (client : Client W V F) (points : String → W → List (Point V))
    (faithful : IsFaithful client points) (vector_size : ℕ) where
  points-ensure_collection :
      (name collection : String) (s : QdrantState W)
      → points collection (ensure_collection false client vector_size name s).world
        ≡ points collection s.world
  unfolding ensure_collection
  points-ensure_collection name collection s = elim (Bool-cases (elem name s.ensured)) [
    | inl known ↦ rw (known) refl
    | inr fresh ↦ elim (Bool-cases (client.collection_exists name s.world)) [
      | inl there ↦ rw (fresh, there) refl
      | inr missing ↦
          rw (fresh, missing) (faithful.create_keeps collection name vector_size s.world missing)
    ]
  ]

  -- A point that another tenant's deletion matches is not one of this tenant's.
  kept_point :
      (tenant other : TenantContext) (source_uri : String) (p : Point V)
      → tenant.tenant_id ≢ other.tenant_id
      → belongs other.tenant_id p ≡ true
      → not (matches (("source_uri", source_uri) ∷ ("tenant_id", tenant.tenant_id) ∷ []) p) ≡ true
  kept_point tenant other source_uri p h k =
      ground
        (arith, is_value_other tenant.tenant_id other.tenant_id (lookup "tenant_id" p.payload) h k)

-- In the shared collection, whatever filters a search adds, it only finds points of its own tenant;
-- and whatever source a tenant deletes, the points of every other tenant stay, where the service does
-- what it documents.
pub shared_isolates :
    {W V F : Type 0} (client : Client W V F) (points : String → W → List (Point V))
    (faithful : IsFaithful client points) (vector_size : ℕ) (tenant other : TenantContext) (v : V)
    (k : ℕ) (filters : Conditions) (source_uri : String) (s : QdrantState W)
    → tenant.tenant_id ≢ other.tenant_id
    → All
        (λ (f : ScoredPoint V F). belongs tenant.tenant_id f.point ≡ true)
        (found_points false client vector_size tenant v k filters s)
      × (keep (belongs other.tenant_id) (
            points shared_collection
              (delete_by_source false client vector_size tenant source_uri s).1.world)
          ≡ keep (belongs other.tenant_id) (points shared_collection s.world))
unfolding found_points delete_by_source tenant_filter collection_name
shared_isolates client points faithful vector_size tenant other v k filters source_uri s h =
    let s' = ensure_collection false client vector_size shared_collection s in
    let own : String × String = ("tenant_id", tenant.tenant_id) in
    (
      All-map (λ (f : ScoredPoint _ _). matches (own ∷ filters) f.point ≡ true)
          (λ (f : ScoredPoint _ _). belongs tenant.tenant_id f.point ≡ true) _
          (λ f m. first_matches own filters f.point m)
          (faithful.search_matches shared_collection v (own ∷ filters) k s'.world),
      ap (keep (belongs other.tenant_id)) (
            faithful.delete_removes shared_collection (("source_uri", source_uri) ∷ own ∷ [])
              s'.world)
          ∙ keep-keep (belongs other.tenant_id)
              (λ p. not (matches (("source_uri", source_uri) ∷ own ∷ []) p))
              (points shared_collection s'.world)
              (λ p m. kept_point client points faithful vector_size tenant other source_uri p h m)
          ∙ ap (keep (belongs other.tenant_id)) (
              points-ensure_collection client points faithful vector_size shared_collection
                shared_collection s),
    )
