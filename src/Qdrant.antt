-- ===== src/Qdrant.antt =====
-- saap/plugins/memory/qdrant/__init__.py: the vector store over a Qdrant client. The client is a parameter:
-- what it does with its world, a request that fails left out. A payload is the texts under its keys;
-- the metadata of a chunk is not among the fields of a chunk here.
pub mod Isolation
use ai_voice.Prelude.{
  ℕ, Bool, true, false, ◌&&◌, String, Option, none, some, List, [], ◌∷◌, ◌++◌, map, every, elem,
  ◌==◌, string_eq, if◌then◌else◌,
}
use ai_voice.Prelude.Dict.{Dict, lookup, get_or}
use ai_voice.Prelude.Text.{append}
use ai_voice.Core.Types.{TenantContext, DataClass}
use ai_voice.Ingest.{DocumentChunk}
use ai_voice.Rag.{RetrievedChunk}

abbrev pub shared_collection : String
shared_collection = "saap_shared"

-- `PointStruct`; the payload's keys are "tenant_id", "source_uri", "text" and "data_class".
pub record Point (V : Type 0) : Type 0 where
  pub point_id : String
  pub vector : V
  pub payload : Dict String String

pub record ScoredPoint (V F : Type 0) : Type 0 where
  pub point : Point V
  pub score : F

-- `FieldCondition`: a key and the value that it must have. A filter's conditions must all hold.
abbrev pub Conditions : Type 0
Conditions = List (String × String)

pub record Client (W V F : Type 0) : Type 0 where
  pub collection_exists : String → W → Bool
  pub create_collection : String → ℕ → W → W
  pub upsert_points : String → List (Point V) → W → W
  pub search_points : String → V → Conditions → ℕ → W → List (ScoredPoint V F)
  pub count_points : String → Conditions → W → ℕ
  pub delete_points : String → Conditions → W → W

pub record QdrantState (W : Type 0) : Type 0 where
  pub world : W
  pub ensured : List String

-- The values of an enumeration; a payload is read as `upsert` writes it.
unfoldable pub class_text : DataClass → String
class_text DataClass.public = "public"
class_text DataClass.internal = "internal"
class_text DataClass.personal = "personal"
class_text DataClass.sensitive_personal = "spii"

unfoldable pub point_of : {V : Type 0} → TenantContext → DocumentChunk → V → Point V
point_of tenant chunk vector = record {
  point_id = chunk.chunk_id;
  vector = vector;
  payload =
      ("tenant_id", tenant.tenant_id)
      ∷ ("source_uri", chunk.source_uri)
      ∷ ("text", chunk.text)
      ∷ ("data_class", class_text chunk.data_class)
      ∷ [];
}

-- `zip` of as many chunks as vectors
unfoldable pub points_of : {V : Type 0} → TenantContext → List (DocumentChunk × V) → List (Point V)
points_of tenant [] = []
points_of tenant ((chunk, vector) ∷ more) = point_of tenant chunk vector ∷ points_of tenant more

unfoldable pub read_class : String → DataClass
read_class t =
    if t == "public"
    then DataClass.public
    else if t == "internal"
    then DataClass.internal
    else if t == "personal"
    then DataClass.personal
    else DataClass.sensitive_personal

unfoldable pub chunk_of_point : {V F : Type 0} → ScoredPoint V F → RetrievedChunk F
chunk_of_point found = record {
  chunk = record {
    chunk_id = found.point.point_id;
    source_uri = get_or "source_uri" "" found.point.payload;
    text = get_or "text" "" found.point.payload;
    data_class = read_class (get_or "data_class" "" found.point.payload);
  };
  score = found.score;
}

module _ (collection_per_tenant : Bool) where
  unfoldable pub collection_name : TenantContext → String
  collection_name tenant =
      if collection_per_tenant then append "tenant_" tenant.tenant_id else shared_collection

  -- `_tenant_filter`: where a tenant has a collection of its own, nothing is filtered.
  unfoldable pub tenant_filter : TenantContext → Conditions
  tenant_filter tenant = if collection_per_tenant then [] else ("tenant_id", tenant.tenant_id) ∷ []

  module _ {W V F : Type 0} (client : Client W V F) (vector_size : ℕ) where
    unfoldable pub ensure_collection : String → QdrantState W → QdrantState W
    ensure_collection name s =
        let w =
          if client.collection_exists name s.world
          then s.world
          else client.create_collection name vector_size s.world in
        if elem name s.ensured then s else record { world = w; ensured = name ∷ s.ensured }

    unfoldable pub upsert : TenantContext → List (DocumentChunk × V) → QdrantState W → QdrantState W
    upsert tenant chunks s =
        let s' = ensure_collection (collection_name tenant) s in
        record s' {
          world = client.upsert_points (collection_name tenant) (points_of tenant chunks) s'.world;
        }

    unfoldable pub found_points :
        TenantContext → V → ℕ → Conditions → QdrantState W → List (ScoredPoint V F)
    found_points tenant query_vector k filters s =
        client.search_points (collection_name tenant) query_vector (tenant_filter tenant ++ filters)
          k (ensure_collection (collection_name tenant) s).world

    unfoldable pub search :
        TenantContext → V → ℕ → Conditions → QdrantState W → List (RetrievedChunk F) × QdrantState W
    search tenant query_vector k filters s = (
      map chunk_of_point (found_points tenant query_vector k filters s),
      ensure_collection (collection_name tenant) s,
    )

    unfoldable pub delete_by_source : TenantContext → String → QdrantState W → ℕ × QdrantState W
    delete_by_source tenant source_uri s =
        let s' = ensure_collection (collection_name tenant) s in
        let must = ("source_uri", source_uri) ∷ tenant_filter tenant in
        (
          client.count_points (collection_name tenant) must s'.world,
          record s' { world = client.delete_points (collection_name tenant) must s'.world },
        )
