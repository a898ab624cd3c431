-- ===== src/Pgvector/Bindings.antt =====
-- The named parameters of a search of saap/plugins/memory/pgvector/__init__.py.
use ai_voice.Prelude.{
  ℕ, ◌≡◌, ◌≢◌, refl, ap, sym, ◌∙◌, false, String, none, some, List, [], ◌∷◌, All, arith, ◌==◌,
  string_eq, texts_differ, inl, inr, Bool-cases,
}
use ai_voice.Prelude.Dict.{DistinctKeys, lookup, insert, lookup-insert_self, lookup-insert_ne}
use ai_voice.Prelude.Text.{
  append, starts_with, append-left_cancel, append-right_cancel, last_code, last_code-append,
}
use ai_voice.Core.Types.{TenantContext}
use ai_voice.Pgvector.Store.{
  text, number, Params, key_param, value_param, bind_filters, search_params,
}

key_param-injective : (j k : String) → key_param j ≡ key_param k → j ≡ k
unfolding key_param
key_param-injective j k e =
    append-right_cancel j k "_key"
      (append-left_cancel "filter_" (append j "_key") (append k "_key") e)

value_param-injective : (j k : String) → value_param j ≡ value_param k → j ≡ k
unfolding value_param
value_param-injective j k e =
    append-right_cancel j k "_value"
      (append-left_cancel "filter_" (append j "_value") (append k "_value") e)

key_param≢value_param : (j k : String) → key_param j ≢ value_param k
unfolding key_param value_param last_code
key_param≢value_param j k e =
    let same : append j "_key" ≡ append k "_value" =
      append-left_cancel "filter_" (append j "_key") (append k "_value") e in
    let ends : b'y' ≡ b'e' =
      sym (last_code-append 0 j "_" "key")
      ∙ ap (last_code 0) same
      ∙ last_code-append 0 k "_" "value" in
    absurd (omega (arith, ends))

-- The parameters of a key are none of the names of the statement itself.
named_apart :
    (name key : String)
    → starts_with "filter_" name ≡ false
    → (key_param key ≢ name) × (value_param key ≢ name)
unfolding key_param value_param starts_with append
named_apart name key h = (
  λ e. absurd (cc (ap (starts_with "filter_") e, h)),
  λ e. absurd (cc (ap (starts_with "filter_") e, h)),
)

pub bind_filters-other :
    (name : String) (filters : List (String × String)) (params : Params)
    → starts_with "filter_" name ≡ false
    → lookup name (bind_filters filters params) ≡ lookup name params
unfolding bind_filters
bind_filters-other name [] params h = refl
bind_filters-other name ((key, value) ∷ filters) params h =
    let (k, v) = named_apart name key h in
    bind_filters-other name filters
      (insert (value_param key) (text value) (insert (key_param key) (text key) params)) h
    ∙ lookup-insert_ne (value_param key) name (text value)
        (insert (key_param key) (text key) params) v
    ∙ lookup-insert_ne (key_param key) name (text key) params k

-- A key that is not among the filters keeps what its names are bound to.
bind_filters-absent :
    (key : String) (filters : List (String × String)) (params : Params)
    → lookup key filters ≡ none
    → (lookup (key_param key) (bind_filters filters params) ≡ lookup (key_param key) params)
      × (lookup (value_param key) (bind_filters filters params) ≡ lookup (value_param key) params)
unfolding bind_filters lookup
bind_filters-absent key [] params h = (refl, refl)
bind_filters-absent key ((other, value) ∷ filters) params h = elim (Bool-cases (other == key)) [
  | inl same ↦ absurd (ground (arith, same, h))
  | inr apart ↦
      let differ : other ≢ key = texts_differ other key apart in
      let bound = insert (key_param other) (text other) params in
      let (k, v) =
        bind_filters-absent key filters (insert (value_param other) (text value) bound)
          (rw (apart) at h) in
      (
        k
            ∙ lookup-insert_ne (value_param other) (key_param key) (text value) bound
                (λ e. key_param≢value_param key other (sym e))
            ∙ lookup-insert_ne (key_param other) (key_param key) (text other) params
                (λ e. differ (key_param-injective other key e)),
        v
            ∙ lookup-insert_ne (value_param other) (value_param key) (text value) bound
                (λ e. differ (value_param-injective other key e))
            ∙ lookup-insert_ne (key_param other) (value_param key) (text other) params
                (key_param≢value_param other key),
      )
]

-- A filter's two names are bound to its key and to its value.
abbrev pub IsBound : Params → String × String → Type 0
IsBound params (key, value) =
    (lookup (key_param key) params ≡ some (text key))
    × (lookup (value_param key) params ≡ some (text value))

bind_filters-All :
    (filters : List (String × String)) (params : Params)
    → DistinctKeys filters
    → All (IsBound (bind_filters filters params)) filters
unfolding bind_filters
bind_filters-All [] params h = tt
bind_filters-All ((key, value) ∷ filters) params (fresh, h) =
    let bound = insert (key_param key) (text key) params in
    let (k, v) =
      bind_filters-absent key filters (insert (value_param key) (text value) bound) fresh in
    (
      (
        k
            ∙ lookup-insert_ne (value_param key) (key_param key) (text value) bound
                (λ e. key_param≢value_param key key (sym e))
            ∙ lookup-insert_self (key_param key) (text key) params,
        v ∙ lookup-insert_self (value_param key) (text value) bound,
      ),
      bind_filters-All filters (insert (value_param key) (text value) bound) h,
    )

-- Whatever the filters of a search are called, with no key twice, each finds its key and its value bound
-- to the names in its condition, and none rebinds the tenant, the vector or the number of rows.
pub search_params-IsBound :
    (tenant : TenantContext) (query_vector : String) (k : ℕ) (filters : List (String × String))
    → DistinctKeys filters
    → All (IsBound (search_params tenant query_vector k filters)) filters
      × (lookup "tenant_id" (search_params tenant query_vector k filters)
          ≡ some (text tenant.tenant_id))
      × (lookup "query_vector" (search_params tenant query_vector k filters)
          ≡ some (text query_vector))
      × (lookup "k" (search_params tenant query_vector k filters) ≡ some (number k))
unfolding search_params starts_with lookup
search_params-IsBound tenant query_vector k filters h = (
  bind_filters-All filters _ h,
  bind_filters-other "tenant_id" filters _ refl,
  bind_filters-other "query_vector" filters _ refl,
  bind_filters-other "k" filters _ refl,
)
