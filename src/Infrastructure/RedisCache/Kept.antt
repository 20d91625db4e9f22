-- ===== src/Infrastructure/RedisCache/Kept.antt =====
-- What the cache gives back.
use multi_cloud_ai_orchestra.Base.{
  ◌≡◌, ◌≢◌, refl, sym, ap, ◌∙◌, ℕ, String, Bool, true, false, Option, none, some, Json,
}
use multi_cloud_ai_orchestra.Infrastructure.RedisCache.{
  CacheClient, loaded, parsed, cached, serialized, set_cached, exists_cached,
}

-- What Redis documents: a key that was set has its value until it expires, a key that was deleted has
-- none, the other keys are as before, and a key exists when it has a value.
pub record IsCacheServer {S : Type 0} (client : CacheClient S) : Type 0 where
  pub set_key :
      (key value : String) (ttl : ℕ) (s : S)
      → client.get key (client.setex key ttl value s) ≡ some value
  pub set_other :
      (key other value : String) (ttl : ℕ) (s : S)
      → other ≢ key
      → client.get other (client.setex key ttl value s) ≡ client.get other s
  pub deleted : (key : String) (s : S) → client.get key (client.delete key s) ≡ none
  pub present :
      (key value : String) (s : S) → client.get key s ≡ some value → client.exists key s ≡ true
  pub absent : (key : String) (s : S) → client.get key s ≡ none → client.exists key s ≡ false

abbrev pub is_text : Json → Bool
is_text (Json.str value) = true
is_text Json.null = false
is_text (Json.flag b) = false
is_text (Json.num n) = false
is_text (Json.arr items) = false
is_text (Json.obj entries) = false

module _ {S : Type 0} (client : CacheClient S) (server : IsCacheServer client)
    (dumps : Json → String) (loads : String → Option Json) where
  serialized-dumps :
      (value : Json) → is_text value ≡ false → serialized client dumps loads value ≡ dumps value
  unfolding serialized
  serialized-dumps Json.null h = refl
  serialized-dumps (Json.flag b) h = refl
  serialized-dumps (Json.num n) h = refl
  serialized-dumps (Json.arr items) h = refl
  serialized-dumps (Json.obj entries) h = refl
  serialized-dumps (Json.str value) h = absurd cc

  cached-set :
      (key : String) (value : Json) (ttl : ℕ) (s : S)
      → cached client dumps loads key (set_cached client dumps loads key value ttl s)
        ≡ parsed client dumps loads (some (serialized client dumps loads value))
  unfolding cached set_cached
  cached-set key value ttl s =
      ap (parsed client dumps loads)
        (server.set_key key (serialized client dumps loads value) ttl s)

  -- Until it expires, a value other than a text comes back as it was put into the cache, if
  -- json.loads reads what json.dumps writes of it; so does a text that is no JSON. But a text that
  -- json.loads reads as a value other than this text, as it reads `5`, comes back as that value. In
  -- each case the key exists, and what is under another key comes back as before.
  pub cached-set_cached :
      (key other : String) (value read : Json) (plain json_text : String) (ttl : ℕ) (s : S)
      → is_text value ≡ false
      → loads (dumps value) ≡ some value
      → loads plain ≡ none
      → loads json_text ≡ some read
      → read ≢ Json.str json_text
      → other ≢ key
      → let set = λ (v : Json). set_cached client dumps loads key v ttl s in
        (cached client dumps loads key (set value) ≡ some value)
        × (cached client dumps loads key (set (Json.str plain)) ≡ some (Json.str plain))
        × (cached client dumps loads key (set (Json.str json_text)) ≡ some read)
        × (cached client dumps loads key (set (Json.str json_text)) ≢ some (Json.str json_text))
        × ((v : Json)
            → (exists_cached client dumps loads key (set v) ≡ true)
              × (cached client dumps loads other (set v) ≡ cached client dumps loads other s))
  unfolding cached set_cached parsed loaded exists_cached serialized
  cached-set_cached key other value read plain json_text ttl s h reads no_json is_json differs
        apart =
      let back = cached-set key (Json.str json_text) ttl s ∙ rw is_json refl in
      (
        cached-set key value ttl s ∙ rw (serialized-dumps value h, reads) refl,
        cached-set key (Json.str plain) ttl s ∙ rw no_json refl,
        back,
        λ e. differs (ap (λ o. elim o [ none ↦ read | some v ↦ v ]) (sym back ∙ e)),
        λ v. (
          server.present key (serialized client dumps loads v) _
              (server.set_key key (serialized client dumps loads v) ttl s),
          ap (parsed client dumps loads)
              (server.set_other key other (serialized client dumps loads v) ttl s apart),
        ),
      )
