-- ===== src/Providers/Factory/Routes.antt =====
-- Where the provider of a name sends its requests, and with which key.
use tiniclaw.Base.{
  ◌≡◌, refl, ◌⊎◌, inl, inr, true, Option, none, some, List, [], ◌∷◌, ◌++◌, Bytes, codes, str_eq,
  starts_with,
}
use tiniclaw.Json.{or_else}
use tiniclaw.Providers.{Request, Cjson, Reply, Curl, http_post_json, auth_headers}
use tiniclaw.Providers.Openai.{openai_chat}
use tiniclaw.Providers.Anthropic.{anthropic_chat, url_or}
use tiniclaw.Providers.Ollama.{ollama_chat}
use tiniclaw.Providers.Factory.{
  ProviderKind, openai, anthropic, ollama, gemini, openrouter, groq, mistral, together, fireworks,
  perplexity, deepseek, xai, cohere, compatible, unknown, kind_named, kind_or_prefix,
  classify_provider, provider_base_url, openai_provider, make_provider, override_or,
  provider_create, provider_chat,
}

-- The URL and the headers of each request that was made.
abbrev pub Log : Type 0
Log = List (Bytes × List Bytes)

-- libcurl, writing down the requests; the reply depends on the body and on the state outside.
unfoldable pub logging : {V : Type 0} → (Bytes → V → Option Reply × V) → Curl (Log × V)
logging reply url headers body (log, v) =
    let (answer, v') = reply body v in (answer, ((url, headers) ∷ log, v'))

-- A request over TLS, or one with no key.
abbrev pub IsGuarded : Bytes × List Bytes → Type 0
IsGuarded (url, headers) =
    (starts_with (codes "https://") url ≡ true)
    ⊎ (headers ≡ codes "Content-Type: application/json" ∷ [])

-- One guarded request more.
abbrev pub GuardedLog : Log → Log → Type 0
GuardedLog log log' = (q : Bytes × List Bytes) × (log' ≡ q ∷ log) × IsGuarded q

module _ {V : Type 0} (cj : Cjson) (reply : Bytes → V → Option Reply × V) (r : Request) where
  guarded :
      (kind : ProviderKind) (key : Option Bytes) (log : Log) (v : V)
      → GuardedLog log
          (provider_chat cj
            (logging reply)
            (make_provider kind key (override_or none (provider_base_url kind)))
            r
            (log, v)).2.0
  unfolding provider_chat make_provider override_or provider_base_url openai_chat anthropic_chat
      ollama_chat http_post_json auth_headers or_else url_or logging starts_with
  guarded openai key log v = (_, refl, inl refl)
  guarded anthropic key log v = (_, refl, inl refl)
  guarded ollama key log v = (_, refl, inr refl)
  guarded gemini key log v = (_, refl, inl refl)
  guarded openrouter key log v = (_, refl, inl refl)
  guarded groq key log v = (_, refl, inl refl)
  guarded mistral key log v = (_, refl, inl refl)
  guarded together key log v = (_, refl, inl refl)
  guarded fireworks key log v = (_, refl, inl refl)
  guarded perplexity key log v = (_, refl, inl refl)
  guarded deepseek key log v = (_, refl, inl refl)
  guarded xai key log v = (_, refl, inl refl)
  guarded cohere key log v = (_, refl, inl refl)
  guarded compatible key log v = (_, refl, inl refl)
  guarded unknown key log v = (_, refl, inl refl)

  -- Without an override of the URL, a chat makes one request more, whatever the provider's name and
  -- whatever the reply: over TLS, or else with no key in its headers.
  pub provider_chat-guarded :
      (name key : Option Bytes) (log : Log) (v : V)
      → GuardedLog log
          (provider_chat cj (logging reply) (provider_create name key none) r (log, v)).2.0
  unfolding provider_create
  provider_chat-guarded name key log v = guarded (classify_provider name) key log v

  -- A name that is not known, and a custom provider whatever stands behind `custom:`, sends the key
  -- to OpenAI.
  pub custom_asks_openai :
      (target key : Bytes)
      → provider_create (some (codes "custom:" ++ target)) (some key) none
        ≡ openai_provider (record { api_key = some key; base_url = none })
  unfolding provider_create classify_provider kind_or_prefix kind_named str_eq starts_with
      make_provider override_or provider_base_url
  custom_asks_openai target key = refl
