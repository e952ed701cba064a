-- ===== src/Providers/Factory.antt =====
-- src/providers/factory.c: which provider a name makes, and where it sends its requests.
pub mod Routes
use tiniclaw.Base.{
  ℕ, Bool, true, false, Option, none, some, List, [], ◌∷◌, Bytes, codes, str_eq, starts_with,
  if◌then◌else◌,
}
use tiniclaw.Providers.{Request, Response, Cjson, Curl}
use tiniclaw.Providers.Openai.{OpenAiProvider, openai_chat}
use tiniclaw.Providers.Anthropic.{AnthropicProvider, anthropic_chat}
use tiniclaw.Providers.Ollama.{OllamaProvider, ollama_chat}

pub data ProviderKind : Type 0 where
  openai : ProviderKind
  anthropic : ProviderKind
  ollama : ProviderKind
  gemini : ProviderKind
  openrouter : ProviderKind
  groq : ProviderKind
  mistral : ProviderKind
  together : ProviderKind
  fireworks : ProviderKind
  perplexity : ProviderKind
  deepseek : ProviderKind
  xai : ProviderKind
  cohere : ProviderKind
  compatible : ProviderKind
  unknown : ProviderKind

-- The tests in their order: the first name that is equal decides.
abbrev pub kind_names : List (Bytes × ProviderKind)
kind_names =
    (codes "openai", openai)
    ∷ (codes "anthropic", anthropic)
    ∷ (codes "ollama", ollama)
    ∷ (codes "gemini", gemini)
    ∷ (codes "openrouter", openrouter)
    ∷ (codes "groq", groq)
    ∷ (codes "mistral", mistral)
    ∷ (codes "together", together)
    ∷ (codes "fireworks", fireworks)
    ∷ (codes "perplexity", perplexity)
    ∷ (codes "deepseek", deepseek)
    ∷ (codes "xai", xai)
    ∷ (codes "cohere", cohere)
    ∷ []

unfoldable pub kind_named : Bytes → List (Bytes × ProviderKind) → Option ProviderKind
kind_named name [] = none
kind_named name ((n, k) ∷ ks) =
    let rest = kind_named name ks in if str_eq name n then some k else rest

unfoldable pub kind_or_prefix : Bytes → Option ProviderKind → ProviderKind
kind_or_prefix name (some k) = k
kind_or_prefix name none = if starts_with (codes "custom:") name then compatible else unknown

unfoldable pub classify_provider : Option Bytes → ProviderKind
unfolding kind_or_prefix kind_named
classify_provider none = unknown
classify_provider (some name) = kind_or_prefix name (kind_named name kind_names)

unfoldable pub provider_base_url : ProviderKind → Option Bytes
provider_base_url openai = some (codes "https://api.openai.com/v1/chat/completions")
provider_base_url anthropic = some (codes "https://api.anthropic.com/v1/messages")
provider_base_url ollama = some (codes "http://localhost:11434")
provider_base_url gemini =
    some (codes "https://generativelanguage.googleapis.com/v1beta/openai/chat/completions")
provider_base_url openrouter = some (codes "https://openrouter.ai/api/v1/chat/completions")
provider_base_url groq = some (codes "https://api.groq.com/openai/v1/chat/completions")
provider_base_url mistral = some (codes "https://api.mistral.ai/v1/chat/completions")
provider_base_url together = some (codes "https://api.together.xyz/v1/chat/completions")
provider_base_url fireworks = some (codes "https://api.fireworks.ai/inference/v1/chat/completions")
provider_base_url perplexity = some (codes "https://api.perplexity.ai/chat/completions")
provider_base_url deepseek = some (codes "https://api.deepseek.com/v1/chat/completions")
provider_base_url xai = some (codes "https://api.x.ai/v1/chat/completions")
provider_base_url cohere = some (codes "https://api.cohere.ai/compatibility/v1/chat/completions")
provider_base_url compatible = none
provider_base_url unknown = none

-- A provider with its vtable.
pub data AnyProvider : Type 0 where
  openai_provider : OpenAiProvider → AnyProvider
  anthropic_provider : AnthropicProvider → AnyProvider
  ollama_provider : OllamaProvider → AnyProvider

unfoldable pub make_provider : ProviderKind → Option Bytes → Option Bytes → AnyProvider
make_provider anthropic key url = anthropic_provider (record { api_key = key; base_url = url })
make_provider ollama key url = ollama_provider (record { base_url = url })
make_provider openai key url = openai_provider (record { api_key = key; base_url = url })
make_provider gemini key url = openai_provider (record { api_key = key; base_url = url })
make_provider openrouter key url = openai_provider (record { api_key = key; base_url = url })
make_provider groq key url = openai_provider (record { api_key = key; base_url = url })
make_provider mistral key url = openai_provider (record { api_key = key; base_url = url })
make_provider together key url = openai_provider (record { api_key = key; base_url = url })
make_provider fireworks key url = openai_provider (record { api_key = key; base_url = url })
make_provider perplexity key url = openai_provider (record { api_key = key; base_url = url })
make_provider deepseek key url = openai_provider (record { api_key = key; base_url = url })
make_provider xai key url = openai_provider (record { api_key = key; base_url = url })
make_provider cohere key url = openai_provider (record { api_key = key; base_url = url })
make_provider compatible key url = openai_provider (record { api_key = key; base_url = url })
make_provider unknown key url = openai_provider (record { api_key = key; base_url = url })

unfoldable pub override_or : Option Bytes → Option Bytes → Option Bytes
override_or none url = url
override_or (some url) _ = some url

unfoldable pub provider_create : Option Bytes → Option Bytes → Option Bytes → AnyProvider
unfolding make_provider classify_provider override_or provider_base_url
provider_create name key url_override =
    let kind = classify_provider name in
    make_provider kind key (override_or url_override (provider_base_url kind))

module _ {W : Type 0} (cj : Cjson) (curl : Curl W) where
  -- `nc_provider_chat`
  unfoldable pub provider_chat : AnyProvider → Request → W → Bool × Response × W
  unfolding openai_chat anthropic_chat ollama_chat
  provider_chat (openai_provider p) r w = openai_chat cj curl p r w
  provider_chat (anthropic_provider p) r w = anthropic_chat cj curl p r w
  provider_chat (ollama_provider p) r w = ollama_chat cj curl p r w

unfoldable pub supports_tools : AnyProvider → Bool
supports_tools (openai_provider p) = true
supports_tools (anthropic_provider p) = true
supports_tools (ollama_provider p) = false
