-- ===== src/Config/Save.antt =====
-- `nc_config_save` of src/config.c: the tree that it prints. cJSON makes a number's `valueint` out of
-- its double; both conversions are parameters here.
pub mod Reload
use tiniclaw.Base.{ℕ, Bool, List, [], ◌∷◌, Bytes, codes, map}
use tiniclaw.Base.Int.{ℤ}
use tiniclaw.Json.{Tree, Object, text, number, object}
use tiniclaw.Config.{Config, ProviderEntry}

unfoldable pub url_member : Bytes → Object
url_member [] = []
url_member (c ∷ url) = (codes "base_url", text (c ∷ url)) ∷ []

unfoldable pub entry_member : ProviderEntry → Bytes × Tree
unfolding object url_member
entry_member p = (p.name, object ((codes "api_key", text p.api_key) ∷ url_member p.base_url))

module _ (to_double : ℕ → ℕ) (valueint : ℕ → ℤ) where
  unfoldable pub add_number : ℕ → Tree
  add_number w = number w (valueint w)

  unfoldable pub config_tree : Config → Tree
  unfolding object entry_member add_number
  config_tree c = object (
      (codes "default_provider", text c.default_provider)
      ∷ (codes "default_model", text c.default_model)
      ∷ (codes "default_temperature", add_number c.default_temperature)
      ∷ (codes "models", object ((codes "providers", object (map entry_member c.providers)) ∷ []))
      ∷ (
        codes "gateway",
        object (
            (codes "host", text c.gateway.host)
            ∷ (codes "port", add_number (to_double c.gateway.port))
            ∷ []),
      )
      ∷ [])
