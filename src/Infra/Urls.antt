-- ===== src/Infra/Urls.antt =====
-- internal/infrastructure/url/proxy_action_url_generator.go
pub mod Laws
use cargohold.Ports.{ActionUrlGenerator}
use cargohold.Prelude.{◌++◌, ◌∷◌}
use cargohold.Prelude.Text.{Text, codes, trim_suffix}

unfoldable pub generate_url : Text → Text → Text → Text → Text
unfolding trim_suffix
generate_url base_url owner repo oid =
    trim_suffix base_url b'/'
    ++ b'/' ∷ (owner ++ b'/' ∷ (repo ++ (codes "/info/lfs/objects/" ++ oid)))

-- NewProxyActionURLGenerator: the same URL for both directions
unfoldable pub proxy_action_url_generator : ActionUrlGenerator
unfolding generate_url
proxy_action_url_generator = record {
  generate_upload_url = generate_url;
  generate_download_url = generate_url;
}
