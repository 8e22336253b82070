-- ===== src/Infra/Urls/Laws.antt =====
-- Transfers of different objects go to different places.
use cargohold.Infra.Urls.{generate_url}
use cargohold.Prelude.{ap, drop, ◌++◌, ◌∷◌, ◌≡◌}
use cargohold.Prelude.Text.{Text, append_cancel, codes, trim_suffix}
use cargohold.Prelude.Text.Split.{Lacks, append_injective}

abbrev path_of : Text → Text → Text → Text
path_of owner repo oid = b'/' ∷ (owner ++ b'/' ∷ (repo ++ (codes "/info/lfs/objects/" ++ oid)))

-- With one base URL, and owners and names without a slash: the same URL is for the same repository
-- and object.
pub generate_url_injective :
    (base_url owner repo oid owner' repo' oid' : Text)
    → Lacks b'/' owner
    → Lacks b'/' repo
    → Lacks b'/' owner'
    → Lacks b'/' repo'
    → generate_url base_url owner repo oid ≡ generate_url base_url owner' repo' oid'
    → (owner ≡ owner') × (repo ≡ repo') × (oid ≡ oid')
unfolding generate_url
generate_url_injective base_url owner repo oid owner' repo' oid' a b a' b' h =
    let path =
      append_cancel (trim_suffix base_url b'/') (path_of owner repo oid) (path_of owner' repo' oid')
        h in
    let (same_owner, rest) = append_injective b'/' owner _ owner' _ a a' (ap (drop 1) path) in
    let (same_repo, object) = append_injective b'/' repo _ repo' _ b b' rest in
    (same_owner, same_repo, append_cancel (codes "info/lfs/objects/") oid oid' object)
