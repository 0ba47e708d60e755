-- ===== src/Proxy/UrlTests.antt =====
-- URLs at concrete backends.
use anycode.Base.{◌≡◌, refl, none, ◌∷◌, ◌++◌, codes}
use anycode.Proxy.UpstreamUrl.{build_upstream_url, behind, build_upstream_url-version}

build_upstream_url-version_example :
    build_upstream_url
      (codes "https://api.openai.com" ++ b'/' ∷ codes "v1")
      none
      (b'/' ∷ (codes "v1" ++ codes "/chat"))
    ≡ codes "https://api.openai.com" ++ b'/' ∷ (codes "v1" ++ behind (codes "v1") (codes "/chat"))
build_upstream_url-version_example =
    build_upstream_url-version (codes "https://api.openai.com") (codes "v1") (codes "/chat") refl
