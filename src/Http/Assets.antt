-- ===== src/Http/Assets.antt =====
-- src/http/assets.rs: the pages, scripts and styles that are built into the program, and their headers.
-- The texts of the files are parameters.
pub mod Headers
use aperip_nomos.Text.{Text, codes}
use aperip_nomos.Text.Utf8.{as_bytes}
use aperip_nomos.Http.{ok_200}
use aperip_nomos.Http.Web.{WebCrates}
use aperip_nomos.Http.Response.{Response}

abbrev pub csp : Text
csp =
    codes
      "default-src 'self'; base-uri 'none'; connect-src 'self'; font-src 'self'; form-action 'self'; frame-ancestors 'none'; img-src 'self'; object-src 'none'; script-src 'self'; style-src 'self'"

abbrev pub html_content_type : Text
html_content_type = codes "text/html; charset=utf-8"

abbrev pub css_content_type : Text
css_content_type = codes "text/css; charset=utf-8"

abbrev pub javascript_content_type : Text
javascript_content_type = codes "text/javascript; charset=utf-8"

abbrev pub svg_content_type : Text
svg_content_type = codes "image/svg+xml"

abbrev pub html_cache_control : Text
html_cache_control = codes "no-store"

abbrev pub static_cache_control : Text
static_cache_control = codes "public, max-age=3600"

pub record EmbeddedAsset : Type 0 where
  pub body : Text
  pub content_type : Text
  pub cache_control : Text

-- `EmbeddedAsset::html`
unfoldable pub html : Text → EmbeddedAsset
html body = record {
  body = body;
  content_type = html_content_type;
  cache_control = html_cache_control;
}

-- `EmbeddedAsset::static_asset`
unfoldable pub static_asset : Text → Text → EmbeddedAsset
static_asset body content_type = record {
  body = body;
  content_type = content_type;
  cache_control = static_cache_control;
}

-- the files that `include_str!` puts into the program
pub record Files : Type 0 where
  pub public_html : Text
  pub detail_html : Text
  pub admin_html : Text
  pub app_css : Text
  pub public_js : Text
  pub detail_js : Text
  pub admin_js : Text
  pub favicon_svg : Text

-- the handlers that answer with one of them
pub data Asset : Type 0 where
  public_home public_detail admin_home stylesheet : Asset
  public_script detail_script admin_script favicon : Asset

unfoldable pub asset_of : Files → Asset → EmbeddedAsset
unfolding html static_asset
asset_of files public_home = html files.public_html
asset_of files public_detail = html files.detail_html
asset_of files admin_home = html files.admin_html
asset_of files stylesheet = static_asset files.app_css css_content_type
asset_of files public_script = static_asset files.public_js javascript_content_type
asset_of files detail_script = static_asset files.detail_js javascript_content_type
asset_of files admin_script = static_asset files.admin_js javascript_content_type
asset_of files favicon = static_asset files.favicon_svg svg_content_type

-- the names of the headers
abbrev pub content_type : Text
content_type = codes "content-type"

abbrev pub cache_control : Text
cache_control = codes "cache-control"

abbrev pub content_security_policy : Text
content_security_policy = codes "content-security-policy"

module _ (w : WebCrates) where
  -- `IntoResponse for EmbeddedAsset`
  unfoldable pub asset_headers : EmbeddedAsset → w.HeaderMap
  asset_headers asset = w.append (codes "x-frame-options") (codes "DENY") (
      w.append (codes "referrer-policy") (codes "no-referrer") (
        w.append (codes "x-content-type-options") (codes "nosniff") (
          w.append content_security_policy csp (
            w.append cache_control asset.cache_control
              (w.append content_type asset.content_type w.empty)))))

  unfoldable pub asset_response : EmbeddedAsset → Response w
  unfolding asset_headers
  asset_response asset = record {
    status = ok_200;
    headers = asset_headers asset;
    body = as_bytes asset.body;
  }
