-- ===== src/Http/Assets/Headers.antt =====
-- The headers that src/http/assets.rs puts on pages, scripts and styles.
use aperip_nomos.Prelude.{
  ◌≡◌, refl, sym, ◌∙◌, false, ◌⊎◌, inl, inr, List, [], ◌∷◌, Option, none, some, if◌then◌else◌,
}
use aperip_nomos.Text.{Text, codes, text_eq}
use aperip_nomos.Text.Equality.{text_eq_iff}
use aperip_nomos.Http.{ok_200}
use aperip_nomos.Http.Web.{WebCrates, WebLaws, or_else}
use aperip_nomos.Http.Response.{Response}
use aperip_nomos.Http.Assets.{
  Files, Asset, public_home, public_detail, admin_home, stylesheet, public_script, detail_script,
  admin_script, favicon, html, static_asset, asset_of, asset_headers, asset_response, content_type,
  cache_control, content_security_policy, csp, html_content_type, html_cache_control,
  static_cache_control,
}

some_inj : (a b : Text) → some a ≡ some b → a ≡ b
some_inj a b h = cc

apart : (a b : Text) → text_eq a b ≡ false → ¬ (a ≡ b)
apart a b e h = cc (e, (text_eq_iff a b).1 h)

module _ (w : WebCrates) (laws : WebLaws w) where
  -- headers that were appended, the last one first, and the first value under a name
  abbrev appended : List (Text × Text) → w.HeaderMap
  appended [] = w.empty
  appended ((name, value) ∷ rest) = w.append name value (appended rest)

  abbrev first : Text → List (Text × Text) → Option Text
  first name [] = none
  first name ((other, value) ∷ rest) =
      if text_eq other name then or_else (first name rest) value else first name rest

  get-appended :
      (name : Text) (fields : List (Text × Text))
      → w.get_first name (appended fields) ≡ first name fields
  get-appended name [] = laws.get-empty name
  get-appended name ((other, value) ∷ rest) =
      rw (laws.get-append name other value (appended rest), get-appended name rest) refl

  abbrev Has : Text → Text → w.HeaderMap → Type 0
  Has name value headers = w.get_first name headers ≡ some value

  -- the headers of an answer: nothing from elsewhere is loaded, no page is framed, and only pages stay
  -- out of every cache
  pub record IsGuarded (r : Response w) : Type 0 where
    pub status : r.status ≡ ok_200
    pub policy : Has content_security_policy csp r.headers
    pub unsniffed : Has (codes "x-content-type-options") (codes "nosniff") r.headers
    pub unreferred : Has (codes "referrer-policy") (codes "no-referrer") r.headers
    pub unframed : Has (codes "x-frame-options") (codes "DENY") r.headers
    pub caching :
        (Has content_type html_content_type r.headers
          × Has cache_control html_cache_control r.headers)
        ⊎ ((¬ Has content_type html_content_type r.headers)
            × Has cache_control static_cache_control r.headers)

  module _ (kind caching : Text) where
    abbrev fields : List (Text × Text)
    fields =
        (codes "x-frame-options", codes "DENY")
        ∷ (codes "referrer-policy", codes "no-referrer")
        ∷ (codes "x-content-type-options", codes "nosniff")
        ∷ (content_security_policy, csp)
        ∷ (cache_control, caching)
        ∷ (content_type, kind)
        ∷ []

    its_kind : Has content_type kind (appended fields)
    unfolding text_eq
    its_kind = get-appended content_type fields

    its_caching : Has cache_control caching (appended fields)
    unfolding text_eq
    its_caching = get-appended cache_control fields

  guarded :
      (r : Response w) (kind caching : Text)
      → r.status ≡ ok_200
      → r.headers ≡ appended (fields kind caching)
      → ((kind ≡ html_content_type) × (caching ≡ html_cache_control))
        ⊎ ((¬ (kind ≡ html_content_type)) × (caching ≡ static_cache_control))
      → IsGuarded r
  unfolding text_eq
  guarded r kind caching good same either = record {
    status = good;
    policy = rw same (get-appended content_security_policy (fields kind caching));
    unsniffed = rw same (get-appended (codes "x-content-type-options") (fields kind caching));
    unreferred = rw same (get-appended (codes "referrer-policy") (fields kind caching));
    unframed = rw same (get-appended (codes "x-frame-options") (fields kind caching));
    caching = elim either [
      | inl (k, c) ↦
          inl (rw (same, ← k) (its_kind kind caching), rw (same, ← c) (its_caching kind caching))
      | inr (k, c) ↦ inr (
        λ h. k (some_inj kind html_content_type (sym (its_kind kind caching) ∙ (rw same at h))),
        rw (same, ← c) (its_caching kind caching),
      )
    ];
  }

  -- Every page, script and style that the program answers with has the status 200, the content security
  -- policy, and the headers against sniffing, referrers and frames. Pages say `no-store`; all else may
  -- be cached for an hour.
  pub asset_response-IsGuarded :
      (files : Files) (a : Asset) → IsGuarded (asset_response w (asset_of files a))
  unfolding asset_of asset_response asset_headers html static_asset text_eq
  asset_response-IsGuarded files public_home = guarded _ _ _ refl refl (inl (refl, refl))
  asset_response-IsGuarded files public_detail = guarded _ _ _ refl refl (inl (refl, refl))
  asset_response-IsGuarded files admin_home = guarded _ _ _ refl refl (inl (refl, refl))
  asset_response-IsGuarded files stylesheet = guarded _ _ _ refl refl (inr (apart _ _ refl, refl))
  asset_response-IsGuarded files public_script =
      guarded _ _ _ refl refl (inr (apart _ _ refl, refl))
  asset_response-IsGuarded files detail_script =
      guarded _ _ _ refl refl (inr (apart _ _ refl, refl))
  asset_response-IsGuarded files admin_script = guarded _ _ _ refl refl (inr (apart _ _ refl, refl))
  asset_response-IsGuarded files favicon = guarded _ _ _ refl refl (inr (apart _ _ refl, refl))
